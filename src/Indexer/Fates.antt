-- ===== src/Indexer/Fates.antt =====
-- What the rounds of the indexer do to the fingerprint of each photo.
use photo_swipe.Prelude.{
  ℕ, ◌≡◌, ◌≢◌, ◌⊎◌, refl, sym, ap, ◌∙◌, String, false, Option, none, some, List, arith, str_eq,
  Bool-cases, Option-cases, inl, inr,
}
use photo_swipe.Prelude.Int.{eq_ℤ}
use photo_swipe.Prelude.Map.{lookup, insert, lookup-insert, lookup-insert_self}
use photo_swipe.Prelude.Sorted.{In}
use photo_swipe.Store.Photo.{Photo, Time, is_zero}
use photo_swipe.Store.State.{
  Store, Env, RootState, Result, Error, ok, err, unreadable, save_locked, commit, save_and_return,
  state-commit,
}
use photo_swipe.Store.Photos.{update_photo, hashed_as, set_capture_time, set_hash, mark_hash_failed}
use photo_swipe.Img.Orient.{Image, apply_orientation}
use photo_swipe.Dhash.{compute}
use photo_swipe.Indexer.{Tools, exif_of, capture, hash_one, settled}
use photo_swipe.Indexer.Left.{weight}

-- The fingerprint in `p'` is that of the picture which the file of `p` decodes to, or else zero,
-- where the file does not decode or a save fails.
abbrev pub Fingerprint : Tools → Photo → Photo → Type 0
Fingerprint tools p p' =
    let path = tools.path_of p.path in
    let hash = λ (im : Image ℕ).
      compute (tools.draw (apply_orientation tools.rgba 0 im (exif_of tools path).orientation)) in
    ((im : Image ℕ) × (tools.decode path ≡ some im)
      × (p'.dhash ≡ (hash im).h)
      × (p'.dhash_v ≡ (hash im).v))
    ⊎ ((p'.dhash ≡ 0)
        × (p'.dhash_v ≡ 0)
        × ((tools.decode path ≡ none) ⊎ ((s : Store) × ((save_locked tools.env s).0 ≢ ok tt))))

-- What becomes of a photo in these rounds: one that waited for a hash has a fingerprint from one of
-- them, and any other has the one that it had; none is lost or made.
abbrev pub Fate : List Tools → Option Photo → Option Photo → Type 0
Fate rounds none none = Unit
Fate rounds (some p) (some p') =
    ((weight p ≡ 1) × (tools : Tools) × In tools rounds × Fingerprint tools p p')
    ⊎ ((weight p ≡ 0) × (p'.dhash ≡ p.dhash) × (p'.dhash_v ≡ p.dhash_v))
Fate rounds _ _ = ⊥

lookup-update_other :
    (id k : String) (f : Photo → Photo) (st : RootState)
    → str_eq id k ≡ false
    → lookup k (update_photo id f st).1.photos ≡ lookup k st.photos
unfolding update_photo
lookup-update_other id k f st e = elim (Option-cases (lookup id st.photos)) [
  | inl h ↦ rw (h, update_photo) refl
  | inr (p, h) ↦ rw (h, update_photo) (lookup-insert id k (f p) st.photos ∙ rw e refl)
]

lookup-update_own :
    (id : String) (f : Photo → Photo) (st : RootState) (p : Photo)
    → lookup id st.photos ≡ some p
    → lookup id (update_photo id f st).1.photos ≡ some (f p)
unfolding update_photo
lookup-update_own id f st p h = rw (h, update_photo) (lookup-insert_self id (f p) st.photos)

committed :
    (env : Env) (id k : String) (f : Photo → Photo) (s : Store)
    → lookup k (commit env s (update_photo id f s.state)).1.state.photos
      ≡ lookup k (update_photo id f s.state).1.photos
committed env id k f s =
    ap (λ (st : RootState). lookup k st.photos) (state-commit env s (update_photo id f s.state))

-- Two stores with the same photo under `k`.
abbrev Alike : String → Store → Store → Type 0
Alike k s s' = lookup k s'.state.photos ≡ lookup k s.state.photos

Alike-update :
    (env : Env) (id k : String) (f : Photo → Photo) (s : Store)
    → str_eq id k ≡ false
    → Alike k s (commit env s (update_photo id f s.state)).1
Alike-update env id k f s e = committed env id k f s ∙ lookup-update_other id k f s.state e

Alike-capture :
    (tools : Tools) (id k : String) (t : Time) (s : Store)
    → str_eq id k ≡ false
    → Alike k s (capture tools id t s)
unfolding capture set_capture_time
Alike-capture tools id k t s e = elim (Bool-cases (is_zero t)) [
  | inl z ↦ rw (z, capture) refl
  | inr z ↦ elim (Option-cases (lookup id s.state.photos)) [
    | inl h ↦ rw (z, h, capture, set_capture_time) refl
    | inr (p, h) ↦ elim (Bool-cases (eq_ℤ p.time t)) [
      | inl g ↦ rw (z, h, g, capture, set_capture_time) refl
      | inr g ↦ rw (z, h, g, capture, set_capture_time) (Alike-update tools.env id k _ s e)
    ]
  ]
]

Alike-settled :
    (tools : Tools) (id k : String) (s : Store) (r : Result (Unit {0}) × Store)
    → str_eq id k ≡ false
    → Alike k s r.1
    → Alike k s (settled tools id r)
unfolding mark_hash_failed
Alike-settled tools id k s (ok _, s') e a = a
Alike-settled tools id k s (err _, s') e a = Alike-update tools.env id k _ s' e ∙ a

-- A round leaves every photo but its own as it is.
pub Alike-round :
    (tools : Tools) (p : Photo) (k : String) (s : Store)
    → str_eq p.id k ≡ false
    → lookup k (settled tools p.id (hash_one tools p s)).state.photos ≡ lookup k s.state.photos
unfolding hash_one set_hash
Alike-round tools p k s e =
    let path = tools.path_of p.path in
    let exif = exif_of tools path in
    let s' = capture tools p.id exif.date_time_original s in
    let before = Alike-capture tools p.id k exif.date_time_original s e in
    elim (Option-cases (tools.decode path)) [
      | inl h ↦ rw (h, hash_one) (Alike-settled tools p.id k s (err unreadable, s') e before)
      | inr (im, h) ↦
          let hash = compute (tools.draw (apply_orientation tools.rgba 0 im exif.orientation)) in
          rw (h, hash_one)
            (Alike-settled tools p.id k s (set_hash tools.env p.id hash.h hash.v s') e
              (Alike-update tools.env p.id k (hashed_as tools.env.now hash.h hash.v) s' e ∙ before))
    ]

marked :
    (tools : Tools) (id : String) (s : Store) (q : Photo)
    → lookup id s.state.photos ≡ some q
    → lookup id (mark_hash_failed tools.env id s).1.state.photos
      ≡ some (hashed_as tools.env.now 0 0 q)
unfolding mark_hash_failed
marked tools id s q h = committed tools.env id id _ s ∙ lookup-update_own id _ s.state q h

hashed :
    (tools : Tools) (id : String) (h v : ℕ) (s : Store) (q : Photo)
    → lookup id s.state.photos ≡ some q
    → lookup id (set_hash tools.env id h v s).1.state.photos ≡ some (hashed_as tools.env.now h v q)
unfolding set_hash
hashed tools id h v s q e = committed tools.env id id _ s ∙ lookup-update_own id _ s.state q e

-- On a photo that is there SetHash fails only where the save does.
unsaved :
    (env : Env) (id : String) (h v : ℕ) (s s' : Store) (q : Photo) (e : Error)
    → lookup id s.state.photos ≡ some q
    → set_hash env id h v s ≡ (err e, s')
    → (t : Store) × ((save_locked env t).0 ≢ ok tt)
unfolding set_hash update_photo commit save_and_return
unsaved env id h v s s' q e here fails =
    let t = record s {
      state = record s.state { photos = insert id (hashed_as env.now h v q) s.state.photos };
    } in
    (t, λ saved. ground (arith, fails, here, saved))

-- What a round leaves of its photo.
pub Fingerprint-round :
    (tools : Tools) (p q : Photo) (s : Store)
    → lookup p.id
        (capture tools p.id
          (exif_of tools (tools.path_of p.path)).date_time_original
          s).state.photos
      ≡ some q
    → (p' : Photo) × (lookup p.id (settled tools p.id (hash_one tools p s)).state.photos ≡ some p')
      × Fingerprint tools p p'
unfolding hash_one hashed_as
Fingerprint-round tools p q s here =
    let path = tools.path_of p.path in
    let exif = exif_of tools path in
    let s' = capture tools p.id exif.date_time_original s in
    elim (Option-cases (tools.decode path)) [
      | inl h ↦ (
        hashed_as tools.env.now 0 0 q,
        rw (h, hash_one) (marked tools p.id s' q here),
        inr (refl, refl, inl h),
      )
      | inr (im, h) ↦
          let hash = compute (tools.draw (apply_orientation tools.rgba 0 im exif.orientation)) in
          let (p', at, fate) =
            after im h hash.h hash.v refl refl (set_hash tools.env p.id hash.h hash.v s') refl in
          (p', rw (h, hash_one) at, fate)
    ]
  where
    after :
        (im : Image ℕ)
        → tools.decode (tools.path_of p.path) ≡ some im
        → let exif = exif_of tools (tools.path_of p.path) in
          let hash = compute (tools.draw (apply_orientation tools.rgba 0 im exif.orientation)) in
          let s' = capture tools p.id exif.date_time_original s in
          (h v : ℕ)
          → h ≡ hash.h
          → v ≡ hash.v
          → (r : Result (Unit {0}) × Store) → set_hash tools.env p.id h v s' ≡ r
          → (p' : Photo) × (lookup p.id (settled tools p.id r).state.photos ≡ some p')
            × Fingerprint tools p p'
    after im d h v eh ev (ok _, t) e = (
      hashed_as tools.env.now h v q,
      ap (λ (x : Result (Unit {0}) × Store). lookup p.id x.1.state.photos) (sym e)
          ∙ hashed tools p.id h v _ q here,
      inl (im, d, eh, ev),
    )
    after im d h v eh ev (err x, t) e = (
      hashed_as tools.env.now 0 0 (hashed_as tools.env.now h v q),
      marked tools p.id t (hashed_as tools.env.now h v q) (
          ap (λ (x : Result (Unit {0}) × Store). lookup p.id x.1.state.photos) (sym e)
          ∙ hashed tools p.id h v _ q here),
      inr (refl, refl, inr (unsaved tools.env p.id h v _ t q x here e)),
    )
