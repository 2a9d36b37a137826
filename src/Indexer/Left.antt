-- ===== src/Indexer/Left.antt =====
-- One round of the indexer, by what it leaves to hash.
use photo_swipe.Prelude.{
  ℕ, suc, ◌+◌, ◌≡◌, refl, sym, ap, ◌∙◌, String, Bool, true, false, some, [], ◌∷◌, arith, str_eq,
  if◌then◌else◌, Bool-cases, Option-cases, inl, inr, subst,
}
use photo_swipe.Prelude.Int.{eq_ℤ}
use photo_swipe.Prelude.Map.{Map, lookup, insert, lookup-insert_self}
use photo_swipe.Store.Photo.{Photo, Time, is_trashed, is_zero}
use photo_swipe.Store.State.{Store, Env, RootState, Result, ok, err, state-commit}
use photo_swipe.Store.Photos.{
  needs_hash, update_photo, hashed_as, set_capture_time, set_hash, mark_hash_failed,
}
use photo_swipe.Store.Photos.Hashing.{waiting, needs_hash-hashed_as}
use photo_swipe.Store.Steps.Keyed.{IsKeyed, insert-IsKeyed}
use photo_swipe.Img.Orient.{apply_orientation}
use photo_swipe.Dhash.{compute}
use photo_swipe.Indexer.{Tools, exif_of, capture, hash_one, settled}

-- What a photo counts for among those that wait.
unfoldable pub weight : Photo → ℕ
weight p = if is_trashed p.state then 0 else if needs_hash p then 1 else 0

pub waiting-balance :
    (k : String) (p q : Photo) (photos : Map Photo)
    → lookup k photos ≡ some p
    → waiting (insert k q photos) + weight p ≡ waiting photos + weight q
unfolding waiting insert lookup weight
waiting-balance k p q [] here = absurd (ground arith)
waiting-balance k p q ((j, r) ∷ photos) here = elim (Bool-cases (str_eq j k)) [
  | inl e ↦
      let own : r ≡ p = ground (arith, here, e) in rw (e, insert) (ground (arith, ap weight own))
  | inr e ↦ rw (e, insert) (ground (arith, waiting-balance k p q photos))
]

-- The photo under `id` counts for `one`, and `n` is left to hash, itself included.
pub record Left (id : String) (one n : ℕ) (s : Store) : Type 0 where
  pub photo : Photo
  pub here : lookup id s.state.photos ≡ some photo
  pub counts : weight photo ≡ one
  pub total : waiting s.state.photos ≡ n
  pub keyed : IsKeyed s.state.photos

-- A write to the photo that leaves its id alone.
Left-update :
    (id : String) (one n next left : ℕ) (f : Photo → Photo) (s s' : Store)
    → s'.state ≡ (update_photo id f s.state).1
    → ((p : Photo) → (f p).id ≡ p.id)
    → ((p : Photo) → weight p ≡ one → weight (f p) ≡ next)
    → left + one ≡ n + next
    → Left id one n s
    → Left id next left s'
unfolding update_photo
Left-update id one n next left f s s' e same w sum l =
    let photos : s'.state.photos ≡ insert id (f l.photo) s.state.photos =
      ap (λ (st : RootState). st.photos) e ∙ rw (l.here, update_photo) refl in
    record {
      photo = f l.photo;
      here = ap (lookup id) photos ∙ lookup-insert_self id (f l.photo) s.state.photos;
      counts = w l.photo l.counts;
      total =
          ap waiting photos
          ∙ omega (
            arith,
            waiting-balance id l.photo (f l.photo) s.state.photos l.here,
            l.counts,
            l.total,
            w l.photo l.counts,
            sum,
          );
      keyed = subst IsKeyed (sym photos) (
          insert-IsKeyed id (f l.photo) s.state.photos (same l.photo ∙ l.keyed.1 id l.photo l.here)
            l.keyed);
    }

weight-timed : (t : Time) (p : Photo) → weight (record p { time = t }) ≡ weight p
unfolding weight needs_hash
weight-timed t p = refl

pub weight-hashed_as :
    (now : Time) (h v : ℕ) (p : Photo) → is_zero now ≡ false → weight (hashed_as now h v p) ≡ 0
unfolding weight
weight-hashed_as now h v p started = ground (arith, needs_hash-hashed_as now h v p started)

hashed_as-id : (now : Time) (h v : ℕ) (p : Photo) → (hashed_as now h v p).id ≡ p.id
unfolding hashed_as
hashed_as-id now h v p = refl

Left-set_capture_time :
    (env : Env) (id : String) (one n : ℕ) (t : Time) (s : Store)
    → Left id one n s
    → Left id one n (set_capture_time env id t s).1
unfolding set_capture_time
Left-set_capture_time env id one n t s l = elim (Bool-cases (is_zero t)) [
  | inl e ↦ rw (e, set_capture_time) l
  | inr e ↦ elim (Bool-cases (eq_ℤ l.photo.time t)) [
    | inl f ↦ rw (e, l.here, f, set_capture_time) l
    | inr f ↦
        rw (e, l.here, f, set_capture_time)
          (Left-update id one n one n (λ p. record p { time = t }) s _ (state-commit env s _)
            (λ p. refl) (λ p w. weight-timed t p ∙ w) refl l)
  ]
]

Left-if :
    (id : String) (one n : ℕ) (b : Bool) (s s' : Store)
    → Left id one n s
    → Left id one n s'
    → Left id one n (if b then s else s')
Left-if id one n true s s' l l' = l
Left-if id one n false s s' l l' = l'

pub Left-capture :
    (tools : Tools) (id : String) (one n : ℕ) (t : Time) (s : Store)
    → Left id one n s
    → Left id one n (capture tools id t s)
unfolding capture
Left-capture tools id one n t s l =
    Left-if id one n (is_zero t) s _ l (Left-set_capture_time tools.env id one n t s l)

-- SetHash and MarkHashFailed both leave one fewer, or as many where the photo had its hash.
Left-set_hash :
    (env : Env) (id : String) (one n m : ℕ) (h v : ℕ) (s : Store)
    → is_zero env.now ≡ false
    → m ≡ n + one
    → Left id one m s
    → Left id 0 n (set_hash env id h v s).1
unfolding set_hash
Left-set_hash env id one n m h v s started sum l =
    Left-update id one m 0 n (hashed_as env.now h v) s _ (state-commit env s _)
      (hashed_as-id env.now h v) (λ p _. weight-hashed_as env.now h v p started)
      (omega (arith, sum)) l

Left-mark_hash_failed :
    (env : Env) (id : String) (one n m : ℕ) (s : Store)
    → is_zero env.now ≡ false
    → m ≡ n + one
    → Left id one m s
    → Left id 0 n (mark_hash_failed env id s).1
unfolding mark_hash_failed
Left-mark_hash_failed env id one n m s started sum l =
    Left-update id one m 0 n (hashed_as env.now 0 0) s _ (state-commit env s _)
      (hashed_as-id env.now 0 0) (λ p _. weight-hashed_as env.now 0 0 p started)
      (omega (arith, sum)) l

-- A round that marks a photo in the end leaves it hashed too.
Left-settled :
    (tools : Tools) (id : String) (n : ℕ) (r : Result (Unit {0}) × Store)
    → is_zero tools.env.now ≡ false
    → Left id 0 n r.1
    → Left id 0 n (settled tools id r)
Left-settled tools id n (ok _, s) started l = l
Left-settled tools id n (err _, s) started l =
    Left-mark_hash_failed tools.env id 0 n n s started (omega arith) l

pub Left-round :
    (tools : Tools) (p : Photo) (n : ℕ) (s : Store)
    → is_zero tools.env.now ≡ false
    → Left p.id 1 (suc n) s
    → Left p.id 0 n (settled tools p.id (hash_one tools p s))
unfolding hash_one
Left-round tools p n s started l =
    let path = tools.path_of p.path in
    let exif = exif_of tools path in
    let s' = capture tools p.id exif.date_time_original s in
    let l' = Left-capture tools p.id 1 (suc n) exif.date_time_original s l in
    elim (Option-cases (tools.decode path)) [
      | inl e ↦
          rw (e, hash_one)
            (Left-mark_hash_failed tools.env p.id 1 n (suc n) s' started (omega arith) l')
      | inr (im, e) ↦
          let hash = compute (tools.draw (apply_orientation tools.rgba 0 im exif.orientation)) in
          rw (e, hash_one)
            (Left-settled tools p.id n (set_hash tools.env p.id hash.h hash.v s') started
              (Left-set_hash tools.env p.id 1 n (suc n) hash.h hash.v s' started (omega arith) l'))
    ]
