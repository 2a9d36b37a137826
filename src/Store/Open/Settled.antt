-- ===== src/Store/Open/Settled.antt =====
-- What Open leaves in memory.
use photo_swipe.Prelude.{
  ◌≡◌, refl, sym, String, true, false, Option, none, some, [], ◌∷◌, arith, Bool-cases, Option-cases,
  inl, inr, if◌then◌else◌, subst,
}
use photo_swipe.Prelude.Map.{Map, lookup}
use photo_swipe.Store.Photo.{Photo, is_unsure}
use photo_swipe.Store.Session.{
  Settings, CompositionMix, mixed, default_settings, valid, is_zero_float,
}
use photo_swipe.Store.State.{
  RootState, Store, Env, Result, ok, err, empty_state, save_locked, state-save_locked,
  save_and_return,
}
use photo_swipe.Store.Open.{
  settled, decided_again, normalize_photos, normalize, load, is_stale, open_store,
}

-- No photo is unsure, and the mix for new sessions is one that StartSession takes.
abbrev pub IsSettled : RootState → Type 0
IsSettled st =
    ((k : String) (p : Photo) → lookup k st.photos ≡ some p → is_unsure p.state ≡ false)
    × (valid st.settings.default_mix ≡ true)

decided_again_lem : (p : Photo) → is_unsure (decided_again p).state ≡ false
unfolding decided_again
decided_again_lem p = ground arith

lookup-normalize_photos :
    (k : String) (p : Photo) (photos : Map Photo)
    → lookup k (normalize_photos photos) ≡ some p
    → is_unsure p.state ≡ false
unfolding lookup normalize_photos
lookup-normalize_photos k p [] h = absurd (ground arith)
lookup-normalize_photos k p ((j, q) ∷ photos) h =
    ground (arith, lookup-normalize_photos k p photos, decided_again_lem q)

valid_or_mixed : (m : CompositionMix) → valid (if valid m then m else mixed) ≡ true
unfolding valid
valid_or_mixed m = elim (Bool-cases (valid m)) [
  | inl e ↦ rw (e, valid) e
  | inr e ↦ rw (e, valid) refl
]

valid-settled : (s : Settings) → valid (settled s).default_mix ≡ true
unfolding settled
valid-settled s =
    valid_or_mixed (if is_zero_float s.base_rate then default_settings else s).default_mix

normalize-IsSettled : (st : RootState) → IsSettled (normalize st)
unfolding normalize
normalize-IsSettled st = (λ k p. lookup-normalize_photos k p st.photos, valid-settled st.settings)

empty_state-IsSettled : IsSettled empty_state
unfolding lookup valid
empty_state-IsSettled = (λ k p h. absurd (ground arith), refl)

load-IsSettled : (env : Env) (s : Store) → IsSettled s.state → IsSettled (load env s).1.state
unfolding load
load-IsSettled env s w = elim (Option-cases s.disk) [
  | inl e ↦ rw (e, load) (subst IsSettled (sym (state-save_locked env s)) w)
  | inr (bytes, e) ↦ elim (Bool-cases env.read_ok) [
    | inr f ↦ rw (e, f, load) w
    | inl f ↦ elim (Option-cases (env.unmarshal bytes)) [
      | inl g ↦ rw (e, f, g, load) w
      | inr (st, g) ↦ rw (e, f, g, load) (normalize-IsSettled st)
    ]
  ]
]

-- What Open does once it has dropped a stale session, and with what load returns.
abbrev saved : Env → Store → Result Store × Option String
saved env s =
    let (r, s') = save_and_return env s s in
    elim r [ err e ↦ (err e, s'.disk) | ok _ ↦ (ok s', s'.disk) ]

abbrev opened : Env → Result (Unit {0}) × Store → Result Store × Option String
opened env rs =
    let (r, s) = rs in
    elim r [
      | err e ↦ (err e, s.disk)
      | ok _ ↦
          if is_stale env s.state.session
          then (let s' = record s { state = record s.state { session = none } } in
              let (r', s'') = save_and_return env s' s' in
              elim r' [ err e ↦ (err e, s''.disk) | ok _ ↦ (ok s'', s''.disk) ])
          else (ok s, s.disk)
    ]

state-saved :
    (env : Env) (dropped s : Store) → (saved env dropped).0 ≡ ok s → s.state ≡ dropped.state
unfolding save_and_return save_locked
state-saved env dropped s h = ground arith

opened-IsSettled :
    (env : Env) (r : Result (Unit {0}) × Store) (s : Store)
    → IsSettled r.1.state
    → (opened env r).0 ≡ ok s
    → IsSettled s.state × (is_stale env s.state.session ≡ false)
opened-IsSettled env (err e, loaded) s w h = absurd (ground arith)
opened-IsSettled env (ok _, loaded) s w h = elim (Bool-cases (is_stale env loaded.state.session)) [
  | inl e ↦
      let dropped : Store = record loaded { state = record loaded.state { session = none } } in
      subst (λ st. IsSettled st × (is_stale env st.session ≡ false))
        (sym (state-saved env dropped s (ground arith))) (w, refl)
  | inr e ↦
      subst (λ st. IsSettled st × (is_stale env st.session ≡ false)) (same loaded s (ground arith))
        (w, e)
]
  where
    same : (loaded s : Store) → ok loaded ≡ ok s → loaded.state ≡ s.state
    same loaded s h = ground arith

-- Whatever the state file holds, if Open succeeds no photo of the store is unsure, the mix for new
-- sessions is valid, and there is no session older than a day.
pub open_store-IsSettled :
    (env : Env) (disk : Option String) (s : Store)
    → (open_store env disk).0 ≡ ok s
    → IsSettled s.state × (is_stale env s.state.session ≡ false)
unfolding open_store
open_store-IsSettled env disk s h =
    let start : Store = record { state = empty_state; disk = disk } in
    opened-IsSettled env (load env start) s (load-IsSettled env start empty_state-IsSettled) h
