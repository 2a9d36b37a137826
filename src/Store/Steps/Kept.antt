-- ===== src/Store/Steps/Kept.antt =====
-- The operations on the pool and on sessions keep the photos under their ids, and a short
-- RecentlySkipped.
use photo_swipe.Prelude.{
  ◌≡◌, refl, sym, ◌∙◌, String, List, arith, Option-cases, inl, inr, subst, Bool-cases,
  if◌then◌else◌, ltb,
}
use photo_swipe.Prelude.Int.{ℤ, pos, ltb_ℤ, eq_ℤ}
use photo_swipe.Prelude.Map.{lookup}
use photo_swipe.Store.Photo.{Photo, Time, is_zero}
use photo_swipe.Store.Session.{CompositionMix, mixed, valid}
use photo_swipe.Store.State.{
  RootState, Store, Env, Result, commit, state-commit, save_locked, state-save_locked,
  save_and_return,
}
use photo_swipe.Store.Photos.{
  upsert_photo, set_capture_time, forget_missing, mark_seen, update_photo, refresh, refreshes,
  new_photo, forget,
}
use photo_swipe.Store.Sessions.{start_session, auto_start_session, extended, ended, new_session}
use photo_swipe.Store.Steps.Keyed.{insert-IsKeyed, forget-IsKeyed}
use photo_swipe.Store.Steps.Pushed.{IsWell}

pub commit-IsWell :
    {A : Type 0} (env : Env) (s : Store) (r : Result A × RootState)
    → IsWell r.1
    → IsWell (commit env s r).1.state
commit-IsWell env s r w = subst IsWell (sym (state-commit env s r)) w

saved-IsWell : (env : Env) (s : Store) → IsWell s.state → IsWell (save_locked env s).1.state
saved-IsWell env s w = subst IsWell (sym (state-save_locked env s)) w

pub updated-IsWell :
    (id : String) (f : Photo → Photo) (st : RootState)
    → ((p : Photo) → (f p).id ≡ p.id)
    → IsWell st
    → IsWell (update_photo id f st).1
unfolding update_photo
updated-IsWell id f st same (keyed, bounded) = elim (Option-cases (lookup id st.photos)) [
  | inl e ↦ rw (e, update_photo) (keyed, bounded)
  | inr (p, e) ↦
      rw (e, update_photo)
        (insert-IsKeyed id (f p) st.photos (same p ∙ keyed.1 id p e) keyed, bounded)
]

-- A path's photo is registered under the name that the host derives from the path.
pub upsert_photo-IsWell :
    (env : Env) (path : String) (size : ℤ) (mtime : Time) (s : Store)
    → IsWell s.state
    → IsWell (upsert_photo env path size mtime s).1.state
unfolding upsert_photo save_and_return new_photo refresh
upsert_photo-IsWell env path size mtime s (keyed, bounded) =
    let id = env.photo_id path in
    elim (Option-cases (lookup id s.state.photos)) [
      | inl e ↦
          rw (e, upsert_photo)
            (saved-IsWell env _ (
              insert-IsKeyed id (new_photo env path size mtime) s.state.photos refl keyed,
              bounded,
            ))
      | inr (p, e) ↦ elim (Bool-cases (refreshes size mtime p)) [
        | inl f ↦
            rw (e, f, upsert_photo)
              (saved-IsWell env _ (
                insert-IsKeyed id (refresh size mtime p) s.state.photos (keyed.1 id p e) keyed,
                bounded,
              ))
        | inr f ↦ rw (e, f, upsert_photo) (keyed, bounded)
      ]
    ]

pub set_capture_time-IsWell :
    (env : Env) (id : String) (t : Time) (s : Store)
    → IsWell s.state
    → IsWell (set_capture_time env id t s).1.state
unfolding set_capture_time
set_capture_time-IsWell env id t s w = elim (Bool-cases (is_zero t)) [
  | inl z ↦ rw (z, set_capture_time) w
  | inr z ↦ elim (Option-cases (lookup id s.state.photos)) [
    | inl e ↦ rw (z, e, set_capture_time) w
    | inr (p, e) ↦ elim (Bool-cases (eq_ℤ p.time t)) [
      | inl f ↦ rw (z, e, f, set_capture_time) w
      | inr f ↦
          rw (z, e, f, set_capture_time)
            (commit-IsWell env s _ (updated-IsWell id _ s.state (λ p. refl) w))
    ]
  ]
]

pub forget_missing-IsWell :
    (env : Env) (keep : List String) (s : Store)
    → IsWell s.state
    → IsWell (forget_missing env keep s).1.1.state
unfolding forget_missing save_and_return
forget_missing-IsWell env keep s (keyed, bounded) =
    elim (Bool-cases (ltb 0 (forget keep s.state.photos).1)) [
      | inl e ↦
          rw (e, forget_missing)
            (saved-IsWell env _ (forget-IsKeyed keep s.state.photos keyed, bounded))
      | inr e ↦ rw (e, forget_missing) (keyed, bounded)
    ]

pub mark_seen-IsWell :
    (env : Env) (id : String) (now : Time) (s : Store)
    → IsWell s.state
    → IsWell (mark_seen env id now s).state
unfolding mark_seen
mark_seen-IsWell env id now s (keyed, bounded) = elim (Option-cases (lookup id s.state.photos)) [
  | inl e ↦ rw (e, mark_seen) (keyed, bounded)
  | inr (p, e) ↦
      rw (e, mark_seen)
        (saved-IsWell env _ (insert-IsKeyed id _ s.state.photos (keyed.1 id p e) keyed, bounded))
]

pub start_session-IsWell :
    (env : Env) (target : ℤ) (mix : CompositionMix) (s : Store)
    → IsWell s.state
    → IsWell (start_session env target mix s).1.state
unfolding start_session save_and_return new_session
start_session-IsWell env target mix s w = elim (Bool-cases (valid mix)) [
  | inr e ↦ rw (e, start_session) w
  | inl e ↦ elim (Bool-cases (ltb_ℤ target (pos 0))) [
    | inl f ↦ rw (e, f, start_session) w
    | inr f ↦ elim (Option-cases env.rand_id) [
      | inl g ↦ rw (e, f, g, start_session) w
      | inr (id, g) ↦ rw (e, f, g, start_session) (saved-IsWell env _ (w.0, omega arith))
    ]
  ]
]

pub auto_start_session-IsWell :
    (env : Env) (s : Store) → IsWell s.state → IsWell (auto_start_session env s).1.state
unfolding auto_start_session
auto_start_session-IsWell env s =
    let target = s.state.settings.default_batch_size in
    let mix = s.state.settings.default_mix in
    start_session-IsWell env (if ltb_ℤ target (pos 0) then pos 0 else target)
      (if valid mix then mix else mixed) s

pub extended-IsWell : (delta : ℤ) (st : RootState) → IsWell st → IsWell (extended delta st).1
unfolding extended
extended-IsWell delta st (keyed, bounded) = elim (Option-cases st.session) [
  | inl f ↦ rw (f, extended) (keyed, bounded)
  | inr (sess, f) ↦ rw (f, extended) (keyed, omega arith)
]

pub ended-IsWell : (st : RootState) → IsWell st → IsWell (ended st)
unfolding ended
ended-IsWell st (keyed, bounded) = elim (Option-cases st.session) [
  | inl f ↦ rw (f, ended) (keyed, tt)
  | inr (sess, f) ↦ rw (f, ended) (keyed, tt)
]
