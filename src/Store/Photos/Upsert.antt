-- ===== src/Store/Photos/Upsert.antt =====
-- Scanning a file again.
use photo_swipe.Prelude.{
  ◌≡◌, refl, sym, ap, ◌∙◌, String, false, some, arith, Bool-cases, Option-cases, inl, inr, subst,
}
use photo_swipe.Prelude.Int.{ℤ}
use photo_swipe.Prelude.Map.{lookup, insert, lookup-insert_self}
use photo_swipe.Store.Photo.{Photo, Time}
use photo_swipe.Store.State.{
  RootState, Store, Env, ok, save_locked, save_and_return, state-save_locked,
}
use photo_swipe.Store.Photos.{upsert_photo, refresh, refreshes, new_photo, with_photos}

refreshes-refresh :
    (size : ℤ) (mtime : Time) (p : Photo) → refreshes size mtime (refresh size mtime p) ≡ false
unfolding refreshes refresh
refreshes-refresh size mtime p = ground arith

refreshes-new_photo :
    (env : Env) (path : String) (size : ℤ) (mtime : Time)
    → refreshes size mtime (new_photo env path size mtime) ≡ false
unfolding refreshes new_photo
refreshes-new_photo env path size mtime = ground arith

-- The photo registered under `id` is up to date.
IsCurrent : String → ℤ → Time → RootState → Type 0
IsCurrent id size mtime st =
    (p : Photo) × (lookup id st.photos ≡ some p) × (refreshes size mtime p ≡ false)

saved-IsCurrent :
    (env : Env) (s : Store) (id : String) (size : ℤ) (mtime : Time) (p : Photo)
    → refreshes size mtime p ≡ false
    → IsCurrent id size mtime (save_locked env (with_photos s (insert id p s.state.photos))).1.state
unfolding IsCurrent
saved-IsCurrent env s id size mtime p e =
    subst (IsCurrent id size mtime)
      (sym (state-save_locked env (with_photos s (insert id p s.state.photos))))
      (p, lookup-insert_self id p s.state.photos, e)

upsert_photo-IsCurrent :
    (env : Env) (path : String) (size : ℤ) (mtime : Time) (s : Store)
    → IsCurrent (env.photo_id path) size mtime (upsert_photo env path size mtime s).1.state
unfolding upsert_photo save_and_return IsCurrent
upsert_photo-IsCurrent env path size mtime s =
    let id = env.photo_id path in
    elim (Option-cases (lookup id s.state.photos)) [
      | inl e ↦
          rw (e, upsert_photo)
            (saved-IsCurrent env s id size mtime (new_photo env path size mtime)
              (refreshes-new_photo env path size mtime))
      | inr (p, e) ↦ elim (Bool-cases (refreshes size mtime p)) [
        | inl f ↦
            rw (e, f, upsert_photo)
              (saved-IsCurrent env s id size mtime (refresh size mtime p)
                (refreshes-refresh size mtime p))
        | inr f ↦ rw (e, f, upsert_photo) (p, e, f)
      ]
    ]

upsert_photo_current :
    (env : Env) (path : String) (size : ℤ) (mtime : Time) (s : Store) (p : Photo)
    → lookup (env.photo_id path) s.state.photos ≡ some p
    → refreshes size mtime p ≡ false
    → upsert_photo env path size mtime s ≡ (ok (p, false), s)
unfolding upsert_photo
upsert_photo_current env path size mtime s p e f = rw (e, f, upsert_photo) refl

-- Registering a file again with the same size and time, at any later time and whatever failed
-- before, finds its photo and changes nothing, in memory or on disk, if the path has the same id
-- both times.
pub upsert_photo_again :
    (env env' : Env) (path : String) (size : ℤ) (mtime : Time) (s : Store)
    → env'.photo_id path ≡ env.photo_id path
    → let s' = (upsert_photo env path size mtime s).1 in
      (p : Photo) × (lookup (env.photo_id path) s'.state.photos ≡ some p)
      × (upsert_photo env' path size mtime s' ≡ (ok (p, false), s'))
unfolding IsCurrent
upsert_photo_again env env' path size mtime s same =
    let s' = (upsert_photo env path size mtime s).1 in
    let (p, here, done) = upsert_photo-IsCurrent env path size mtime s in
    (
      p,
      here,
      upsert_photo_current env' path size mtime s' p
          (ap (λ id. lookup id s'.state.photos) same ∙ here) done,
    )
