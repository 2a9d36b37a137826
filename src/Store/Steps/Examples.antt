-- ===== src/Store/Steps/Examples.antt =====
-- The theorems on histories and on the pool, at a small store.
use photo_swipe.Prelude.{
  false, ◌+◌, ◌≡◌, refl, String, none, some, List, [], ◌∷◌, arith, length, ◌↔◌, eq_iff, suc,
}
use photo_swipe.Prelude.Int.{pos}
use photo_swipe.Prelude.Map.{Map, lookup}
use photo_swipe.Store.Photo.{Photo, zero_time}
use photo_swipe.Store.Session.{mixed}
use photo_swipe.Store.State.{Store, Env, ok, empty_state, commit, save_and_return, save_locked}
use photo_swipe.Store.Decisions.{record_skip, skipped}
use photo_swipe.Store.Photos.{
  upsert_photo, forget_missing, next_unhashed, first_unhashed, needs_hash, hash_progress, set_hash,
}
use photo_swipe.Store.Photos.Upsert.{upsert_photo_again}
use photo_swipe.Store.Photos.Missing.{lookup-forget_missing}
use photo_swipe.Store.Photos.Hashing.{next_unhashed-none, hash_progress-set_hash}
use photo_swipe.Store.Steps.{Op, step, run, op_upsert, op_start, op_skip, op_undo}
use photo_swipe.Store.Steps.Keyed.{IsKeyed, remaining}
use photo_swipe.Store.Steps.Pushed.{IsWell}
use photo_swipe.Store.Steps.Invariant.{run-IsWell}
use photo_swipe.Store.Steps.Durable.{IsSynced, step-IsSynced}
use photo_swipe.Store.Examples.{photo, env_at, store}

abbrev fresh : Store
fresh = record { state = empty_state; disk = none }

abbrev history : List (Env × Op)
history =
    (env_at 1, op_upsert "a" (pos 10) zero_time)
    ∷ (env_at 2, op_start (pos 1) mixed)
    ∷ (env_at 3, op_skip "a")
    ∷ (env_at 4, op_skip "a")
    ∷ (env_at 5, op_undo)
    ∷ []

run-IsWell_example : IsWell (run history fresh).state
unfolding lookup
run-IsWell_example = run-IsWell history fresh ((tt, λ k p h. absurd (ground arith)), tt)

abbrev saved : Store
saved = record store { disk = some "bytes" }

step-IsSynced_example : IsSynced (env_at 5) (step (env_at 5) (op_skip "a") saved).1
unfolding step record_skip skipped commit save_and_return save_locked lookup
step-IsSynced_example = step-IsSynced (env_at 5) (op_skip "a") saved refl refl refl

abbrev pub one_photo : Map Photo
one_photo = ("a", photo "a") ∷ []

pub one_photo-IsKeyed : IsKeyed one_photo
unfolding lookup
one_photo-IsKeyed = ((refl, tt), λ k p h. ground (arith, eq_iff "a" k))

abbrev pub small : Store
small = record { state = record empty_state { photos = one_photo }; disk = none }

lookup-forget_missing_example :
    ((id : String)
      → lookup id (forget_missing (env_at 5) ("b" ∷ []) small).1.1.state.photos
        ≡ remaining ("b" ∷ []) id (lookup id one_photo))
    × (length (forget_missing (env_at 5) ("b" ∷ []) small).1.1.state.photos
          + (forget_missing (env_at 5) ("b" ∷ []) small).0
        ≡ 1)
unfolding lookup
lookup-forget_missing_example = lookup-forget_missing (env_at 5) ("b" ∷ []) small (refl, tt)

next_unhashed-none_example :
    (next_unhashed small ≡ none) ↔ ((hash_progress small).0 ≡ (hash_progress small).1)
next_unhashed-none_example = next_unhashed-none small

hash_progress-set_hash_example :
    hash_progress (set_hash (env_at 5) "a" 3 4 small).1
    ≡ (suc (hash_progress small).0, (hash_progress small).1)
unfolding next_unhashed first_unhashed needs_hash
hash_progress-set_hash_example =
    hash_progress-set_hash (env_at 5) small (photo "a") 3 4 one_photo-IsKeyed refl refl

-- The file of `small` after the photo has been found with another size.
abbrev scanned : Store
scanned = (upsert_photo (env_at 5) "a" (pos 2000) zero_time small).1

upsert_photo_again_example :
    (p : Photo) × (lookup "a" scanned.state.photos ≡ some p)
    × (upsert_photo (env_at 9) "a" (pos 2000) zero_time scanned ≡ (ok (p, false), scanned))
upsert_photo_again_example =
    upsert_photo_again (env_at 5) (env_at 9) "a" (pos 2000) zero_time small refl
