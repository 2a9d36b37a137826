-- ===== src/Queue/Examples.antt =====
-- The theorems on the choice of a photo, at a small pool.
use mathlib.Core.List.{Mem}
use photo_swipe.Prelude.{◌≡◌, ◌+◌, refl, some, List, [], ◌∷◌, arith, length, ◌↔◌, split_last}
use photo_swipe.Prelude.Int.{pos}
use photo_swipe.Prelude.Map.{lookup}
use photo_swipe.Store.Photo.{Photo, trashed}
use photo_swipe.Store.Session.{default_settings, sub_time}
use photo_swipe.Store.Decisions.{record_decision, count_on}
use photo_swipe.Store.Undo.{undo}
use photo_swipe.Store.Examples.{photo, env_at, batch, store}
use photo_swipe.Queue.{
  Floats, picked, no_candidate, next, session_weight, estimate_counts, fill_pool, le_zero,
}
use photo_swipe.Queue.Eligible.{
  Eligible, Excluded, All, next-Eligible, next-eq-no_candidate, estimate_counts-length,
}
use photo_swipe.Queue.Review.{undone_photo_hidden}

-- A coarse arithmetic: products are the first factor, and the cooldown is a thousand nanoseconds.
abbrev pub floats : Floats
floats = record {
  mul = λ x _. x;
  add = λ x y. x + y;
  sub = λ x _. 0;
  pow = λ x _. x;
  of_int = λ _. 0;
  hours = λ _. pos 1000;
}

abbrev pool : List Photo
pool = photo "z" ∷ photo "a" ∷ []

next_picks : next floats 0 pool (some batch) default_settings (pos 50) ≡ picked (photo "a")
unfolding next split_last le_zero
next_picks = refl

next-Eligible_example :
    Mem (photo "a") pool × Eligible floats batch default_settings (pos 50) (photo "a")
next-Eligible_example =
    next-Eligible floats 0 pool batch default_settings (pos 50) (photo "a") next_picks

next-eq-no_candidate_example :
    (next floats 0 pool (some batch) default_settings (pos 50) ≡ no_candidate)
    ↔ All (Excluded ("z" ∷ []) (session_weight floats batch default_settings (pos 50))) pool
next-eq-no_candidate_example = next-eq-no_candidate floats 0 pool batch default_settings (pos 50)

estimate_counts-length_example :
    (estimate_counts floats pool (some batch) default_settings (pos 50)).fresh
      + (estimate_counts floats pool (some batch) default_settings (pos 50)).of_kept
      + (estimate_counts floats pool (some batch) default_settings (pos 50)).of_unsure
    ≡ length (fill_pool [] (session_weight floats batch default_settings (pos 50)) pool)
estimate_counts-length_example = estimate_counts-length floats pool batch default_settings (pos 50)

undone_photo_hidden_example :
    (q : Photo) × (lookup "b"
        (undo
          (env_at 9)
          (record_decision (env_at 5) "b" trashed "/p/b" "/t/b" store).1).1.state.photos
      ≡ some q)
    × (q.state ≡ (photo "b").state)
    × (session_weight floats batch default_settings (pos 50) q ≡ 0)
unfolding lookup count_on sub_time
undone_photo_hidden_example =
    undone_photo_hidden floats (env_at 5) (env_at 9) "b" trashed "/p/b" "/t/b" store (photo "b")
      batch batch default_settings (pos 50) refl refl refl (omega arith) (omega arith) refl refl
