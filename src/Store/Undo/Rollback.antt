-- ===== src/Store/Undo/Rollback.antt =====
-- The counters that a decision raises and Undo takes back.
use photo_swipe.Prelude.{ℕ, ◌+◌, ◌≤◌, ◌≡◌, String, some, arith, ap, ◌∙◌}
use photo_swipe.Prelude.Int.{ℤ, pos, negsuc, add64, max_int64, add64_pos, sub64_pos}
use photo_swipe.Prelude.Map.{Map, insert, insert-insert, lookup-insert_self}
use photo_swipe.Store.Decisions.{count_on, add_on}
use photo_swipe.Store.Session.{Session}
use photo_swipe.Store.State.{RootState}
use photo_swipe.Store.Undo.{take_back, rollback}

-- The counter is not negative and can grow by `b` without wrapping around.
abbrev pub HasRoom : ℕ → ℤ → Type 0
HasRoom b (pos n) = n + b ≤ max_int64
HasRoom b (negsuc n) = ⊥

pub take_back-add64 : (b : ℕ) (n : ℤ) → HasRoom b n → take_back (pos b) (add64 n (pos b)) ≡ n
unfolding take_back
take_back-add64 b (pos m) h = rw (add64_pos m b h) (ground (arith, sub64_pos (m + b) b))
take_back-add64 b (negsuc m) h = absurd h

pub count_on-add_on :
    (day : String) (n : ℤ) (m : Map ℤ) → count_on day (add_on day n m) ≡ add64 (count_on day m) n
unfolding count_on add_on
count_on-add_on day n m = rw (lookup-insert_self, count_on)

-- The day's count is back at its value (a day that was missing now has the count 0).
pub take_back-add_on :
    (day : String) (b : ℕ) (m : Map ℤ)
    → HasRoom b (count_on day m)
    → insert day (take_back (pos b) (count_on day (add_on day (pos b) m))) (add_on day (pos b) m)
      ≡ insert day (count_on day m) m
unfolding add_on
take_back-add_on day b m h =
    insert-insert day _ _ m
    ∙ ap (λ n. insert day n m)
        (ap (take_back (pos b)) (count_on-add_on day (pos b) m)
          ∙ take_back-add64 b (count_on day m) h)

-- Taking back what a decision has added leaves the session and the day's count as they were.
pub rollback_lem :
    (day : String) (b : ℕ) (sess : Session) (st : RootState)
    → HasRoom b sess.done
    → HasRoom b (count_on day st.daily_stats)
    → rollback day
        (pos b)
        (record sess { done = add64 sess.done (pos b) })
        (record st { daily_stats = add_on day (pos b) st.daily_stats })
      ≡ record st {
        session = some sess;
        daily_stats = insert day (count_on day st.daily_stats) st.daily_stats;
      }
unfolding rollback
rollback_lem day b sess st room room' =
    let done = take_back-add64 b sess.done room in
    let daily = take_back-add_on day b st.daily_stats room' in
    λ i. record st { session = some (record sess { done = done i }); daily_stats = daily i }
