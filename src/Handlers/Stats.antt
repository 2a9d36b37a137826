-- ===== src/Handlers/Stats.antt =====
-- internal/handlers/handlers.go: handleStats, with its seven bars.
use photo_swipe.Prelude.{
  ℕ, zero, suc, ◌+◌, ◌*◌, ◌/◌, String, Bool, ◌&&◌, List, [], ◌∷◌, ◌==◌, if◌then◌else◌,
}
use photo_swipe.Prelude.Int.{ℤ, pos, negsuc, pos_part, add64, wrap64, leb_ℤ, ltb_ℤ, eq_ℤ}
use photo_swipe.Store.State.{Store}
use photo_swipe.Store.Photos.{Counts, counts}
use photo_swipe.Store.Sessions.{daily_count, last_batch_done}
use photo_swipe.Handlers.{Call}

pub record DailyBar : Type 0 where
  pub day : String
  pub count : ℤ
  pub height : ℤ
  pub is_today : Bool

pub data Encouragement : Type 0 where
  nothing_decided done_for_now big_batch solid_work nice_batch every_decision : Encouragement

-- The lines of text by name.
unfoldable pub encouragement_for : ℤ → ℤ → Encouragement
encouragement_for batch today =
    if eq_ℤ batch (pos 0) && eq_ℤ today (pos 0)
    then nothing_decided
    else if eq_ℤ batch (pos 0)
    then done_for_now
    else if leb_ℤ (pos 50) batch
    then big_batch
    else if leb_ℤ (pos 20) batch
    then solid_work
    else if leb_ℤ (pos 10) batch
    then nice_batch
    else every_decision

pub record StatsData : Type 0 where
  pub counts : Counts
  pub today_count : ℤ
  pub week_count : ℤ
  pub last_batch_done : ℤ
  pub daily_bars : List DailyBar
  pub encouragement : Encouragement

-- The bar of the day that lies `back` days before today.
unfoldable pub day_bar : Call → Store → ℕ → DailyBar
unfolding daily_count
day_bar call s back = record {
  day = call.weekday (call.days back);
  count = daily_count (call.env.day (call.days back)) s;
  height = pos 0;
  is_today = back == 0;
}

-- The bars of the last `n` days, the first day first.
unfoldable pub bars_of : Call → Store → ℕ → List DailyBar
unfolding day_bar
bars_of call s zero = []
bars_of call s (suc n) = day_bar call s n ∷ bars_of call s n

-- weekCount += c
unfoldable pub week_count : ℤ → List DailyBar → ℤ
week_count week [] = week
week_count week (b ∷ bars) = week_count (add64 week b.count) bars

-- if c > maxCount { maxCount = c }
unfoldable pub max_count : ℤ → List DailyBar → ℤ
max_count most [] = most
max_count most (b ∷ bars) = max_count (if ltb_ℤ most b.count then b.count else most) bars

-- Go's division by a positive number rounds towards zero.
unfoldable pub div_pos : ℤ → ℕ → ℤ
div_pos (pos a) b = pos (a / b)
div_pos (negsuc a) b = elim (suc a / b) [ zero ↦ pos 0 | suc q ↦ negsuc q ]

-- n * 100
unfoldable pub times_100 : ℤ → ℤ
unfolding wrap64
times_100 (pos n) = wrap64 (pos (n * 100))
times_100 (negsuc n) = wrap64 (negsuc (n * 100 + 99))

unfoldable pub with_height : ℤ → DailyBar → DailyBar
unfolding div_pos times_100
with_height most b =
    if ltb_ℤ (pos 0) most
    then record b { height = div_pos (times_100 b.count) (pos_part most) }
    else b

unfoldable pub scaled : ℤ → List DailyBar → List DailyBar
unfolding with_height
scaled most [] = []
scaled most (b ∷ bars) = with_height most b ∷ scaled most bars

unfoldable pub handle_stats : Call → Store → StatsData
unfolding daily_count bars_of week_count max_count scaled counts last_batch_done encouragement_for
handle_stats call s =
    let today = daily_count (call.env.day (call.days 0)) s in
    let bars = bars_of call s 7 in
    record {
      counts = counts s;
      today_count = today;
      week_count = week_count (pos 0) bars;
      last_batch_done = last_batch_done s;
      daily_bars = scaled (max_count (pos 0) bars) bars;
      encouragement = encouragement_for (last_batch_done s) today;
    }
