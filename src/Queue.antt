-- ===== src/Queue.antt =====
-- internal/queue/queue.go: which photo comes next. A `float64` is its IEEE 754 bits; its
-- arithmetic, the conversion of hours to a `time.Duration` and the drawn number are parameters.
pub mod Eligible
pub mod Review
pub mod Examples
use photo_swipe.Prelude.{
  ℕ, suc, ◌+◌, ◌%◌, ◌^◌, ◌≡◌, String, Bool, true, false, not, ◌&&◌, ◌||◌, Option, none, some, List,
  [], ◌∷◌, if◌then◌else◌, mem, split_last, leb, ltb, ◌==◌,
}
use photo_swipe.Prelude.Int.{ℤ, pos, ltb_ℤ, leb_ℤ}
use photo_swipe.Store.Photo.{Photo, Time, is_zero, PhotoState, unsorted, kept, unsure, is_trashed}
use photo_swipe.Store.Session.{
  CompositionMix, all_new, mixed, heavy_review, review_only, other_mix, Float64, Session, Settings,
  sub_time,
}

pub record Floats : Type 0 where
  pub mul : Float64 → Float64 → Float64
  pub add : Float64 → Float64 → Float64
  pub sub : Float64 → Float64 → Float64
  pub pow : Float64 → Float64 → Float64
  pub of_int : ℤ → Float64
  pub hours : Float64 → ℤ

abbrev pub one : Float64
one = 0x3ff0000000000000

-- x <= 0: a zero or a negative number, and no NaN
unfoldable pub le_zero : Float64 → Bool
le_zero x = leb (x % 2 ^ 63) 0x7ff0000000000000 && (x == 0 || leb (2 ^ 63) x)

-- The weights 0.3 and 2.5 of heavy review are the first two numbers.
unfoldable pub mix_weights : CompositionMix → Float64 × Float64
mix_weights all_new = (one, 0)
mix_weights heavy_review = (0x3fd3333333333333, 0x4004000000000000)
mix_weights review_only = (0, one)
mix_weights _ = (one, one)

pub record Cand : Type 0 where
  pub photo : Photo
  pub weight : Float64

pub data Pick : Type 0 where
  picked : Photo → Pick
  no_session no_candidate : Pick

pub record Estimate : Type 0 where
  pub fresh : ℕ
  pub of_kept : ℕ
  pub of_unsure : ℕ

-- The loop of Next that fills the pool.
unfoldable pub fill_pool : List String → (Photo → Float64) → List Photo → List Cand
fill_pool skipped weight [] = []
fill_pool skipped weight (p ∷ photos) =
    let rest = fill_pool skipped weight photos in
    if mem p.id skipped
    then rest
    else if le_zero (weight p)
    then rest
    else record { photo = p; weight = weight p } ∷ rest

unfoldable pub tally : PhotoState → Estimate → Estimate
tally unsorted e = record e { fresh = suc e.fresh }
tally kept e = record e { of_kept = suc e.of_kept }
tally unsure e = record e { of_unsure = suc e.of_unsure }
tally _ e = e

-- The loop of EstimateCounts.
unfoldable pub estimate : (Photo → Float64) → List Photo → Estimate → Estimate
unfolding tally
estimate weight [] e = e
estimate weight (p ∷ photos) e =
    estimate weight photos (if le_zero (weight p) then e else tally p.state e)

module _ (fl : Floats) where
  -- The `switch p.State` at the end of weightFor.
  unfoldable pub weight_of : PhotoState → Photo → Settings → Float64 → Float64 → Float64
  weight_of unsorted p settings new_mult resurface_mult = fl.mul new_mult one
  weight_of kept p settings new_mult resurface_mult =
      fl.mul (fl.mul resurface_mult settings.base_rate)
        (fl.pow settings.decay (fl.of_int p.keep_count))
  weight_of unsure p settings new_mult resurface_mult =
      fl.mul (fl.mul resurface_mult settings.unsure_base_rate)
        (fl.pow settings.decay (fl.of_int p.unsure_count))
  weight_of _ p settings new_mult resurface_mult = 0

  unfoldable pub weight_for : Photo → Settings → Float64 → Float64 → ℤ → Time → Float64
  unfolding weight_of
  weight_for p settings new_mult resurface_mult cooldown now =
      if is_trashed p.state || p.locked
      then 0
      else if ltb_ℤ (pos 0) settings.lock_threshold && leb_ℤ settings.lock_threshold p.keep_count
      then 0
      else if not (is_zero p.last_decision_at) && ltb_ℤ (sub_time now p.last_decision_at) cooldown
      then 0
      else weight_of p.state p settings new_mult resurface_mult

  -- The weight of a photo in a session.
  unfoldable pub session_weight : Session → Settings → Time → Photo → Float64
  unfolding weight_for mix_weights
  session_weight sess settings now p =
      let (new_mult, resurface_mult) = mix_weights sess.mix in
      weight_for p settings new_mult resurface_mult (fl.hours settings.cooldown_hours) now

  -- total += w, in the order of the pool
  unfoldable pub total_from : Float64 → List Cand → Float64
  total_from total [] = total
  total_from total (c ∷ pool) = total_from (fl.add total c.weight) pool

  -- The loop that picks; `fallback` is the last of the pool.
  unfoldable pub choose : Float64 → List Cand → Photo → Photo
  choose target [] fallback = fallback
  choose target (c ∷ pool) fallback =
      let left = fl.sub target c.weight in
      let rest = choose left pool fallback in if le_zero left then c.photo else rest

  -- Next, with the number that `rnd.Float64()` draws.
  unfoldable pub next : Float64 → List Photo → Option Session → Settings → Time → Pick
  unfolding session_weight fill_pool total_from choose
  next drawn photos none settings now = no_session
  next drawn photos (some sess) settings now =
      let pool = fill_pool sess.recently_skipped (session_weight sess settings now) photos in
      elim (split_last pool) [
        | none ↦ no_candidate
        | some (_, last) ↦ picked (choose (fl.mul drawn (total_from 0 pool)) pool last.photo)
      ]

  unfoldable pub estimate_counts : List Photo → Option Session → Settings → Time → Estimate
  unfolding session_weight estimate
  estimate_counts photos none settings now = record { fresh = 0; of_kept = 0; of_unsure = 0 }
  estimate_counts photos (some sess) settings now =
      estimate (session_weight sess settings now) photos
        (record { fresh = 0; of_kept = 0; of_unsure = 0 })
