-- ===== src/Store/Session.antt =====
-- internal/store/session.go: sessions, decisions and settings. A `float64` is its IEEE 754 bits.
use photo_swipe.Prelude.{
  ℕ, ◌^◌, String, Bool, true, false, ◌&&◌, ◌||◌, List, [], Option, none, some, ◌==◌, ltb,
  if◌then◌else◌,
}
use photo_swipe.Prelude.Int.{ℤ, pos, negsuc, ltb_ℤ, leb_ℤ, ◌-ℤ◌, max_int64}
use photo_swipe.Store.Photo.{Time, PhotoState}

-- A slice that may be nil.
abbrev pub Slice : Type 0 → Type 0
Slice A = Option (List A)

-- What `range` visits.
abbrev pub elems : {A : Type 0} → Slice A → List A
elems none = []
elems (some xs) = xs

pub data CompositionMix : Type 0 where
  all_new mixed heavy_review review_only : CompositionMix
  other_mix : String → CompositionMix

unfoldable pub valid : CompositionMix → Bool
valid (other_mix _) = false
valid _ = true

pub record ClusterMemberOp : Type 0 where
  pub photo_id : String
  pub prev_state : PhotoState
  pub new_state : PhotoState
  pub prev_keep_count : ℤ
  pub prev_unsure_count : ℤ
  pub prev_last_seen_at : Time
  pub trash_from : String
  pub trash_to : String

pub record Decision : Type 0 where
  pub photo_id : String
  pub prev_state : PhotoState
  pub new_state : PhotoState
  pub timestamp : Time
  pub prev_keep_count : ℤ
  pub prev_unsure_count : ℤ
  pub prev_last_seen_at : Time
  pub trash_from : String
  pub trash_to : String
  pub skipped : Bool
  pub advanced_counter : Bool
  pub counter_bump : ℤ
  pub cluster : Slice ClusterMemberOp

pub record Session : Type 0 where
  pub id : String
  pub started_at : Time
  pub target : ℤ
  pub done : ℤ
  pub mix : CompositionMix
  pub stack : List Decision
  pub recently_skipped : List String

-- A `time.Duration`: the difference of two times stops at the ends of `int64`.
unfoldable pub saturate : ℤ → ℤ
saturate (pos n) = if ltb max_int64 n then pos max_int64 else pos n
saturate (negsuc n) = if ltb max_int64 n then negsuc max_int64 else negsuc n

-- t.Sub(u)
unfoldable pub sub_time : Time → Time → ℤ
unfolding saturate ◌-ℤ◌
sub_time t u = saturate (t -ℤ u)

unfoldable pub stale : Session → Time → ℤ → Bool
unfolding sub_time
stale s now max_age = ltb_ℤ max_age (sub_time now s.started_at)

unfoldable pub complete : Session → Bool
complete s = ltb_ℤ (pos 0) s.target && leb_ℤ s.target s.done

abbrev pub Float64 : Type 0
Float64 = ℕ

-- x == 0, true of both zeros
unfoldable pub is_zero_float : Float64 → Bool
is_zero_float x = x == 0 || x == 2 ^ 63

pub record Settings : Type 0 where
  pub base_rate : Float64
  pub decay : Float64
  pub unsure_base_rate : Float64
  pub cooldown_hours : Float64
  pub lock_threshold : ℤ
  pub fatigue_nudge : Bool
  pub fatigue_threshold : ℤ
  pub dupe_threshold : ℤ
  pub dupe_time_window_hours : Float64
  pub default_batch_size : ℤ
  pub default_mix : CompositionMix
  pub skip_advances_counter : Bool
  pub info_overlay : Bool
  pub cluster_counts_as_one : Bool

-- 0.15, 0.4, 0.6 and 6 are the first four numbers.
abbrev pub default_settings : Settings
default_settings = record {
  base_rate = 0x3fc3333333333333;
  decay = 0x3fd999999999999a;
  unsure_base_rate = 0x3fe3333333333333;
  cooldown_hours = 0x4018000000000000;
  lock_threshold = pos 0;
  fatigue_nudge = false;
  fatigue_threshold = pos 100;
  dupe_threshold = pos 35;
  dupe_time_window_hours = 0;
  default_batch_size = pos 10;
  default_mix = mixed;
  skip_advances_counter = false;
  info_overlay = false;
  cluster_counts_as_one = true;
}
