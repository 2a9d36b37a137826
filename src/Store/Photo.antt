-- ===== src/Store/Photo.antt =====
-- internal/store/photo.go: the photo and its state. A time is its instant in nanoseconds from Go's
-- zero time; the zone in which it is printed belongs to the host (`Env.day`).
use photo_swipe.Prelude.{ℕ, String, Bool, true, false}
use photo_swipe.Prelude.Int.{ℤ, pos, eq_ℤ}

abbrev pub Time : Type 0
Time = ℤ

abbrev pub zero_time : Time
zero_time = pos 0

-- t.IsZero()
abbrev pub is_zero : Time → Bool
is_zero t = eq_ℤ t zero_time

-- `other` is any string that the state file may hold beside the four constants, "" among them.
pub data PhotoState : Type 0 where
  unsorted kept unsure trashed : PhotoState
  other : String → PhotoState

abbrev pub is_unsorted : PhotoState → Bool
is_unsorted unsorted = true
is_unsorted _ = false

abbrev pub is_unsure : PhotoState → Bool
is_unsure unsure = true
is_unsure _ = false

abbrev pub is_trashed : PhotoState → Bool
is_trashed trashed = true
is_trashed _ = false

pub record Photo : Type 0 where
  pub id : String
  pub path : String
  pub state : PhotoState
  pub keep_count : ℤ
  pub unsure_count : ℤ
  pub last_seen_at : Time
  pub last_decision_at : Time
  pub locked : Bool
  pub size_bytes : ℤ
  pub added_at : Time
  pub trashed_path : String
  pub dhash : ℕ
  pub dhash_v : ℕ
  pub hash_version : ℤ
  pub dhashed_at : Time
  pub time : Time
