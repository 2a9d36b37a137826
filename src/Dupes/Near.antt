-- ===== src/Dupes/Near.antt =====
-- When two photos are near duplicates, apart from the order in which Find looks at them.
use photo_swipe.Prelude.{◌≡◌, ◌≢◌, String, true, false, arith, List}
use photo_swipe.Prelude.Int.{ℤ, pos, negsuc, ◌≤ℤ◌, ◌<ℤ◌, ltb_ℤ, ◌-ℤ◌}
use photo_swipe.Prelude.Sorted.{In}
use photo_swipe.Store.Photo.{Photo, zero_time}
use photo_swipe.Store.Session.{sub_time, saturate}
use photo_swipe.Dhash.{distance}
use photo_swipe.Dhash.Distance.{distance_comm}
use photo_swipe.Dupes.{is_past, is_close, hash_of}

-- The fingerprints differ in at most `threshold` bits and, where there is a window and both times
-- are known, the times by at most `window`.
pub record Near (threshold window : ℤ) (p q : Photo) : Type 0 where
  pub alike : pos (distance (hash_of p) (hash_of q)) ≤ℤ threshold
  pub in_time :
      pos 0 <ℤ window
      → p.time ≢ zero_time
      → q.time ≢ zero_time
      → (sub_time p.time q.time ≤ℤ window) × (sub_time q.time p.time ≤ℤ window)

-- The least equivalence of ids that holds of the photos of a list that are near.
pub data Similar (threshold window : ℤ) (photos : List Photo) : String → String → Type 0 where
  itself : (a : String) → Similar threshold window photos a a
  near :
      (p q : Photo)
      → In p photos
      → In q photos
      → Near threshold window p q
      → Similar threshold window photos p.id q.id
  turned :
      (a b : String) → Similar threshold window photos a b → Similar threshold window photos b a
  through :
      (a b c : String)
      → Similar threshold window photos a b
      → Similar threshold window photos b c
      → Similar threshold window photos a c

-- The time lies no earlier than Go's zero time.
abbrev pub IsKnown : Photo → Type 0
IsKnown p = pos 0 ≤ℤ p.time

sub_time_back : (window t u : ℤ) → pos 0 <ℤ window → t ≤ℤ u → sub_time t u ≤ℤ window
unfolding sub_time saturate ◌-ℤ◌
sub_time_back (pos w) t u h k = ground arith
sub_time_back (negsuc w) t u h k = absurd (omega arith)

sub_time_later : (window t u v : ℤ) → window <ℤ sub_time u t → u ≤ℤ v → window <ℤ sub_time v t
unfolding sub_time saturate ◌-ℤ◌
sub_time_later window (pos t) (pos u) (pos v) h k = ground arith
sub_time_later window (pos t) (pos u) (negsuc v) h k = absurd (omega arith)
sub_time_later window (pos t) (negsuc u) (pos v) h k = ground arith
sub_time_later window (pos t) (negsuc u) (negsuc v) h k = ground arith
sub_time_later window (negsuc t) (pos u) (pos v) h k = ground arith
sub_time_later window (negsuc t) (pos u) (negsuc v) h k = absurd (omega arith)
sub_time_later window (negsuc t) (negsuc u) (pos v) h k = ground arith
sub_time_later window (negsuc t) (negsuc u) (negsuc v) h k = ground arith

pub is_past_later :
    (window : ℤ) (p q r : Photo)
    → pos 0 ≤ℤ q.time
    → ltb_ℤ r.time q.time ≡ false
    → is_past window p q ≡ true
    → is_past window p r ≡ true
unfolding is_past
is_past_later window p q r h k e = ground (arith, sub_time_later window p.time q.time r.time)

-- For a photo and a later one the test of the loop is that of Near.
pub is_past-Near :
    (threshold window : ℤ) (p q : Photo)
    → ltb_ℤ q.time p.time ≡ false
    → is_close threshold p q ≡ true
    → is_past window p q ≡ false
    → Near threshold window p q
unfolding is_past is_close
is_past-Near threshold window p q h c e = record {
  alike = ground arith;
  in_time = λ w t u. (sub_time_back window p.time q.time w (ground arith), ground arith);
}

pub Near-is_past :
    (threshold window : ℤ) (p q : Photo)
    → Near threshold window p q
    → (is_close threshold p q ≡ true) × (is_past window p q ≡ false)
unfolding is_past is_close
Near-is_past threshold window p q n = (ground (arith, n.alike), ground (arith, n.in_time))

pub Near-sym :
    (threshold window : ℤ) (p q : Photo) → Near threshold window p q → Near threshold window q p
Near-sym threshold window p q n = record {
  alike = omega (arith, n.alike, distance_comm (hash_of p) (hash_of q));
  in_time = λ w t u. let (a, b) = n.in_time w u t in (b, a);
}
