-- ===== src/Store/Photos.antt =====
-- internal/store/store.go: the pool of photos. The returned pointer of UpsertPhoto, which aliases
-- the stored photo, is given by its value; no caller in the repository writes through it.
pub mod Missing
pub mod Upsert
pub mod Hashing
use photo_swipe.Prelude.{
  ℕ, suc, ◌+◌, String, Bool, true, false, not, ◌&&◌, ◌||◌, Option, none, some, List, [], ◌∷◌,
  if◌then◌else◌, mem, ltb,
}
use photo_swipe.Prelude.Int.{ℤ, pos, eq_ℤ, ltb_ℤ, leb_ℤ}
use photo_swipe.Prelude.Map.{Map, lookup, insert}
use photo_swipe.Store.Photo.{
  Photo, Time, zero_time, is_zero, PhotoState, unsorted, kept, unsure, trashed, is_trashed,
}
use photo_swipe.Store.State.{
  RootState, Store, Env, Result, ok, err, photo_not_found, commit, save_locked, save_and_return,
}

abbrev pub current_hash_version : ℤ
current_hash_version = pos 2

abbrev pub with_photos : Store → Map Photo → Store
with_photos s photos = record s { state = record s.state { photos = photos } }

-- The two assignments of UpsertPhoto to a photo that is known.
unfoldable pub refresh : ℤ → Time → Photo → Photo
refresh size mtime p = record p {
  size_bytes = size;
  time = if is_zero p.time && not (is_zero mtime) then mtime else p.time;
}

unfoldable pub refreshes : ℤ → Time → Photo → Bool
refreshes size mtime p = not (eq_ℤ p.size_bytes size) || (is_zero p.time && not (is_zero mtime))

unfoldable pub new_photo : Env → String → ℤ → Time → Photo
new_photo env path size mtime = record {
  id = env.photo_id path;
  path = path;
  state = unsorted;
  keep_count = pos 0;
  unsure_count = pos 0;
  last_seen_at = zero_time;
  last_decision_at = zero_time;
  locked = false;
  size_bytes = size;
  added_at = env.now;
  trashed_path = "";
  dhash = 0;
  dhash_v = 0;
  hash_version = pos 0;
  dhashed_at = zero_time;
  time = mtime;
}

-- The error of the save is dropped where a known photo changes.
unfoldable pub upsert_photo : Env → String → ℤ → Time → Store → Result (Photo × Bool) × Store
unfolding refresh refreshes new_photo
upsert_photo env path size mtime s = elim (lookup (env.photo_id path) s.state.photos) [
  | some p ↦
      let p' = refresh size mtime p in
      let s' = with_photos s (insert (env.photo_id path) p' s.state.photos) in
      if refreshes size mtime p
      then (ok (p', false), (save_locked env s').1)
      else (ok (p, false), s)
  | none ↦
      let p = new_photo env path size mtime in
      save_and_return env (p, true) (with_photos s (insert (env.photo_id path) p s.state.photos))
]

-- The test of NextUnhashed and HashProgress on one photo.
unfoldable pub is_hashed : Photo → Bool
is_hashed p = not (is_zero p.dhashed_at) && leb_ℤ current_hash_version p.hash_version

-- The condition of NextUnhashed: never hashed, or under an older version
unfoldable pub needs_hash : Photo → Bool
needs_hash p = is_zero p.dhashed_at || ltb_ℤ p.hash_version current_hash_version

unfoldable pub first_unhashed : Map Photo → Option Photo
unfolding needs_hash
first_unhashed [] = none
first_unhashed ((id, p) ∷ photos) =
    let rest = first_unhashed photos in
    if is_trashed p.state then rest else if needs_hash p then some p else rest

unfoldable pub next_unhashed : Store → Option Photo
next_unhashed s = first_unhashed s.state.photos

-- A write to one photo under the lock, with the error for a photo that is not there.
unfoldable pub update_photo : String → (Photo → Photo) → RootState → Result (Unit {0}) × RootState
update_photo id f st = elim (lookup id st.photos) [
  | none ↦ (err (photo_not_found id), st)
  | some p ↦ (ok tt, record st { photos = insert id (f p) st.photos })
]

unfoldable pub set_capture_time : Env → String → Time → Store → Result (Unit {0}) × Store
unfolding update_photo
set_capture_time env id t s = if is_zero t then (ok tt, s) else elim (lookup id s.state.photos) [
  | none ↦ (err (photo_not_found id), s)
  | some p ↦
      if eq_ℤ p.time t
      then (ok tt, s)
      else commit env s (update_photo id (λ q. record q { time = t }) s.state)
]

unfoldable pub hashed_as : Time → ℕ → ℕ → Photo → Photo
hashed_as now h v p = record p {
  dhash = h;
  dhash_v = v;
  hash_version = current_hash_version;
  dhashed_at = now;
}

unfoldable pub set_hash : Env → String → ℕ → ℕ → Store → Result (Unit {0}) × Store
unfolding update_photo hashed_as
set_hash env id h v s = commit env s (update_photo id (hashed_as env.now h v) s.state)

unfoldable pub mark_hash_failed : Env → String → Store → Result (Unit {0}) × Store
unfolding update_photo hashed_as
mark_hash_failed env id s = commit env s (update_photo id (hashed_as env.now 0 0) s.state)

abbrev pub one_if : Bool → ℕ
one_if true = 1
one_if false = 0

-- The loop of HashProgress, with its two counters.
unfoldable pub hash_counts : ℕ → ℕ → Map Photo → ℕ × ℕ
unfolding is_hashed
hash_counts hashed total [] = (hashed, total)
hash_counts hashed total ((id, p) ∷ photos) =
    let next = hash_counts (hashed + one_if (is_hashed p)) (suc total) photos in
    let same = hash_counts hashed total photos in if is_trashed p.state then same else next

unfoldable pub hash_progress : Store → ℕ × ℕ
unfolding hash_counts
hash_progress s = hash_counts 0 0 s.state.photos

-- The loop of ForgetMissing: what stays, and how many went.
unfoldable pub forget : List String → Map Photo → Map Photo × ℕ
forget keep [] = ([], 0)
forget keep ((id, p) ∷ photos) =
    let (rest, removed) = forget keep photos in
    if mem id keep || is_trashed p.state then ((id, p) ∷ rest, removed) else (rest, suc removed)

-- The count is returned beside the error of the save.
unfoldable pub forget_missing : Env → List String → Store → ℕ × (Result (Unit {0}) × Store)
unfolding forget
forget_missing env keep s =
    let (photos, removed) = forget keep s.state.photos in
    if ltb 0 removed then (removed, save_locked env (with_photos s photos)) else (0, (ok tt, s))

unfoldable pub get_photo : String → Store → Option Photo
get_photo id s = lookup id s.state.photos

unfoldable pub mark_seen : Env → String → Time → Store → Store
mark_seen env id now s = elim (lookup id s.state.photos) [
  | none ↦ s
  | some p ↦
      (save_locked env
        (with_photos s (insert id (record p { last_seen_at = now }) s.state.photos))).1
]

pub record Counts : Type 0 where
  pub of_unsorted : ℕ
  pub of_kept : ℕ
  pub of_unsure : ℕ
  pub of_trashed : ℕ

-- The switch in the loop of Counts.
unfoldable pub tally : PhotoState → Counts → Counts
tally unsorted c = record c { of_unsorted = suc c.of_unsorted }
tally kept c = record c { of_kept = suc c.of_kept }
tally unsure c = record c { of_unsure = suc c.of_unsure }
tally trashed c = record c { of_trashed = suc c.of_trashed }
tally _ c = c

unfoldable pub tally_all : Counts → Map Photo → Counts
unfolding tally
tally_all c [] = c
tally_all c ((id, p) ∷ photos) = tally_all (tally p.state c) photos

unfoldable pub counts : Store → Counts
unfolding tally_all
counts s =
    tally_all (record { of_unsorted = 0; of_kept = 0; of_unsure = 0; of_trashed = 0 })
      s.state.photos
