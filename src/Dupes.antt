-- ===== src/Dupes.antt =====
-- internal/dupes/cluster.go: groups of near-duplicates.
pub mod Examples
pub mod Forest
pub mod Groups
pub mod Merge
pub mod Union
pub mod Near
pub mod Pairs
pub mod Start
pub mod Ranked
pub mod Run
pub mod Members
pub mod Clusters
pub mod Loops
use photo_swipe.Prelude.{
  ◌>>=◌, ℕ, zero, suc, String, Bool, true, false, not, ◌&&◌, ◌||◌, Option, none, some, List, [],
  ◌∷◌, ◌++◌, ltb, ◌==◌, length, str_eq, if◌then◌else◌,
}
use photo_swipe.Prelude.Int.{ℤ, pos, ltb_ℤ, leb_ℤ, eq_ℤ}
use photo_swipe.Prelude.Map.{Map, lookup, insert}
use photo_swipe.Prelude.Sort.{sort_stable}
use photo_swipe.Prelude.Text.{str_lt}
use photo_swipe.Store.Photo.{Photo, is_trashed, is_zero}
use photo_swipe.Store.Session.{sub_time}
use photo_swipe.Store.Photos.{needs_hash}
use photo_swipe.Dhash.{Hash, is_zero_hash, distance}

pub record Cluster : Type 0 where
  pub id : String
  pub photos : List Photo

-- dhash.Hash{H: p.DHash, V: p.DHashV}
abbrev pub hash_of : Photo → Hash
hash_of p = record { h = p.dhash; v = p.dhash_v }

-- The three tests of the first loop.
unfoldable pub takes_part : Photo → Bool
unfolding needs_hash is_zero_hash
takes_part p = not (is_trashed p.state) && not (needs_hash p) && not (is_zero_hash (hash_of p))

unfoldable pub hashed_photos : List Photo → List Photo
unfolding takes_part
hashed_photos [] = []
hashed_photos (p ∷ photos) =
    let rest = hashed_photos photos in if takes_part p then p ∷ rest else rest

-- parent[x], which is "" for a key that is not there
unfoldable pub parent_of : Map String → String → String
parent_of parent x = elim (lookup x parent) [ none ↦ "" | some y ↦ y ]

-- The root of `x`, and the map after the path to it is compressed; `none` where the rounds run out.
unfoldable pub find : ℕ → String → Map String → Option (String × Map String)
unfolding parent_of
find zero x parent = none
find (suc rounds) x parent =
    let above = find rounds (parent_of parent x) parent in
    if str_eq (parent_of parent x) x
    then some (x, parent)
    else (do (root, parent') ← above; some (root, insert x root parent'))

unfoldable pub union : ℕ → String → String → Map String → Option (Map String)
unfolding find
union rounds a b parent = do
  (ra, parent') ← find rounds a parent
  (rb, parent'') ← find rounds b parent'
  if str_eq ra rb
      then some parent''
      else if str_lt ra rb
      then some (insert rb ra parent'')
      else some (insert ra rb parent'')

-- The test for the `break` of the inner loop.
unfoldable pub is_past : ℤ → Photo → Photo → Bool
unfolding sub_time
is_past window p q =
    ltb_ℤ (pos 0) window
    && not (is_zero p.time)
    && not (is_zero q.time)
    && ltb_ℤ window (sub_time q.time p.time)

unfoldable pub is_close : ℤ → Photo → Photo → Bool
unfolding distance
is_close threshold p q = leb_ℤ (pos (distance (hash_of p) (hash_of q))) threshold

-- for j := i + 1; j < len(hashed); j++, with hashed[i] and the photos from j on
unfoldable pub join_with : ℕ → ℤ → ℤ → Photo → List Photo → Map String → Option (Map String)
unfolding union is_past is_close
join_with rounds threshold window p [] parent = some parent
join_with rounds threshold window p (q ∷ rest) parent =
    let next = (do
      parent' ← if is_close threshold p q then union rounds p.id q.id parent else some parent
      join_with rounds threshold window p rest parent') in
    if is_past window p q then some parent else next

-- for i := 0; i < len(hashed); i++
unfoldable pub join_all : ℕ → ℤ → ℤ → List Photo → Map String → Option (Map String)
unfolding join_with
join_all rounds threshold window [] parent = some parent
join_all rounds threshold window (p ∷ rest) parent = do
  parent' ← join_with rounds threshold window p rest parent
  join_all rounds threshold window rest parent'

-- parent[p.ID] = p.ID
unfoldable pub singles : List Photo → Map String → Map String
singles [] parent = parent
singles (p ∷ photos) parent = singles photos (insert p.id p.id parent)

abbrev pub group_of : Map (List Photo) → String → List Photo
group_of groups root = elim (lookup root groups) [ none ↦ [] | some ps ↦ ps ]

-- groups[root] = append(groups[root], p)
unfoldable pub group : ℕ → List Photo → Map String → Map (List Photo) → Option (Map (List Photo))
unfolding find
group rounds [] parent groups = some groups
group rounds (p ∷ photos) parent groups = do
  (root, parent') ← find rounds p.id parent
  group rounds photos parent' (insert root (group_of groups root ++ p ∷ []) groups)

-- Larger files first, and by id among files of one size.
unfoldable pub before_member : Photo → Photo → Bool
before_member p q =
    if not (eq_ℤ p.size_bytes q.size_bytes)
    then ltb_ℤ q.size_bytes p.size_bytes
    else str_lt p.id q.id

-- Larger groups first, and by id among groups of one size.
unfoldable pub before_cluster : Cluster → Cluster → Bool
before_cluster c d =
    if not (length c.photos == length d.photos)
    then ltb (length d.photos) (length c.photos)
    else str_lt c.id d.id

-- The loop over the groups, in any order of the map.
unfoldable pub clusters_of : Map (List Photo) → List Cluster
unfolding before_member
clusters_of [] = []
clusters_of ((root, members) ∷ groups) =
    let rest = clusters_of groups in
    if ltb (length members) 2
    then rest
    else record { id = root; photos = sort_stable before_member members } ∷ rest

unfoldable pub by_time : List Photo → List Photo
by_time = sort_stable (λ p q. ltb_ℤ p.time q.time)

-- Find; a chain of parents is no longer than the map.
unfoldable pub find_clusters : List Photo → ℤ → ℤ → Option (List Cluster)
unfolding hashed_photos by_time singles join_all group clusters_of before_cluster
find_clusters photos threshold window =
    let hashed = hashed_photos photos in
    let sorted = by_time hashed in
    let rounds = suc (length sorted) in
    if ltb (length hashed) 2 then some [] else (do
      parent ← join_all rounds threshold window sorted (singles sorted [])
      groups ← group rounds sorted parent []
      some (sort_stable before_cluster (clusters_of groups)))
