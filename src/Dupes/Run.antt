-- ===== src/Dupes/Run.antt =====
-- Find as a whole: what its loops, its groups and its sorts leave.
use photo_swipe.Prelude.{
  ◌>>=◌, ℕ, suc, ◌≡◌, ◌↔◌, ◌<◌, refl, String, true, Option, some, List, [], arith, length, ltb,
  ltb→lt, mem, Bool-cases, inl, inr, subst,
}
use photo_swipe.Prelude.Int.{ℤ}
use photo_swipe.Prelude.Map.{Map, lookup}
use photo_swipe.Prelude.Sort.{sort_stable}
use photo_swipe.Prelude.Sorted.{
  In, All, All-In, IsSorted, In-sort_stable, length-sort_stable, sort_stable-IsSorted,
}
use photo_swipe.Store.Photo.{Photo}
use photo_swipe.Dupes.{
  Cluster, hashed_photos, by_time, singles, join_all, group, clusters_of, before_cluster,
  find_clusters,
}
use photo_swipe.Dupes.Groups.{Solves}
use photo_swipe.Dupes.Loops.{join_all-Joins, pairs_all}
use photo_swipe.Dupes.Pairs.{earlier}
use photo_swipe.Dupes.Start.{
  ids_of, length-ids_of, In-ids_of, singles-Solves, with_root, length-with_root-le, group_lem,
}
use photo_swipe.Dupes.Ranked.{Made, In-clusters_of, clusters-IsSorted}

pub by_time-IsSorted : (photos : List Photo) → IsSorted earlier (by_time photos)
unfolding by_time
by_time-IsSorted photos =
    sort_stable-IsSorted earlier (λ p q h. ground arith) (λ p q r h k. ground arith) photos

pub In-by_time : (p : Photo) (photos : List Photo) → In p (by_time photos) ↔ In p photos
unfolding by_time
In-by_time p photos = In-sort_stable earlier p photos

length-by_time : (photos : List Photo) → length (by_time photos) ≡ length photos
unfolding by_time
length-by_time photos = length-sort_stable earlier photos

-- The clusters are those of the groups that the joined pairs generate among the sorted photos.
pub record Run (threshold window : ℤ) (sorted : List Photo) (clusters : List Cluster) : Type 0 where
  pub root : String → String
  pub parent : Map String
  pub solves : Solves (ids_of sorted) (pairs_all threshold window sorted []) root parent
  pub made : (c : Cluster) → In c clusters ↔ Made c (with_root root c.id sorted)
  pub in_order : IsSorted before_cluster clusters

-- The loops, run on any photos with enough rounds.
abbrev from_sorted : ℕ → ℤ → ℤ → List Photo → Option (List Cluster)
from_sorted rounds threshold window sorted = do
  parent ← join_all rounds threshold window sorted (singles sorted [])
  groups ← group rounds sorted parent []
  some (sort_stable before_cluster (clusters_of groups))

from_sorted-Run :
    (rounds : ℕ) (threshold window : ℤ) (sorted : List Photo)
    → length sorted < rounds
    → (clusters : List Cluster) × (from_sorted rounds threshold window sorted ≡ some clusters)
      × Run threshold window sorted clusters
unfolding lookup
from_sorted-Run rounds threshold window sorted h =
    let ids = ids_of sorted in
    let enough : length ids < rounds = omega (arith, h, length-ids_of sorted) in
    let inside : All (λ p. mem p.id ids ≡ true) sorted =
      All-In _ sorted (λ p. In-ids_of p sorted) in
    let (root, parent, ran, s) =
      join_all-Joins threshold window ids rounds enough sorted [] (λ x. x) (singles sorted [])
        inside (singles-Solves sorted) in
    let (groups, grouped, u, g) =
      group_lem ids rounds enough root s.roots sorted parent [] inside s.forest tt in
    let clusters = sort_stable before_cluster (clusters_of groups) in
    (
      clusters,
      rw (ran, grouped) refl,
      record {
        root = root;
        parent = parent;
        solves = s;
        made = λ c.
            subst (λ l. In c clusters ↔ Made c l) (g c.id)
              (let (to, from) = In-sort_stable before_cluster c (clusters_of groups) in
                let (to', from') = In-clusters_of c groups u in
                (λ i. to' (to i), λ m. from (from' m)));
        in_order = clusters-IsSorted (clusters_of groups);
      },
    )

-- Fewer than two photos make no cluster.
few-Run :
    (threshold window : ℤ) (sorted : List Photo)
    → length sorted < 2
    → Run threshold window sorted []
few-Run threshold window sorted h =
    let (_, _, r) = from_sorted-Run 2 threshold window sorted h in
    record {
      root = r.root;
      parent = r.parent;
      solves = r.solves;
      made = λ c. (
        λ i. elim i [ ],
        λ (k, _). absurd (omega (arith, length-with_root-le r.root c.id sorted)),
      );
      in_order = tt;
    }

-- Find never runs out of rounds.
pub find_clusters-Run :
    (photos : List Photo) (threshold window : ℤ)
    → (clusters : List Cluster) × (find_clusters photos threshold window ≡ some clusters)
      × Run threshold window (by_time (hashed_photos photos)) clusters
unfolding find_clusters
find_clusters-Run photos threshold window =
    let sorted = by_time (hashed_photos photos) in
    elim (Bool-cases (ltb (length (hashed_photos photos)) 2)) [
      | inl e ↦ (
        [],
        rw e refl,
        few-Run threshold window sorted
            (omega (arith, ltb→lt _ 2 e, length-by_time (hashed_photos photos))),
      )
      | inr e ↦
          let (clusters, ran, r) =
            from_sorted-Run (suc (length sorted)) threshold window sorted (omega arith) in
          (clusters, rw e ran, r)
    ]
