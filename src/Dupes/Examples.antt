-- ===== src/Dupes/Examples.antt =====
-- The theorems on the clusters, at three photos of which two are alike.
use photo_swipe.Prelude.{
  ℕ, ◌^◌, ◌-◌, ◌≡◌, ◌↔◌, refl, String, some, List, [], eq_iff, ◌∷◌, arith, inl, inr,
}
use photo_swipe.Prelude.Int.{pos}
use photo_swipe.Prelude.Map.{lookup, insert}
use photo_swipe.Prelude.Sort.{sort_stable}
use photo_swipe.Prelude.Sorted.{In, All, IsSorted}
use photo_swipe.Store.Photo.{Photo}
use photo_swipe.Store.Examples.{photo}
use photo_swipe.Dupes.{Cluster, hashed_photos, find_clusters, before_cluster}
use photo_swipe.Dupes.Near.{Similar}
use photo_swipe.Dupes.Clusters.{
  find_clusters-Returns, find_clusters-Similar, find_clusters-AreClusters, IsCluster,
}

abbrev pub shot : String → ℕ → ℕ → ℕ → Photo
shot id size time hash = record (photo id) {
  size_bytes = pos size;
  time = pos time;
  dhash = hash;
  dhashed_at = pos 1;
  hash_version = pos 2;
}

abbrev pub first : Photo
first = shot "a" 10 500 7

abbrev pub again : Photo
again = shot "b" 20 520 5

abbrev other : Photo
other = shot "c" 30 510 (2 ^ 40 - 1)

abbrev shots : List Photo
shots = first ∷ again ∷ other ∷ []

abbrev pub pair : Cluster
pair = record { id = "a"; photos = again ∷ first ∷ [] }

clusters_of_shots : find_clusters shots (pos 5) (pos 100) ≡ some (pair ∷ [])
unfolding find_clusters sort_stable lookup insert
clusters_of_shots = refl

find_clusters-Returns_example :
    (clusters : List Cluster) × (find_clusters shots (pos 5) (pos 100) ≡ some clusters)
find_clusters-Returns_example = find_clusters-Returns shots (pos 5) (pos 100)

first-In : In first (hashed_photos shots)
unfolding hashed_photos
first-In = inl refl

again-In : In again (hashed_photos shots)
unfolding hashed_photos
again-In = inr (inl refl)

find_clusters-Similar_example :
    ((c : Cluster) × In c (pair ∷ []) × In first c.photos × In again c.photos)
    ↔ Similar (pos 5) (pos 100) (hashed_photos shots) "a" "b"
find_clusters-Similar_example =
    find_clusters-Similar shots (pos 5) (pos 100) (pair ∷ []) first again
      (omega arith, (omega arith, (omega arith, tt))) clusters_of_shots first-In again-In
      (λ e. ground (arith, (eq_iff "a" "b").1 e))

find_clusters-AreClusters_example :
    All (IsCluster (hashed_photos shots)) (pair ∷ []) × IsSorted before_cluster (pair ∷ [])
find_clusters-AreClusters_example =
    find_clusters-AreClusters shots (pos 5) (pos 100) (pair ∷ []) clusters_of_shots
