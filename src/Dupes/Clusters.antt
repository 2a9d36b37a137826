-- ===== src/Dupes/Clusters.antt =====
-- What the clusters of Find are.
use photo_swipe.Prelude.{
  ◌≡◌, ◌≢◌, ◌↔◌, ◌≤◌, sym, ap, ◌∙◌, String, true, false, some, List, [], ◌∷◌, arith, length, inl,
  inr, subst, Bool-cases,
}
use photo_swipe.Prelude.Int.{ℤ}
use photo_swipe.Prelude.Sorted.{
  In, All, All-In, In-All, IsSorted, In-kept, In-dropped, length-sort_stable,
}
use photo_swipe.Prelude.Text.{str_lt}
use photo_swipe.Store.Photo.{Photo}
use photo_swipe.Dupes.{
  Cluster, hashed_photos, takes_part, by_time, before_member, before_cluster, find_clusters,
}
use photo_swipe.Dupes.Groups.{root-eq-Linked}
use photo_swipe.Dupes.Near.{Similar, itself, near, turned, through, IsKnown}
use photo_swipe.Dupes.Pairs.{Linked-Similar}
use photo_swipe.Dupes.Start.{ids_of, In-ids_of, with_root}
use photo_swipe.Dupes.Ranked.{ranked-IsSorted}
use photo_swipe.Dupes.Run.{Run, find_clusters-Run, by_time-IsSorted, In-by_time}
use photo_swipe.Dupes.Members.{In-cluster, together, least, held}

-- Find returns its clusters: no chain of parents is longer than the rounds that are given.
pub find_clusters-Returns :
    (photos : List Photo) (threshold window : ℤ)
    → (clusters : List Cluster) × (find_clusters photos threshold window ≡ some clusters)
find_clusters-Returns photos threshold window =
    let (clusters, ran, _) = find_clusters-Run photos threshold window in (clusters, ran)

the_Run :
    (photos : List Photo) (threshold window : ℤ) (clusters : List Cluster)
    → find_clusters photos threshold window ≡ some clusters
    → Run threshold window (by_time (hashed_photos photos)) clusters
the_Run photos threshold window clusters e =
    let (clusters', ran, r) = find_clusters-Run photos threshold window in
    subst (Run threshold window (by_time (hashed_photos photos))) (some_inj (sym ran ∙ e)) r
  where
    some_inj : {a b : List Cluster} → some a ≡ some b → a ≡ b
    some_inj h = ground (arith, h)

In-hashed_photos :
    (p : Photo) (photos : List Photo)
    → In p (hashed_photos photos) ↔ (In p photos × (takes_part p ≡ true))
unfolding hashed_photos
In-hashed_photos p [] = (λ i. elim i [ ], λ i. i.0)
In-hashed_photos p (q ∷ photos) = elim (Bool-cases (takes_part q)) [
  | inl e ↦ rw e (
      In-kept (λ x. takes_part x ≡ true) p q photos (hashed_photos photos) e
        (In-hashed_photos p photos))
  | inr e ↦ rw e (
      In-dropped (λ x. takes_part x ≡ true) p q photos (hashed_photos photos)
        (λ h. absurd (ground arith)) (In-hashed_photos p photos))
]

Similar-In :
    (threshold window : ℤ) (photos photos' : List Photo)
    → ((p : Photo) → In p photos → In p photos')
    → (a b : String) → Similar threshold window photos a b
    → Similar threshold window photos' a b
Similar-In threshold window photos photos' f a b (itself _) = itself a
Similar-In threshold window photos photos' f a b (near p q i j n) = near p q (f p i) (f q j) n
Similar-In threshold window photos photos' f a b (turned _ _ l) =
    turned b a (Similar-In threshold window photos photos' f b a l)
Similar-In threshold window photos photos' f a c (through _ b _ l l') =
    through a b c (Similar-In threshold window photos photos' f a b l)
      (Similar-In threshold window photos photos' f b c l')

-- Two photos that take part, with different ids, are in one cluster exactly if a chain of photos
-- that take part leads from one to the other, in which each is near the next. No time of a photo is
-- before Go's zero time.
pub find_clusters-Similar :
    (photos : List Photo) (threshold window : ℤ) (clusters : List Cluster) (p q : Photo)
    → All IsKnown photos
    → find_clusters photos threshold window ≡ some clusters
    → In p (hashed_photos photos)
    → In q (hashed_photos photos)
    → p.id ≢ q.id
    → ((c : Cluster) × In c clusters × In p c.photos × In q c.photos)
      ↔ Similar threshold window (hashed_photos photos) p.id q.id
find_clusters-Similar photos threshold window clusters p q known e i j ne =
    let hashed = hashed_photos photos in
    let sorted = by_time hashed in
    let r = the_Run photos threshold window clusters e in
    let i' = (In-by_time p hashed).1 i in
    let j' = (In-by_time q hashed).1 j in
    let all = All-In IsKnown sorted λ x k.
      In-All IsKnown photos x known ((In-hashed_photos x photos).0 ((In-by_time x hashed).0 k)).0 in
    let (to, from) = together threshold window sorted clusters r p q i' j' ne in
    let (to', from') =
      root-eq-Linked (ids_of sorted) _ r.root r.parent r.solves p.id q.id (In-ids_of p sorted i')
        (In-ids_of q sorted j') in
    let (to'', from'') =
      Linked-Similar threshold window sorted all (by_time-IsSorted hashed) p.id q.id in
    (
      λ k.
          Similar-In threshold window sorted hashed (λ x. (In-by_time x hashed).0) p.id q.id
            (to'' (to' (to k))),
      λ s. from (
          from' (
            from'' (
              Similar-In threshold window hashed sorted (λ x. (In-by_time x hashed).1) p.id q.id
                s))),
    )

-- What a cluster of the photos `hashed` is: two of them or more, in the order of before_member, and
-- its id that of the photo with the least id.
pub record IsCluster (hashed : List Photo) (c : Cluster) : Type 0 where
  pub several : 2 ≤ length c.photos
  pub inside : All (λ p. In p hashed) c.photos
  pub in_order : IsSorted before_member c.photos
  pub own : (p : Photo) × In p c.photos × (p.id ≡ c.id)
  pub least : All (λ p. str_lt p.id c.id ≡ false) c.photos

-- Each cluster has at least two photos, all of which take part, the larger ones first and those of
-- one size by id; its id is the least of their ids; and the clusters stand with the larger ones
-- first and those of one size by id.
pub find_clusters-AreClusters :
    (photos : List Photo) (threshold window : ℤ) (clusters : List Cluster)
    → find_clusters photos threshold window ≡ some clusters
    → All (IsCluster (hashed_photos photos)) clusters × IsSorted before_cluster clusters
find_clusters-AreClusters photos threshold window clusters e =
    let hashed = hashed_photos photos in
    let sorted = by_time hashed in
    let r = the_Run photos threshold window clusters e in
    (
      All-In (IsCluster hashed) clusters λ c i.
          let (large, made) = (r.made c).0 i in
          let members = with_root r.root c.id sorted in
          let shown = sym (ap (λ d. d.photos) made) in
          record {
            several =
                subst (λ l. 2 ≤ length l) shown
                  (omega (arith, large, length-sort_stable before_member members));
            inside = All-In _ c.photos λ p j.
                (In-by_time p hashed).0
                  ((In-cluster threshold window sorted clusters r c p i).0 j).0;
            in_order = subst (IsSorted before_member) shown (ranked-IsSorted members);
            own = held threshold window sorted clusters r c i;
            least = All-In _ c.photos (least threshold window sorted clusters r c i);
          },
      r.in_order,
    )
