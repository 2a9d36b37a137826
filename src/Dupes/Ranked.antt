-- ===== src/Dupes/Ranked.antt =====
-- The clusters made of the groups, and the order of their photos and of the clusters.
use photo_swipe.Prelude.{
  ◌≡◌, ◌↔◌, ◌≤◌, ◌<◌, ◌⊎◌, ltb→lt, refl, sym, ap, ◌∙◌, String, true, false, none, List, [], ◌∷◌,
  arith, length, ltb, str_eq, eq_iff, Bool-cases, inl, inr, subst,
}
use photo_swipe.Prelude.Map.{Map, lookup, IsUnique}
use photo_swipe.Prelude.Sort.{sort_stable}
use photo_swipe.Prelude.Sorted.{In, IsSorted, sort_stable-IsSorted}
use photo_swipe.Prelude.Text.{str_lt_asym, str_lt_through}
use photo_swipe.Store.Photo.{Photo}
use photo_swipe.Dupes.{Cluster, clusters_of, group_of, before_member, before_cluster}

-- The cluster of a group.
abbrev pub ranked : String → List Photo → Cluster
ranked root members = record { id = root; photos = sort_stable before_member members }

-- `c` is the cluster of the photos `members`.
abbrev pub Made : Cluster → List Photo → Type 0
Made c members = (2 ≤ length members) × (c ≡ ranked c.id members)

group_of-head :
    (root x : String) (members : List Photo) (groups : Map (List Photo))
    → str_eq root x ≡ true
    → group_of ((root, members) ∷ groups) x ≡ members
unfolding lookup
group_of-head root x members groups e = rw (e, group_of) refl

group_of-tail :
    (root x : String) (members : List Photo) (groups : Map (List Photo))
    → str_eq root x ≡ false
    → group_of ((root, members) ∷ groups) x ≡ group_of groups x
unfolding lookup
group_of-tail root x members groups e = rw (e, group_of) refl

-- The group of a root that is not there is empty.
Made-fresh :
    (c : Cluster) (root : String) (groups : Map (List Photo))
    → lookup root groups ≡ none
    → str_eq root c.id ≡ true
    → ¬ Made c (group_of groups c.id)
Made-fresh c root groups fresh e (h, _) = absurd (omega (arith, ap length empty))
  where
    empty : group_of groups c.id ≡ []
    empty = ap (group_of groups) (sym ((eq_iff root c.id).0 e)) ∙ rw (fresh, group_of) refl

In-large :
    (c : Cluster) (root : String) (members : List Photo) (groups : Map (List Photo))
    → 2 ≤ length members
    → lookup root groups ≡ none
    → In c (clusters_of groups) ↔ Made c (group_of groups c.id)
    → ((c ≡ ranked root members) ⊎ In c (clusters_of groups))
      ↔ Made c (group_of ((root, members) ∷ groups) c.id)
In-large c root members groups large fresh (to, from) = elim (Bool-cases (str_eq root c.id)) [
  | inl e ↦
      let here = (eq_iff root c.id).0 e in
      subst (λ l. ((c ≡ ranked root members) ⊎ In c (clusters_of groups)) ↔ Made c l)
        (sym (group_of-head root c.id members groups e))
        (
          λ i. elim i [
            | inl k ↦ (large, k ∙ ap (λ x. ranked x members) here)
            | inr j ↦ absurd (Made-fresh c root groups fresh e (to j))
          ],
          λ (h, k). inl (k ∙ ap (λ x. ranked x members) (sym here)),
        )
  | inr e ↦
      subst (λ l. ((c ≡ ranked root members) ⊎ In c (clusters_of groups)) ↔ Made c l)
        (sym (group_of-tail root c.id members groups e))
        (
          λ i. elim i [
            | inl k ↦ absurd (ground (arith, eq_iff root c.id, ap (λ d. d.id) k))
            | inr j ↦ to j
          ],
          λ m. inr (from m),
        )
]

In-small :
    (c : Cluster) (root : String) (members : List Photo) (groups : Map (List Photo))
    → length members < 2
    → lookup root groups ≡ none
    → In c (clusters_of groups) ↔ Made c (group_of groups c.id)
    → In c (clusters_of groups) ↔ Made c (group_of ((root, members) ∷ groups) c.id)
In-small c root members groups small fresh (to, from) = elim (Bool-cases (str_eq root c.id)) [
  | inl e ↦
      subst (λ l. In c (clusters_of groups) ↔ Made c l)
        (sym (group_of-head root c.id members groups e))
        (λ i. absurd (Made-fresh c root groups fresh e (to i)), λ (h, _). absurd (omega arith))
  | inr e ↦
      subst (λ l. In c (clusters_of groups) ↔ Made c l)
        (sym (group_of-tail root c.id members groups e)) (to, from)
]

-- The clusters are those of the groups of two photos or more.
pub In-clusters_of :
    (c : Cluster) (groups : Map (List Photo))
    → IsUnique groups
    → In c (clusters_of groups) ↔ Made c (group_of groups c.id)
unfolding clusters_of lookup
In-clusters_of c [] u = (λ i. elim i [ ], λ (h, e). absurd (omega arith))
In-clusters_of c ((root, members) ∷ groups) (fresh, u) =
    let below = In-clusters_of c groups u in
    elim (Bool-cases (ltb (length members) 2)) [
      | inl e ↦ rw e (In-small c root members groups (ltb→lt _ 2 e) fresh below)
      | inr e ↦ rw e (In-large c root members groups (ground arith) fresh below)
    ]

before_member_asym : (p q : Photo) → before_member p q ≡ true → before_member q p ≡ false
unfolding before_member
before_member_asym p q h = ground (arith, str_lt_asym p.id q.id)

before_member_through :
    (p q r : Photo)
    → before_member p q ≡ false
    → before_member q r ≡ false
    → before_member p r ≡ false
unfolding before_member
before_member_through p q r h k = ground (arith, str_lt_through p.id q.id r.id)

before_cluster_asym : (c d : Cluster) → before_cluster c d ≡ true → before_cluster d c ≡ false
unfolding before_cluster
before_cluster_asym c d h = ground (arith, str_lt_asym c.id d.id)

before_cluster_through :
    (c d e : Cluster)
    → before_cluster c d ≡ false
    → before_cluster d e ≡ false
    → before_cluster c e ≡ false
unfolding before_cluster
before_cluster_through c d e h k = ground (arith, str_lt_through c.id d.id e.id)

pub ranked-IsSorted :
    (members : List Photo) → IsSorted before_member (sort_stable before_member members)
ranked-IsSorted members =
    sort_stable-IsSorted before_member before_member_asym before_member_through members

pub clusters-IsSorted :
    (clusters : List Cluster) → IsSorted before_cluster (sort_stable before_cluster clusters)
clusters-IsSorted clusters =
    sort_stable-IsSorted before_cluster before_cluster_asym before_cluster_through clusters
