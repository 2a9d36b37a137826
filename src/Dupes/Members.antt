-- ===== src/Dupes/Members.antt =====
-- The members of the clusters of a run of Find.
use photo_swipe.Prelude.{
  ◌≡◌, ◌≢◌, ◌↔◌, ◌≤◌, refl, sym, ap, ◌∙◌, false, List, [], ◌∷◌, arith, length, mem, str_eq, eq_iff,
  inl, inr, subst, Bool-cases,
}
use photo_swipe.Prelude.Int.{ℤ}
use photo_swipe.Prelude.Sorted.{In, In-sort_stable}
use photo_swipe.Prelude.Text.{str_lt, str_lt_irrefl, str_lt_asym}
use photo_swipe.Store.Photo.{Photo}
use photo_swipe.Dupes.{Cluster, before_member}
use photo_swipe.Dupes.Start.{ids_of, In-ids_of, ids_of-In, with_root, In-with_root}
use photo_swipe.Dupes.Ranked.{ranked}
use photo_swipe.Dupes.Run.{Run}

-- Two places of a list.
length-In :
    (p q : Photo) (photos : List Photo)
    → In p photos
    → In q photos
    → p.id ≢ q.id
    → 2 ≤ length photos
length-In p q [] i j ne = elim i [ ]
length-In p q (r ∷ []) i j ne = absurd (ground (arith, i, j, ne))
length-In p q (r ∷ s ∷ photos) i j ne = omega arith

first-In : (photos : List Photo) → 2 ≤ length photos → (p : Photo) × In p photos
first-In [] h = absurd (omega arith)
first-In (p ∷ photos) h = (p, inl refl)

module _ (threshold window : ℤ) (sorted : List Photo) (clusters : List Cluster)
    (r : Run threshold window sorted clusters) where
  -- A cluster's photos are those of its root.
  pub In-cluster :
      (c : Cluster) (p : Photo)
      → In c clusters
      → In p c.photos ↔ (In p sorted × (r.root p.id ≡ c.id))
  In-cluster c p i =
      let (_, e) = (r.made c).0 i in
      let members = with_root r.root c.id sorted in
      subst (λ l. In p l ↔ (In p sorted × (r.root p.id ≡ c.id))) (sym (ap (λ d. d.photos) e))
        (let (to, from) = In-sort_stable before_member p members in
          let (to', from') = In-with_root r.root c.id p sorted in
          (λ j. to' (to j), λ m. from (from' m)))

  -- Two photos of different ids stand in one cluster exactly if they have one root.
  pub together :
      (p q : Photo)
      → In p sorted
      → In q sorted
      → p.id ≢ q.id
      → ((c : Cluster) × In c clusters × In p c.photos × In q c.photos)
        ↔ (r.root p.id ≡ r.root q.id)
  together p q i j ne = (
    λ (c, k, ip, iq). ((In-cluster c p k).0 ip).1 ∙ sym ((In-cluster c q k).0 iq).1,
    λ e.
        let members = with_root r.root (r.root p.id) sorted in
        let c = ranked (r.root p.id) members in
        let mp = (In-with_root r.root (r.root p.id) p sorted).1 (i, refl) in
        let mq = (In-with_root r.root (r.root p.id) q sorted).1 (j, sym e) in
        let k = (r.made c).1 (length-In p q members mp mq ne, refl) in
        (c, k, (In-cluster c p k).1 (i, refl), (In-cluster c q k).1 (j, sym e)),
  )

  -- The id is that of the photo with the least id.
  pub least : (c : Cluster) → In c clusters → (p : Photo) → In p c.photos → str_lt p.id c.id ≡ false
  least c i p ip =
      let (j, e) = (In-cluster c p i).0 ip in
      elim (Bool-cases (str_eq (r.root p.id) p.id)) [
        | inl h ↦
            ap (λ x. str_lt x c.id) (sym ((eq_iff (r.root p.id) p.id).0 h) ∙ e) ∙ str_lt_irrefl c.id
        | inr h ↦
            str_lt_asym c.id p.id
              (ap (λ x. str_lt x p.id) (sym e) ∙ r.solves.roots.least p.id (In-ids_of p sorted j) h)
      ]

  pub held : (c : Cluster) → In c clusters → (p : Photo) × In p c.photos × (p.id ≡ c.id)
  held c i =
      let (large, _) = (r.made c).0 i in
      let (m, k) = first-In (with_root r.root c.id sorted) large in
      let (j, e) = (In-with_root r.root c.id m sorted).0 k in
      let known = In-ids_of m sorted j in
      let (p, ip, h) =
        ids_of-In c.id sorted
          (ap (λ x. mem x (ids_of sorted)) (sym e) ∙ r.solves.roots.inside m.id known) in
      let top = ap r.root (h ∙ sym e) ∙ r.solves.roots.again m.id known ∙ e in
      (p, (In-cluster c p i).1 (ip, top), h)
