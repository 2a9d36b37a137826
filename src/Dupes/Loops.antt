-- ===== src/Dupes/Loops.antt =====
-- The two loops of Find over the pairs: the pairs that they join, in the order of the loops.
use photo_swipe.Prelude.{
  ℕ, ◌<◌, ◌≡◌, refl, String, true, Option, some, List, [], ◌∷◌, length, mem, if◌then◌else◌,
  Bool-cases, inl, inr,
}
use photo_swipe.Prelude.Int.{ℤ}
use photo_swipe.Prelude.Map.{Map}
use photo_swipe.Prelude.Sorted.{All}
use photo_swipe.Store.Photo.{Photo}
use photo_swipe.Dupes.{union, is_past, is_close, join_with, join_all}
use photo_swipe.Dupes.Groups.{Pairs, Solves}
use photo_swipe.Dupes.Union.{union_lem}

module _ (threshold window : ℤ) where
  -- The pairs that the inner loop joins, before those of `acc`.
  unfoldable pub pairs_with : Photo → List Photo → Pairs → Pairs
  pairs_with p [] acc = acc
  pairs_with p (q ∷ rest) acc =
      let next = pairs_with p rest (if is_close threshold p q then (p.id, q.id) ∷ acc else acc) in
      if is_past window p q then acc else next

  unfoldable pub pairs_all : List Photo → Pairs → Pairs
  unfolding pairs_with
  pairs_all [] acc = acc
  pairs_all (p ∷ rest) acc = pairs_all rest (pairs_with p rest acc)

  -- What a loop gives that has joined `pairs`.
  abbrev pub Joins : List String → Pairs → Option (Map String) → Type 0
  Joins ids pairs result =
      (root : String → String) × (parent : Map String) × (result ≡ some parent)
      × Solves ids pairs root parent

  module _ (ids : List String) (rounds : ℕ) (enough : length ids < rounds) where
    abbrev AreIn : List Photo → Type 0
    AreIn photos = All (λ p. mem p.id ids ≡ true) photos

    join_one :
        (p q : Photo) (acc : Pairs) (root : String → String) (parent : Map String)
        → mem p.id ids ≡ true
        → mem q.id ids ≡ true
        → Solves ids acc root parent
        → Joins ids
            (if is_close threshold p q then (p.id, q.id) ∷ acc else acc)
            (if is_close threshold p q then union rounds p.id q.id parent else some parent)
    join_one p q acc root parent hp hq s = elim (Bool-cases (is_close threshold p q)) [
      | inl e ↦ rw e (union_lem ids acc root parent rounds p.id q.id enough s hp hq)
      | inr e ↦ rw e (root, parent, refl, s)
    ]

    join_with-Joins :
        (p : Photo) (rest : List Photo) (acc : Pairs) (root : String → String) (parent : Map String)
        → mem p.id ids ≡ true
        → AreIn rest
        → Solves ids acc root parent
        → Joins ids (pairs_with p rest acc) (join_with rounds threshold window p rest parent)
    unfolding pairs_with join_with
    join_with-Joins p [] acc root parent hp h s = (root, parent, refl, s)
    join_with-Joins p (q ∷ rest) acc root parent hp (hq, h) s =
        elim (Bool-cases (is_past window p q)) [
          | inl e ↦ rw e (root, parent, refl, s)
          | inr e ↦
              let (root', parent', ran, s') = join_one p q acc root parent hp hq s in
              rw (e, ran) (join_with-Joins p rest _ root' parent' hp h s')
        ]

    pub join_all-Joins :
        (photos : List Photo) (acc : Pairs) (root : String → String) (parent : Map String)
        → AreIn photos
        → Solves ids acc root parent
        → Joins ids (pairs_all photos acc) (join_all rounds threshold window photos parent)
    unfolding pairs_all join_all
    join_all-Joins [] acc root parent h s = (root, parent, refl, s)
    join_all-Joins (p ∷ rest) acc root parent (hp, h) s =
        let (root', parent', ran, s') = join_with-Joins p rest acc root parent hp h s in
        rw ran (join_all-Joins rest (pairs_with p rest acc) root' parent' h s')
