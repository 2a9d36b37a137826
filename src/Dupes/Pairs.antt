-- ===== src/Dupes/Pairs.antt =====
-- The break of the inner loop loses no pair: the ids that the joined pairs link are those of near
-- photos.
use photo_swipe.Prelude.{
  ◌≡◌, ◌↔◌, refl, sym, ap, ◌∙◌, String, Bool, true, false, List, [], ◌∷◌, arith, if◌then◌else◌,
  Bool-cases, inl, inr, subst, ◌⊎◌,
}
use photo_swipe.Prelude.Int.{ℤ, ltb_ℤ}
use photo_swipe.Prelude.Sorted.{
  In, All, In-All, IsSorted, Before, Before-In, Before-less, In-Before,
}
use photo_swipe.Store.Photo.{Photo}
use photo_swipe.Dupes.{is_past, is_close}
use photo_swipe.Dupes.Groups.{Pairs, Joined, Linked, same, edge, back, chain}
use photo_swipe.Dupes.Loops.{pairs_with, pairs_all}
use photo_swipe.Dupes.Near.{
  Near, Near-sym, Similar, itself, near, turned, through, IsKnown, is_past_later, is_past-Near,
  Near-is_past,
}

abbrev pub earlier : Photo → Photo → Bool
earlier p q = ltb_ℤ p.time q.time

module _ (threshold window : ℤ) where
  -- What the loops test of a photo and a later one.
  abbrev Passes : Photo → Photo → Type 0
  Passes p q = (is_close threshold p q ≡ true) × (is_past window p q ≡ false)

  pairs_with-keeps :
      (a b : String) (p : Photo) (rest : List Photo) (acc : Pairs)
      → Joined a b acc
      → Joined a b (pairs_with threshold window p rest acc)
  unfolding pairs_with
  pairs_with-keeps a b p [] acc j = j
  pairs_with-keeps a b p (q ∷ rest) acc j = elim (Bool-cases (is_past window p q)) [
    | inl e ↦ rw e j
    | inr e ↦ rw e (
        pairs_with-keeps a b p rest _
          (elim (Bool-cases (is_close threshold p q)) [ inl c ↦ rw c (inr j) | inr c ↦ rw c j ]))
  ]

  pairs_all-keeps :
      (a b : String) (photos : List Photo) (acc : Pairs)
      → Joined a b acc
      → Joined a b (pairs_all threshold window photos acc)
  unfolding pairs_all
  pairs_all-keeps a b [] acc j = j
  pairs_all-keeps a b (p ∷ rest) acc j =
      pairs_all-keeps a b rest (pairs_with threshold window p rest acc)
        (pairs_with-keeps a b p rest acc j)

  -- A pair that passes is joined: what the break leaves out does not pass.
  pairs_with-Joined :
      (p q : Photo) (rest : List Photo) (acc : Pairs)
      → All IsKnown rest
      → IsSorted earlier rest
      → In q rest
      → Passes p q
      → Joined p.id q.id (pairs_with threshold window p rest acc)
  unfolding pairs_with
  pairs_with-Joined p q [] acc k s i c = elim i [ ]
  pairs_with-Joined p q (r ∷ rest) acc (k, ks) (l, s) i (c, e) =
      elim (Bool-cases (is_past window p r)) [
        | inl past ↦ absurd (elim i [
          | inl here ↦ ground (arith, ap (is_past window p) here)
          | inr j ↦ ground (arith, is_past_later window p r q k (In-All _ rest q l j) past)
        ])
        | inr ahead ↦ rw ahead (elim i [
          | inl here ↦
              pairs_with-keeps p.id q.id p rest _
                (rw (sym (ap (is_close threshold p) here) ∙ c) (inl (refl, ap (λ x. x.id) here)))
          | inr j ↦ pairs_with-Joined p q rest _ ks s j (c, e)
        ])
      ]

  pairs_all-Joined :
      (p q : Photo) (photos : List Photo) (acc : Pairs)
      → All IsKnown photos
      → IsSorted earlier photos
      → Before p q photos
      → Passes p q
      → Joined p.id q.id (pairs_all threshold window photos acc)
  unfolding pairs_all
  pairs_all-Joined p q [] acc k s b c = elim b [ ]
  pairs_all-Joined p q (r ∷ rest) acc (_, k) (_, s) (inl (e, i)) c =
      pairs_all-keeps p.id q.id rest (pairs_with threshold window r rest acc) (
        subst (λ x. Joined p.id q.id (pairs_with threshold window x rest acc)) e
          (pairs_with-Joined p q rest acc k s i c))
  pairs_all-Joined p q (r ∷ rest) acc (_, k) (_, s) (inr b) c =
      pairs_all-Joined p q rest (pairs_with threshold window r rest acc) k s b c

  -- The ids are those of two photos in the relation `P` that pass.
  abbrev From : (Photo → Photo → Type 0) → String → String → Type 0
  From P a b = (p : Photo) × (q : Photo) × (a ≡ p.id) × (b ≡ q.id) × P p q × Passes p q

  From-weaken :
      (P Q : Photo → Photo → Type 0)
      → ((p q : Photo) → P p q → Q p q)
      → (a b : String) → From P a b
      → From Q a b
  From-weaken P Q f a b (p, q, e, e', h, c) = (p, q, e, e', f p q h, c)

  pairs_end : (p : Photo) (acc : Pairs) → pairs_with threshold window p [] acc ≡ acc
  unfolding pairs_with
  pairs_end p acc = refl

  pairs_past :
      (p q : Photo) (rest : List Photo) (acc : Pairs)
      → is_past window p q ≡ true
      → pairs_with threshold window p (q ∷ rest) acc ≡ acc
  unfolding pairs_with
  pairs_past p q rest acc e = rw e refl

  pairs_ahead :
      (p q : Photo) (rest : List Photo) (acc : Pairs)
      → is_past window p q ≡ false
      → pairs_with threshold window p (q ∷ rest) acc
        ≡ pairs_with threshold window p rest
            (if is_close threshold p q then (p.id, q.id) ∷ acc else acc)
  unfolding pairs_with
  pairs_ahead p q rest acc e = rw e refl

  Joined-if :
      (a b : String) (p q : Photo) (acc : Pairs)
      → Joined a b (if is_close threshold p q then (p.id, q.id) ∷ acc else acc)
      → Joined a b acc ⊎ ((a ≡ p.id) × (b ≡ q.id) × (is_close threshold p q ≡ true))
  Joined-if a b p q acc = elim (Bool-cases (is_close threshold p q)) [
    | inl c ↦ rw c (λ j. elim j [ inl (e, e') ↦ inr (e, e', refl) | inr j' ↦ inl j' ])
    | inr c ↦ rw c (λ j. inl j)
  ]

  abbrev First : Photo → List Photo → Photo → Photo → Type 0
  First p rest x y = (x ≡ p) × In y rest

  pairs_with-From :
      (a b : String) (p : Photo) (rest : List Photo) (acc : Pairs)
      → Joined a b (pairs_with threshold window p rest acc)
      → Joined a b acc ⊎ From (First p rest) a b
  pairs_with-From a b p [] acc j = inl (subst (Joined a b) (pairs_end p acc) j)
  pairs_with-From a b p (q ∷ rest) acc j = elim (Bool-cases (is_past window p q)) [
    | inl e ↦ inl (subst (Joined a b) (pairs_past p q rest acc e) j)
    | inr e ↦
        elim (pairs_with-From a b p rest _ (subst (Joined a b) (pairs_ahead p q rest acc e) j)) [
          | inr f ↦ inr (
              From-weaken (First p rest) (First p (q ∷ rest)) (λ x y. λ (e', i). (e', inr i)) a b f)
          | inl k ↦ elim (Joined-if a b p q acc k) [
            | inl k' ↦ inl k'
            | inr (ea, eb, c) ↦ inr (p, q, ea, eb, (refl, inl refl), (c, e))
          ]
        ]
  ]

  pairs_all-From :
      (a b : String) (photos : List Photo) (acc : Pairs)
      → Joined a b (pairs_all threshold window photos acc)
      → Joined a b acc ⊎ From (λ p q. Before p q photos) a b
  unfolding pairs_all
  pairs_all-From a b [] acc j = inl j
  pairs_all-From a b (p ∷ rest) acc j =
      elim (pairs_all-From a b rest (pairs_with threshold window p rest acc) j) [
        | inr f ↦ inr (From-weaken _ _ (λ x y i. inr i) a b f)
        | inl k ↦ elim (pairs_with-From a b p rest acc k) [
          | inl k' ↦ inl k'
          | inr f ↦ inr (From-weaken _ _ (λ x y i. inl i) a b f)
        ]
      ]

  -- Photos in order of time, none of them before Go's zero time.
  module _ (photos : List Photo) (known : All IsKnown photos)
      (sorted : IsSorted earlier photos) where
    Near-Joined :
        (p q : Photo)
        → In p photos
        → In q photos
        → Near threshold window p q
        → Linked (pairs_all threshold window photos []) p.id q.id
    Near-Joined p q i j n = elim (In-Before p q photos i j) [
      | inl e ↦ subst (λ x. Linked (pairs_all threshold window photos []) p.id x.id) e (same p.id)
      | inr (inl b) ↦
          edge p.id q.id
            (pairs_all-Joined p q photos [] known sorted b (Near-is_past threshold window p q n))
      | inr (inr b) ↦ back q.id p.id (
          edge q.id p.id (
            pairs_all-Joined q p photos [] known sorted b
              (Near-is_past threshold window q p (Near-sym threshold window p q n))))
    ]

    Joined-Similar :
        (a b : String)
        → Joined a b (pairs_all threshold window photos [])
        → Similar threshold window photos a b
    Joined-Similar a b j = elim (pairs_all-From a b photos [] j) [
      | inl k ↦ elim k [ ]
      | inr (p, q, ea, eb, o, (c, e)) ↦
          let (i, i') = Before-In p q photos o in
          let n = is_past-Near threshold window p q (Before-less earlier p q photos sorted o) c e in
          subst (λ x. Similar threshold window photos x b) (sym ea)
            (subst (Similar threshold window photos p.id) (sym eb) (near p q i i' n))
    ]

    pub Linked-Similar :
        (a b : String)
        → Linked (pairs_all threshold window photos []) a b ↔ Similar threshold window photos a b
    Linked-Similar a b = (there a b, here a b)
      where
        there :
            (a b : String)
            → Linked (pairs_all threshold window photos []) a b
            → Similar threshold window photos a b
        there a b (same _) = itself a
        there a b (edge _ _ j) = Joined-Similar a b j
        there a b (back _ _ l) = turned b a (there b a l)
        there a c (chain _ b _ l l') = through a b c (there a b l) (there b c l')

        here :
            (a b : String)
            → Similar threshold window photos a b
            → Linked (pairs_all threshold window photos []) a b
        here a b (itself _) = same a
        here a b (near p q i j n) = Near-Joined p q i j n
        here a b (turned _ _ l) = back b a (here b a l)
        here a c (through _ b _ l l') = chain a b c (here a b l) (here b c l')
