-- ===== src/Dupes/Merge.antt =====
-- One group joins another: the map of parents once a root points at a lesser one.
use photo_swipe.Prelude.{
  ◌≡◌, refl, sym, ap, ◌∙◌, String, true, false, List, ◌∷◌, arith, mem, str_eq, eq_iff, eq_refl,
  if◌then◌else◌, Bool-cases, inl, inr, subst, ◌⊎◌,
}
use photo_swipe.Prelude.Map.{Map, insert}
use photo_swipe.Prelude.Text.{str_lt, str_lt_irrefl, str_lt_trans}
use photo_swipe.Dupes.Forest.{IsForest, IsRoot, insert-IsForest}
use photo_swipe.Dupes.Groups.{Pairs, Joined, Linked, edge, back, chain, Linked-cons, Solves}

-- The representatives once the group of `large` has joined that of `small`.
abbrev pub merged : String → String → (String → String) → String → String
merged small large root x = if str_eq (root x) large then small else root x

merged_cases :
    (small large : String) (root : String → String) (x : String)
    → ((root x ≡ large) × (merged small large root x ≡ small))
      ⊎ ((str_eq (root x) large ≡ false) × (merged small large root x ≡ root x))
merged_cases small large root x = elim (Bool-cases (str_eq (root x) large)) [
  | inl e ↦ inl ((eq_iff (root x) large).0 e, rw e refl)
  | inr e ↦ inr (e, rw e refl)
]

-- Two roots, of which `small` comes first.
module _ (ids : List String) (root : String → String) (roots : IsRoot ids root)
    (small large : String) (hs : mem small ids ≡ true) (hl : mem large ids ≡ true)
    (rs : root small ≡ small) (rl : root large ≡ large) (lt : str_lt small large ≡ true) where
  differ : str_eq small large ≡ false
  differ =
      ground (arith, eq_iff small large, ap {A = String} (λ x. str_lt x large), str_lt_irrefl large)

  merged-small : merged small large root small ≡ small
  merged-small = rw (rs, differ) refl

  merged-large : merged small large root large ≡ small
  merged-large = rw (rl, eq_refl large) refl

  abbrev pick : String → String
  pick r = if str_eq r large then small else r

  below : (x : String) → mem x ids ≡ true → root x ≡ large → str_lt small x ≡ true
  below x h at = elim (Bool-cases (str_eq (root x) x)) [
    | inl e ↦ subst (λ r. str_lt small r ≡ true) (sym at ∙ (eq_iff (root x) x).0 e) lt
    | inr e ↦ str_lt_trans small large x lt (subst (λ r. str_lt r x ≡ true) at (roots.least x h e))
  ]

  off_large : (y : String) → str_eq large y ≡ false → root y ≡ y → merged small large root y ≡ y
  off_large y ne e = rw (e, merged) (ground (arith, eq_iff y large, eq_iff large y))

  merge-IsRoot : IsRoot ids (merged small large root)
  merge-IsRoot = record {
    inside = λ x h. elim (merged_cases small large root x) [
      | inl (_, e) ↦ rw e hs
      | inr (_, e) ↦ rw e (roots.inside x h)
    ];
    again = λ x h. elim (merged_cases small large root x) [
      | inl (_, e) ↦ ap (merged small large root) e ∙ merged-small ∙ sym e
      | inr (ne, e) ↦ ap (merged small large root) e ∙ ap pick (roots.again x h)
    ];
    least = λ x h ne. elim (merged_cases small large root x) [
      | inl (at, e) ↦ subst (λ r. str_lt r x ≡ true) (sym e) (below x h at)
      | inr (_, e) ↦
          subst (λ r. str_lt r x ≡ true) (sym e)
            (roots.least x h (ap (λ r. str_eq r x) (sym e) ∙ ne))
    ];
  }

  merge-IsForest :
      (parent : Map String)
      → IsForest ids root parent
      → IsForest ids (merged small large root) (insert large small parent)
  merge-IsForest parent f =
      insert-IsForest ids _ parent large small hl
        (record {
          closed = hs;
          lesser = λ _. lt;
          along = merged-small ∙ sym merged-large;
          top = λ e. absurd (ground (arith, differ));
        })
        f.keys
        (λ y ne h.
          let fit = f.fits y h in
          record {
            closed = fit.closed;
            lesser = fit.lesser;
            along = ap pick fit.along;
            top = λ e. off_large y ne (fit.top e);
          })

  merged_onto :
      (x : String) → (root x ≡ small) ⊎ (root x ≡ large) → merged small large root x ≡ small
  merged_onto x (inl e) = ap pick e ∙ ground (arith, differ)
  merged_onto x (inr e) = ap pick e ∙ ground (arith, eq_refl large)

  pub merge-Solves :
      (pairs : Pairs) (parent : Map String) (a b : String)
      → Solves ids pairs root parent
      → (root a ≡ small) ⊎ (root a ≡ large)
      → (root b ≡ small) ⊎ (root b ≡ large)
      → Linked ((a, b) ∷ pairs) large small
      → Solves ids ((a, b) ∷ pairs) (merged small large root) (insert large small parent)
  merge-Solves pairs parent a b s ha hb link = record {
    roots = merge-IsRoot;
    forest = merge-IsForest parent s.forest;
    sound = λ x h. sound x h (Linked-cons (a, b) pairs x (root x) (s.sound x h));
    joined = joined;
  }
    where
      sound :
          (x : String)
          → mem x ids ≡ true
          → Linked ((a, b) ∷ pairs) x (root x)
          → Linked ((a, b) ∷ pairs) x (merged small large root x)
      sound x h l = elim (merged_cases small large root x) [
        | inl (at, e) ↦
            subst (Linked ((a, b) ∷ pairs) x) (sym e)
              (chain x large small (subst (Linked ((a, b) ∷ pairs) x) at l) link)
        | inr (_, e) ↦ subst (Linked ((a, b) ∷ pairs) x) (sym e) l
      ]

      joined :
          (c d : String)
          → Joined c d ((a, b) ∷ pairs)
          → merged small large root c ≡ merged small large root d
      joined c d (inl (e, e')) =
          ap (merged small large root) e
          ∙ merged_onto a ha
          ∙ sym (merged_onto b hb)
          ∙ ap (merged small large root) (sym e')
      joined c d (inr j) = ap pick (s.joined c d j)

module _ (ids : List String) (pairs : Pairs) (root : String → String) where
  -- `a` and `b` had one root already.
  pub keep-Solves :
      (parent : Map String) (a b : String)
      → Solves ids pairs root parent
      → root a ≡ root b
      → Solves ids ((a, b) ∷ pairs) root parent
  keep-Solves parent a b s e = record {
    roots = s.roots;
    forest = s.forest;
    sound = λ x h. Linked-cons (a, b) pairs x (root x) (s.sound x h);
    joined = joined;
  }
    where
      joined : (c d : String) → Joined c d ((a, b) ∷ pairs) → root c ≡ root d
      joined c d (inl (p, q)) = ap root p ∙ e ∙ ap root (sym q)
      joined c d (inr j) = s.joined c d j

  -- The roots of a new pair are linked.
  pub roots-Linked :
      (parent : Map String) (a b : String)
      → Solves ids pairs root parent
      → mem a ids ≡ true
      → mem b ids ≡ true
      → Linked ((a, b) ∷ pairs) (root a) (root b)
  roots-Linked parent a b s ha hb =
      let la = Linked-cons (a, b) pairs a (root a) (s.sound a ha) in
      let lb = Linked-cons (a, b) pairs b (root b) (s.sound b hb) in
      chain (root a) a (root b) (back a (root a) la)
        (chain a b (root b) (edge a b (inl (refl, refl))) lb)
