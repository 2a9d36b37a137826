-- ===== src/Dupes/Groups.antt =====
-- The groups that joined pairs generate, and what a map of parents that computes them is.
use photo_swipe.Prelude.{
  ◌≡◌, ◌↔◌, refl, sym, ◌∙◌, String, true, List, [], ◌∷◌, mem, inr, subst, ◌⊎◌,
}
use photo_swipe.Prelude.Map.{Map}
use photo_swipe.Dupes.Forest.{IsForest, IsRoot}

-- The pairs joined so far, the last one first.
abbrev pub Pairs : Type 0
Pairs = List (String × String)

abbrev pub Joined : String → String → Pairs → Type 0
Joined a b [] = ⊥
Joined a b ((c, d) ∷ pairs) = ((a ≡ c) × (b ≡ d)) ⊎ Joined a b pairs

-- The least equivalence that holds of the joined pairs.
pub data Linked (pairs : Pairs) : String → String → Type 0 where
  same : (a : String) → Linked pairs a a
  edge : (a b : String) → Joined a b pairs → Linked pairs a b
  back : (a b : String) → Linked pairs a b → Linked pairs b a
  chain : (a b c : String) → Linked pairs a b → Linked pairs b c → Linked pairs a c

pub Linked-cons :
    (p : String × String) (pairs : Pairs) (a b : String) → Linked pairs a b → Linked (p ∷ pairs) a b
Linked-cons p pairs a b (same _) = same a
Linked-cons p pairs a b (edge _ _ j) = edge a b (inr j)
Linked-cons p pairs a b (back _ _ l) = back b a (Linked-cons p pairs b a l)
Linked-cons p pairs a c (chain _ b _ l l') =
    chain a b c (Linked-cons p pairs a b l) (Linked-cons p pairs b c l')

-- What a map of parents stands for: `root` gives the least id of each group of linked ids.
pub record Solves (ids : List String) (pairs : Pairs) (root : String → String) (parent : Map String)
    : Type 0 where
  pub roots : IsRoot ids root
  pub forest : IsForest ids root parent
  pub sound : (x : String) → mem x ids ≡ true → Linked pairs x (root x)
  pub joined : (a b : String) → Joined a b pairs → root a ≡ root b

-- Within the ids, two have one root exactly if they are linked.
pub root-eq-Linked :
    (ids : List String) (pairs : Pairs) (root : String → String) (parent : Map String)
    → Solves ids pairs root parent
    → (a b : String) → mem a ids ≡ true
    → mem b ids ≡ true
    → (root a ≡ root b) ↔ Linked pairs a b
root-eq-Linked ids pairs root parent s a b ha hb = (
  λ e.
      chain a (root a) b (s.sound a ha)
        (subst (λ r. Linked pairs r b) (sym e) (back b (root b) (s.sound b hb))),
  linked a b,
)
  where
    linked : (a b : String) → Linked pairs a b → root a ≡ root b
    linked a b (same _) = refl
    linked a b (edge _ _ j) = s.joined a b j
    linked a b (back _ _ l) = sym (linked b a l)
    linked a c (chain _ b _ l l') = linked a b l ∙ linked b c l'
