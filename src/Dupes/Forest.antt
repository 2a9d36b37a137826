-- ===== src/Dupes/Forest.antt =====
-- The parents of the union-find as a forest, in which each tree has a representative.
use photo_swipe.Prelude.{
  ℕ, zero, suc, ◌≤◌, ◌<◌, ◌≡◌, refl, sym, ap, ◌∙◌, String, Bool, true, false, ◌||◌, none, some,
  List, [], ◌∷◌, arith, length, mem, str_eq, eq_iff, if◌then◌else◌, Bool-cases, inl, inr, subst,
}
use photo_swipe.Prelude.Map.{Map, lookup, insert, lookup-insert}
use photo_swipe.Prelude.Text.{str_lt, str_lt_irrefl, str_lt_trans}
use photo_swipe.Dupes.{parent_of, find}

unfoldable pub is_key : Map String → String → Bool
is_key parent x = elim (lookup x parent) [ none ↦ false | some _ ↦ true ]

pub is_key-insert :
    (k v x : String) (parent : Map String)
    → is_key (insert k v parent) x ≡ (str_eq k x || is_key parent x)
unfolding is_key
is_key-insert k v x parent = rw (lookup-insert, is_key) (ground arith)

pub parent_of-insert :
    (k v x : String) (parent : Map String)
    → parent_of (insert k v parent) x ≡ (if str_eq k x then v else parent_of parent x)
unfolding parent_of
parent_of-insert k v x parent = rw (lookup-insert, parent_of) (ground arith)

-- `p` may be the parent of the key `x`: it is a key that comes before `x`, or `x` itself if that is
-- its own representative, and has the same representative.
pub record Fits (ids : List String) (root : String → String) (x p : String) : Type 0 where
  pub closed : mem p ids ≡ true
  pub lesser : str_eq p x ≡ false → str_lt p x ≡ true
  pub along : root p ≡ root x
  pub top : str_eq p x ≡ true → root x ≡ x

-- The keys of the map are `ids`, and every parent fits.
pub record IsForest (ids : List String) (root : String → String) (parent : Map String)
    : Type 0 where
  pub keys : (x : String) → is_key parent x ≡ mem x ids
  pub fits : (x : String) → mem x ids ≡ true → Fits ids root x (parent_of parent x)

-- The representatives: keys, their own, and no greater than what they represent.
pub record IsRoot (ids : List String) (root : String → String) : Type 0 where
  pub inside : (x : String) → mem x ids ≡ true → mem (root x) ids ≡ true
  pub again : (x : String) → mem x ids ≡ true → root (root x) ≡ root x
  pub least : (x : String) → mem x ids ≡ true → str_eq (root x) x ≡ false → str_lt (root x) x ≡ true

-- A new parent for `x`, where all other parents fit the representatives.
pub insert-IsForest :
    (ids : List String) (root : String → String) (parent : Map String) (x p : String)
    → mem x ids ≡ true
    → Fits ids root x p
    → ((y : String) → is_key parent y ≡ mem y ids)
    → ((y : String) → str_eq x y ≡ false → mem y ids ≡ true → Fits ids root y (parent_of parent y))
    → IsForest ids root (insert x p parent)
insert-IsForest ids root parent x p m fit keys others = record {
  keys = λ y. is_key-insert x p y parent ∙ held y;
  fits = λ y h. elim (Bool-cases (str_eq x y)) [
    | inl e ↦
        subst (Fits ids root y) (sym (parent_of-insert x p y parent ∙ ground arith))
          (subst (λ z. Fits ids root z p) ((eq_iff x y).0 e) fit)
    | inr e ↦
        subst (Fits ids root y) (sym (parent_of-insert x p y parent ∙ ground arith)) (others y e h)
  ];
}
  where
    held : (y : String) → (str_eq x y || is_key parent y) ≡ mem y ids
    held y = elim (Bool-cases (str_eq x y)) [
      | inl e ↦ rw e (sym (ap (λ z. mem z ids) (sym ((eq_iff x y).0 e)) ∙ m))
      | inr e ↦ rw e (keys y)
    ]

-- Pointing a key at its representative keeps the forest.
pub compress-IsForest :
    (ids : List String) (root : String → String) (parent : Map String) (x : String)
    → IsRoot ids root
    → IsForest ids root parent
    → mem x ids ≡ true
    → IsForest ids root (insert x (root x) parent)
compress-IsForest ids root parent x r f m =
    insert-IsForest ids root parent x (root x) m
      (record {
        closed = r.inside x m;
        lesser = r.least x m;
        along = r.again x m;
        top = λ e. (eq_iff (root x) x).0 e;
      })
      f.keys (λ y _ h. f.fits y h)

-- How many ids come before `x`: what falls from a child to its parent.
unfoldable pub rank : List String → String → ℕ
rank [] x = 0
rank (y ∷ ids) x = let rest = rank ids x in if str_lt y x then suc rest else rest

rank-le : (ids : List String) (p x : String) → str_lt p x ≡ true → rank ids p ≤ rank ids x
unfolding rank
rank-le [] p x h = omega arith
rank-le (y ∷ ids) p x h = ground (arith, rank-le ids p x h, str_lt_trans y p x)

rank-lt :
    (ids : List String) (p x : String)
    → mem p ids ≡ true
    → str_lt p x ≡ true
    → rank ids p < rank ids x
unfolding rank
rank-lt [] p x m h = absurd (ground arith)
rank-lt (y ∷ ids) p x m h = elim (Bool-cases (str_eq y p)) [
  | inl e ↦
      let here : str_lt y x ≡ true = ap (λ z. str_lt z x) ((eq_iff y p).0 e) ∙ h in
      let not_yet : str_lt y p ≡ false =
        ap (λ z. str_lt z p) ((eq_iff y p).0 e) ∙ str_lt_irrefl p in
      rw (here, not_yet, rank) (omega (arith, rank-le ids p x h))
  | inr e ↦ ground (arith, rank-lt ids p x, str_lt_trans y p x)
]

pub rank-le-length : (ids : List String) (x : String) → rank ids x ≤ length ids
unfolding rank
rank-le-length [] x = omega arith
rank-le-length (y ∷ ids) x = ground (arith, rank-le-length ids x)

find_here :
    (rounds : ℕ) (x : String) (parent : Map String)
    → str_eq (parent_of parent x) x ≡ true
    → find (suc rounds) x parent ≡ some (x, parent)
unfolding find
find_here rounds x parent e = rw e refl

find_above :
    (rounds : ℕ) (x r : String) (parent parent' : Map String)
    → str_eq (parent_of parent x) x ≡ false
    → find rounds (parent_of parent x) parent ≡ some (r, parent')
    → find (suc rounds) x parent ≡ some (r, insert x r parent')
unfolding find
find_above rounds x r parent parent' e found = rw (e, found) refl

-- find returns the representative, and leaves a forest with the same representatives, if it has
-- more rounds than ids that come before `x`.
pub find_lem :
    (ids : List String) (root : String → String) (rounds : ℕ) (x : String) (parent : Map String)
    → IsRoot ids root
    → IsForest ids root parent
    → mem x ids ≡ true
    → rank ids x < rounds
    → (parent' : Map String) × (find rounds x parent ≡ some (root x, parent'))
      × IsForest ids root parent'
find_lem ids root zero x parent r f m h = absurd (omega arith)
find_lem ids root (suc rounds) x parent r f m h =
    let p = parent_of parent x in
    let fit = f.fits x m in
    elim (Bool-cases (str_eq p x)) [
      | inl e ↦
          (parent, find_here rounds x parent e ∙ ap (λ y. some (y, parent)) (sym (fit.top e)), f)
      | inr e ↦
          let below = rank-lt ids p x fit.closed (fit.lesser e) in
          let (parent', found, f') =
            find_lem ids root rounds p parent r f fit.closed (omega arith) in
          let found' = found ∙ ap (λ y. some (y, parent')) fit.along in
          (
            insert x (root x) parent',
            find_above rounds x (root x) parent parent' e found',
            compress-IsForest ids root parent' x r f' m,
          )
    ]
