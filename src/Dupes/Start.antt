-- ===== src/Dupes/Start.antt =====
-- The maps at the two ends of Find: every id its own parent, and the photos by root.
use photo_swipe.Prelude.{
  ℕ, suc, ◌<◌, ◌≤◌, ◌≡◌, refl, sym, ap, ◌∙◌, String, true, some, List, [], ◌∷◌, ◌++◌, map, arith,
  length, mem, str_eq, eq_iff, eq_refl, if◌then◌else◌, Bool-cases, inl, inr, subst, ◌↔◌,
}
use mathlib.Core.List.{append-nil, append_assoc}
use photo_swipe.Prelude.Map.{Map, lookup, insert, lookup-insert, IsUnique, insert-IsUnique}
use photo_swipe.Prelude.Sorted.{In, All, In-kept, In-dropped}
use photo_swipe.Store.Photo.{Photo}
use photo_swipe.Dupes.{parent_of, singles, group, group_of}
use photo_swipe.Dupes.Forest.{is_key, Fits, IsForest, IsRoot, find_lem, rank-le-length}
use photo_swipe.Dupes.Groups.{Solves, same}

abbrev pub ids_of : List Photo → List String
ids_of photos = map (λ p. p.id) photos

pub length-ids_of : (photos : List Photo) → length (ids_of photos) ≡ length photos
length-ids_of [] = refl
length-ids_of (p ∷ photos) = ap suc (length-ids_of photos)

pub In-ids_of : (p : Photo) (photos : List Photo) → In p photos → mem p.id (ids_of photos) ≡ true
In-ids_of p [] i = elim i [ ]
In-ids_of p (q ∷ photos) (inl e) = ground (arith, eq_iff q.id p.id, ap (λ x. x.id) e)
In-ids_of p (q ∷ photos) (inr i) = ground (arith, In-ids_of p photos i)

pub ids_of-In :
    (x : String) (photos : List Photo)
    → mem x (ids_of photos) ≡ true
    → (p : Photo) × In p photos × (p.id ≡ x)
ids_of-In x [] m = absurd (ground arith)
ids_of-In x (q ∷ photos) m = elim (Bool-cases (str_eq q.id x)) [
  | inl e ↦ (q, inl refl, (eq_iff q.id x).0 e)
  | inr e ↦ let (p, i, h) = ids_of-In x photos (ground arith) in (p, inr i, h)
]

lookup-singles :
    (x : String) (photos : List Photo) (parent : Map String)
    → lookup x (singles photos parent) ≡ (if mem x (ids_of photos) then some x else lookup x parent)
unfolding singles
lookup-singles x [] parent = refl
lookup-singles x (p ∷ photos) parent =
    lookup-singles x photos (insert p.id p.id parent)
    ∙ rw (lookup-insert p.id x p.id parent) (ground (arith, eq_iff p.id x))

-- At first every id is alone.
pub singles-Solves : (photos : List Photo) → Solves (ids_of photos) [] (λ x. x) (singles photos [])
unfolding is_key parent_of lookup
singles-Solves photos = record {
  roots = record {
    inside = λ x h. h;
    again = λ x h. refl;
    least = λ x h e. absurd (ground (arith, eq_refl x));
  };
  forest = record {
    keys = λ x. rw (lookup-singles x photos [], is_key) (ground arith);
    fits = λ x h. subst (Fits (ids_of photos) (λ y. y) x) (sym (own x h)) (record {
      closed = h;
      lesser = λ e. absurd (ground (arith, eq_refl x));
      along = refl;
      top = λ e. refl;
    });
  };
  sound = λ x h. same x;
  joined = λ a b j. elim j [ ];
}
  where
    own : (x : String) → mem x (ids_of photos) ≡ true → parent_of (singles photos []) x ≡ x
    own x h = rw (lookup-singles x photos [], h, parent_of) refl

-- The photos whose id has the root `r`.
unfoldable pub with_root : (String → String) → String → List Photo → List Photo
with_root root r [] = []
with_root root r (p ∷ photos) =
    let rest = with_root root r photos in if str_eq (root p.id) r then p ∷ rest else rest

pub In-with_root :
    (root : String → String) (r : String) (p : Photo) (photos : List Photo)
    → In p (with_root root r photos) ↔ (In p photos × (root p.id ≡ r))
unfolding with_root
In-with_root root r p [] = (λ i. elim i [ ], λ i. i.0)
In-with_root root r p (q ∷ photos) = elim (Bool-cases (str_eq (root q.id) r)) [
  | inl e ↦ rw e (
      In-kept (λ x. root x.id ≡ r) p q photos (with_root root r photos) ((eq_iff (root q.id) r).0 e)
        (In-with_root root r p photos))
  | inr e ↦ rw e (
      In-dropped (λ x. root x.id ≡ r) p q photos (with_root root r photos)
        (λ h. absurd (ground (arith, eq_iff (root q.id) r))) (In-with_root root r p photos))
]

pub length-with_root-le :
    (root : String → String) (r : String) (photos : List Photo)
    → length (with_root root r photos) ≤ length photos
unfolding with_root
length-with_root-le root r [] = omega arith
length-with_root-le root r (p ∷ photos) = ground (arith, length-with_root-le root r photos)

group_of-insert :
    (k r : String) (ps : List Photo) (groups : Map (List Photo))
    → group_of (insert k ps groups) r ≡ (if str_eq k r then ps else group_of groups r)
group_of-insert k r ps groups = rw (lookup-insert k r ps groups, group_of) (ground arith)

group_of-add :
    (root : String → String) (p : Photo) (photos : List Photo) (groups : Map (List Photo))
    (r : String)
    → group_of (insert (root p.id) (group_of groups (root p.id) ++ p ∷ []) groups) r
        ++ with_root root r photos
      ≡ group_of groups r ++ with_root root r (p ∷ photos)
unfolding with_root
group_of-add root p photos groups r =
    ap (λ l. l ++ with_root root r photos) (group_of-insert (root p.id) r _ groups)
    ∙ (elim (Bool-cases (str_eq (root p.id) r)) [
      | inl e ↦
          let here = (eq_iff (root p.id) r).0 e in
          rw e (
            append_assoc (group_of groups (root p.id)) (p ∷ []) (with_root root r photos)
            ∙ ap (λ x. group_of groups x ++ p ∷ with_root root r photos) here)
      | inr e ↦ rw e refl
    ])

module _ (ids : List String) (rounds : ℕ) (enough : length ids < rounds) (root : String → String)
    (roots : IsRoot ids root) where
  pub group_lem :
      (photos : List Photo) (parent : Map String) (groups : Map (List Photo))
      → All (λ p. mem p.id ids ≡ true) photos
      → IsForest ids root parent
      → IsUnique groups
      → (groups' : Map (List Photo)) × (group rounds photos parent groups ≡ some groups')
        × IsUnique groups'
        × ((r : String) → group_of groups' r ≡ group_of groups r ++ with_root root r photos)
  unfolding group with_root
  group_lem [] parent groups h f u = (groups, refl, u, λ r. sym (append-nil (group_of groups r)))
  group_lem (p ∷ photos) parent groups (hp, h) f u =
      let (parent', found, f') =
        find_lem ids root rounds p.id parent roots f hp (omega (arith, rank-le-length ids p.id)) in
      let next = insert (root p.id) (group_of groups (root p.id) ++ p ∷ []) groups in
      let (groups', ran, u', g) =
        group_lem photos parent' next h f' (insert-IsUnique (root p.id) _ groups u) in
      (groups', rw found ran, u', λ r. g r ∙ group_of-add root p photos groups r)
