-- ===== src/Dupes/Union.antt =====
-- The union of Find joins the groups of two ids.
use photo_swipe.Prelude.{
  ℕ, ◌<◌, ◌≡◌, refl, ◌∙◌, String, true, some, List, ◌∷◌, arith, length, mem, str_eq, eq_iff,
  if◌then◌else◌, Bool-cases, inl, inr,
}
use photo_swipe.Prelude.Map.{Map, insert}
use photo_swipe.Prelude.Text.{str_lt, str_lt_total}
use photo_swipe.Dupes.{find, union}
use photo_swipe.Dupes.Forest.{find_lem, rank-le-length}
use photo_swipe.Dupes.Groups.{Pairs, back, Solves}
use photo_swipe.Dupes.Merge.{merged, merge-Solves, keep-Solves, roots-Linked}

union_step :
    (rounds : ℕ) (a b ra rb : String) (parent parent' parent'' : Map String)
    → find rounds a parent ≡ some (ra, parent')
    → find rounds b parent' ≡ some (rb, parent'')
    → union rounds a b parent
      ≡ some (
          if str_eq ra rb
          then parent''
          else if str_lt ra rb
          then insert rb ra parent''
          else insert ra rb parent'')
unfolding union
union_step rounds a b ra rb parent parent' parent'' e f = rw (e, f) (ground arith)

-- union joins the groups of two ids, and does not run out of rounds.
pub union_lem :
    (ids : List String) (pairs : Pairs) (root : String → String) (parent : Map String) (rounds : ℕ)
    (a b : String)
    → length ids < rounds
    → Solves ids pairs root parent
    → mem a ids ≡ true
    → mem b ids ≡ true
    → (root' : String → String) × (parent' : Map String) × (union rounds a b parent ≡ some parent')
      × Solves ids ((a, b) ∷ pairs) root' parent'
union_lem ids pairs root parent rounds a b h s ha hb =
    let (p1, e1, f1) =
      find_lem ids root rounds a parent s.roots s.forest ha (omega (arith, rank-le-length ids a)) in
    let (p2, e2, f2) =
      find_lem ids root rounds b p1 s.roots f1 hb (omega (arith, rank-le-length ids b)) in
    let s2 : Solves ids pairs root p2 = record {
      roots = s.roots;
      forest = f2;
      sound = s.sound;
      joined = s.joined;
    } in
    let ran = union_step rounds a b (root a) (root b) parent p1 p2 e1 e2 in
    let ab = roots-Linked ids pairs root p2 a b s2 ha hb in
    elim (Bool-cases (str_eq (root a) (root b))) [
      | inl e ↦ (root, p2, ran ∙ rw e refl, keep-Solves ids pairs root p2 a b s2 ((eq_iff _ _).0 e))
      | inr e ↦ elim (Bool-cases (str_lt (root a) (root b))) [
        | inl lt ↦ (
          merged (root a) (root b) root,
          insert (root b) (root a) p2,
          ran ∙ rw (e, lt) refl,
          merge-Solves ids root s.roots (root a) (root b) (s.roots.inside a ha)
              (s.roots.inside b hb) (s.roots.again a ha) (s.roots.again b hb) lt pairs p2 a b s2
              (inl refl) (inr refl) (back (root a) (root b) ab),
        )
        | inr ge ↦ (
          merged (root b) (root a) root,
          insert (root a) (root b) p2,
          ran ∙ rw (e, ge) refl,
          merge-Solves ids root s.roots (root b) (root a) (s.roots.inside b hb)
              (s.roots.inside a ha) (s.roots.again b hb) (s.roots.again a ha)
              (str_lt_total (root a) (root b) e ge) pairs p2 a b s2 (inr refl) (inl refl) ab,
        )
      ]
    ]
