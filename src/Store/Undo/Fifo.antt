-- ===== src/Store/Undo/Fifo.antt =====
-- RecentlySkipped: what a skip pushes, and what Undo removes again.
use mathlib.Core.List.{append-nil}
use photo_swipe.Prelude.{
  ℕ, suc, ◌+◌, ◌-◌, ◌≤◌, ◌<◌, ◌≡◌, refl, ap, ◌∙◌, String, true, ◌||◌, List, [], ◌∷◌, ◌++◌, map,
  arith, mem, str_eq, eq_iff, eq_refl, if◌then◌else◌, length, drop, length-append, length-drop,
  drop-append,
}
use photo_swipe.Prelude.Int.{ℤ}
use photo_swipe.Store.Decisions.{skip_cap, push_skipped}
use photo_swipe.Store.Clusters.{bare_op}
use photo_swipe.Store.Undo.{remove_last, remove_each}

-- How often a text stands in a list.
unfoldable pub count : String → List String → ℕ
count x [] = 0
count x (y ∷ ys) = if str_eq y x then suc (count x ys) else count x ys

pub skip_cap_pos : (fallback : ℕ) (target : ℤ) → 0 < fallback → 0 < skip_cap fallback target
unfolding skip_cap
skip_cap_pos fallback target h = ground arith

-- A push keeps the newest `cap` entries.
pub push_skipped_lem :
    (cap : ℕ) (ids rs : List String)
    → length ids ≤ cap
    → push_skipped cap ids rs ≡ drop (length rs + length ids - cap) rs ++ ids
unfolding push_skipped
push_skipped_lem cap ids rs h = ground (
  arith,
  length-append rs ids,
  drop-append (length rs + length ids - cap) rs ids,
  drop-append 0 rs ids,
)

pub length-push_skipped : (cap : ℕ) (ids rs : List String) → length (push_skipped cap ids rs) ≤ cap
unfolding push_skipped
length-push_skipped cap ids rs = ground (arith, length-drop (length (rs ++ ids) - cap) (rs ++ ids))

mem-append : (x : String) (xs ys : List String) → mem x (xs ++ ys) ≡ (mem x xs || mem x ys)
mem-append x [] ys = refl
mem-append x (y ∷ xs) ys = ground (arith, mem-append x xs ys)

-- The last occurrence lies in the second part if there is one there.
remove_last-append :
    (id : String) (xs ys : List String)
    → mem id ys ≡ true
    → remove_last id (xs ++ ys) ≡ xs ++ remove_last id ys
unfolding remove_last
remove_last-append id [] ys h = refl
remove_last-append id (x ∷ xs) ys h =
    ground (arith, mem-append id xs ys, remove_last-append id xs ys h)

pub remove_last-push : (id : String) (xs : List String) → remove_last id (xs ++ id ∷ []) ≡ xs
unfolding remove_last
remove_last-push id xs =
    remove_last-append id xs (id ∷ []) (ground (arith, eq_refl id)) ∙ rw eq_refl (append-nil xs)

mem_of_count : (x : String) (xs : List String) → 0 < count x xs → mem x xs ≡ true
unfolding count
mem_of_count x [] h = absurd (omega arith)
mem_of_count x (y ∷ xs) h = ground (arith, mem_of_count x xs)

count-remove_last :
    (id x : String) (xs : List String)
    → mem id xs ≡ true
    → count x (remove_last id xs) + (if str_eq id x then 1 else 0) ≡ count x xs
unfolding count remove_last
count-remove_last id x [] h = ground arith
count-remove_last id x (y ∷ xs) h =
    ground (arith, eq_iff y id, eq_iff id x, eq_iff y x, count-remove_last id x xs)

-- Removing each member's id removes exactly the ids that were pushed, whatever their order and
-- however often an id stands there.
remove_each-append :
    (ids rs ys : List String)
    → ((x : String) → count x ids ≡ count x ys)
    → remove_each (map bare_op ids) (rs ++ ys) ≡ rs
unfolding remove_each count
remove_each-append [] rs [] h = append-nil rs
remove_each-append [] rs (y ∷ ys) h = ground (arith, h y, eq_refl y)
remove_each-append (id ∷ ids) rs ys h =
    let here = mem_of_count id ys (ground (arith, h id, eq_refl id)) in
    ap (remove_each (map bare_op ids)) (remove_last-append id rs ys here)
    ∙ remove_each-append ids rs (remove_last id ys)
        λ x. ground (arith, h x, count-remove_last id x ys here)

pub remove_each-push : (ids rs : List String) → remove_each (map bare_op ids) (rs ++ ids) ≡ rs
remove_each-push ids rs = remove_each-append ids rs ids (λ x. refl)
