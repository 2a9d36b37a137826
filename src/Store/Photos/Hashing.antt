-- ===== src/Store/Photos/Hashing.antt =====
-- NextUnhashed, HashProgress and SetHash together: what the indexer relies on.
use photo_swipe.Prelude.{
  ℕ, suc, ◌+◌, ◌≡◌, refl, sym, ap, ap₂, String, true, false, not, none, some, [], ◌∷◌, arith,
  Bool-cases, inl, inr, if◌then◌else◌, str_eq, eq_iff, ◌↔◌, eq_refl, subst,
}
use photo_swipe.Prelude.Map.{Map, lookup, insert, IsUnique}
use photo_swipe.Store.Photo.{Photo, Time, is_trashed, is_zero}
use photo_swipe.Store.State.{Store, Env, state-commit}
use photo_swipe.Store.Photos.{
  is_hashed, needs_hash, first_unhashed, next_unhashed, hash_counts, hash_progress, hashed_as,
  set_hash, update_photo, one_if,
}
use photo_swipe.Store.Steps.Keyed.{IsKeyed}

is_hashed-needs_hash : (p : Photo) → is_hashed p ≡ not (needs_hash p)
unfolding is_hashed needs_hash
is_hashed-needs_hash p = ground arith

-- The photos of the pool that wait for a hash.
unfoldable pub waiting : Map Photo → ℕ
waiting [] = 0
waiting ((id, p) ∷ photos) =
    let rest = waiting photos in
    if is_trashed p.state then rest else if needs_hash p then suc rest else rest

pub hash_counts_lem :
    (h t : ℕ) (photos : Map Photo)
    → (hash_counts h t photos).0 + waiting photos + t ≡ (hash_counts h t photos).1 + h
unfolding hash_counts waiting
hash_counts_lem h t [] = omega arith
hash_counts_lem h t ((id, p) ∷ photos) = ground (
  arith,
  is_hashed-needs_hash p,
  hash_counts_lem h t photos,
  hash_counts_lem (h + one_if (is_hashed p)) (suc t) photos,
)

pub waiting-first_unhashed :
    (photos : Map Photo) → first_unhashed photos ≡ none → waiting photos ≡ 0
unfolding first_unhashed waiting
waiting-first_unhashed [] h = refl
waiting-first_unhashed ((id, p) ∷ photos) h = ground (arith, waiting-first_unhashed photos)

pub first_unhashed-waiting :
    (photos : Map Photo) → waiting photos ≡ 0 → first_unhashed photos ≡ none
unfolding first_unhashed waiting
first_unhashed-waiting [] h = refl
first_unhashed-waiting ((id, p) ∷ photos) h = ground (arith, first_unhashed-waiting photos)

-- A photo of the pool under `k` that waits for a hash.
unfoldable pub Awaits : String → Photo → Map Photo → Type 0
Awaits k p photos =
    (lookup k photos ≡ some p) × (is_trashed p.state ≡ false) × (needs_hash p ≡ true)

Awaits-cons :
    (j : String) (q : Photo) (photos : Map Photo) (p : Photo)
    → lookup j photos ≡ none
    → (k : String) × Awaits k p photos
    → (k : String) × Awaits k p ((j, q) ∷ photos)
unfolding lookup Awaits
Awaits-cons j q photos p fresh (k, (here, active, needs)) = (k, (found, active, needs))
  where
    same : str_eq j k ≡ true → lookup j photos ≡ lookup k photos
    same e = ap (λ i. lookup i photos) ((eq_iff j k).0 e)

    found : lookup k ((j, q) ∷ photos) ≡ some p
    found = ground (arith, same)

pub first_unhashed_inv :
    (photos : Map Photo) (p : Photo)
    → IsUnique photos
    → first_unhashed photos ≡ some p
    → (k : String) × Awaits k p photos
unfolding first_unhashed lookup Awaits
first_unhashed_inv [] p once h = absurd (ground arith)
first_unhashed_inv ((j, q) ∷ photos) p (fresh, once) h = elim (Bool-cases (is_trashed q.state)) [
  | inl e ↦ Awaits-cons j q photos p fresh (first_unhashed_inv photos p once (ground arith))
  | inr e ↦ elim (Bool-cases (needs_hash q)) [
    | inl f ↦ (j, (ground (arith, eq_refl j), ground arith, ground arith))
    | inr f ↦ Awaits-cons j q photos p fresh (first_unhashed_inv photos p once (ground arith))
  ]
]

waiting-insert :
    (k : String) (p q : Photo) (photos : Map Photo)
    → Awaits k p photos
    → q.state ≡ p.state
    → needs_hash q ≡ false
    → suc (waiting (insert k q photos)) ≡ waiting photos
unfolding waiting insert lookup Awaits
waiting-insert k p q [] (here, live, needs) same done = absurd (ground arith)
waiting-insert k p q ((j, r) ∷ photos) (here, live, needs) same done =
    elim (Bool-cases (str_eq j k)) [
      | inl e ↦ rw (e, insert) (ground (arith, ap is_trashed same))
      | inr e ↦ rw (e, insert) (ground (arith, waiting-insert k p q photos))
    ]

-- The photos of the pool that are not trashed.
unfoldable live : Map Photo → ℕ
live [] = 0
live ((id, p) ∷ photos) = let rest = live photos in if is_trashed p.state then rest else suc rest

hash_counts-live : (h t : ℕ) (photos : Map Photo) → (hash_counts h t photos).1 ≡ t + live photos
unfolding hash_counts live
hash_counts-live h t [] = omega arith
hash_counts-live h t ((id, p) ∷ photos) =
    ground (
      arith,
      hash_counts-live h t photos,
      hash_counts-live (h + one_if (is_hashed p)) (suc t) photos,
    )

live-insert :
    (k : String) (p q : Photo) (photos : Map Photo)
    → lookup k photos ≡ some p
    → q.state ≡ p.state
    → live (insert k q photos) ≡ live photos
unfolding live insert lookup
live-insert k p q [] here same = absurd (ground arith)
live-insert k p q ((j, r) ∷ photos) here same = elim (Bool-cases (str_eq j k)) [
  | inl e ↦ rw (e, insert) (ground (arith, ap is_trashed same))
  | inr e ↦ rw (e, insert) (ground (arith, live-insert k p q photos))
]

-- NextUnhashed has nothing to hash exactly when HashProgress says that all photos are hashed.
pub next_unhashed-none :
    (s : Store) → (next_unhashed s ≡ none) ↔ ((hash_progress s).0 ≡ (hash_progress s).1)
unfolding next_unhashed hash_progress
next_unhashed-none s = (
  λ h. omega (arith, hash_counts_lem 0 0 s.state.photos, waiting-first_unhashed s.state.photos h),
  λ h. first_unhashed-waiting s.state.photos (omega (arith, hash_counts_lem 0 0 s.state.photos)),
)

pub needs_hash-hashed_as :
    (now : Time) (h v : ℕ) (p : Photo)
    → is_zero now ≡ false
    → needs_hash (hashed_as now h v p) ≡ false
unfolding needs_hash hashed_as
needs_hash-hashed_as now h v p started = ground arith

hash_counts-insert :
    (now : Time) (h v : ℕ) (k : String) (p : Photo) (photos : Map Photo)
    → is_zero now ≡ false
    → Awaits k p photos
    → hash_counts 0 0 (insert k (hashed_as now h v p) photos)
      ≡ (suc (hash_counts 0 0 photos).0, (hash_counts 0 0 photos).1)
unfolding Awaits hashed_as
hash_counts-insert now h v k p photos started (here, active, needs) =
    let q = hashed_as now h v p in
    let same_total : (hash_counts 0 0 (insert k q photos)).1 ≡ (hash_counts 0 0 photos).1 = omega (
      arith,
      hash_counts-live 0 0 (insert k q photos),
      live-insert k p q photos here refl,
      hash_counts-live 0 0 photos,
    ) in
    let fewer =
      waiting-insert k p q photos (here, active, needs) refl
        (needs_hash-hashed_as now h v p started) in
    ap₂ (λ a b. (a, b))
      (omega (
        arith,
        same_total,
        fewer,
        hash_counts_lem 0 0 photos,
        hash_counts_lem 0 0 (insert k q photos),
      ))
      same_total

-- If the photos are kept once and under their own ids, and the clock is past Go's zero time, then
-- storing a hash for the photo that NextUnhashed returned makes HashProgress count one more as
-- hashed out of the same total, even if the save fails.
pub hash_progress-set_hash :
    (env : Env) (s : Store) (p : Photo) (h v : ℕ)
    → IsKeyed s.state.photos
    → is_zero env.now ≡ false
    → next_unhashed s ≡ some p
    → hash_progress (set_hash env p.id h v s).1 ≡ (suc (hash_progress s).0, (hash_progress s).1)
unfolding next_unhashed hash_progress set_hash update_photo Awaits
hash_progress-set_hash env s p h v (once, keyed) started e =
    let (k, (here, active, needs)) = first_unhashed_inv s.state.photos p once e in
    let here' = subst (λ i. lookup i s.state.photos ≡ some p) (sym (keyed k p here)) here in
    rw (state-commit env s (update_photo p.id (hashed_as env.now h v) s.state)) (
      rw (here', update_photo)
        (hash_counts-insert env.now h v p.id p s.state.photos started (here', active, needs)))
