-- ===== src/Img/Raw/Held.antt =====
-- What holds of the result of a computation that may panic.
use photo_swipe.Prelude.{
  ◌>>=◌, ℕ, ◌+◌, ◌-◌, ◌≤◌, ◌≡◌, refl, Bool, true, false, Option, none, some, List, [], ◌∷◌, arith,
  length, drop, length-take, length-drop, if◌then◌else◌,
}
use photo_swipe.Img.Exif.{slice, ByteOrder, little_endian, big_endian, uint16, uint32}

-- The computation returns, and `P` holds of what it returns.
abbrev pub Held : {A : Type 0} → (A → Type 0) → Option A → Type 0
Held P none = ⊥
Held P (some a) = P a

abbrev pub Any : {A : Type 0} → A → Type 0
Any _ = Unit

pub Held-bind :
    {A B : Type 0} (Q : A → Type 0) (P : B → Type 0) (m : Option A) (f : A → Option B)
    → Held Q m
    → ((a : A) → Q a → Held P (f a))
    → Held P (m >>= f)
Held-bind Q P none f h k = elim h [ ]
Held-bind Q P (some a) f h k = k a h

pub Held-weaken :
    {A : Type 0} (Q P : A → Type 0) (m : Option A) → Held Q m → ((a : A) → Q a → P a) → Held P m
Held-weaken Q P none h k = elim h [ ]
Held-weaken Q P (some a) h k = k a h

pub Held-if :
    {A : Type 0} (P : A → Type 0) (b : Bool) (m n : Option A)
    → (b ≡ true → Held P m)
    → (b ≡ false → Held P n)
    → Held P (if b then m else n)
Held-if P true m n h k = h refl
Held-if P false m n h k = k refl

-- The slice has the length of its range.
pub Held-slice :
    (a b : ℕ) (s : List ℕ) → a ≤ b → b ≤ length s → Held (λ t. length t + a ≡ b) (slice a b s)
unfolding slice
Held-slice a b s h k = ground (arith, length-take (b - a) (drop a s), length-drop a s)

pub Held-uint16 : (bo : ByteOrder) (s : List ℕ) → 2 ≤ length s → Held Any (uint16 bo s)
unfolding uint16
Held-uint16 little_endian (a ∷ b ∷ s) h = tt
Held-uint16 big_endian (a ∷ b ∷ s) h = tt
Held-uint16 _ [] h = absurd (omega arith)
Held-uint16 _ (a ∷ []) h = absurd (omega arith)

pub Held-uint32 : (bo : ByteOrder) (s : List ℕ) → 4 ≤ length s → Held Any (uint32 bo s)
unfolding uint32
Held-uint32 little_endian (a ∷ b ∷ c ∷ d ∷ s) h = tt
Held-uint32 big_endian (a ∷ b ∷ c ∷ d ∷ s) h = tt
Held-uint32 _ [] h = absurd (omega arith)
Held-uint32 _ (a ∷ []) h = absurd (omega arith)
Held-uint32 _ (a ∷ b ∷ []) h = absurd (omega arith)
Held-uint32 _ (a ∷ b ∷ c ∷ []) h = absurd (omega arith)

module _ {B : Type 0} (P : B → Type 0) where
  -- Two bytes or four of a slice, read as a number.
  pub Held-read16 :
      (bo : ByteOrder) (a b : ℕ) (s : List ℕ) (f : ℕ → Option B)
      → a + 2 ≡ b
      → b ≤ length s
      → ((v : ℕ) → Held P (f v))
      → Held P (slice a b s >>= λ t. uint16 bo t >>= f)
  Held-read16 bo a b s f e h k =
      Held-bind _ P (slice a b s) _ (Held-slice a b s (omega arith) h)
        λ t at. Held-bind _ P (uint16 bo t) f (Held-uint16 bo t (omega (arith, at))) (λ v _. k v)

  pub Held-read32 :
      (bo : ByteOrder) (a b : ℕ) (s : List ℕ) (f : ℕ → Option B)
      → a + 4 ≡ b
      → b ≤ length s
      → ((v : ℕ) → Held P (f v))
      → Held P (slice a b s >>= λ t. uint32 bo t >>= f)
  Held-read32 bo a b s f e h k =
      Held-bind _ P (slice a b s) _ (Held-slice a b s (omega arith) h)
        λ t at. Held-bind _ P (uint32 bo t) f (Held-uint32 bo t (omega (arith, at))) (λ v _. k v)
