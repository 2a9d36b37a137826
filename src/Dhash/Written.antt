-- ===== src/Dhash/Written.antt =====
-- A word that grows by one bit a round: which of its bits are written, and what they are.
use Prim.Native.Nat.{bit_or}
use photo_swipe.Prelude.{
  ℕ, zero, suc, ◌+◌, ◌*◌, ◌/◌, ◌%◌, ◌^◌, ◌<◌, ◌≡◌, refl, sym, ap, ap₂, ◌∙◌, ◌-◌, arith, true, false,
  ltb, if◌then◌else◌, Bool-cases, inl, inr, subst,
}
use photo_swipe.Dhash.{Word, put}
use photo_swipe.Dhash.Xor.{bit_or-next}

-- Bit `i` of a word.
unfoldable pub digit : ℕ → ℕ → ℕ
digit zero w = w % 2
digit (suc i) w = digit i (w / 2)

abbrev pub one_if_brighter : ℕ → ℕ → ℕ
one_if_brighter left right = if ltb right left then 1 else 0

digit-below : (i k a : ℕ) → i < k → digit i (a + 2 ^ k) ≡ digit i a
unfolding digit
digit-below i zero a h = absurd (omega arith)
digit-below zero (suc k) a h = omega arith
digit-below (suc i) (suc k) a h = ap (digit i) (omega arith) ∙ digit-below i k (a / 2) (omega arith)

digit-at : (k a : ℕ) → a < 2 ^ k → digit k (a + 2 ^ k) ≡ 1
unfolding digit
digit-at zero a h = omega arith
digit-at (suc k) a h = ap (digit k) (omega arith) ∙ digit-at k (a / 2) (omega arith)

digit-above : (k a : ℕ) → a < 2 ^ k → digit k a ≡ 0
unfolding digit
digit-above zero a h = omega arith
digit-above (suc k) a h = digit-above k (a / 2) (omega arith)

pow-lt : (k n : ℕ) → k < n → 2 ^ k < 2 ^ n
pow-lt k zero h = absurd (omega arith)
pow-lt zero (suc zero) h = omega arith
pow-lt zero (suc (suc n)) h = omega (arith, pow-lt zero (suc n) (omega arith))
pow-lt (suc k) (suc n) h = omega (arith, pow-lt k n (omega arith))

-- A word whose lowest `k` bits are written, with the next bit to write.
abbrev pub Written : ℕ → Word → Type 0
Written k w = (w.0 < 2 ^ k) × (w.1 ≡ 2 ^ k % 2 ^ 64)

put-brighter :
    (k left right word bit : ℕ)
    → ltb right left ≡ true
    → k < 64
    → Written k (word, bit)
    → put left right (word, bit) ≡ (word + 2 ^ k, 2 ^ suc k % 2 ^ 64)
unfolding put
put-brighter k left right word bit e h (small, next) =
    let here : bit ≡ 2 ^ k = omega (arith, next, pow-lt k 64 h) in
    rw e
      (ap₂ (λ a b. (a, b)) (ap (bit_or word) here ∙ bit_or-next k word small) (omega (arith, here)))

put-darker :
    (k left right word bit : ℕ)
    → ltb right left ≡ false
    → k < 64
    → Written k (word, bit)
    → put left right (word, bit) ≡ (word, 2 ^ suc k % 2 ^ 64)
unfolding put
put-darker k left right word bit e h (small, next) =
    let here : bit ≡ 2 ^ k = omega (arith, next, pow-lt k 64 h) in
    rw e (ap (λ b. (word, b)) (omega (arith, here)))

-- What `n` rounds from bit `k` on leave: the bits below stay, and bit `k + j` is `f j`.
unfoldable pub Extends : ℕ → ℕ → (ℕ → ℕ) → Word → Word → Type 0
Extends k n f w w' =
    Written (k + n) w'
    × ((i : ℕ) → i < k → digit i w'.0 ≡ digit i w.0)
    × ((j : ℕ) → j < n → digit (k + j) w'.0 ≡ f j)

pub put-Extends :
    (k left right : ℕ) (f : ℕ → ℕ) (w : Word)
    → k < 64
    → f 0 ≡ one_if_brighter left right
    → Written k w
    → Extends k 1 f w (put left right w)
unfolding Extends
put-Extends k left right f (word, bit) h is (small, next) = elim (Bool-cases (ltb right left)) [
  | inl e ↦ rw (put-brighter k left right word bit e h (small, next)) (
    (omega (arith, more), ap (λ m. 2 ^ m % 2 ^ 64) one_more),
    λ i p. digit-below i k word p,
    only (word + 2 ^ k) (digit-at k word small ∙ sym (is ∙ brighter e)),
  )
  | inr e ↦ rw (put-darker k left right word bit e h (small, next)) (
    (omega (arith, more), ap (λ m. 2 ^ m % 2 ^ 64) one_more),
    λ i p. refl,
    only word (digit-above k word small ∙ sym (is ∙ darker e)),
  )
]
  where
    brighter : ltb right left ≡ true → one_if_brighter left right ≡ 1
    brighter e = ground arith

    darker : ltb right left ≡ false → one_if_brighter left right ≡ 0
    darker e = ground arith

    one_more : suc k ≡ k + 1
    one_more = omega arith

    more : 2 ^ (k + 1) ≡ 2 ^ k * 2
    more = ap (λ m. 2 ^ m) (sym one_more) ∙ omega arith

    only : (v : ℕ) → digit k v ≡ f 0 → (j : ℕ) → j < 1 → digit (k + j) v ≡ f j
    only v e zero p = ap (λ m. digit m v) (omega arith) ∙ e
    only v e (suc j) p = absurd (omega arith)

pub Extends-chain :
    (k m n : ℕ) (f g all : ℕ → ℕ) (w w' w'' : Word)
    → Extends k m f w w'
    → Extends (k + m) n g w' w''
    → ((j : ℕ) → j < m → f j ≡ all j)
    → ((j : ℕ) → j < n → g j ≡ all (m + j))
    → Extends k (m + n) all w w''
unfolding Extends
Extends-chain k m n f g all w w' w'' (_, low, mid) (written, low', high) first second = (
  subst (λ x. Written x w'') (omega arith) written,
  λ i p. low' i (omega arith) ∙ low i p,
  λ j p. elim (Bool-cases (ltb j m)) [
    | inl e ↦ low' (k + j) (ground arith) ∙ mid j (ground arith) ∙ first j (ground arith)
    | inr e ↦
        ap (λ x. digit x w''.0) (ground arith)
        ∙ high (j - m) (ground arith)
        ∙ second (j - m) (ground arith)
        ∙ ap all (ground arith)
  ],
)

pub Extends-nil : (k : ℕ) (f : ℕ → ℕ) (w : Word) → Written k w → Extends k 0 f w w
unfolding Extends
Extends-nil k f w written =
    (subst (λ x. Written x w) (omega arith) written, λ i p. refl, λ j p. absurd (omega arith))

pub Extends-Written : (k n : ℕ) (f : ℕ → ℕ) (w w' : Word) → Extends k n f w w' → Written (k + n) w'
unfolding Extends
Extends-Written k n f w w' x = x.0
