-- ===== src/Img/Thumb/Bounds.antt =====
-- The sides of a thumbnail.
use photo_swipe.Prelude.{ℕ, ◌*◌, ◌/◌, ◌≤◌, ◌<◌, ◌≡◌, ◌&&◌, arith, leb, Bool-cases, inl, inr, ◌⊎◌}
use native.Mathlib.Nat.{div-le_of_le-mul, mul-le-mul_left, mul-le-mul_right, mul_comm}
use photo_swipe.Img.Orient.{Image}
use photo_swipe.Img.Thumb.{Codecs, scale_to, shrunk_size}

-- `a` scaled as `b` is scaled to `side`.
scaled-le : (a b side : ℕ) → a ≤ b → side ≤ b → (a * side / b ≤ side) × (a * side / b ≤ a)
scaled-le a b side h k = (
  div-le_of_le-mul b (mul-le-mul_right side h),
  div-le_of_le-mul b (omega (arith, mul-le-mul_left a k, mul_comm a b)),
)

-- What scaleTo draws is at most `side` pixels wide and high and no wider or higher than the
-- picture. Either it has the size of the picture, or the picture does not fit and its longer side
-- becomes `side`. This holds if the copy of a picture has its size, and the resampled one the size
-- asked for.
pub scale_to-Bounded :
    (codecs : Codecs) (src : Image ℕ) (side : ℕ)
    → ((im : Image ℕ) → ((codecs.copy im).width ≡ im.width) × ((codecs.copy im).height ≡ im.height))
    → ((w h : ℕ) (im : Image ℕ)
        → ((codecs.shrink w h im).width ≡ w) × ((codecs.shrink w h im).height ≡ h))
    → let dst = scale_to codecs src side in
      (dst.width ≤ side)
      × (dst.height ≤ side)
      × (dst.width ≤ src.width)
      × (dst.height ≤ src.height)
      × (((dst.width ≡ src.width) × (dst.height ≡ src.height))
          ⊎ (((src.height ≤ src.width) × (side < src.width) × (dst.width ≡ side))
              ⊎ ((src.width ≤ src.height) × (side < src.height) × (dst.height ≡ side))))
unfolding scale_to shrunk_size
scale_to-Bounded codecs src side copied sized =
    elim (Bool-cases (leb src.width side && leb src.height side)) [
      | inl e ↦
          let c = copied src in
          rw (e, scale_to)
            (ground (arith, e, c), ground (arith, e, c), omega (arith, c), omega (arith, c), inl c)
      | inr e ↦ elim (Bool-cases (leb src.height src.width)) [
        | inl f ↦
            let (p, q) =
              scaled-le src.height src.width side (ground (arith, f)) (ground (arith, e, f)) in
            let c = sized side (src.height * side / src.width) src in
            rw (e, f, scale_to, shrunk_size)
              (
                omega (arith, c),
                omega (arith, c, p),
                ground (arith, e, f, c),
                omega (arith, c, q),
                inr (inl (ground (arith, f), ground (arith, e, f), c.0)),
              )
        | inr f ↦
            let (p, q) =
              scaled-le src.width src.height side (ground (arith, f)) (ground (arith, e, f)) in
            let c = sized (src.width * side / src.height) side src in
            rw (e, f, scale_to, shrunk_size)
              (
                omega (arith, c, p),
                omega (arith, c),
                omega (arith, c, q),
                ground (arith, e, f, c),
                inr (inr (ground (arith, f), ground (arith, e, f), c.1)),
              )
      ]
    ]
