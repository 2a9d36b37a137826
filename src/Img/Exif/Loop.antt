-- ===== src/Img/Exif/Loop.antt =====
-- The loop of readExif ends, and so ReadExifFile always has a result.
use photo_swipe.Prelude.{
  ℕ, zero, suc, ◌+◌, ◌*◌, ◌-◌, ◌≤◌, ◌<◌, ◌≡◌, refl, Bool, true, false, Option, some, List, [], ◌∷◌,
  arith, length, drop, take, length-drop, ltb, Bool-cases, inl, inr, if◌then◌else◌, not, ◌==◌, ◌||◌,
  ◌&&◌, leb, ◌^◌,
}
use photo_swipe.Store.Photo.{Time}
use photo_swipe.Img.Exif.{
  Parsed, Next, ended, go_on, Scan, stopped, out_of_fuel, segment, slice, opens_exif, after_marker,
  round, scan, read_exif, same_bytes, exif_header,
}
use photo_swipe.Img.Exif.Safety.{Returns, Returns-bind, Returns-slice, Returns-parse_exif}

-- A round ends with a result, or goes on with fewer bytes than `n`.
data Advances (n : ℕ) : Next → Type 0 where
  ends : {r : Option Parsed} → Returns r → Advances n (ended r)
  goes : {r : List ℕ} → length r < n → Advances n (go_on r)

abbrev Stops : Scan → Type 0
Stops (stopped r) = Returns r
Stops out_of_fuel = ⊥

Advances-if :
    (n : ℕ) (b : Bool) (x y : Next)
    → (b ≡ true → Advances n x)
    → (b ≡ false → Advances n y)
    → Advances n (if b then x else y)
Advances-if n true x y h k = h refl
Advances-if n false x y h k = k refl

weaken : {m : ℕ} {x : Next} (n : ℕ) → Advances m x → m ≤ n → Advances n x
weaken n (ends h) k = ends h
weaken n (goes h) k = goes (omega arith)

module _ (parse_time : List ℕ → Option Time) where
  opens_exif_returns :
      (marker : ℕ) (seg : List ℕ)
      → (opens : Bool) × (opens_exif parse_time marker seg ≡ some opens)
        × (opens ≡ true → 6 ≤ length seg)
  unfolding opens_exif slice
  opens_exif_returns marker seg = elim (Bool-cases (marker == 0xe1)) [
    | inr e ↦ (false, rw (e, opens_exif) refl, λ o. ground arith)
    | inl e ↦ elim (Bool-cases (leb 6 (length seg))) [
      | inr f ↦ (false, rw (e, f, opens_exif) refl, λ o. ground arith)
      | inl f ↦ (
        same_bytes (take 6 seg) exif_header,
        rw (e, f, opens_exif, slice) refl,
        λ _. ground (arith, f),
      )
    ]
  ]

  Advances-segment :
      (marker len : ℕ) (r : List ℕ) → Advances (suc (length r)) (segment parse_time marker len r)
  unfolding segment
  Advances-segment marker len r =
      let seg = take len r in
      Advances-if _ (ltb (length r) len) _ _ (λ _. ends tt)
        λ _.
          let (opens, e, long) = opens_exif_returns marker seg in
          rw e (
            Advances-if _ opens _ _
              (λ o. ends (
                Returns-bind (slice 6 (length seg) seg) _
                  (Returns-slice 6 (length seg) seg (long o) (omega arith))
                  (λ tiff _. Returns-parse_exif parse_time tiff)))
              (λ _. goes {r = drop len r} (omega (arith, length-drop len r))))

  Advances-after_marker :
      (marker : ℕ) (r : List ℕ) → Advances (suc (length r)) (after_marker parse_time marker r)
  unfolding after_marker
  Advances-after_marker marker [] =
      Advances-if _ (marker == 0x01 || (leb 0xd0 marker && leb marker 0xd7)) _ _
        (λ _. goes {r = []} (omega arith))
        (λ _. Advances-if _ (marker == 0xda || marker == 0xd9) _ _ (λ _. ends tt) (λ _. ends tt))
  Advances-after_marker marker (hi ∷ []) =
      Advances-if _ (marker == 0x01 || (leb 0xd0 marker && leb marker 0xd7)) _ _
        (λ _. goes {r = hi ∷ []} (omega arith))
        (λ _. Advances-if _ (marker == 0xda || marker == 0xd9) _ _ (λ _. ends tt) (λ _. ends tt))
  Advances-after_marker marker (hi ∷ lo ∷ r) =
      let len = 256 * hi + lo in
      Advances-if _ (marker == 0x01 || (leb 0xd0 marker && leb marker 0xd7)) _ _
        (λ _. goes {r = hi ∷ lo ∷ r} (omega arith))
        λ _.
          Advances-if _ (marker == 0xda || marker == 0xd9) _ _ (λ _. ends tt)
            λ _.
              Advances-if _ (ltb len 2 || ltb (2 ^ 20 + 2) len) _ _ (λ _. ends tt)
                (λ _. weaken _ (Advances-segment marker (len - 2) r) (omega arith))

  Advances-round : (r : List ℕ) → Advances (length r) (round parse_time r)
  unfolding round
  Advances-round [] = ends tt
  Advances-round (a ∷ []) = ends tt
  Advances-round (mark ∷ marker ∷ r) =
      Advances-if _ (not (mark == 0xff)) _ _ (λ _. ends tt)
        (λ _. weaken _ (Advances-after_marker marker r) (omega arith))

  Stops-scan : (fuel : ℕ) (r : List ℕ) → length r < fuel → Stops (scan parse_time fuel r)
  unfolding scan
  Stops-scan zero r h = absurd (omega arith)
  Stops-scan (suc fuel) r h = at (round parse_time r) (Advances-round r) (Stops-scan fuel)
    where
      at :
          (x : Next)
          → Advances (length r) x
          → ((r' : List ℕ) → length r' < fuel → Stops (scan parse_time fuel r'))
          → Stops (elim x [ ended p ↦ stopped p | go_on r' ↦ scan parse_time fuel r' ])
      at (ended p) (ends k) ih = k
      at (go_on r') (goes k) ih = ih r' (omega arith)

  -- For every content of a JPEG the loop over its segments ends, with EXIF data or an error.
  pub Stops-read_exif : (bytes : List ℕ) → Stops (read_exif parse_time bytes)
  unfolding read_exif
  Stops-read_exif [] = tt
  Stops-read_exif (a ∷ []) = tt
  Stops-read_exif (a ∷ b ∷ r) = elim (Bool-cases (not (a == 0xff) || not (b == 0xd8))) [
    | inl e ↦ rw e tt
    | inr e ↦ rw e (Stops-scan (suc (length r)) r (omega arith))
  ]
