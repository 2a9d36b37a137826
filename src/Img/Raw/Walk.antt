-- ===== src/Img/Raw/Walk.antt =====
-- The walk over the directories of a RAW file ends, and no index leaves the file.
use photo_swipe.Prelude.{
  ℕ, zero, suc, ◌+◌, ◌-◌, ◌*◌, ◌≤◌, ◌<◌, ◌≡◌, refl, false, ◌||◌, List, [], ◌∷◌, ◌++◌, arith, length,
  drop, take, length-take, length-drop, length-append, ltb, leb, ◌==◌, Bool-cases, inl, inr,
}
use photo_swipe.Img.Exif.{slice, ByteOrder, uint32}
use photo_swipe.Img.Raw.{
  Region, Tags, offsets_in, read_offsets, scalar, read_tag, read_entry, read_entries, read_dir,
  visit_dir, walk, has, no_tags,
}
use photo_swipe.Img.Raw.Held.{
  Held, Any, Held-bind, Held-weaken, Held-if, Held-slice, Held-uint16, Held-uint32, Held-read16,
  Held-read32,
}

Held-offsets_in :
    (bo : ByteOrder) (left : ℕ) (buf : List ℕ)
    → left * 4 ≤ length buf
    → Held (λ offs. length offs ≤ left) (offsets_in bo left buf)
unfolding offsets_in
Held-offsets_in bo zero buf h = omega arith
Held-offsets_in bo (suc left) buf h =
    Held-bind Any _ (uint32 bo buf) _ (Held-uint32 bo buf (omega arith)) λ off _.
      Held-bind _ _ (offsets_in bo left (drop 4 buf)) _
        (Held-offsets_in bo left (drop 4 buf) (omega (arith, length-drop 4 buf)))
        (λ rest k. omega (arith, k))

Held-read_offsets :
    (file : List ℕ) (bo : ByteOrder) (count : ℕ) (val : List ℕ)
    → length val ≡ 4
    → Held (λ offs. length offs ≤ 16) (read_offsets file bo count val)
unfolding read_offsets
Held-read_offsets file bo count val four =
    Held-if _ (count == 0 || ltb 16 count) _ _ (λ _. omega arith)
      λ some_.
        Held-if _ (count == 1) _ _
          (λ _.
            Held-bind Any _ (uint32 bo val) _ (Held-uint32 bo val (omega (arith, four)))
              (λ _ _. omega arith))
          λ _. Held-bind Any _ (uint32 bo val) _ (Held-uint32 bo val (omega (arith, four))) λ at _.
            Held-if _ (ltb (length file) (at + count * 4)) _ _ (λ _. omega arith)
              λ inside.
                Held-weaken _ _ (offsets_in bo count (take (count * 4) (drop at file)))
                  (Held-offsets_in bo count _ (
                    omega (
                      arith,
                      length-take (count * 4) (drop at file),
                      length-drop at file,
                      room at inside,
                    )))
                  (λ offs k. omega (arith, k, few some_))
  where
    room : (at : ℕ) → ltb (length file) (at + count * 4) ≡ false → at + count * 4 ≤ length file
    room at e = ground (arith, e)

    few : (count == 0 || ltb 16 count) ≡ false → count ≤ 16
    few e = ground (arith, e)

Held-scalar :
    (bo : ByteOrder) (ftype : ℕ) (val : List ℕ) → length val ≡ 4 → Held Any (scalar bo ftype val)
unfolding scalar
Held-scalar bo ftype val four =
    Held-if Any (ftype == 3) _ _
      (λ _.
        Held-bind _ Any (slice 0 2 val) _ (Held-slice 0 2 val (omega arith) (omega (arith, four)))
          λ t at. Held-uint16 bo t (omega (arith, at)))
      (λ _. Held-uint32 bo val (omega (arith, four)))

-- The entry adds at most 16 directories.
Held-read_tag :
    (file : List ℕ) (bo : ByteOrder) (tag ftype count : ℕ) (val : List ℕ) (acc : Tags × List ℕ)
    → length val ≡ 4
    → Held (λ r. length r.1 ≤ length acc.1 + 16) (read_tag file bo tag ftype count val acc)
unfolding read_tag
Held-read_tag file bo tag ftype count val (t, more) four =
    Held-if _ (tag == 0x0103) _ _
      (λ _. Held-read16 _ bo 0 2 val _ refl (omega (arith, four)) (λ _. omega arith))
      λ _.
        Held-if _ (tag == 0x0111) _ _
          (λ _.
            Held-if _ (count == 1) _ _
              (λ _.
                Held-bind Any _ (scalar bo ftype val) _ (Held-scalar bo ftype val four)
                  (λ _ _. omega arith))
              (λ _. omega arith))
          λ _.
            Held-if _ (tag == 0x0117) _ _
              (λ _.
                Held-if _ (count == 1) _ _
                  (λ _.
                    Held-bind Any _ (scalar bo ftype val) _ (Held-scalar bo ftype val four)
                      (λ _ _. omega arith))
                  (λ _. omega arith))
              λ _.
                Held-if _ (tag == 0x0201) _ _
                  (λ _.
                    Held-bind Any _ (scalar bo ftype val) _ (Held-scalar bo ftype val four)
                      (λ _ _. omega arith))
                  λ _.
                    Held-if _ (tag == 0x0202) _ _
                      (λ _.
                        Held-bind Any _ (scalar bo ftype val) _ (Held-scalar bo ftype val four)
                          (λ _ _. omega arith))
                      λ _.
                        Held-if _ (tag == 0x014a) _ _
                          (λ _.
                            Held-bind _ _ (read_offsets file bo count val) _
                              (Held-read_offsets file bo count val four)
                              (λ offs k. omega (arith, k, length-append more offs)))
                          (λ _. omega arith)

Held-read_entry :
    (file : List ℕ) (bo : ByteOrder) (e : List ℕ) (acc : Tags × List ℕ)
    → length e ≡ 12
    → Held (λ r. length r.1 ≤ length acc.1 + 16) (read_entry file bo e acc)
unfolding read_entry
Held-read_entry file bo e acc twelve = Held-read16 _ bo 0 2 e _ refl (omega (arith, twelve)) λ tag.
    Held-read16 _ bo 2 4 e _ refl (omega (arith, twelve)) λ ftype.
      Held-read32 _ bo 4 8 e _ refl (omega (arith, twelve)) λ count.
        Held-bind _ _ (slice 8 12 e) _ (Held-slice 8 12 e (omega arith) (omega (arith, twelve)))
          λ val at. Held-read_tag file bo tag ftype count val acc (omega (arith, at))

Held-read_entries :
    (left at : ℕ) (file : List ℕ) (bo : ByteOrder) (entries : List ℕ) (acc : Tags × List ℕ)
    → at + left * 12 ≤ length entries
    → Held (λ r. length r.1 ≤ length acc.1 + left * 16) (read_entries left at file bo entries acc)
unfolding read_entries
Held-read_entries zero at file bo entries acc h = omega arith
Held-read_entries (suc left) at file bo entries acc h =
    Held-bind _ _ (slice at (at + 12) entries) _
      (Held-slice at (at + 12) entries (omega arith) (omega arith))
      λ e k.
        Held-bind _ _ (read_entry file bo e acc) _
          (Held-read_entry file bo e acc (omega (arith, k)))
          λ acc' k'.
            Held-weaken _ _ (read_entries left (at + 12) file bo entries acc')
              (Held-read_entries left (at + 12) file bo entries acc' (omega (arith, h)))
              (λ r l. omega (arith, k', l))

Held-read_dir :
    (file : List ℕ) (bo : ByteOrder) (n : ℕ) (entries : List ℕ)
    → n * 12 ≤ length entries
    → Held (λ r. length r.1 ≤ n * 16 + 1) (read_dir file bo n entries)
unfolding read_dir
Held-read_dir file bo n entries h =
    Held-bind _ _ (read_entries n 0 file bo entries (no_tags, [])) _
      (Held-read_entries n 0 file bo entries (no_tags, []) (omega (arith, h)))
      λ r k.
        Held-if _ (leb (n * 12 + 4) (length entries)) _ _
          (λ l.
            Held-read32 _ bo (n * 12) (n * 12 + 4) entries _ refl (ground (arith, l))
              (λ next. omega (arith, k, length-append r.1 (next ∷ []))))
          (λ _. omega (arith, k))

-- A directory adds at most 65,537 to the queue.
Held-visit_dir :
    (file : List ℕ) (bo : ByteOrder) (off : ℕ)
    → Held (λ r. length r.1 ≤ 65537) (visit_dir file bo off)
unfolding visit_dir
Held-visit_dir file bo off =
    Held-if _ (ltb (length file) (off + 2)) _ _ (λ _. omega arith)
      λ h. Held-read16 _ bo off (off + 2) file _ refl (ground (arith, h)) λ n.
        let entries = take (n * 12 + 4) (drop (off + 2) file) in
        Held-if _ (n == 0 || ltb 4096 n) _ _ (λ _. omega arith)
          λ few.
            Held-if _ (ltb (length entries) (n * 12)) _ _ (λ _. omega arith)
              λ long.
                Held-weaken _ _ (read_dir file bo n entries)
                  (Held-read_dir file bo n entries (ground (arith, long)))
                  (λ r k. omega (arith, k, at_most n few))
  where
    at_most : (n : ℕ) → (n == 0 || ltb 4096 n) ≡ false → n ≤ 4096
    at_most n e = ground (arith, e)

-- The walk returns if the rounds suffice for what is queued and what may still be.
pub Held-walk :
    (rounds : ℕ) (file : List ℕ) (bo : ByteOrder) (visited queue : List ℕ) (jpegs : List Region)
    → (64 - length visited) * 65538 + length queue < rounds
    → Held Any (walk rounds file bo visited queue jpegs)
unfolding walk
Held-walk zero file bo visited queue jpegs h = absurd (omega (arith, h))
Held-walk (suc rounds) file bo visited [] jpegs h = tt
Held-walk (suc rounds) file bo visited (off ∷ queue) jpegs h =
    elim (Bool-cases (leb 64 (length visited))) [
      | inl e ↦ rw (e, walk) tt
      | inr e ↦ elim (Bool-cases (off == 0 || has off visited)) [
        | inl f ↦ rw (e, f, walk) (Held-walk rounds file bo visited queue jpegs (omega (arith, h)))
        | inr f ↦
            rw (e, f, walk)
              (Held-bind _ Any (visit_dir file bo off) _ (Held-visit_dir file bo off) λ found k.
                Held-walk rounds file bo (off ∷ visited) (queue ++ found.1) (jpegs ++ found.0)
                  (omega (arith, h, k, length-append queue found.1, below e)))
      ]
    ]
  where
    below : leb 64 (length visited) ≡ false → length visited < 64
    below e = ground (arith, e)
