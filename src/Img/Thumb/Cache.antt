-- ===== src/Img/Thumb/Cache.antt =====
-- A thumbnail that was served once is served again from the cache.
use photo_swipe.Prelude.{
  ℕ, ◌≡◌, true, not, mem, ◌&&◌, refl, sym, ap, ◌∙◌, String, some, arith, Bool-cases, Option-cases,
  inl, inr,
}
use photo_swipe.Prelude.Int.{ℤ, pos, leb_ℤ}
use photo_swipe.Prelude.Map.{lookup, insert, lookup-insert_self}
use photo_swipe.Img.Trash.{Paths, Answers, Disk, mkdir_all}
use photo_swipe.Img.Thumb.{
  Codecs, thumb_of, make_thumb, serve_thumb, clamped, cache_dir, cache_path,
}

make_thumb-lookup :
    (codecs : Codecs) (paths : Paths) (os : Answers) (src dir path bytes : String) (side : ℕ)
    (disk disk' : Disk)
    → make_thumb codecs paths os src dir path side disk ≡ (some bytes, disk')
    → lookup path disk'.files ≡ some bytes
unfolding make_thumb
make_thumb-lookup codecs paths os src dir path bytes side disk disk' e =
    elim (Option-cases (thumb_of codecs src side)) [
      | inl h ↦ absurd (ground (arith, e, h))
      | inr (thumb, h) ↦ elim (Option-cases (mkdir_all paths os dir disk)) [
        | inl h2 ↦ absurd (ground (arith, e, h, h2))
        | inr (middle, h2) ↦ elim (Option-cases (codecs.encode thumb)) [
          | inl h3 ↦ absurd (ground (arith, e, h, h2, h3))
          | inr (made, h3) ↦
              elim (Bool-cases (os.rename_ok "tmp" path && not (mem path middle.dirs))) [
                | inr h4 ↦ absurd (ground (arith, e, h, h2, h3, h4))
                | inl h4 ↦ elim (Bool-cases (os.reopen_ok path && os.copy_ok path)) [
                  | inr h5 ↦ absurd (ground (arith, e, h, h2, h3, h4, h5))
                  | inl h5 ↦
                      let same : (made ≡ bytes)
                          × (record middle { files = insert path made middle.files } ≡ disk') =
                        ground (arith, e, h, h2, h3, h4, h5) in
                      ap (λ (d : Disk). lookup path d.files) (sym same.1)
                      ∙ lookup-insert_self path made middle.files
                      ∙ ap some same.0
                ]
              ]
        ]
      ]
    ]

-- A request for a thumbnail that has been sent before, at the same width, sends the same bytes and
-- changes nothing on the disk, whatever the photo's file has become since, if the cached file can
-- be opened and copied.
pub serve_thumb_again :
    (codecs codecs' : Codecs) (paths : Paths) (os os' : Answers)
    (src src' photo_dir id bytes : String) (side : ℤ) (disk disk' : Disk)
    → serve_thumb codecs paths os src photo_dir id side disk ≡ (some bytes, disk')
    → os'.open_ok (cache_path paths photo_dir id (clamped side)) ≡ true
    → os'.copy_ok (cache_path paths photo_dir id (clamped side)) ≡ true
    → serve_thumb codecs' paths os' src' photo_dir id side disk' ≡ (some bytes, disk')
unfolding serve_thumb
serve_thumb_again codecs codecs' paths os os' src src' photo_dir id bytes side disk disk' e opens
      copies =
    let dir = paths.join photo_dir cache_dir in
    let path = cache_path paths photo_dir id (clamped side) in
    let made = make_thumb-lookup codecs paths os src dir path bytes (clamped side) disk disk' in
    elim (Bool-cases (leb_ℤ side (pos 0))) [
      | inl h ↦ absurd (ground (arith, e, h))
      | inr h ↦
          let again : lookup path disk'.files ≡ some bytes = elim (Bool-cases (os.open_ok path)) [
            | inr h2 ↦ made (ground (arith, e, h, h2))
            | inl h2 ↦ elim (Option-cases (lookup path disk.files)) [
              | inr (held, h3) ↦ ground (arith, e, h, h2, h3)
              | inl h3 ↦ elim (Bool-cases (mem path disk.dirs)) [
                | inl h4 ↦ absurd (ground (arith, e, h, h2, h3, h4))
                | inr h4 ↦ made (ground (arith, e, h, h2, h3, h4))
              ]
            ]
          ] in
          rw (h, opens, again, copies, serve_thumb) refl
    ]
