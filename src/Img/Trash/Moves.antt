-- ===== src/Img/Trash/Moves.antt =====
-- A file that MoveToTrash has moved, and that RestoreFromTrash moves back, is where it was.
use photo_swipe.Prelude.{
  ℕ, ◌≡◌, ◌≢◌, refl, sym, ap, ◌∙◌, ◌+◌, ◌++◌, length, String, true, none, some, arith, str_eq,
  eq_iff, eq_refl, if◌then◌else◌, Bool-cases, Option-cases, inl, inr,
}
use photo_swipe.Prelude.Map.{lookup, insert, delete, lookup-insert, lookup-delete}
use photo_swipe.Img.Trash.Names.{Answering, unique_dest-Returns, unique_dest-is_missing}
use photo_swipe.Img.Trash.{
  Paths, Disk, Answers, is_missing, is_taken, mkdir_all, unique_dest, rename, moved_to, not_moved,
  no_end, move_to_trash, restore_from_trash,
}

pub mkdir_all-files :
    (paths : Paths) (os : Answers) (path : String) (disk disk' : Disk)
    → mkdir_all paths os path disk ≡ some disk'
    → disk'.files ≡ disk.files
unfolding mkdir_all
mkdir_all-files paths os path disk disk' e = ground (arith, e)

mkdir_all-size :
    (paths : Paths) (os : Answers) (path : String) (disk disk' : Disk)
    → mkdir_all paths os path disk ≡ some disk'
    → length disk'.files + length disk'.dirs
      ≡ length disk.files + length (paths.above path ++ disk.dirs)
unfolding mkdir_all
mkdir_all-size paths os path disk disk' e =
    let made : disk' ≡ record disk { dirs = paths.above path ++ disk.dirs } = ground (arith, e) in
    ap (λ (d : Disk). length d.files + length d.dirs) made

renamed-files :
    (os : Answers) (src dst content : String) (disk disk' : Disk)
    → lookup src disk.files ≡ some content
    → rename os src dst disk ≡ some disk'
    → disk'.files ≡ insert dst content (delete src disk.files)
unfolding rename
renamed-files os src dst content disk disk' h e = ground (arith, h, e)

-- What a rename that succeeds has done.
pub rename-lookup :
    (os : Answers) (src dst : String) (disk disk' : Disk)
    → rename os src dst disk ≡ some disk'
    → (content : String) × (lookup src disk.files ≡ some content)
      × ((path : String)
          → lookup path disk'.files ≡ (
              if str_eq dst path
              then some content
              else if str_eq src path
              then none
              else lookup path disk.files))
unfolding rename
rename-lookup os src dst disk disk' e = elim (Option-cases (lookup src disk.files)) [
  | inl h ↦ absurd (ground (arith, e, h))
  | inr (content, h) ↦ (
    content,
    h,
    λ path.
        ap (lookup path) (renamed-files os src dst content disk disk' h e)
        ∙ rw
            (
              lookup-insert dst path content (delete src disk.files),
              lookup-delete src path disk.files,
            )
            refl,
  )
]

restored :
    (paths : Paths) (os : Answers) (dst src : String) (disk disk' : Disk)
    → restore_from_trash paths os dst src disk ≡ (true, disk')
    → (middle : Disk) × (middle.files ≡ disk.files) × (rename os dst src middle ≡ some disk')
unfolding restore_from_trash
restored paths os dst src disk disk' e = elim (Bool-cases (is_missing os dst disk)) [
  | inl h ↦ absurd (ground (arith, e, h))
  | inr h ↦ elim (Option-cases (mkdir_all paths os (paths.dir src) disk)) [
    | inl h2 ↦ absurd (ground (arith, e, h, h2))
    | inr (middle, h2) ↦ elim (Option-cases (rename os dst src middle)) [
      | inl h3 ↦ absurd (ground (arith, e, h, h2, h3))
      | inr (last, h3) ↦ (
        middle,
        mkdir_all-files paths os (paths.dir src) disk middle h2,
        ground (arith, e, h, h2, h3),
      )
    ]
  ]
]

pub move_to_trash-moved :
    (paths : Paths) (os : Answers) (src photo_dir trash_dir dst : String) (disk disk' : Disk)
    → move_to_trash paths os src photo_dir trash_dir disk ≡ (moved_to dst, disk')
    → (middle : Disk) × (middle.files ≡ disk.files)
      × (rename os src dst middle ≡ some disk')
      × (is_missing os dst middle ≡ true)
unfolding move_to_trash
move_to_trash-moved paths os src photo_dir trash_dir dst disk disk' e =
    elim (Option-cases (paths.rel photo_dir src)) [
      | inl h ↦ absurd (ground (arith, e, h))
      | inr (rel, h) ↦
          let wanted = paths.join trash_dir rel in
          elim (Option-cases (mkdir_all paths os (paths.dir wanted) disk)) [
            | inl h2 ↦ absurd (ground (arith, e, h, h2))
            | inr (middle, h2) ↦ elim (Option-cases (unique_dest paths os wanted middle)) [
              | inl h3 ↦ absurd (ground (arith, e, h, h2, h3))
              | inr (free, h3) ↦ elim (Option-cases (rename os src free middle)) [
                | inl h4 ↦ absurd (ground (arith, e, h, h2, h3, h4))
                | inr (last, h4) ↦
                    let landed : (free ≡ dst) × (last ≡ disk') = ground (arith, e, h, h2, h3, h4) in
                    (
                      middle,
                      mkdir_all-files paths os (paths.dir wanted) disk middle h2,
                      ap (λ d. rename os src d middle) (sym landed.0) ∙ h4 ∙ ap some landed.1,
                      ap (λ d. is_missing os d middle) (sym landed.0)
                          ∙ unique_dest-is_missing paths os wanted free middle h3,
                    )
              ]
            ]
          ]
    ]

-- A MoveToTrash that fails has moved nothing.
pub move_to_trash-not_moved :
    (paths : Paths) (os : Answers) (src photo_dir trash_dir : String) (disk disk' : Disk)
    → move_to_trash paths os src photo_dir trash_dir disk ≡ (not_moved, disk')
    → disk'.files ≡ disk.files
unfolding move_to_trash
move_to_trash-not_moved paths os src photo_dir trash_dir disk disk' e =
    elim (Option-cases (paths.rel photo_dir src)) [
      | inl h ↦ ground (arith, e, h)
      | inr (rel, h) ↦
          let wanted = paths.join trash_dir rel in
          elim (Option-cases (mkdir_all paths os (paths.dir wanted) disk)) [
            | inl h2 ↦ ground (arith, e, h, h2)
            | inr (middle, h2) ↦
                let same = mkdir_all-files paths os (paths.dir wanted) disk middle h2 in
                elim (Option-cases (unique_dest paths os wanted middle)) [
                  | inl h3 ↦ absurd (ground (arith, e, h, h2, h3))
                  | inr (free, h3) ↦ elim (Option-cases (rename os src free middle)) [
                    | inl h4 ↦
                        let left : middle ≡ disk' = ground (arith, e, h, h2, h3, h4) in
                        ap (λ (d : Disk). d.files) (sym left) ∙ same
                    | inr (last, h4) ↦ absurd (ground (arith, e, h, h2, h3, h4))
                  ]
                ]
          ]
    ]

-- MoveToTrash never searches without end for a free name, where fmt prints no two numbers alike
-- and os.Stat fails on none of the names that the search may reach with another error than
-- ErrNotExist. That are as many names as there are files and directories once the trash folder is
-- made, and two more.
pub move_to_trash-Ends :
    (paths : Paths) (os : Answers) (src photo_dir trash_dir : String) (disk : Disk)
    → ((i j : ℕ) → paths.decimal i ≡ paths.decimal j → i ≡ j)
    → ((rel : String)
        → paths.rel photo_dir src ≡ some rel
        → let wanted = paths.join trash_dir rel in
          Answering paths os wanted
            (length disk.files + length (paths.above (paths.dir wanted) ++ disk.dirs)))
    → (move_to_trash paths os src photo_dir trash_dir disk).0 ≢ no_end
unfolding move_to_trash
move_to_trash-Ends paths os src photo_dir trash_dir disk inj answers e =
    elim (Option-cases (paths.rel photo_dir src)) [
      | inl h ↦ ground (arith, e, h)
      | inr (rel, h) ↦
          let wanted = paths.join trash_dir rel in
          elim (Option-cases (mkdir_all paths os (paths.dir wanted) disk)) [
            | inl h2 ↦ ground (arith, e, h, h2)
            | inr (middle, h2) ↦
                let made = mkdir_all-size paths os (paths.dir wanted) disk middle h2 in
                let (free, h3, _) =
                  unique_dest-Returns paths os wanted middle inj
                    (λ i le. answers rel h i (omega (arith, le, made))) in
                elim (Option-cases (rename os src free middle)) [
                  | inl h4 ↦ ground (arith, e, h, h2, h3, h4)
                  | inr (last, h4) ↦ ground (arith, e, h, h2, h3, h4)
                ]
          ]
    ]

-- Where os.Stat finds nothing there is no file.
pub unheld :
    (os : Answers) (path : String) (disk : Disk)
    → is_missing os path disk ≡ true
    → lookup path disk.files ≡ none
unfolding is_missing is_taken
unheld os path disk e = ground (arith, e)

-- A file that MoveToTrash has moved and RestoreFromTrash has moved back, both without an error, is
-- at its path with the content it had, and every other path has the file that it had.
pub restore_from_trash-move_to_trash :
    (paths paths' : Paths) (os os' : Answers) (src photo_dir trash_dir dst path : String)
    (disk disk' disk'' : Disk)
    → move_to_trash paths os src photo_dir trash_dir disk ≡ (moved_to dst, disk')
    → restore_from_trash paths' os' dst src disk' ≡ (true, disk'')
    → lookup path disk''.files ≡ lookup path disk.files
restore_from_trash-move_to_trash paths paths' os os' src photo_dir trash_dir dst path disk disk'
      disk'' e e' =
    let (m, fm, r, free) = move_to_trash-moved paths os src photo_dir trash_dir dst disk disk' e in
    let (c, l, g) = rename-lookup os src dst m disk' r in
    let (m', fm', r') = restored paths' os' dst src disk' disk'' e' in
    let (c', l', g') = rename-lookup os' dst src m' disk'' r' in
    let gone : lookup dst m.files ≡ none = unheld os dst m free in
    ground (
      arith,
      g' path,
      g path,
      g dst,
      l,
      l',
      gone,
      ap (lookup path) fm,
      ap (lookup path) fm',
      ap (lookup dst) fm',
      ap (lookup dst) fm,
      ap (lookup src) fm,
      eq_iff src path,
      eq_iff dst path,
      eq_refl dst,
      eq_iff src dst,
    )
