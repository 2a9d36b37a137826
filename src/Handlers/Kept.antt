-- ===== src/Handlers/Kept.antt =====
-- Moving a file to the trash takes no other file's place.
use photo_swipe.Prelude.{
  ◌≡◌, refl, ap, ◌∙◌, String, true, some, arith, str_eq, eq_iff, eq_refl, Bool-cases, Option-cases,
  inl, inr, ◌⊎◌, subst,
}
use photo_swipe.Prelude.Map.{lookup}
use photo_swipe.Img.Trash.{
  Paths, Disk, Answers, is_missing, move_to_trash, mkdir_all, unique_dest, rename,
}
use photo_swipe.Img.Trash.Names.{unique_dest-is_missing}
use photo_swipe.Img.Trash.Moves.{mkdir_all-files, rename-lookup, unheld}

-- Every file of `disk` is at its path in `disk'` too, or its path is one that may move and its
-- content is at another.
abbrev pub Moves : (String → Type 0) → Disk → Disk → Type 0
Moves May disk disk' =
    (path content : String)
    → lookup path disk.files ≡ some content
    → (lookup path disk'.files ≡ some content)
      ⊎ (May path × (path' : String) × (lookup path' disk'.files ≡ some content))

-- Every file of `disk` has its content somewhere in `disk'`.
abbrev pub Keeps : Disk → Disk → Type 0
Keeps disk disk' =
    (path content : String)
    → lookup path disk.files ≡ some content
    → (path' : String) × (lookup path' disk'.files ≡ some content)

pub Moves-same :
    (May : String → Type 0) (disk disk' : Disk) → disk'.files ≡ disk.files → Moves May disk disk'
Moves-same May disk disk' e path content h = inl (ap (lookup path) e ∙ h)

pub Keeps-same : (disk disk' : Disk) → disk'.files ≡ disk.files → Keeps disk disk'
Keeps-same disk disk' e path content h = (path, ap (lookup path) e ∙ h)

rename-Moves :
    (May : String → Type 0) (os : Answers) (src dst : String) (disk disk' : Disk)
    → May src
    → rename os src dst disk ≡ some disk'
    → is_missing os dst disk ≡ true
    → Moves May disk disk'
rename-Moves May os src dst disk disk' may e free path content h =
    let (c, l, g) = rename-lookup os src dst disk disk' e in
    elim (Bool-cases (str_eq src path)) [
      | inl at ↦
          let own = (eq_iff src path).0 at in
          inr (
            subst May own may,
            dst,
            g dst
                ∙ ground (arith, eq_refl dst, eq_iff src path, l, h, ap (λ x. lookup x disk.files)),
          )
      | inr off ↦ inl (g path ∙ ground (arith, off, h, eq_iff dst path, unheld os dst disk free))
    ]

-- MoveToTrash moves no file but its source, whose content it does not lose.
pub move_to_trash-Moves :
    (May : String → Type 0) (paths : Paths) (os : Answers) (src photo_dir trash_dir : String)
    (disk : Disk)
    → May src
    → Moves May disk (move_to_trash paths os src photo_dir trash_dir disk).1
unfolding move_to_trash
move_to_trash-Moves May paths os src photo_dir trash_dir disk may =
    elim (Option-cases (paths.rel photo_dir src)) [
      | inl h ↦ rw (h, move_to_trash) (Moves-same May disk disk refl)
      | inr (rel, h) ↦
          let wanted = paths.join trash_dir rel in
          elim (Option-cases (mkdir_all paths os (paths.dir wanted) disk)) [
            | inl h2 ↦ rw (h, h2, move_to_trash) (Moves-same May disk disk refl)
            | inr (middle, h2) ↦
                let same = mkdir_all-files paths os (paths.dir wanted) disk middle h2 in
                elim (Option-cases (unique_dest paths os wanted middle)) [
                  | inl h3 ↦ rw (h, h2, h3, move_to_trash) (Moves-same May disk middle same)
                  | inr (free, h3) ↦ elim (Option-cases (rename os src free middle)) [
                    | inl h4 ↦ rw (h, h2, h3, h4, move_to_trash) (Moves-same May disk middle same)
                    | inr (last, h4) ↦
                        rw (h, h2, h3, h4, move_to_trash)
                          (λ path content l.
                            rename-Moves May os src free middle last may h4
                              (unique_dest-is_missing paths os wanted free middle h3) path content
                              (ap (lookup path) same ∙ l))
                  ]
                ]
          ]
    ]

pub move_to_trash-Keeps :
    (paths : Paths) (os : Answers) (src photo_dir trash_dir : String) (disk : Disk)
    → Keeps disk (move_to_trash paths os src photo_dir trash_dir disk).1
move_to_trash-Keeps paths os src photo_dir trash_dir disk path content h =
    elim (move_to_trash-Moves (λ _. Unit) paths os src photo_dir trash_dir disk tt path content h) [
      | inl stays ↦ (path, stays)
      | inr (_, path', there) ↦ (path', there)
    ]
