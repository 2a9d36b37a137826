-- ===== src/Img/Trash.antt =====
-- internal/img/trash.go: files move to the trash folder and back. The disk has regular files, with
-- what they hold, and directories. What path/filepath and fmt make of a path are the functions of
-- `Paths`; `Answers` say where a call of the operating system does not fail for reasons of its own.
pub mod Moves
pub mod Names
use photo_swipe.Prelude.{
  ℕ, zero, suc, ◌-◌, ◌+◌, length, String, Bool, true, false, not, ◌&&◌, ◌||◌, Option, none, some,
  List, [], ◌∷◌, ◌++◌, mem, if◌then◌else◌,
}
use Prim.Native.String.{◌++◌ as ◌⧺◌, len, slice}
use photo_swipe.Prelude.Map.{Map, lookup, insert, delete}

-- `above` is a directory with those that lead to it, and `stamp` the printed time of the call.
pub record Paths : Type 0 where
  pub rel : String → String → Option String
  pub join : String → String → String
  pub dir : String → String
  pub ext : String → String
  pub above : String → List String
  pub stamp : String
  pub decimal : ℕ → String

pub record Disk : Type 0 where
  pub files : Map String
  pub dirs : List String

pub record Answers : Type 0 where
  pub stat_ok : String → Bool
  pub open_ok : String → Bool
  pub reopen_ok : String → Bool
  pub copy_ok : String → Bool
  pub mkdir_ok : String → Bool
  pub rename_ok : String → String → Bool

abbrev pub is_file : String → Disk → Bool
is_file path disk = elim (lookup path disk.files) [ none ↦ false | some _ ↦ true ]

-- There is a file or a directory at the path.
unfoldable pub is_taken : String → Disk → Bool
is_taken path disk = is_file path disk || mem path disk.dirs

-- os.Stat fails with ErrNotExist. Where not `stat_ok`, it fails with another error.
unfoldable pub is_missing : Answers → String → Disk → Bool
unfolding is_taken
is_missing os path disk = os.stat_ok path && not (is_taken path disk)

-- os.MkdirAll; `none` where it fails
unfoldable pub mkdir_all : Paths → Answers → String → Disk → Option Disk
mkdir_all paths os path disk =
    if os.mkdir_ok path && not (is_file path disk)
    then some (record disk { dirs = paths.above path ++ disk.dirs })
    else none

-- os.Rename, which takes the place of a regular file that is there
unfoldable pub rename : Answers → String → String → Disk → Option Disk
rename os src dst disk = elim (lookup src disk.files) [
  | none ↦ none
  | some content ↦
      if os.rename_ok src dst && not (mem dst disk.dirs)
      then some (record disk { files = insert dst content (delete src disk.files) })
      else none
]

-- base := dst[:len(dst)-len(ext)]
abbrev pub base_of : Paths → String → String
base_of paths dst = slice dst 0 (len dst - len (paths.ext dst))

-- The name that round `i` of the loop in uniqueDest tries.
abbrev pub candidate : Paths → String → ℕ → String
candidate paths dst zero = base_of paths dst ⧺ "." ⧺ paths.stamp ⧺ paths.ext dst
candidate paths dst (suc i) =
    base_of paths dst ⧺ "." ⧺ paths.stamp ⧺ "-" ⧺ paths.decimal (suc i) ⧺ paths.ext dst

-- The loop of uniqueDest from round `i`; `none` where the rounds run out.
unfoldable pub first_free : ℕ → Paths → Answers → String → ℕ → Disk → Option String
unfolding is_missing
first_free zero paths os dst i disk = none
first_free (suc rounds) paths os dst i disk =
    let next = first_free rounds paths os dst (suc i) disk in
    if is_missing os (candidate paths dst i) disk then some (candidate paths dst i) else next

-- Two rounds more than there are files and directories.
abbrev pub rounds_for : Disk → ℕ
rounds_for disk = suc (suc (length disk.files + length disk.dirs))

unfoldable pub unique_dest : Paths → Answers → String → Disk → Option String
unfolding first_free is_missing
unique_dest paths os dst disk =
    if is_missing os dst disk then some dst else first_free (rounds_for disk) paths os dst 0 disk

-- What MoveToTrash gives: the path of the file in the trash, an error, or no end within the rounds.
pub data Moved : Type 0 where
  moved_to : String → Moved
  not_moved no_end : Moved

unfoldable pub move_to_trash : Paths → Answers → String → String → String → Disk → Moved × Disk
unfolding mkdir_all unique_dest rename
move_to_trash paths os src photo_dir trash_dir disk = elim (paths.rel photo_dir src) [
  | none ↦ (not_moved, disk)
  | some rel ↦
      let wanted = paths.join trash_dir rel in
      elim (mkdir_all paths os (paths.dir wanted) disk) [
        | none ↦ (not_moved, disk)
        | some disk' ↦ elim (unique_dest paths os wanted disk') [
          | none ↦ (no_end, disk')
          | some dst ↦ elim (rename os src dst disk') [
            | none ↦ (not_moved, disk')
            | some disk'' ↦ (moved_to dst, disk'')
          ]
        ]
      ]
]

-- `false` is an error.
unfoldable pub restore_from_trash : Paths → Answers → String → String → Disk → Bool × Disk
unfolding is_missing mkdir_all rename
restore_from_trash paths os trashed original disk =
    if is_missing os trashed disk
    then (false, disk)
    else elim (mkdir_all paths os (paths.dir original) disk) [
      | none ↦ (false, disk)
      | some disk' ↦ elim (rename os trashed original disk') [
        | none ↦ (false, disk')
        | some disk'' ↦ (true, disk'')
      ]
    ]
