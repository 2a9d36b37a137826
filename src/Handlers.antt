-- ===== src/Handlers.antt =====
-- internal/handlers/handlers.go: the requests that read and change the store, the photo folder and
-- the trash. A template is not modelled: a reply has what the handler gives to it.
mod Examples
pub mod View
pub mod Pages
pub mod Decide
pub mod Resolve
pub mod Forms
pub mod Stats
pub mod Kept
pub mod Files
pub mod Back
pub mod Shown
pub mod Members
pub mod Settle
use photo_swipe.Prelude.{
  ℕ, String, Bool, true, false, not, ◌&&◌, Option, none, some, List, [], ◌∷◌, str_eq, starts_with,
  if◌then◌else◌,
}
use Prim.Native.String.{◌++◌ as ◌⧺◌}
use photo_swipe.Prelude.Int.{ℤ, pos}
use photo_swipe.Prelude.Map.{Map, lookup}
use photo_swipe.Store.Photo.{Photo, Time}
use photo_swipe.Store.Session.{Session, Settings, Float64}
use photo_swipe.Store.State.{Store, Env}
use photo_swipe.Store.Photos.{Counts}
use photo_swipe.Img.Trash.{Paths, Disk, Answers}
use photo_swipe.Queue.{Floats}

-- The posted values of a form, by name.
abbrev pub Form : Type 0
Form = Map (List String)

-- r.PostFormValue(name), "" where there is none
unfoldable pub form_value : String → Form → String
form_value name form = elim (lookup name form) [
  | none ↦ ""
  | some values ↦ elim values [ [] ↦ "" | ◌∷◌ v _ ↦ v ]
]

-- What strconv gives for a text: a value, and whether there was no error.
pub record Parsers : Type 0 where
  pub atoi : String → ℤ × Bool
  pub parse_float : String → Float64 × Bool

-- What one request meets outside the program: the environment of the store, the operating system,
-- the number drawn for the queue, the clock when the queue is asked, the printed times, the time
-- that lies some days back (`days`), and the names of path/filepath.
pub record Call : Type 0 where
  pub env : Env
  pub os : Answers
  pub paths : Paths
  pub clean : String → String
  pub from_slash : String → String
  pub floats : Floats
  pub drawn : Float64
  pub now : Time
  pub minute : Time → String
  pub days : ℕ → Time
  pub weekday : Time → String
  pub parsers : Parsers

pub record Deps : Type 0 where
  pub photo_dir : String
  pub trash_dir : String

-- What the handlers share: the store, and the disk with the photos and the trash.
pub record Site : Type 0 where
  pub store : Store
  pub disk : Disk

pub record ClusterMember : Type 0 where
  pub id : String
  pub path_short : String
  pub time_str : String
  pub size_kb : ℤ

-- The progress chip in front of a fragment: empty, with a target, or without one.
pub data Chip : Type 0 where
  empty_chip : Chip
  chip_of : ℤ → ℤ → Chip
  chip : ℤ → Chip

pub record SummaryData : Type 0 where
  pub session : Option Session
  pub counts : Counts
  pub done : ℤ
  pub show_fatigue_nudge : Bool
  pub today_count : ℤ

-- The photo page's cluster: its id and its members.
pub record PhotoData : Type 0 where
  pub session : Session
  pub counts : Counts
  pub photo : Photo
  pub settings : Settings
  pub cluster : Option (String × List ClusterMember)

-- `hx_redirect` is a 204 with the header HX-Redirect, `hangs` a request that does not end.
pub data Reply : Type 0 where
  bad_request not_found internal_error : Reply
  redirect hx_redirect : String → Reply
  card : Chip → Photo → Settings → Reply
  cluster_card : Chip → String → List ClusterMember → Settings → Reply
  summary_page : SummaryData → Reply
  photo_page : PhotoData → Reply
  hangs : Reply

abbrev pub separator : String
separator = "/"

-- resolvePhotoPath; `none` is its error
unfoldable pub resolve_photo_path : Call → Deps → String → Option String
resolve_photo_path call deps rel =
    let path = call.clean (call.paths.join deps.photo_dir (call.from_slash rel)) in
    if not (starts_with path (call.clean deps.photo_dir ⧺ separator))
      && not (str_eq path (call.clean deps.photo_dir))
    then none
    else some path
