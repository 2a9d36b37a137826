-- ===== src/Handlers/Examples.antt =====
-- The theorems on the requests, at a store of two photos and their files.
use photo_swipe.Prelude.{
  ℕ, zero, suc, ◌≡◌, ◌≢◌, refl, ap, String, true, false, some, none, List, [], ◌∷◌, arith,
  split_last,
}
use Prim.Native.String.{◌++◌ as ◌⧺◌, count}
use text.Mathlib.TextLemmas.{length-append as length-append_text}
use photo_swipe.Img.Thumb.{Codecs, serve_thumb, scale_to}
use photo_swipe.Img.Orient.{Image}
use photo_swipe.Img.Thumb.Bounds.{scale_to-Bounded}
use photo_swipe.Img.Thumb.Cache.{serve_thumb_again}
use photo_swipe.Prelude.{◌⊎◌, ◌≤◌, ◌<◌}
use photo_swipe.Prelude.Int.{pos}
use photo_swipe.Prelude.Map.{lookup, insert, delete}
use photo_swipe.Prelude.Sorted.{All}
use photo_swipe.Store.Photo.{trashed}
use photo_swipe.Store.Session.{valid}
use photo_swipe.Store.State.{ok, commit, save_and_return}
use photo_swipe.Store.Decisions.{count_on, decision, decided}
use photo_swipe.Store.Undo.{undo, undone, revert}
use photo_swipe.Store.Undo.Single.{undecided}
use photo_swipe.Store.Examples.{photo, batch, env_at, state, store}
use photo_swipe.Queue.Examples.{floats}
use photo_swipe.Dupes.Examples.{first, again, pair}
use photo_swipe.Img.Trash.{Paths, Disk, moved_to, no_end, move_to_trash, restore_from_trash}
use photo_swipe.Img.Trash.Moves.{move_to_trash-Ends}
use photo_swipe.Handlers.{Call, Deps, Site, Form, form_value, resolve_photo_path, ClusterMember}
use photo_swipe.Handlers.View.{cluster_members}
use photo_swipe.Handlers.Decide.{handle_decision, handle_undo}
use photo_swipe.Handlers.Resolve.{handle_cluster_resolve, member_ops, kept_op, trashed_op}
use photo_swipe.Handlers.Forms.{handle_update_settings}
use photo_swipe.Handlers.Stats.{handle_stats, bars_of}
use photo_swipe.Handlers.Kept.{Moves, Keeps}
use photo_swipe.Handlers.Files.{IsPosted, handle_decision-Moves, handle_cluster_resolve-Keeps}
use photo_swipe.Handlers.Back.{handle_undo-handle_decision}
use photo_swipe.Handlers.Settle.{handle_update_settings-valid, IsPercent, handle_stats-ArePercents}

-- A number as that many strokes.
abbrev strokes : ℕ → String
strokes zero = ""
strokes (suc n) = "1" ⧺ strokes n

count-strokes : (n : ℕ) → count (strokes n) ≡ n
count-strokes zero = refl
count-strokes (suc n) = omega (arith, length-append_text "1" (strokes n), count-strokes n)

abbrev paths : Paths
paths = record {
  rel = λ _ src. some src;
  join = λ a b. a ⧺ "/" ⧺ b;
  dir = λ _. "t";
  ext = λ _. ".jpg";
  above = λ path. path ∷ [];
  stamp = "now";
  decimal = strokes;
}

abbrev call_at : ℕ → Call
call_at now = record {
  env = env_at now;
  os = record {
    stat_ok = λ _. true;
    open_ok = λ _. true;
    reopen_ok = λ _. true;
    copy_ok = λ _. true;
    mkdir_ok = λ _. true;
    rename_ok = λ _ _. true;
  };
  paths = paths;
  clean = λ path. path;
  from_slash = λ path. path;
  floats = floats;
  drawn = 0;
  now = pos now;
  minute = λ _. "then";
  days = λ _. pos now;
  weekday = λ _. "Mon";
  parsers = record { atoi = λ _. (pos 0, false); parse_float = λ _. (0, false) };
}

abbrev deps : Deps
deps = record { photo_dir = "p"; trash_dir = "t" }

abbrev disk : Disk
disk = record { files = ("p/a", "first") ∷ ("p/b", "second") ∷ []; dirs = "p" ∷ [] }

abbrev site : Site
site = record { store = store; disk = disk }

abbrev trash_b : Form
trash_b = ("action", "trash" ∷ []) ∷ ("photo_id", "b" ∷ []) ∷ []

abbrev moved : Disk
moved = record { files = ("p/a", "first") ∷ ("t/p/b", "second") ∷ []; dirs = "t" ∷ "p" ∷ [] }

abbrev returned : Disk
returned = record { files = ("p/a", "first") ∷ ("p/b", "second") ∷ []; dirs = "t" ∷ "t" ∷ "p" ∷ [] }

moves : move_to_trash paths (call_at 5).os "p/b" "p" "t" disk ≡ (moved_to "t/p/b", moved)
unfolding move_to_trash lookup insert delete
moves = refl

comes_back : restore_from_trash paths (call_at 9).os "t/p/b" "p/b" moved ≡ (true, returned)
unfolding restore_from_trash lookup insert delete
comes_back = refl

move_to_trash-Ends_example : (move_to_trash paths (call_at 5).os "p/b" "p" "t" disk).0 ≢ no_end
move_to_trash-Ends_example =
    move_to_trash-Ends paths (call_at 5).os "p/b" "p" "t" disk
      (λ i j e. omega (arith, count-strokes i, count-strokes j, ap count e)) (λ rel _ i _. refl)

handle_decision-Moves_example :
    Moves
      (IsPosted (call_at 5) deps (some trash_b) store)
      disk
      (handle_decision (call_at 5) deps (some trash_b) site).1.disk
handle_decision-Moves_example = handle_decision-Moves (call_at 5) deps (some trash_b) site

abbrev keep_none : Form
keep_none = ("cluster_id", "a" ∷ []) ∷ []

abbrev twins : Site
twins = record {
  store = record {
    state = record state { photos = ("a", first) ∷ ("b", again) ∷ [] };
    disk = none;
  };
  disk = disk;
}

handle_cluster_resolve-Keeps_example :
    Keeps disk (handle_cluster_resolve (call_at 5) deps (some keep_none) twins).1.disk
handle_cluster_resolve-Keeps_example =
    handle_cluster_resolve-Keeps (call_at 5) deps (some keep_none) twins

undoes :
    (undo (env_at 9) (handle_decision (call_at 5) deps (some trash_b) site).1.store).0
    ≡ ok (decision (pos 5) "b" trashed "p/b" "t/p/b" (photo "b"))
unfolding lookup form_value resolve_photo_path decision undo handle_decision commit undone decided
    save_and_return split_last revert insert delete move_to_trash
undoes = refl

handle_undo-handle_decision_example :
    ((handle_undo
        (call_at 9)
        (handle_decision (call_at 5) deps (some trash_b) site).1).1.store.state
      ≡ record state {
        photos = insert "b" (undecided (env_at 5) trashed (photo "b")) state.photos;
        daily_stats = insert "2026-01-01" (count_on "2026-01-01" []) [];
      })
    × (lookup "p/b"
          (handle_undo
            (call_at 9)
            (handle_decision (call_at 5) deps (some trash_b) site).1).1.disk.files
        ≡ lookup "p/b" disk.files)
unfolding lookup count_on form_value resolve_photo_path
handle_undo-handle_decision_example =
    handle_undo-handle_decision (call_at 5) (call_at 9) deps trash_b site (photo "b") batch
      (decision (pos 5) "b" trashed "p/b" "t/p/b" (photo "b")) "p/b" "t/p/b" "p/b" moved returned
      refl refl refl refl moves refl refl comes_back refl (omega arith) (omega arith) undoes

abbrev keep_first : Form
keep_first = ("cluster_id", "a" ∷ []) ∷ ("keep", "a" ∷ []) ∷ []

ops_of_pair :
    member_ops (call_at 5) deps ("a" ∷ []) pair.photos disk
    ≡ (some (trashed_op "b" "p/b" "t/p/b" ∷ kept_op "a" ∷ []), moved)
unfolding member_ops lookup insert delete
ops_of_pair = refl

handle_update_settings-valid_example :
    valid (handle_update_settings (call_at 5) (some trash_b) store).1.state.settings.default_mix
    ≡ true
unfolding valid
handle_update_settings-valid_example =
    handle_update_settings-valid (call_at 5) (some trash_b) store refl

handle_stats-ArePercents_example : All IsPercent (handle_stats (call_at 5) store).daily_bars
unfolding bars_of count_on lookup
handle_stats-ArePercents_example = handle_stats-ArePercents (call_at 5) store (
  (0, refl, omega arith),
  (
    (0, refl, omega arith),
    (
      (0, refl, omega arith),
      (
        (0, refl, omega arith),
        ((0, refl, omega arith), ((0, refl, omega arith), ((0, refl, omega arith), tt))),
      ),
    ),
  ),
)

abbrev members : List ClusterMember
members = cluster_members (call_at 5) (again ∷ first ∷ [])

abbrev codecs : Codecs
codecs = record {
  content = λ _. none;
  parse_time = λ _. none;
  rgba = λ c. c;
  decode = λ _. some (record { width = 4; height = 2; at = λ x y. x });
  copy = λ im. im;
  shrink = λ w h im. im;
  encode = λ _. some "thumb";
}

abbrev cached : Disk
cached = record disk {
  files = ("p/a", "first") ∷ ("p/b", "second") ∷ ("p/.thumbs/a-111.jpg", "thumb") ∷ [];
  dirs = "p/.thumbs" ∷ "p" ∷ [];
}

sends : serve_thumb codecs paths (call_at 5).os "p/a" "p" "a" (pos 3) disk ≡ (some "thumb", cached)
unfolding serve_thumb lookup insert
sends = refl

serve_thumb_again_example :
    serve_thumb codecs paths (call_at 9).os "p/a" "p" "a" (pos 3) cached ≡ (some "thumb", cached)
serve_thumb_again_example =
    serve_thumb_again codecs codecs paths (call_at 5).os (call_at 9).os "p/a" "p/a" "p" "a" "thumb"
      (pos 3) disk cached sends refl refl

abbrev resized : ℕ → ℕ → Image ℕ → Image ℕ
resized w h im = record im { width = w; height = h }

abbrev resizing : Codecs
resizing = record codecs { shrink = resized }

abbrev broad : Image ℕ
broad = record { width = 4; height = 2; at = λ x y. x }

scale_to-Bounded_example :
    let dst = scale_to resizing broad 3 in
    (dst.width ≤ 3)
    × (dst.height ≤ 3)
    × (dst.width ≤ 4)
    × (dst.height ≤ 2)
    × (((dst.width ≡ 4) × (dst.height ≡ 2))
        ⊎ (((2 ≤ 4) × (3 < 4) × (dst.width ≡ 3)) ⊎ ((4 ≤ 2) × (3 < 2) × (dst.height ≡ 3))))
scale_to-Bounded_example =
    scale_to-Bounded resizing broad 3 (λ im. (refl, refl)) (λ w h im. (refl, refl))
