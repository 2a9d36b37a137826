-- ===== src/Store/Examples.antt =====
-- A small store, the theorems on it, and runs of its operations.
use mathlib.Core.Option
use photo_swipe.Prelude.{
  ℕ, ◌≡◌, refl, String, true, false, none, some, List, [], ◌∷◌, arith, split_last,
}
use photo_swipe.Prelude.Int.{pos, add64}
use photo_swipe.Prelude.Map.{lookup, insert}
use photo_swipe.Store.Photo.{Photo, zero_time, unsorted, kept, trashed}
use photo_swipe.Store.Session.{ClusterMemberOp, Session, default_settings, mixed}
use photo_swipe.Store.State.{
  RootState, Store, Env, err, photo_not_found, commit, save_and_return, save_locked,
}
use photo_swipe.Store.Decisions.{count_on, add_on, record_decision, record_skip, skip_cap, decided}
use photo_swipe.Store.Clusters.{
  skip_cluster, record_cluster_decision, snapshot, cluster_bump, bare_op,
}
use photo_swipe.Store.Undo.{undo, undone, revert}
use photo_swipe.Store.Undo.Gone.{undo-forget_missing}
use photo_swipe.Store.Photos.{forget_missing}
use photo_swipe.Store.Undo.Single.{undecided, undo-record_decision}
use photo_swipe.Store.Undo.Skip.{trim, touched, undo-record_skip}
use photo_swipe.Store.Undo.ClusterSkip.{trim_cluster, undo-skip_cluster}
use photo_swipe.Store.Undo.Members.{cluster_undecided}
use photo_swipe.Store.Undo.Cluster.{undo-record_cluster_decision, record_cluster_decision_missing}

abbrev pub photo : String → Photo
photo id = record {
  id = id;
  path = id;
  state = unsorted;
  keep_count = pos 0;
  unsure_count = pos 0;
  last_seen_at = zero_time;
  last_decision_at = zero_time;
  locked = false;
  size_bytes = pos 1000;
  added_at = pos 1;
  trashed_path = "";
  dhash = 0;
  dhash_v = 0;
  hash_version = pos 0;
  dhashed_at = zero_time;
  time = pos 1;
}

abbrev pub env_at : ℕ → Env
env_at now = record {
  now = pos now;
  day = λ _. "2026-01-01";
  photo_id = λ path. path;
  rand_id = some "s";
  marshal = λ _. some "bytes";
  unmarshal = λ _. none;
  read_ok = true;
  write_ok = true;
  rename_ok = true;
}

abbrev pub batch : Session
batch = record {
  id = "s";
  started_at = pos 1;
  target = pos 10;
  done = pos 0;
  mix = mixed;
  stack = [];
  recently_skipped = "z" ∷ [];
}

abbrev pub state : RootState
state = record {
  version = pos 1;
  photos = ("a", photo "a") ∷ ("b", photo "b") ∷ [];
  session = some batch;
  settings = default_settings;
  daily_stats = [];
  last_batch_done = pos 0;
}

abbrev pub store : Store
store = record { state = state; disk = none }

undo-record_decision_example :
    (undo (env_at 9) (record_decision (env_at 5) "b" trashed "/p/b" "/t/b" store).1).1.state
    ≡ record state {
      photos = insert "b" (undecided (env_at 5) trashed (photo "b")) state.photos;
      daily_stats = insert "2026-01-01" (count_on "2026-01-01" []) [];
    }
unfolding lookup count_on
undo-record_decision_example =
    undo-record_decision (env_at 5) (env_at 9) "b" trashed "/p/b" "/t/b" store (photo "b") batch
      refl refl refl (omega arith) (omega arith)

undo-record_skip_example :
    (undo (env_at 9) (record_skip (env_at 5) "a" store).1).1.state
    ≡ record state { session = some (trim 1 batch); daily_stats = touched false "2026-01-01" [] }
unfolding lookup count_on
undo-record_skip_example =
    undo-record_skip (env_at 5) (env_at 9) "a" store (photo "a") batch refl refl refl (omega arith)
      (omega arith)

undo-skip_cluster_example :
    (undo (env_at 9) (skip_cluster (env_at 5) "a" ("a" ∷ "b" ∷ []) store).1).1.state
    ≡ record state {
      session = some (trim_cluster 2 batch);
      daily_stats = touched false "2026-01-01" [];
    }
unfolding lookup count_on skip_cap cluster_bump
undo-skip_cluster_example =
    undo-skip_cluster (env_at 5) (env_at 9) "a" ("a" ∷ "b" ∷ []) store batch refl (omega arith) refl
      (omega arith) (omega arith)

abbrev keep_a : ClusterMemberOp
keep_a = record (bare_op "a") { new_state = kept }

abbrev trash_b : ClusterMemberOp
trash_b = record (bare_op "b") { new_state = trashed; trash_from = "/p/b"; trash_to = "/t/b" }

abbrev taken : List ClusterMemberOp
taken =
    record keep_a { prev_state = unsorted; prev_last_seen_at = zero_time }
    ∷ record trash_b { prev_state = unsorted; prev_last_seen_at = zero_time }
    ∷ []

abbrev resolved : RootState
resolved =
    (undo (env_at 9)
      (record_cluster_decision (env_at 5) "a" (some (keep_a ∷ trash_b ∷ [])) store).1).1.state

undo-record_cluster_decision_example :
    (resolved.session ≡ state.session)
    × (resolved.daily_stats ≡ insert "2026-01-01" (count_on "2026-01-01" []) [])
    × ((j : String)
        → lookup j resolved.photos
          ≡ Option.map
              (cluster_undecided j (pos 5) (keep_a ∷ trash_b ∷ []))
              (lookup j state.photos))
unfolding lookup count_on snapshot cluster_bump
undo-record_cluster_decision_example =
    undo-record_cluster_decision (env_at 5) (env_at 9) "a" (keep_a ∷ trash_b ∷ []) taken store batch
      refl refl refl (omega arith) (omega arith)

record_cluster_decision_missing_example :
    record_cluster_decision (env_at 5) "a" (some (keep_a ∷ bare_op "gone" ∷ trash_b ∷ [])) store
    ≡ (err (photo_not_found "gone"), store)
unfolding lookup snapshot
record_cluster_decision_missing_example =
    record_cluster_decision_missing (env_at 5) "a" (keep_a ∷ [])
      (record keep_a { prev_state = unsorted } ∷ []) (trash_b ∷ []) (bare_op "gone") store batch
      refl refl refl

undo_trash_runs :
    Option.map
      (λ (p : Photo). p.state)
      (lookup "b"
        (undo
          (env_at 9)
          (record_decision (env_at 5) "b" trashed "/p/b" "/t/b" store).1).1.state.photos)
    ≡ some unsorted
unfolding undo record_decision decided undone revert commit save_and_return save_locked split_last
    lookup insert
undo_trash_runs = refl

undo-forget_missing_example :
    let dropped =
      (forget_missing (env_at 7) [] (record_decision (env_at 5) "a" kept "" "" store).1).1.1 in
    ((undo (env_at 9) dropped).0 ≡ err (photo_not_found "a"))
    × ((undo (env_at 9) dropped).1.state.session
        ≡ some (record batch { done = add64 batch.done (pos 1) }))
    × ((undo (env_at 9) dropped).1.state.daily_stats ≡ add_on "2026-01-01" (pos 1) [])
    × ((undo (env_at 9) dropped).1.disk ≡ dropped.disk)
unfolding lookup count_on
undo-forget_missing_example =
    undo-forget_missing (env_at 5) (env_at 7) (env_at 9) "a" kept "" "" [] store (photo "a") batch
      (refl, (refl, tt)) refl refl refl refl
