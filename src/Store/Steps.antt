-- ===== src/Store/Steps.antt =====
-- internal/store/store.go: the operations that change the store, as one type, and histories of
-- them.
pub mod Keyed
pub mod Pushed
pub mod Popped
pub mod Kept
pub mod Invariant
pub mod Durable
pub mod Examples
use photo_swipe.Prelude.{ℕ, String, Bool, true, false, List, [], ◌∷◌}
use photo_swipe.Prelude.Int.{ℤ}
use photo_swipe.Store.Photo.{PhotoState, Time}
use photo_swipe.Store.Session.{ClusterMemberOp, CompositionMix, Settings, Slice}
use photo_swipe.Store.State.{Store, Env, Result, ok, err}
use photo_swipe.Store.Decisions.{record_decision, record_skip, set_photo_state}
use photo_swipe.Store.Clusters.{skip_cluster, record_cluster_decision}
use photo_swipe.Store.Undo.{undo}
use photo_swipe.Store.Photos.{
  upsert_photo, set_capture_time, set_hash, mark_hash_failed, forget_missing, mark_seen,
}
use photo_swipe.Store.Sessions.{
  start_session, auto_start_session, end_session, session_extend, update_settings,
}

pub data Op : Type 0 where
  op_decision : String → PhotoState → String → String → Op
  op_skip : String → Op
  op_skip_cluster : String → List String → Op
  op_cluster_decision : String → Slice ClusterMemberOp → Op
  op_set_state : String → PhotoState → String → Op
  op_undo : Op
  op_upsert : String → ℤ → Time → Op
  op_capture_time : String → Time → Op
  op_hash : String → ℕ → ℕ → Op
  op_hash_failed : String → Op
  op_forget : List String → Op
  op_seen : String → Time → Op
  op_start : ℤ → CompositionMix → Op
  op_auto_start op_end : Op
  op_extend : ℤ → Op
  op_settings : Settings → Op

-- The store after an operation, and whether it returned no error.
abbrev pub settle : {A : Type 0} → Result A × Store → Bool × Store
settle (ok _, s) = (true, s)
settle (err _, s) = (false, s)

unfoldable pub step : Env → Op → Store → Bool × Store
step env (op_decision id new from to) s = settle (record_decision env id new from to s)
step env (op_skip id) s = settle (record_skip env id s)
step env (op_skip_cluster id ids) s = settle (skip_cluster env id ids s)
step env (op_cluster_decision id ops) s = settle (record_cluster_decision env id ops s)
step env (op_set_state id new to) s = settle (set_photo_state env id new to s)
step env op_undo s = settle (undo env s)
step env (op_upsert path size mtime) s = settle (upsert_photo env path size mtime s)
step env (op_capture_time id t) s = settle (set_capture_time env id t s)
step env (op_hash id h v) s = settle (set_hash env id h v s)
step env (op_hash_failed id) s = settle (mark_hash_failed env id s)
step env (op_forget keep) s = settle (forget_missing env keep s).1
step env (op_seen id now) s = (true, mark_seen env id now s)
step env (op_start target mix) s = settle (start_session env target mix s)
step env op_auto_start s = settle (auto_start_session env s)
step env op_end s = settle (end_session env s)
step env (op_extend delta) s = settle (session_extend env delta s)
step env (op_settings ns) s = settle (update_settings env ns s)

-- A history: each operation with what it met outside the program.
unfoldable pub run : List (Env × Op) → Store → Store
unfolding step
run [] s = s
run ((env, op) ∷ rest) s = run rest (step env op s).1
