-- ===== src/Store/Steps/Invariant.antt =====
-- What every history of operations keeps.
use photo_swipe.Prelude.{refl, List, [], ◌∷◌}
use photo_swipe.Store.State.{Store, Env, Result, ok, err}
use photo_swipe.Store.Decisions.{record_decision, record_skip, set_photo_state}
use photo_swipe.Store.Clusters.{skip_cluster, record_cluster_decision}
use photo_swipe.Store.Undo.{undo}
use photo_swipe.Store.Photos.{set_hash, mark_hash_failed, hashed_as}
use photo_swipe.Store.Sessions.{auto_start_session, end_session, session_extend, update_settings}
use photo_swipe.Store.Steps.{
  Op, settle, step, run, op_decision, op_skip, op_skip_cluster, op_cluster_decision, op_set_state,
  op_undo, op_upsert, op_capture_time, op_hash, op_hash_failed, op_forget, op_seen, op_start,
  op_auto_start, op_end, op_extend, op_settings,
}
use photo_swipe.Store.Steps.Pushed.{
  IsWell, decided-IsWell, skipped-IsWell, cluster_skipped-IsWell, cluster_decided-IsWell,
  state_set-IsWell,
}
use photo_swipe.Store.Steps.Popped.{undone-IsWell}
use photo_swipe.Store.Steps.Kept.{
  commit-IsWell, updated-IsWell, upsert_photo-IsWell, set_capture_time-IsWell,
  forget_missing-IsWell, mark_seen-IsWell, start_session-IsWell, auto_start_session-IsWell,
  extended-IsWell, ended-IsWell,
}

settle-IsWell : {A : Type 0} (r : Result A × Store) → IsWell r.1.state → IsWell (settle r).1.state
settle-IsWell (ok a, s) w = w
settle-IsWell (err e, s) w = w

step-IsWell : (env : Env) (op : Op) (s : Store) → IsWell s.state → IsWell (step env op s).1.state
unfolding step record_decision record_skip skip_cluster record_cluster_decision set_photo_state undo
    set_hash mark_hash_failed end_session session_extend update_settings auto_start_session
    hashed_as
step-IsWell env (op_decision id new from to) s w =
    settle-IsWell _ (commit-IsWell env s _ (decided-IsWell env id new from to s.state w))
step-IsWell env (op_skip id) s w =
    settle-IsWell _ (commit-IsWell env s _ (skipped-IsWell env id s.state w))
step-IsWell env (op_skip_cluster id ids) s w =
    settle-IsWell _ (commit-IsWell env s _ (cluster_skipped-IsWell env id ids s.state w))
step-IsWell env (op_cluster_decision id ops) s w =
    settle-IsWell _ (commit-IsWell env s _ (cluster_decided-IsWell env id ops s.state w))
step-IsWell env (op_set_state id new to) s w =
    settle-IsWell _ (commit-IsWell env s _ (state_set-IsWell env id new to s.state w))
step-IsWell env op_undo s w = settle-IsWell _ (commit-IsWell env s _ (undone-IsWell env s.state w))
step-IsWell env (op_upsert path size mtime) s w =
    settle-IsWell _ (upsert_photo-IsWell env path size mtime s w)
step-IsWell env (op_capture_time id t) s w = settle-IsWell _ (set_capture_time-IsWell env id t s w)
step-IsWell env (op_hash id h v) s w =
    settle-IsWell _ (commit-IsWell env s _ (updated-IsWell id _ s.state (λ p. refl) w))
step-IsWell env (op_hash_failed id) s w =
    settle-IsWell _ (commit-IsWell env s _ (updated-IsWell id _ s.state (λ p. refl) w))
step-IsWell env (op_forget keep) s w = settle-IsWell _ (forget_missing-IsWell env keep s w)
step-IsWell env (op_seen id now) s w = mark_seen-IsWell env id now s w
step-IsWell env (op_start target mix) s w =
    settle-IsWell _ (start_session-IsWell env target mix s w)
step-IsWell env op_auto_start s w = settle-IsWell _ (auto_start_session-IsWell env s w)
step-IsWell env op_end s w = settle-IsWell _ (commit-IsWell env s _ (ended-IsWell s.state w))
step-IsWell env (op_extend delta) s w =
    settle-IsWell _ (commit-IsWell env s _ (extended-IsWell delta s.state w))
step-IsWell env (op_settings ns) s w = settle-IsWell _ (commit-IsWell env s (ok tt, _) w)

-- Whatever operations a store goes through, and whatever fails on the way: if at the start every
-- photo is kept once and under its own id, and RecentlySkipped is no longer than the cap of a
-- cluster skip (the session's target, or 10), then so it is at the end.
pub run-IsWell :
    (history : List (Env × Op)) (s : Store) → IsWell s.state → IsWell (run history s).state
unfolding run
run-IsWell [] s w = w
run-IsWell ((env, op) ∷ rest) s w = run-IsWell rest (step env op s).1 (step-IsWell env op s w)
