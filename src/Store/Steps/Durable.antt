-- ===== src/Store/Steps/Durable.antt =====
-- What is on disk after an operation.
use photo_swipe.Prelude.{
  ◌≡◌, String, List, arith, Bool, true, false, Option-cases, inl, inr, Bool-cases, ltb,
  if◌then◌else◌,
}
use photo_swipe.Prelude.Int.{ℤ, pos, ltb_ℤ, eq_ℤ}
use photo_swipe.Prelude.Map.{lookup}
use photo_swipe.Store.Photo.{Time, is_zero}
use photo_swipe.Store.Session.{CompositionMix, mixed, valid}
use photo_swipe.Store.State.{
  RootState, Store, Env, Result, ok, err, commit, save_locked, save_and_return,
}
use photo_swipe.Store.Decisions.{record_decision, record_skip, set_photo_state}
use photo_swipe.Store.Clusters.{skip_cluster, record_cluster_decision}
use photo_swipe.Store.Undo.{undo}
use photo_swipe.Store.Photos.{set_capture_time, set_hash, mark_hash_failed, forget_missing, forget}
use photo_swipe.Store.Sessions.{
  start_session, auto_start_session, end_session, session_extend, update_settings,
}
use photo_swipe.Store.Steps.{
  Op, settle, step, op_decision, op_skip, op_skip_cluster, op_cluster_decision, op_set_state,
  op_undo, op_upsert, op_capture_time, op_hash, op_hash_failed, op_forget, op_seen, op_start,
  op_auto_start, op_end, op_extend, op_settings,
}

-- The state file holds what is in memory.
abbrev pub IsSynced : Env → Store → Type 0
IsSynced env s = s.disk ≡ env.marshal s.state

-- UpsertPhoto and MarkSeen drop the error of their save.
abbrev pub checks_save : Op → Bool
checks_save (op_upsert _ _ _) = false
checks_save (op_seen _ _) = false
checks_save _ = true

abbrev Durable : {A : Type 0} → Env → Store → Result A × Store → Type 0
Durable env s r = IsSynced env s → (settle r).0 ≡ true → IsSynced env (settle r).1

commit-Durable :
    {A : Type 0} (env : Env) (s : Store) (r : Result A × RootState) → Durable env s (commit env s r)
unfolding commit save_and_return save_locked
commit-Durable env s (ok a, st) synced fine = ground arith
commit-Durable env s (err e, st) synced fine = ground arith

saved-Durable :
    {A : Type 0} (env : Env) (a : A) (s old : Store) → Durable env old (save_and_return env a s)
unfolding save_and_return save_locked
saved-Durable env a s old synced fine = ground arith

save_locked-Durable : (env : Env) (s old : Store) → Durable env old (save_locked env s)
unfolding save_locked
save_locked-Durable env s old synced fine = ground arith

set_capture_time-Durable :
    (env : Env) (id : String) (t : Time) (s : Store) → Durable env s (set_capture_time env id t s)
unfolding set_capture_time
set_capture_time-Durable env id t s = elim (Bool-cases (is_zero t)) [
  | inl z ↦ rw (z, set_capture_time) λ synced _. synced
  | inr z ↦ elim (Option-cases (lookup id s.state.photos)) [
    | inl e ↦ rw (z, e, set_capture_time) λ synced _. synced
    | inr (p, e) ↦ elim (Bool-cases (eq_ℤ p.time t)) [
      | inl f ↦ rw (z, e, f, set_capture_time) λ synced _. synced
      | inr f ↦ rw (z, e, f, set_capture_time) (commit-Durable env s _)
    ]
  ]
]

forget_missing-Durable :
    (env : Env) (keep : List String) (s : Store) → Durable env s (forget_missing env keep s).1
unfolding forget_missing
forget_missing-Durable env keep s = elim (Bool-cases (ltb 0 (forget keep s.state.photos).1)) [
  | inl e ↦ rw (e, forget_missing) (save_locked-Durable env _ s)
  | inr e ↦ rw (e, forget_missing) λ synced _. synced
]

start_session-Durable :
    (env : Env) (target : ℤ) (mix : CompositionMix) (s : Store)
    → Durable env s (start_session env target mix s)
unfolding start_session
start_session-Durable env target mix s = elim (Bool-cases (valid mix)) [
  | inr e ↦ rw (e, start_session) λ synced _. synced
  | inl e ↦ elim (Bool-cases (ltb_ℤ target (pos 0))) [
    | inl f ↦ rw (e, f, start_session) λ synced _. synced
    | inr f ↦ elim (Option-cases env.rand_id) [
      | inl g ↦ rw (e, f, g, start_session) λ synced _. synced
      | inr (id, g) ↦ rw (e, f, g, start_session) (saved-Durable env _ _ s)
    ]
  ]
]

-- If the state file holds what is in memory, and an operation other than UpsertPhoto and MarkSeen
-- returns no error, the file holds what is in memory afterwards.
pub step-IsSynced :
    (env : Env) (op : Op) (s : Store)
    → checks_save op ≡ true
    → IsSynced env s
    → (step env op s).0 ≡ true
    → IsSynced env (step env op s).1
unfolding step record_decision record_skip skip_cluster record_cluster_decision set_photo_state undo
    set_hash mark_hash_failed end_session session_extend update_settings auto_start_session
step-IsSynced env (op_decision id new from to) s _ = commit-Durable env s _
step-IsSynced env (op_skip id) s _ = commit-Durable env s _
step-IsSynced env (op_skip_cluster id ids) s _ = commit-Durable env s _
step-IsSynced env (op_cluster_decision id ops) s _ = commit-Durable env s _
step-IsSynced env (op_set_state id new to) s _ = commit-Durable env s _
step-IsSynced env op_undo s _ = commit-Durable env s _
step-IsSynced env (op_upsert path size mtime) s checked = ground arith
step-IsSynced env (op_capture_time id t) s _ = set_capture_time-Durable env id t s
step-IsSynced env (op_hash id h v) s _ = commit-Durable env s _
step-IsSynced env (op_hash_failed id) s _ = commit-Durable env s _
step-IsSynced env (op_forget keep) s _ = forget_missing-Durable env keep s
step-IsSynced env (op_seen id now) s checked = ground arith
step-IsSynced env (op_start target mix) s _ = start_session-Durable env target mix s
step-IsSynced env op_auto_start s _ =
    let target = s.state.settings.default_batch_size in
    let mix = s.state.settings.default_mix in
    start_session-Durable env (if ltb_ℤ target (pos 0) then pos 0 else target)
      (if valid mix then mix else mixed) s
step-IsSynced env op_end s _ = commit-Durable env s (ok tt, _)
step-IsSynced env (op_extend delta) s _ = commit-Durable env s _
step-IsSynced env (op_settings ns) s _ = commit-Durable env s (ok tt, _)
