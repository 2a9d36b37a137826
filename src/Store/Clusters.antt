-- ===== src/Store/Clusters.antt =====
-- internal/store/store.go: SkipCluster and RecordClusterDecision. A slice of members may be nil.
use photo_swipe.Prelude.{
  ℕ, String, Bool, true, false, none, some, List, [], ◌∷◌, ◌++◌, map, if◌then◌else◌, ltb, length,
}
use photo_swipe.Prelude.Int.{ℤ, pos, add64}
use photo_swipe.Prelude.Map.{Map, lookup, modify}
use photo_swipe.Store.Photo.{Photo, Time, zero_time, PhotoState, kept, trashed, other}
use photo_swipe.Store.Session.{Slice, elems, ClusterMemberOp, Decision, Settings}
use photo_swipe.Store.State.{
  RootState, Store, Env, Result, ok, err, photo_not_found, no_active_session, commit,
}
-- DailyStats[day], 0 where the day is missing
use photo_swipe.Store.Decisions.{add_on, skip_cap, push_skipped, push}

-- ClusterMemberOp{PhotoID: id}: every other field is the zero of its type.
abbrev pub bare_op : String → ClusterMemberOp
bare_op id = record {
  photo_id = id;
  prev_state = other "";
  new_state = other "";
  prev_keep_count = pos 0;
  prev_unsure_count = pos 0;
  prev_last_seen_at = zero_time;
  trash_from = "";
  trash_to = "";
}

-- What a decision on `n` photos of a cluster adds to the counters.
unfoldable pub cluster_bump : Settings → ℕ → ℤ
cluster_bump settings n =
    if settings.cluster_counts_as_one then pos 1 else if ltb n 1 then pos 1 else pos n

-- The Decision literals of SkipCluster and RecordClusterDecision.
abbrev pub cluster_decision : Time → String → Bool → Bool → ℤ → Slice ClusterMemberOp → Decision
cluster_decision now id is_skip advance bump ops = record {
  photo_id = id;
  prev_state = other "";
  new_state = other "";
  timestamp = now;
  prev_keep_count = pos 0;
  prev_unsure_count = pos 0;
  prev_last_seen_at = zero_time;
  trash_from = "";
  trash_to = "";
  skipped = is_skip;
  advanced_counter = advance;
  counter_bump = bump;
  cluster = ops;
}

unfoldable pub cluster_skipped :
    Env → String → List String → RootState → Result Decision × RootState
unfolding skip_cap push_skipped cluster_bump push add_on
cluster_skipped env id ids st = elim st.session [
  | none ↦ (err no_active_session, st)
  | some sess ↦
      let sess' = record sess {
        recently_skipped = push_skipped (skip_cap 10 sess.target) ids sess.recently_skipped;
      } in
      if st.settings.skip_advances_counter
      then (let bump = cluster_bump st.settings (length ids) in
          let d = cluster_decision env.now id true true bump (some (map bare_op ids)) in
          (
            ok d,
            record st {
              session = some (push d bump sess');
              daily_stats = add_on (env.day env.now) bump st.daily_stats;
            },
          ))
      else let d = cluster_decision env.now id true false (pos 0) (some (map bare_op ids)) in
        (ok d, record st { session = some (record sess' { stack = sess.stack ++ d ∷ [] }) })
]

unfoldable pub skip_cluster : Env → String → List String → Store → Result Decision × Store
skip_cluster env id ids s = commit env s (cluster_skipped env id ids s.state)

-- One member with what undo needs to know of its photo.
unfoldable pub with_prev : ClusterMemberOp → Photo → ClusterMemberOp
with_prev op p = record op {
  prev_state = p.state;
  prev_keep_count = p.keep_count;
  prev_unsure_count = p.unsure_count;
  prev_last_seen_at = p.last_seen_at;
}

abbrev pub prepend : {A : Type 0} → A → Result (List A) → Result (List A)
prepend a (ok rest) = ok (a ∷ rest)
prepend a (err e) = err e

-- The first loop: snapshot every member, or stop at one that is missing.
unfoldable pub snapshot : Map Photo → List ClusterMemberOp → Result (List ClusterMemberOp)
unfolding with_prev
snapshot photos [] = ok []
snapshot photos (op ∷ ops) =
    let rest = snapshot photos ops in
    elim (lookup op.photo_id photos) [
      | none ↦ err (photo_not_found op.photo_id)
      | some p ↦ prepend (with_prev op p) rest
    ]

-- The `switch op.NewState` of RecordClusterDecision.
unfoldable pub member_counted : PhotoState → String → Photo → Photo
member_counted kept to p = record p { keep_count = add64 p.keep_count (pos 1) }
member_counted trashed to p = record p { trashed_path = to }
member_counted _ to p = p

unfoldable pub member_decide : Time → ClusterMemberOp → Photo → Photo
unfolding member_counted
member_decide now op p = record (member_counted op.new_state op.trash_to p) {
  state = op.new_state;
  last_decision_at = now;
  last_seen_at = now;
}

-- One round of the second loop. The snapshot has found every member, so no photo is missing here.
unfoldable pub apply_one : Time → ClusterMemberOp → Map Photo → Map Photo
unfolding member_decide
apply_one now op = modify op.photo_id (member_decide now op)

-- The second loop.
unfoldable pub apply_members : Time → List ClusterMemberOp → Map Photo → Map Photo
unfolding apply_one
apply_members now [] photos = photos
apply_members now (op ∷ ops) photos = apply_members now ops (apply_one now op photos)

-- The slice keeps being nil or not when its elements are replaced.
abbrev pub same_nil : {A : Type 0} → Slice A → List A → Slice A
same_nil none xs = none
same_nil (some _) xs = some xs

unfoldable pub cluster_decided :
    Env → String → Slice ClusterMemberOp → RootState → Result Decision × RootState
unfolding snapshot apply_members cluster_bump push add_on
cluster_decided env id ops st = elim st.session [
  | none ↦ (err no_active_session, st)
  | some sess ↦ elim (snapshot st.photos (elems ops)) [
    | err e ↦ (err e, st)
    | ok taken ↦
        let bump = cluster_bump st.settings (length (elems ops)) in
        let d = cluster_decision env.now id false false bump (same_nil ops taken) in
        (
          ok d,
          record st {
            photos = apply_members env.now taken st.photos;
            session = some (push d bump sess);
            daily_stats = add_on (env.day env.now) bump st.daily_stats;
          },
        )
  ]
]

unfoldable pub record_cluster_decision :
    Env → String → Slice ClusterMemberOp → Store → Result Decision × Store
record_cluster_decision env id ops s = commit env s (cluster_decided env id ops s.state)
