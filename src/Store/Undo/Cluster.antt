-- ===== src/Store/Undo/Cluster.antt =====
-- Undo after RecordClusterDecision, and its all-or-nothing start.
use mathlib.Core.Option
use photo_swipe.Prelude.{
  ℕ, ◌<◌, ◌≡◌, refl, sym, ap, ◌∙◌, String, false, none, some, List, [], ◌∷◌, ◌++◌, arith, length,
}
use photo_swipe.Prelude.Int.{pos}
use photo_swipe.Prelude.Map.{Map, lookup, insert}
use photo_swipe.Store.Session.{ClusterMemberOp, Session, Decision}
use photo_swipe.Store.State.{RootState, Store, Env, ok, err, photo_not_found, commit, state-commit}
use photo_swipe.Store.Photo.{Photo}
use photo_swipe.Store.Decisions.{count_on, add_on, push}
use photo_swipe.Store.Clusters.{
  apply_members, snapshot, cluster_decision, cluster_decided, record_cluster_decision,
}
use photo_swipe.Store.Undo.{undo, undone, undone_lem, revert, restore_members}
use photo_swipe.Store.Undo.Rollback.{HasRoom, rollback_lem}
use photo_swipe.Store.Undo.ClusterSkip.{
  bump_size, cluster_bump_pos, zero-lt-bump_size, bump_amount_pos,
}
use photo_swipe.Store.Undo.Members.{snapshot_inv, cluster_undecided, lookup-undone_members}

abbrev resolution : Env → String → List ClusterMemberOp → ℕ → Decision
resolution env id taken b = cluster_decision env.now id false false (pos b) (some taken)

-- The state that RecordClusterDecision leaves.
abbrev after_cluster : Env → String → List ClusterMemberOp → Session → ℕ → RootState → RootState
after_cluster env id taken sess b st = record st {
  photos = apply_members env.now taken st.photos;
  session = some (push (resolution env id taken b) (pos b) sess);
  daily_stats = add_on (env.day env.now) (pos b) st.daily_stats;
}

cluster_decided_lem :
    (env : Env) (id : String) (ops taken : List ClusterMemberOp) (st : RootState) (sess : Session)
    → st.session ≡ some sess
    → snapshot st.photos ops ≡ ok taken
    → (cluster_decided env id (some ops) st).1
      ≡ after_cluster env id taken sess (bump_size st.settings (length ops)) st
unfolding cluster_decided
cluster_decided_lem env id ops taken st sess f h =
    ground (arith, cluster_bump_pos st.settings (length ops))

undone_cluster :
    (env env' : Env) (id : String) (taken : List ClusterMemberOp) (st : RootState) (sess : Session)
    (b : ℕ)
    → env'.day env.now ≡ env.day env.now
    → 0 < b
    → HasRoom b sess.done
    → HasRoom b (count_on (env.day env.now) st.daily_stats)
    → (undone env' (after_cluster env id taken sess b st)).1 ≡ record st {
      photos = restore_members taken (apply_members env.now taken st.photos);
      session = some sess;
      daily_stats =
          insert (env.day env.now) (count_on (env.day env.now) st.daily_stats) st.daily_stats;
    }
unfolding push revert
undone_cluster env env' id taken st sess b same some_bump room room' =
    let d = resolution env id taken b in
    ap (λ r. r.1) (undone_lem env' (after_cluster env id taken sess b st) _ sess.stack d refl refl)
    ∙ rw (same, bump_amount_pos d b refl some_bump)
        (rollback_lem (env.day env.now) b sess
          (record st { photos = restore_members taken (apply_members env.now taken st.photos) })
          room room')

module _ (env env' : Env) (id : String) (ops taken : List ClusterMemberOp) (s : Store)
    (sess : Session) (active : s.state.session ≡ some sess)
    (found : snapshot s.state.photos ops ≡ ok taken) (same : env'.day env.now ≡ env.day env.now)
    (room : HasRoom (bump_size s.state.settings (length ops)) sess.done)
    (room' : HasRoom
      (bump_size s.state.settings (length ops))
      (count_on (env.day env.now) s.state.daily_stats)) where
  undone_state :
      (undo env' (record_cluster_decision env id (some ops) s).1).1.state ≡ record s.state {
        photos = restore_members taken (apply_members env.now taken s.state.photos);
        daily_stats =
            insert
              (env.day env.now)
              (count_on (env.day env.now) s.state.daily_stats)
              s.state.daily_stats;
      }
  unfolding undo record_cluster_decision
  undone_state =
      state-commit env' _ _
      ∙ ap (λ st. (undone env' st).1)
          (state-commit env s (cluster_decided env id (some ops) s.state)
            ∙ cluster_decided_lem env id ops taken s.state sess active found)
      ∙ undone_cluster env env' id taken s.state sess _ same
          (zero-lt-bump_size s.state.settings (length ops)) room room'
      ∙ λ i. record s.state {
        photos = restore_members taken (apply_members env.now taken s.state.photos);
        session = sym active i;
        daily_stats =
            insert (env.day env.now) (count_on (env.day env.now) s.state.daily_stats)
              s.state.daily_stats;
      }

  -- Undo right after a decision on a cluster whose members are all there, even if one is listed
  -- twice: the session is as before, the day's count has its value again, and every photo is as
  -- before but for its `LastDecisionAt` and, if it was trashed, its trash path. This holds if the
  -- counters have room for what the decision adds and the day is printed alike both times.
  pub undo-record_cluster_decision :
      let st = (undo env' (record_cluster_decision env id (some ops) s).1).1.state in
      (st.session ≡ s.state.session)
      × (st.daily_stats
          ≡ insert
              (env.day env.now)
              (count_on (env.day env.now) s.state.daily_stats)
              s.state.daily_stats)
      × ((j : String)
          → lookup j st.photos
            ≡ Option.map (cluster_undecided j env.now ops) (lookup j s.state.photos))
  undo-record_cluster_decision = (
    ap (λ (st : RootState). st.session) undone_state,
    ap (λ (st : RootState). st.daily_stats) undone_state,
    λ j.
        ap (λ (st : RootState). lookup j st.photos) undone_state
        ∙ lookup-undone_members j env.now s.state.photos ops taken found,
  )

snapshot_missing :
    (photos : Map Photo) (xs taken ys : List ClusterMemberOp) (op : ClusterMemberOp)
    → snapshot photos xs ≡ ok taken
    → lookup op.photo_id photos ≡ none
    → snapshot photos (xs ++ op ∷ ys) ≡ err (photo_not_found op.photo_id)
unfolding snapshot
snapshot_missing photos [] taken ys op h e = ground arith
snapshot_missing photos (x ∷ xs) taken ys op h e =
    let (p, rest, found, more, shape) =
      snapshot_inv x (lookup x.photo_id photos) (snapshot photos xs) taken h in
    rw (found, snapshot) (rw (snapshot_missing photos xs rest ys op more e))

-- A cluster decision in an active session whose members are all there up to one that is missing
-- fails with that photo's id, and changes nothing in memory or on disk.
pub record_cluster_decision_missing :
    (env : Env) (id : String) (xs taken ys : List ClusterMemberOp) (op : ClusterMemberOp)
    (s : Store) (sess : Session)
    → s.state.session ≡ some sess
    → snapshot s.state.photos xs ≡ ok taken
    → lookup op.photo_id s.state.photos ≡ none
    → record_cluster_decision env id (some (xs ++ op ∷ ys)) s
      ≡ (err (photo_not_found op.photo_id), s)
unfolding record_cluster_decision cluster_decided commit
record_cluster_decision_missing env id xs taken ys op s sess active h e =
    let failed = snapshot_missing s.state.photos xs taken ys op h e in ground (arith, failed)
