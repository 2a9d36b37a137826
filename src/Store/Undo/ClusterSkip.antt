-- ===== src/Store/Undo/ClusterSkip.antt =====
-- Undo after SkipCluster.
use photo_swipe.Prelude.{
  ℕ, ◌≤◌, ◌<◌, ◌≡◌, refl, ap, ◌∙◌, String, Bool, true, false, some, List, [], ◌∷◌, ◌++◌, map, arith,
  length,
}
use photo_swipe.Prelude.Int.{ℤ, pos, pos_part}
use photo_swipe.Store.Session.{Session, Decision, Settings}
use photo_swipe.Store.State.{RootState, Store, Env, state-commit}
use photo_swipe.Store.Decisions.{count_on, add_on, skip_cap, push_skipped, push}
use photo_swipe.Store.Clusters.{
  bare_op, cluster_bump, cluster_decision, cluster_skipped, skip_cluster,
}
use photo_swipe.Store.Undo.{undo, undone, undone_lem, revert, bump_amount, remove_each, unskip}
use photo_swipe.Store.Undo.Rollback.{HasRoom, rollback_lem}
use photo_swipe.Store.Undo.Fifo.{push_skipped_lem, remove_each-push}
use photo_swipe.Store.Undo.Skip.{trimmed, touched}

-- The bump of a cluster as a number; it is at least one.
abbrev pub bump_size : Settings → ℕ → ℕ
bump_size settings n = pos_part (cluster_bump settings n)

pub cluster_bump_pos :
    (settings : Settings) (n : ℕ) → cluster_bump settings n ≡ pos (bump_size settings n)
unfolding cluster_bump
cluster_bump_pos settings n = ground arith

pub zero-lt-bump_size : (settings : Settings) (n : ℕ) → 0 < bump_size settings n
unfolding cluster_bump
zero-lt-bump_size settings n = ground arith

-- Undo takes back what the decision says it has added.
pub bump_amount_pos :
    (d : Decision) (b : ℕ) → d.counter_bump ≡ pos b → 0 < b → bump_amount d ≡ pos b
unfolding bump_amount
bump_amount_pos d b e h = ground arith

abbrev with_skips : List String → Session → Session
with_skips ids sess = record sess {
  recently_skipped = push_skipped (skip_cap 10 sess.target) ids sess.recently_skipped;
}

abbrev skip_of : Env → String → List String → Bool → ℤ → Decision
skip_of env id ids advance bump =
    cluster_decision env.now id true advance bump (some (map bare_op ids))

abbrev after_skips : Env → String → List String → Session → Bool → ℕ → RootState → RootState
after_skips env id ids sess true b st = record st {
  session = some (push (skip_of env id ids true (pos b)) (pos b) (with_skips ids sess));
  daily_stats = add_on (env.day env.now) (pos b) st.daily_stats;
}
after_skips env id ids sess false b st = record st {
  session = some (record (with_skips ids sess) {
    stack = sess.stack ++ skip_of env id ids false (pos 0) ∷ [];
  });
}

cluster_skipped_lem :
    (env : Env) (id : String) (ids : List String) (st : RootState) (sess : Session) (b : Bool)
    → st.session ≡ some sess
    → st.settings.skip_advances_counter ≡ b
    → (cluster_skipped env id ids st).1
      ≡ after_skips env id ids sess b (bump_size st.settings (length ids)) st
unfolding cluster_skipped push
cluster_skipped_lem env id ids st sess true f g =
    ground (arith, cluster_bump_pos st.settings (length ids))
cluster_skipped_lem env id ids st sess false f g = ground arith

unfoldable pub trim_cluster : ℕ → Session → Session
trim_cluster n sess = record sess {
  recently_skipped = trimmed (skip_cap 10 sess.target) n sess.recently_skipped;
}

fifo_undone :
    (ids : List String) (sess : Session)
    → length ids ≤ skip_cap 10 sess.target
    → remove_each
        (map bare_op ids)
        (push_skipped (skip_cap 10 sess.target) ids sess.recently_skipped)
      ≡ trimmed (skip_cap 10 sess.target) (length ids) sess.recently_skipped
fifo_undone ids sess h =
    ap (remove_each (map bare_op ids)) (push_skipped_lem _ ids sess.recently_skipped h)
    ∙ remove_each-push ids _

undone_skips :
    (env env' : Env) (id : String) (ids : List String) (st : RootState) (sess : Session) (b : Bool)
    (n : ℕ)
    → length ids ≤ skip_cap 10 sess.target
    → env'.day env.now ≡ env.day env.now
    → 0 < n
    → HasRoom n sess.done
    → HasRoom n (count_on (env.day env.now) st.daily_stats)
    → (undone env' (after_skips env id ids sess b n st)).1 ≡ record st {
      session = some (trim_cluster (length ids) sess);
      daily_stats = touched b (env.day env.now) st.daily_stats;
    }
unfolding push trim_cluster unskip revert
undone_skips env env' id ids st sess true n fits same some_bump room room' =
    let d = skip_of env id ids true (pos n) in
    ap (λ r. r.1) (undone_lem env' (after_skips env id ids sess true n st) _ sess.stack d refl refl)
    ∙ rw (same, fifo_undone ids sess fits, bump_amount_pos d n refl some_bump)
        (rollback_lem (env.day env.now) n (trim_cluster (length ids) sess) st room room')
undone_skips env env' id ids st sess false n fits same some_bump room room' =
    let d = skip_of env id ids false (pos 0) in
    ap (λ r. r.1)
      (undone_lem env' (after_skips env id ids sess false n st) _ sess.stack d refl refl)
    ∙ rw (fifo_undone ids sess fits)

-- Undo right after a cluster was skipped whose ids fit into the list: the photos, the stack and
-- Done are as they were, and RecentlySkipped is, but for the oldest entries that the skip has
-- pushed out. If skips count, the day's count has its value again. This holds if the counters have
-- room for what the skip adds and the day is printed alike both times.
pub undo-skip_cluster :
    (env env' : Env) (id : String) (ids : List String) (s : Store) (sess : Session)
    → s.state.session ≡ some sess
    → length ids ≤ skip_cap 10 sess.target
    → env'.day env.now ≡ env.day env.now
    → HasRoom (bump_size s.state.settings (length ids)) sess.done
    → HasRoom
        (bump_size s.state.settings (length ids))
        (count_on (env.day env.now) s.state.daily_stats)
    → (undo env' (skip_cluster env id ids s).1).1.state ≡ record s.state {
      session = some (trim_cluster (length ids) sess);
      daily_stats =
          touched s.state.settings.skip_advances_counter (env.day env.now) s.state.daily_stats;
    }
unfolding undo skip_cluster
undo-skip_cluster env env' id ids s sess f fits same room room' =
    state-commit env' _ _
    ∙ ap (λ st. (undone env' st).1)
        (state-commit env s (cluster_skipped env id ids s.state)
          ∙ cluster_skipped_lem env id ids s.state sess _ f refl)
    ∙ undone_skips env env' id ids s.state sess _ _ fits same
        (zero-lt-bump_size s.state.settings (length ids)) room room'
