-- ===== src/Store/Sessions.antt =====
-- internal/store/store.go: the life of a session, the settings and the plain readers.
use photo_swipe.Prelude.{String, Option, none, some, [], if◌then◌else◌, not}
use photo_swipe.Prelude.Int.{ℤ, pos, add64, ltb_ℤ, leb_ℤ}
use photo_swipe.Store.Session.{CompositionMix, mixed, valid, Session, Settings}
use photo_swipe.Store.State.{
  RootState, Store, Env, Result, ok, err, no_active_session, invalid_mix, negative_target,
  no_entropy, commit, save_and_return,
}
use photo_swipe.Store.Decisions.{count_on}

-- Session(): the session's value, which later changes of the store leave alone.
unfoldable pub session : Store → Option Session
session s = s.state.session

unfoldable pub new_session : Env → String → ℤ → CompositionMix → Session
new_session env id target mix = record {
  id = id;
  started_at = env.now;
  target = target;
  done = pos 0;
  mix = mix;
  stack = [];
  recently_skipped = [];
}

unfoldable pub start_session : Env → ℤ → CompositionMix → Store → Result Session × Store
unfolding new_session
start_session env target mix s =
    if not (valid mix)
    then (err invalid_mix, s)
    else if ltb_ℤ target (pos 0)
    then (err negative_target, s)
    else elim env.rand_id [
      | none ↦ (err no_entropy, s)
      | some id ↦
          let sess = new_session env id target mix in
          save_and_return env sess (record s { state = record s.state { session = some sess } })
    ]

unfoldable pub auto_start_session : Env → Store → Result Session × Store
unfolding start_session
auto_start_session env s =
    let target = s.state.settings.default_batch_size in
    let mix = s.state.settings.default_mix in
    start_session env (if ltb_ℤ target (pos 0) then pos 0 else target)
      (if valid mix then mix else mixed) s

unfoldable pub ended : RootState → RootState
ended st = elim st.session [
  | none ↦ record st { session = none }
  | some sess ↦ record st { session = none; last_batch_done = sess.done }
]

unfoldable pub end_session : Env → Store → Result (Unit {0}) × Store
unfolding ended
end_session env s = commit env s (ok tt, ended s.state)

unfoldable pub last_batch_done : Store → ℤ
last_batch_done s = s.state.last_batch_done

unfoldable pub extend_target : ℤ → ℤ → ℤ
extend_target delta target =
    if leb_ℤ delta (pos 0)
    then pos 0
    else if ltb_ℤ (pos 0) target
    then add64 target delta
    else target

unfoldable pub extended : ℤ → RootState → Result (Unit {0}) × RootState
unfolding extend_target
extended delta st = elim st.session [
  | none ↦ (err no_active_session, st)
  | some sess ↦ (
    ok tt,
    record st {
      session =
          some (record sess { target = extend_target delta sess.target; recently_skipped = [] });
    },
  )
]

unfoldable pub session_extend : Env → ℤ → Store → Result (Unit {0}) × Store
unfolding extended
session_extend env delta s = commit env s (extended delta s.state)

unfoldable pub settings : Store → Settings
settings s = s.state.settings

unfoldable pub update_settings : Env → Settings → Store → Result (Unit {0}) × Store
update_settings env ns s = commit env s (ok tt, record s.state { settings = ns })

unfoldable pub daily_count : String → Store → ℤ
unfolding count_on
daily_count day s = count_on day s.state.daily_stats
