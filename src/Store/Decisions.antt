-- ===== src/Store/Decisions.antt =====
-- internal/store/store.go: RecordDecision, RecordSkip and SetPhotoState. What a method does under
-- the lock before it saves is a function on the state.
use photo_swipe.Prelude.{
  ℕ, ◌-◌, String, Bool, true, false, none, some, List, [], ◌∷◌, ◌++◌, if◌then◌else◌, ltb, length,
  drop,
}
use photo_swipe.Prelude.Int.{ℤ, pos, pos_part, add64, leb_ℤ}
use photo_swipe.Prelude.Map.{Map, lookup, insert}
use photo_swipe.Store.Photo.{Photo, Time, PhotoState, kept, unsure, trashed}
use photo_swipe.Store.Session.{Decision, Session}
use photo_swipe.Store.State.{
  RootState, Store, Env, Result, ok, err, photo_not_found, no_active_session, commit,
}

-- DailyStats[day], 0 where the day is missing
unfoldable pub count_on : String → Map ℤ → ℤ
count_on day m = elim (lookup day m) [ none ↦ pos 0 | some n ↦ n ]

unfoldable pub add_on : String → ℤ → Map ℤ → Map ℤ
unfolding count_on
add_on day n m = insert day (add64 (count_on day m) n) m

-- The `switch newState` of RecordDecision and SetPhotoState.
unfoldable pub counted : PhotoState → String → Photo → Photo
counted kept to p = record p { keep_count = add64 p.keep_count (pos 1) }
counted unsure to p = record p { unsure_count = add64 p.unsure_count (pos 1) }
counted trashed to p = record p { trashed_path = to }
counted _ to p = p

unfoldable pub decide : Time → PhotoState → String → Photo → Photo
unfolding counted
decide now new to p = record (counted new to p) {
  state = new;
  last_decision_at = now;
  last_seen_at = now;
}

unfoldable pub decision : Time → String → PhotoState → String → String → Photo → Decision
decision now id new from to p = record {
  photo_id = id;
  prev_state = p.state;
  new_state = new;
  timestamp = now;
  prev_keep_count = p.keep_count;
  prev_unsure_count = p.unsure_count;
  prev_last_seen_at = p.last_seen_at;
  trash_from = from;
  trash_to = to;
  skipped = false;
  advanced_counter = false;
  counter_bump = pos 0;
  cluster = none;
}

-- s.state.Session.Done += bump; s.state.Session.Stack = append(s.state.Session.Stack, d)
unfoldable pub push : Decision → ℤ → Session → Session
push d bump sess = record sess { done = add64 sess.done bump; stack = sess.stack ++ d ∷ [] }

unfoldable pub decided :
    Env → String → PhotoState → String → String → RootState → Result Decision × RootState
unfolding decide decision push add_on
decided env id new from to st = elim (lookup id st.photos) [
  | none ↦ (err (photo_not_found id), st)
  | some p ↦ elim st.session [
    | none ↦ (err no_active_session, st)
    | some sess ↦
        let d = decision env.now id new from to p in
        (
          ok d,
          record st {
            photos = insert id (decide env.now new to p) st.photos;
            session = some (push d (pos 1) sess);
            daily_stats = add_on (env.day env.now) (pos 1) st.daily_stats;
          },
        )
  ]
]

unfoldable pub record_decision :
    Env → String → PhotoState → String → String → Store → Result Decision × Store
record_decision env id new from to s = commit env s (decided env id new from to s.state)

-- cap := Target; if cap <= 0 { cap = fallback }
unfoldable pub skip_cap : ℕ → ℤ → ℕ
skip_cap fallback target = if leb_ℤ target (pos 0) then fallback else pos_part target

-- rs := append(rs, ids...); if len(rs) > cap { rs = rs[len(rs)-cap:] }
unfoldable pub push_skipped : ℕ → List String → List String → List String
push_skipped cap ids rs =
    let all = rs ++ ids in if ltb cap (length all) then drop (length all - cap) all else all

unfoldable pub skip_decision : Time → String → Bool → Photo → Decision
skip_decision now id advance p = record {
  photo_id = id;
  prev_state = p.state;
  new_state = p.state;
  timestamp = now;
  prev_keep_count = pos 0;
  prev_unsure_count = pos 0;
  prev_last_seen_at = p.last_seen_at;
  trash_from = "";
  trash_to = "";
  skipped = true;
  advanced_counter = advance;
  counter_bump = pos 0;
  cluster = none;
}

unfoldable pub skipped : Env → String → RootState → Result Decision × RootState
unfolding skip_decision skip_cap push_skipped push add_on
skipped env id st = elim (lookup id st.photos) [
  | none ↦ (err (photo_not_found id), st)
  | some p ↦ elim st.session [
    | none ↦ (err no_active_session, st)
    | some sess ↦
        let advance = st.settings.skip_advances_counter in
        let d = skip_decision env.now id advance p in
        let sess' = record sess {
          recently_skipped = push_skipped (skip_cap 5 sess.target) (id ∷ []) sess.recently_skipped;
        } in
        let st' = record st {
          photos = insert id (record p { last_seen_at = env.now }) st.photos;
        } in
        (
          ok d,
          (if advance
              then record st' {
                session = some (push d (pos 1) sess');
                daily_stats = add_on (env.day env.now) (pos 1) st.daily_stats;
              }
              else record st' { session = some (record sess' { stack = sess.stack ++ d ∷ [] }) }),
        )
  ]
]

unfoldable pub record_skip : Env → String → Store → Result Decision × Store
record_skip env id s = commit env s (skipped env id s.state)

unfoldable pub state_set :
    Env → String → PhotoState → String → RootState → Result (Unit {0}) × RootState
unfolding decide add_on
state_set env id new to st = elim (lookup id st.photos) [
  | none ↦ (err (photo_not_found id), st)
  | some p ↦ (
    ok tt,
    record st {
      photos = insert id (decide env.now new to p) st.photos;
      daily_stats = add_on (env.day env.now) (pos 1) st.daily_stats;
    },
  )
]

unfoldable pub set_photo_state :
    Env → String → PhotoState → String → Store → Result (Unit {0}) × Store
set_photo_state env id new to s = commit env s (state_set env id new to s.state)
