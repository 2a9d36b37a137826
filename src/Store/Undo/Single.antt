-- ===== src/Store/Undo/Single.antt =====
-- Undo after RecordDecision.
use photo_swipe.Prelude.{◌≡◌, refl, String, none, some, arith, if◌then◌else◌, ◌∙◌, sym, ap, false}
use photo_swipe.Prelude.Int.{pos, add64}
use photo_swipe.Prelude.Map.{lookup, insert, insert-insert, lookup-insert_self}
use photo_swipe.Store.Photo.{Photo, PhotoState, is_trashed}
use photo_swipe.Store.Session.{Session, Decision}
use photo_swipe.Store.State.{RootState, Store, Env, ok, state-commit}
use photo_swipe.Store.Decisions.{count_on, add_on, decide, decision, push, decided, record_decision}
use photo_swipe.Store.Undo.{undo, undone, undone_lem, revert, rollback, bump_amount, restore_photo}
use photo_swipe.Store.Undo.Rollback.{HasRoom, rollback_lem}

pub decided_lem :
    (env : Env) (id : String) (new : PhotoState) (from to : String) (st : RootState) (p : Photo)
    (sess : Session)
    → lookup id st.photos ≡ some p
    → st.session ≡ some sess
    → decided env id new from to st ≡ (
      ok (decision env.now id new from to p),
      record st {
        photos = insert id (decide env.now new to p) st.photos;
        session = some (push (decision env.now id new from to p) (pos 1) sess);
        daily_stats = add_on (env.day env.now) (pos 1) st.daily_stats;
      },
    )
unfolding decided
decided_lem env id new from to st p sess e f = ground (arith)

-- What undo leaves of a photo that was decided on.
unfoldable pub undecided : Env → PhotoState → Photo → Photo
undecided env new p = record p {
  last_decision_at = env.now;
  trashed_path = if is_trashed new then "" else p.trashed_path;
}

restore-decide :
    (env : Env) (id : String) (new : PhotoState) (from to : String) (p : Photo)
    → restore_photo (decision env.now id new from to p) (decide env.now new to p)
      ≡ undecided env new p
unfolding restore_photo decision decide undecided
restore-decide env id new from to p = ground arith

revert_single :
    (day : String) (d : Decision) (sess : Session) (st : RootState) (p : Photo)
    → lookup d.photo_id st.photos ≡ some p
    → revert false none day d sess st ≡ (
      ok d,
      rollback day
          (bump_amount d)
          sess
          (record st { photos = insert d.photo_id (restore_photo d p) st.photos }),
    )
unfolding revert
revert_single day d sess st p e = rw (e, revert)

-- The state that RecordDecision leaves.
abbrev after_decision :
    Env → String → PhotoState → String → String → Photo → Session → RootState → RootState
after_decision env id new from to p sess st = record st {
  photos = insert id (decide env.now new to p) st.photos;
  session = some (push (decision env.now id new from to p) (pos 1) sess);
  daily_stats = add_on (env.day env.now) (pos 1) st.daily_stats;
}

undone_decided :
    (env env' : Env) (id : String) (new : PhotoState) (from to : String) (st : RootState)
    (p : Photo) (sess : Session)
    → env'.day env.now ≡ env.day env.now
    → HasRoom 1 sess.done
    → HasRoom 1 (count_on (env.day env.now) st.daily_stats)
    → undone env' (after_decision env id new from to p sess st) ≡ (
      ok (decision env.now id new from to p),
      record st {
        photos = insert id (undecided env new p) st.photos;
        session = some sess;
        daily_stats =
            insert (env.day env.now) (count_on (env.day env.now) st.daily_stats) st.daily_stats;
      },
    )
unfolding push decision bump_amount
undone_decided env env' id new from to st p sess same room room' =
    let d = decision env.now id new from to p in
    undone_lem env' (after_decision env id new from to p sess st) _ sess.stack d refl refl
    ∙ rw same (
        revert_single (env.day env.now) d (record sess { done = add64 sess.done (pos 1) })
          (after_decision env id new from to p sess st) (decide env.now new to p)
          (lookup-insert_self id _ st.photos)
        ∙ rw (insert-insert, restore-decide)
            (ap (λ x. (ok d, x))
              (rollback_lem (env.day env.now) 1 sess
                (record st {
                  photos = insert id (undecided env new p) st.photos;
                  session = some (push d (pos 1) sess);
                })
                room room')))

pub undone-record_decision :
    (env env' : Env) (id : String) (new : PhotoState) (from to : String) (s : Store) (p : Photo)
    (sess : Session)
    → lookup id s.state.photos ≡ some p
    → s.state.session ≡ some sess
    → env'.day env.now ≡ env.day env.now
    → HasRoom 1 sess.done
    → HasRoom 1 (count_on (env.day env.now) s.state.daily_stats)
    → undone env' (record_decision env id new from to s).1.state ≡ (
      ok (decision env.now id new from to p),
      record s.state {
        photos = insert id (undecided env new p) s.state.photos;
        session = some sess;
        daily_stats =
            insert
              (env.day env.now)
              (count_on (env.day env.now) s.state.daily_stats)
              s.state.daily_stats;
      },
    )
unfolding record_decision
undone-record_decision env env' id new from to s p sess e f same room room' =
    ap (undone env') (
      state-commit env s (decided env id new from to s.state)
      ∙ ap (λ r. r.1) (decided_lem env id new from to s.state p sess e f))
    ∙ undone_decided env env' id new from to s.state p sess same room room'

-- Undo right after a decision on a photo: the session is as before, and so is every photo but this
-- one, which has its state, its counters and its `LastSeenAt` again. Its `LastDecisionAt` stays at
-- the time of the decision, its trash path is empty if it was trashed, and the day's count has its
-- value again. This holds if the counters have room for what the decision adds and the day is
-- printed alike both times.
pub undo-record_decision :
    (env env' : Env) (id : String) (new : PhotoState) (from to : String) (s : Store) (p : Photo)
    (sess : Session)
    → lookup id s.state.photos ≡ some p
    → s.state.session ≡ some sess
    → env'.day env.now ≡ env.day env.now
    → HasRoom 1 sess.done
    → HasRoom 1 (count_on (env.day env.now) s.state.daily_stats)
    → (undo env' (record_decision env id new from to s).1).1.state ≡ record s.state {
      photos = insert id (undecided env new p) s.state.photos;
      daily_stats =
          insert
            (env.day env.now)
            (count_on (env.day env.now) s.state.daily_stats)
            s.state.daily_stats;
    }
unfolding undo
undo-record_decision env env' id new from to s p sess e f same room room' =
    state-commit env' _ _
    ∙ ap (λ r. r.1) (undone-record_decision env env' id new from to s p sess e f same room room')
    ∙ λ i. record s.state {
      photos = insert id (undecided env new p) s.state.photos;
      session = sym f i;
      daily_stats =
          insert (env.day env.now) (count_on (env.day env.now) s.state.daily_stats)
            s.state.daily_stats;
    }
