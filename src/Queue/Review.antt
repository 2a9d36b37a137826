-- ===== src/Queue/Review.antt =====
-- How a decision, its undo and a skip show in the choice of the next photo.
use photo_swipe.Prelude.{◌≡◌, refl, ap, ◌∙◌, String, true, false, some, arith}
use photo_swipe.Prelude.Int.{ltb_ℤ}
use photo_swipe.Prelude.Map.{lookup, lookup-insert_self}
use photo_swipe.Store.Photo.{Photo, Time, PhotoState, is_zero}
use photo_swipe.Store.Session.{Session, Settings, sub_time}
use photo_swipe.Store.State.{RootState, Store, Env}
use photo_swipe.Store.Decisions.{count_on, record_decision}
use photo_swipe.Store.Undo.{undo}
use photo_swipe.Store.Undo.Rollback.{HasRoom}
use photo_swipe.Store.Undo.Single.{undecided, undo-record_decision}
use photo_swipe.Queue.{Floats, weight_for, session_weight}

cooling_weight :
    (fl : Floats) (viewer : Session) (settings : Settings) (now : Time) (p : Photo)
    → is_zero p.last_decision_at ≡ false
    → ltb_ℤ (sub_time now p.last_decision_at) (fl.hours settings.cooldown_hours) ≡ true
    → session_weight fl viewer settings now p ≡ 0
unfolding session_weight weight_for
cooling_weight fl viewer settings now p h k = ground arith

-- A decision that is undone still hides its photo: the photo has its old state again, and its
-- weight is zero in every session until the cooldown since that decision is over. This holds if
-- the counters have room for what the decision adds and the day is printed alike both times, and
-- the clock is past Go's zero time.
pub undone_photo_hidden :
    (fl : Floats) (env env' : Env) (id : String) (new : PhotoState) (from to : String) (s : Store)
    (p : Photo) (sess viewer : Session) (settings : Settings) (now : Time)
    → lookup id s.state.photos ≡ some p
    → s.state.session ≡ some sess
    → env'.day env.now ≡ env.day env.now
    → HasRoom 1 sess.done
    → HasRoom 1 (count_on (env.day env.now) s.state.daily_stats)
    → is_zero env.now ≡ false
    → ltb_ℤ (sub_time now env.now) (fl.hours settings.cooldown_hours) ≡ true
    → (q : Photo) × (lookup id (undo env' (record_decision env id new from to s).1).1.state.photos
        ≡ some q)
      × (q.state ≡ p.state)
      × (session_weight fl viewer settings now q ≡ 0)
unfolding undecided
undone_photo_hidden fl env env' id new from to s p sess viewer settings now e f same room room'
      started soon =
    (
      undecided env new p,
      ap (λ (st : RootState). lookup id st.photos)
            (undo-record_decision env env' id new from to s p sess e f same room room')
          ∙ lookup-insert_self id _ s.state.photos,
      refl,
      cooling_weight fl viewer settings now (undecided env new p) started soon,
    )
