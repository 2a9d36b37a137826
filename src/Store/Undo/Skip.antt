-- ===== src/Store/Undo/Skip.antt =====
-- Undo after RecordSkip.
use photo_swipe.Prelude.{
  ℕ, ◌+◌, ◌-◌, ◌≡◌, refl, ap, ◌∙◌, String, Bool, true, false, none, some, List, [], ◌∷◌, ◌++◌,
  arith, length, drop,
}
use photo_swipe.Prelude.Int.{ℤ, pos, add64}
use photo_swipe.Prelude.Map.{Map, lookup, insert, insert-insert, insert-lookup, lookup-insert_self}
use photo_swipe.Store.Photo.{Photo}
use photo_swipe.Store.Session.{Session, Decision}
use photo_swipe.Store.State.{RootState, Store, Env, ok, state-commit}
use photo_swipe.Store.Decisions.{
  count_on, add_on, skip_cap, push_skipped, skip_decision, push, skipped, record_skip,
}
use photo_swipe.Store.Undo.{undo, undone, undone_lem, revert, bump_amount, remove_last, unskip}
use photo_swipe.Store.Undo.Rollback.{HasRoom, rollback_lem}
use photo_swipe.Store.Undo.Fifo.{skip_cap_pos, push_skipped_lem, remove_last-push}

-- What RecordSkip does to the session before it pushes the decision.
abbrev with_skip : String → Session → Session
with_skip id sess = record sess {
  recently_skipped = push_skipped (skip_cap 5 sess.target) (id ∷ []) sess.recently_skipped;
}

-- The state that RecordSkip leaves, by whether a skip counts.
abbrev after_skip : Env → String → Photo → Session → Bool → RootState → RootState
after_skip env id p sess true st = record st {
  photos = insert id (record p { last_seen_at = env.now }) st.photos;
  session = some (push (skip_decision env.now id true p) (pos 1) (with_skip id sess));
  daily_stats = add_on (env.day env.now) (pos 1) st.daily_stats;
}
after_skip env id p sess false st = record st {
  photos = insert id (record p { last_seen_at = env.now }) st.photos;
  session =
      some (record (with_skip id sess) {
        stack = sess.stack ++ skip_decision env.now id false p ∷ [];
      });
}

skipped_lem :
    (env : Env) (id : String) (st : RootState) (p : Photo) (sess : Session) (b : Bool)
    → lookup id st.photos ≡ some p
    → st.session ≡ some sess
    → st.settings.skip_advances_counter ≡ b
    → skipped env id st ≡ (ok (skip_decision env.now id b p), after_skip env id p sess b st)
unfolding skipped push
skipped_lem env id st p sess true e f g = ground arith
skipped_lem env id st p sess false e f g = ground arith

-- RecentlySkipped after `n` skips under this cap and their undo: what did not fit fell off the
-- front.
abbrev pub trimmed : ℕ → ℕ → List String → List String
trimmed cap n rs = drop (length rs + n - cap) rs

unfoldable pub trim : ℕ → Session → Session
trim n sess = record sess {
  recently_skipped = trimmed (skip_cap 5 sess.target) n sess.recently_skipped;
}

fifo_undone :
    (id : String) (sess : Session)
    → remove_last id (push_skipped (skip_cap 5 sess.target) (id ∷ []) sess.recently_skipped)
      ≡ trimmed (skip_cap 5 sess.target) 1 sess.recently_skipped
fifo_undone id sess =
    ap (remove_last id) (
      push_skipped_lem _ (id ∷ []) sess.recently_skipped (skip_cap_pos 5 sess.target (omega arith)))
    ∙ remove_last-push id _

-- What the day's counts are after a skip and its undo.
abbrev pub touched : Bool → String → Map ℤ → Map ℤ
touched true day m = insert day (count_on day m) m
touched false day m = m

photo_undone :
    (env : Env) (id : String) (p : Photo) (photos : Map Photo)
    → lookup id photos ≡ some p
    → insert id p (insert id (record p { last_seen_at = env.now }) photos) ≡ photos
photo_undone env id p photos e = insert-insert id _ p photos ∙ insert-lookup id p photos e

revert_skip :
    (day : String) (d : Decision) (sess : Session) (st : RootState) (p : Photo)
    → lookup d.photo_id st.photos ≡ some p
    → revert true none day d sess st ≡ (
      ok d,
      unskip day d (remove_last d.photo_id sess.recently_skipped) sess (record st {
        photos = insert d.photo_id (record p { last_seen_at = d.prev_last_seen_at }) st.photos;
      }),
    )
unfolding revert
revert_skip day d sess st p e = rw (e, revert)

undone_skipped :
    (env env' : Env) (id : String) (st : RootState) (p : Photo) (sess : Session) (b : Bool)
    → lookup id st.photos ≡ some p
    → env'.day env.now ≡ env.day env.now
    → HasRoom 1 sess.done
    → HasRoom 1 (count_on (env.day env.now) st.daily_stats)
    → (undone env' (after_skip env id p sess b st)).1 ≡ record st {
      session = some (trim 1 sess);
      daily_stats = touched b (env.day env.now) st.daily_stats;
    }
unfolding push skip_decision bump_amount trim unskip
undone_skipped env env' id st p sess true e same room room' =
    let d = skip_decision env.now id true p in
    ap (λ r. r.1)
      (undone_lem env' (after_skip env id p sess true st) _ sess.stack d refl refl
        ∙ revert_skip _ d (record (with_skip id sess) { done = add64 sess.done (pos 1) })
            (after_skip env id p sess true st) (record p { last_seen_at = env.now })
            (lookup-insert_self id _ st.photos))
    ∙ rw (same, fifo_undone, photo_undone env id p st.photos e)
        (rollback_lem (env.day env.now) 1 (trim 1 sess) st room room')
undone_skipped env env' id st p sess false e same room room' =
    let d = skip_decision env.now id false p in
    ap (λ r. r.1)
      (undone_lem env' (after_skip env id p sess false st) _ sess.stack d refl refl
        ∙ revert_skip _ d (with_skip id sess) (after_skip env id p sess false st)
            (record p { last_seen_at = env.now }) (lookup-insert_self id _ st.photos))
    ∙ rw (fifo_undone, photo_undone env id p st.photos e)

-- Undo right after a skip: every photo, the stack and Done are as they were, and RecentlySkipped
-- has lost its oldest entries, as many as its length, with one for the skip, exceeds the cap of
-- RecordSkip (the target, or 5 in an open-ended session). If skips count, the day's count has its
-- value again. This holds if the counters have room for what the skip adds and the day is printed
-- alike both times.
pub undo-record_skip :
    (env env' : Env) (id : String) (s : Store) (p : Photo) (sess : Session)
    → lookup id s.state.photos ≡ some p
    → s.state.session ≡ some sess
    → env'.day env.now ≡ env.day env.now
    → HasRoom 1 sess.done
    → HasRoom 1 (count_on (env.day env.now) s.state.daily_stats)
    → (undo env' (record_skip env id s).1).1.state ≡ record s.state {
      session = some (trim 1 sess);
      daily_stats =
          touched s.state.settings.skip_advances_counter (env.day env.now) s.state.daily_stats;
    }
unfolding undo record_skip
undo-record_skip env env' id s p sess e f same room room' =
    state-commit env' _ _
    ∙ ap (λ st. (undone env' st).1)
        (state-commit env s (skipped env id s.state)
          ∙ ap (λ r. r.1) (skipped_lem env id s.state p sess _ e f refl))
    ∙ undone_skipped env env' id s.state p sess _ e same room room'
