-- ===== src/Store/Undo/Gone.antt =====
-- Undo of a decision whose photo is gone.
use photo_swipe.Prelude.{
  ◌≡◌, refl, ap, ◌∙◌, String, false, none, some, List, [], ◌∷◌, ◌++◌, arith, mem, split_last-append,
}
use photo_swipe.Prelude.Int.{pos, add64}
use photo_swipe.Prelude.Map.{IsUnique, lookup, insert-IsUnique, lookup-insert_self}
use photo_swipe.Store.Photo.{Photo, PhotoState, is_trashed}
use photo_swipe.Store.Session.{Session, Decision}
use photo_swipe.Store.State.{RootState, Store, Env, err, photo_not_found, commit, state-commit}
use photo_swipe.Store.Decisions.{add_on, decide, decision, decided, counted, push, record_decision}
use photo_swipe.Store.Photos.{forget_missing}
use photo_swipe.Store.Photos.Missing.{state-forget_missing}
use photo_swipe.Store.Steps.Keyed.{remaining, lookup-forget}
use photo_swipe.Store.Undo.{undo, undone, revert}
use photo_swipe.Store.Undo.Single.{decided_lem}

undo_gone :
    (env : Env) (s : Store) (sess : Session) (front : List Decision) (d : Decision)
    → s.state.session ≡ some sess
    → sess.stack ≡ front ++ d ∷ []
    → d.skipped ≡ false
    → d.cluster ≡ none
    → lookup d.photo_id s.state.photos ≡ none
    → undo env s ≡ (
      err (photo_not_found d.photo_id),
      record s { state = record s.state { session = some (record sess { stack = front }) } },
    )
unfolding undo undone revert commit
undo_gone env s sess front d active top single alone gone =
    rw (active, top, split_last-append front d, single, alone, gone, undo, undone, revert) refl

state-decide :
    (env : Env) (new : PhotoState) (to : String) (p : Photo) → (decide env.now new to p).state ≡ new
unfolding decide counted
state-decide env new to p = ground arith

-- A photo is decided on, but not trashed, and then ForgetMissing drops it, as no file was found.
-- Undo now fails with the photo's id: in memory the decision is off the stack for good, while
-- Done and the day's count still have its bump, and the state file stays as ForgetMissing left it.
-- This holds whatever the saves do, if the photos are kept once each.
pub undo-forget_missing :
    (env env' env'' : Env) (id : String) (new : PhotoState) (from to : String) (keep : List String)
    (s : Store) (p : Photo) (sess : Session)
    → IsUnique s.state.photos
    → lookup id s.state.photos ≡ some p
    → s.state.session ≡ some sess
    → is_trashed new ≡ false
    → mem id keep ≡ false
    → let dropped = (forget_missing env' keep (record_decision env id new from to s).1).1.1 in
      ((undo env'' dropped).0 ≡ err (photo_not_found id))
      × ((undo env'' dropped).1.state.session
          ≡ some (record sess { done = add64 sess.done (pos 1) }))
      × ((undo env'' dropped).1.state.daily_stats
          ≡ add_on (env.day env.now) (pos 1) s.state.daily_stats)
      × ((undo env'' dropped).1.disk ≡ dropped.disk)
unfolding record_decision push decision
undo-forget_missing env env' env'' id new from to keep s p sess once e f active off =
    let after = (record_decision env id new from to s).1 in
    let dropped = (forget_missing env' keep after).1.1 in
    let decided_state =
      state-commit env s (decided env id new from to s.state)
      ∙ ap (λ r. r.1) (decided_lem env id new from to s.state p sess e f) in
    let left = state-forget_missing env' keep after in
    let after_once : IsUnique after.state.photos =
      rw (ap (λ (st : RootState). st.photos) decided_state)
        (insert-IsUnique id (decide env.now new to p) s.state.photos once) in
    let gone : lookup id dropped.state.photos ≡ none =
      ap (λ (st : RootState). lookup id st.photos) left
      ∙ lookup-forget keep id after.state.photos after_once
      ∙ ap (λ (st : RootState). remaining keep id (lookup id st.photos)) decided_state
      ∙ ap (remaining keep id) (lookup-insert_self id (decide env.now new to p) s.state.photos)
      ∙ ground (arith, off, active, ap is_trashed (state-decide env new to p)) in
    let session =
      ap (λ (st : RootState). st.session) left
      ∙ ap (λ (st : RootState). st.session) decided_state in
    let stats =
      ap (λ (st : RootState). st.daily_stats) left
      ∙ ap (λ (st : RootState). st.daily_stats) decided_state in
    let result =
      undo_gone env'' dropped (push (decision env.now id new from to p) (pos 1) sess) sess.stack
        (decision env.now id new from to p) session refl refl refl gone in
    (
      ap (λ r. r.0) result,
      ap (λ r. r.1.state.session) result,
      ap (λ r. r.1.state.daily_stats) result ∙ stats,
      ap (λ r. r.1.disk) result,
    )
