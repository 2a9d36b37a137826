-- ===== src/Store/Steps/Popped.antt =====
-- Undo keeps the photos under their ids, and a short RecentlySkipped.
use photo_swipe.Prelude.{
  ◌≤◌, String, none, some, List, [], ◌∷◌, arith, length, Option-cases, inl, inr, Bool, true, false,
  split_last, subst, Bool-cases,
}
use photo_swipe.Prelude.Map.{Map, lookup, insert}
use photo_swipe.Store.Photo.{Photo}
use photo_swipe.Store.Session.{Session, ClusterMemberOp, Slice, Decision}
use photo_swipe.Store.State.{RootState, Env}
use photo_swipe.Store.Decisions.{skip_cap}
use photo_swipe.Store.Undo.{
  undone, revert, rollback, unskip, remove_last, remove_each, restore_photo,
}
use photo_swipe.Store.Steps.Keyed.{IsKeyed, insert-IsKeyed, restore_members-IsKeyed}
use photo_swipe.Store.Steps.Pushed.{IsBounded, IsWell}

length-remove_last : (id : String) (rs : List String) → length (remove_last id rs) ≤ length rs
unfolding remove_last
length-remove_last id [] = omega arith
length-remove_last id (x ∷ rs) = ground (arith, length-remove_last id rs)

length-remove_each :
    (ops : List ClusterMemberOp) (rs : List String) → length (remove_each ops rs) ≤ length rs
unfolding remove_each
length-remove_each [] rs = omega arith
length-remove_each (op ∷ ops) rs =
    omega (
      arith,
      length-remove_each ops (remove_last op.photo_id rs),
      length-remove_last op.photo_id rs,
    )

unskip-IsWell :
    (day : String) (d : Decision) (rs : List String) (sess : Session) (st : RootState)
    → IsKeyed st.photos
    → length rs ≤ skip_cap 10 sess.target
    → IsWell (unskip day d rs sess st)
unfolding unskip rollback
unskip-IsWell day d rs sess st keyed short = elim (Bool-cases d.advanced_counter) [
  | inl e ↦ rw (e, unskip) (keyed, short)
  | inr e ↦ rw (e, unskip) (keyed, short)
]

-- The photos once the skip of one is taken back.
abbrev unseen : Decision → Map Photo → Map Photo
unseen d photos = elim (lookup d.photo_id photos) [
  | none ↦ photos
  | some p ↦ insert d.photo_id (record p { last_seen_at = d.prev_last_seen_at }) photos
]

unseen-IsKeyed : (d : Decision) (photos : Map Photo) → IsKeyed photos → IsKeyed (unseen d photos)
unseen-IsKeyed d photos keyed = elim (Option-cases (lookup d.photo_id photos)) [
  | inl e ↦ rw (e, unseen) keyed
  | inr (p, e) ↦ rw (e, unseen) (insert-IsKeyed d.photo_id _ photos (keyed.1 d.photo_id p e) keyed)
]

revert-IsWell :
    (is_skip : Bool) (ops : Slice ClusterMemberOp) (day : String) (d : Decision) (sess : Session)
    (st : RootState)
    → IsKeyed st.photos
    → IsBounded (some sess)
    → IsWell (revert is_skip ops day d sess st).1
unfolding revert rollback restore_photo
revert-IsWell true (some ops) day d sess st keyed short =
    unskip-IsWell day d _ sess st keyed
      (omega (arith, length-remove_each ops sess.recently_skipped))
revert-IsWell true none day d sess st keyed short =
    unskip-IsWell day d (remove_last d.photo_id sess.recently_skipped) sess
      (record st { photos = unseen d st.photos }) (unseen-IsKeyed d st.photos keyed)
      (omega (arith, length-remove_last d.photo_id sess.recently_skipped))
revert-IsWell false (some ops) day d sess st keyed short =
    (restore_members-IsKeyed ops st.photos keyed, short)
revert-IsWell false none day d sess st keyed short =
    elim (Option-cases (lookup d.photo_id st.photos)) [
      | inl e ↦ rw (e, revert) (keyed, short)
      | inr (p, e) ↦
          rw (e, revert)
            (insert-IsKeyed d.photo_id _ st.photos (keyed.1 d.photo_id p e) keyed, short)
    ]

pub undone-IsWell : (env : Env) (st : RootState) → IsWell st → IsWell (undone env st).1
unfolding undone
undone-IsWell env st (keyed, bounded) = elim (Option-cases st.session) [
  | inl f ↦ rw (f, undone) (keyed, bounded)
  | inr (sess, f) ↦ elim (Option-cases (split_last sess.stack)) [
    | inl g ↦ rw (f, g, undone) (keyed, bounded)
    | inr ((front, d), g) ↦
        rw (f, g, undone)
          (revert-IsWell d.skipped d.cluster (env.day d.timestamp) d (record sess { stack = front })
            st keyed (subst IsBounded f bounded))
  ]
]
