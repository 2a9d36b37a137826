-- ===== src/Store/Steps/Pushed.antt =====
-- What the decisions keep: the photos under their ids, and a short RecentlySkipped.
use photo_swipe.Prelude.{
  ℕ, ◌≤◌, ◌≡◌, refl, ◌∙◌, String, Option, none, some, List, [], ◌∷◌, arith, length, Option-cases,
  inl, inr, subst, ◌⊎◌, Bool-cases,
}
use photo_swipe.Prelude.Int.{ℤ}
use photo_swipe.Prelude.Map.{lookup}
use photo_swipe.Store.Photo.{Photo, PhotoState, Time}
use photo_swipe.Store.Session.{Session, ClusterMemberOp, Slice, elems}
use photo_swipe.Store.State.{RootState, Env, Error, Result, ok, err}
use photo_swipe.Store.Decisions.{
  skip_cap, push_skipped, decided, skipped, state_set, push, decide, counted,
}
use photo_swipe.Store.Clusters.{cluster_skipped, cluster_decided, snapshot}
use photo_swipe.Store.Undo.Fifo.{length-push_skipped}
use photo_swipe.Store.Steps.Keyed.{IsKeyed, insert-IsKeyed, apply_members-IsKeyed}

-- RecentlySkipped is no longer than the cap of a cluster skip in the session.
abbrev pub IsBounded : Option Session → Type 0
IsBounded none = Unit
IsBounded (some sess) = length sess.recently_skipped ≤ skip_cap 10 sess.target

abbrev pub IsWell : RootState → Type 0
IsWell st = IsKeyed st.photos × IsBounded st.session

id-decide :
    (now : Time) (new : PhotoState) (to : String) (p : Photo) → (decide now new to p).id ≡ p.id
unfolding decide counted
id-decide now new to p = ground arith

pub decided-IsWell :
    (env : Env) (id : String) (new : PhotoState) (from to : String) (st : RootState)
    → IsWell st
    → IsWell (decided env id new from to st).1
unfolding decided push
decided-IsWell env id new from to st (keyed, bounded) = elim (Option-cases (lookup id st.photos)) [
  | inl e ↦ rw (e, decided) (keyed, bounded)
  | inr (p, e) ↦ elim (Option-cases st.session) [
    | inl f ↦ rw (e, f, decided) (keyed, bounded)
    | inr (sess, f) ↦
        rw (e, f, decided)
          (
            insert-IsKeyed id (decide env.now new to p) st.photos
                (id-decide env.now new to p ∙ keyed.1 id p e) keyed,
            subst IsBounded f bounded,
          )
  ]
]

bounded-push_skipped :
    (fallback : ℕ) (target : ℤ) (ids rs : List String)
    → fallback ≤ 10
    → length (push_skipped (skip_cap fallback target) ids rs) ≤ skip_cap 10 target
unfolding skip_cap
bounded-push_skipped fallback target ids rs h =
    ground (arith, length-push_skipped (skip_cap fallback target) ids rs)

pub skipped-IsWell :
    (env : Env) (id : String) (st : RootState) → IsWell st → IsWell (skipped env id st).1
unfolding skipped push
skipped-IsWell env id st (keyed, bounded) = elim (Option-cases (lookup id st.photos)) [
  | inl e ↦ rw (e, skipped) (keyed, bounded)
  | inr (p, e) ↦ elim (Option-cases st.session) [
    | inl f ↦ rw (e, f, skipped) (keyed, bounded)
    | inr (sess, f) ↦
        let keyed' =
          insert-IsKeyed id (record p { last_seen_at = env.now }) st.photos (keyed.1 id p e)
            keyed in
        let short =
          bounded-push_skipped 5 sess.target (id ∷ []) sess.recently_skipped (omega arith) in
        elim (Bool-cases st.settings.skip_advances_counter) [
          | inl g ↦ rw (e, f, g, skipped) (keyed', short)
          | inr g ↦ rw (e, f, g, skipped) (keyed', short)
        ]
  ]
]

pub cluster_skipped-IsWell :
    (env : Env) (id : String) (ids : List String) (st : RootState)
    → IsWell st
    → IsWell (cluster_skipped env id ids st).1
unfolding cluster_skipped push
cluster_skipped-IsWell env id ids st (keyed, bounded) = elim (Option-cases st.session) [
  | inl f ↦ rw (f, cluster_skipped) (keyed, bounded)
  | inr (sess, f) ↦
      let short = bounded-push_skipped 10 sess.target ids sess.recently_skipped (omega arith) in
      elim (Bool-cases st.settings.skip_advances_counter) [
        | inl g ↦ rw (f, g, cluster_skipped) (keyed, short)
        | inr g ↦ rw (f, g, cluster_skipped) (keyed, short)
      ]
]

Result-cases : {A : Type 0} (r : Result A) → ((e : Error) × (r ≡ err e)) ⊎ ((a : A) × (r ≡ ok a))
Result-cases (err e) = inl (e, refl)
Result-cases (ok a) = inr (a, refl)

pub cluster_decided-IsWell :
    (env : Env) (id : String) (ops : Slice ClusterMemberOp) (st : RootState)
    → IsWell st
    → IsWell (cluster_decided env id ops st).1
unfolding cluster_decided push
cluster_decided-IsWell env id ops st (keyed, bounded) = elim (Option-cases st.session) [
  | inl f ↦ rw (f, cluster_decided) (keyed, bounded)
  | inr (sess, f) ↦ elim (Result-cases (snapshot st.photos (elems ops))) [
    | inl (e, g) ↦ rw (f, g, cluster_decided) (keyed, bounded)
    | inr (taken, g) ↦
        rw (f, g, cluster_decided)
          (apply_members-IsKeyed env.now taken st.photos keyed, subst IsBounded f bounded)
  ]
]

pub state_set-IsWell :
    (env : Env) (id : String) (new : PhotoState) (to : String) (st : RootState)
    → IsWell st
    → IsWell (state_set env id new to st).1
unfolding state_set
state_set-IsWell env id new to st (keyed, bounded) = elim (Option-cases (lookup id st.photos)) [
  | inl e ↦ rw (e, state_set) (keyed, bounded)
  | inr (p, e) ↦
      rw (e, state_set)
        (
          insert-IsKeyed id (decide env.now new to p) st.photos
              (id-decide env.now new to p ∙ keyed.1 id p e) keyed,
          bounded,
        )
]
