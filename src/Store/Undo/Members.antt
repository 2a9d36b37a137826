-- ===== src/Store/Undo/Members.antt =====
-- What a cluster decision and its undo do to each photo.
use mathlib.Core.Option
use photo_swipe.Prelude.{
  ◌≡◌, refl, ap, ◌∙◌, String, Bool, true, false, ◌&&◌, ◌||◌, Option, none, some, List, [], ◌∷◌,
  arith, str_eq, if◌then◌else◌, Bool-cases, inl, inr,
}
use photo_swipe.Prelude.Map.{Map, lookup, lookup_eq}
use photo_swipe.Store.Photo.{Photo, Time, is_trashed}
use photo_swipe.Store.Session.{ClusterMemberOp}
use photo_swipe.Store.State.{Result, ok, err, photo_not_found}
use photo_swipe.Store.Clusters.{
  member_decide, member_counted, apply_members, snapshot, with_prev, prepend,
}
use photo_swipe.Store.Undo.{restore_member, restore_members}
use photo_swipe.Store.Undo.Loops.{
  apply_step, apply_on, restore_step, restore_on, map-map, lookup-apply_members,
  lookup-restore_members,
}

-- Some operation is on this photo.
unfoldable pub hit : String → List ClusterMemberOp → Bool
hit id [] = false
hit id (op ∷ ops) = str_eq op.photo_id id || hit id ops

-- Some operation trashes this photo.
unfoldable pub trashes : String → List ClusterMemberOp → Bool
trashes id [] = false
trashes id (op ∷ ops) = (str_eq op.photo_id id && is_trashed op.new_state) || trashes id ops

trashes_miss :
    (id : String) (ops : List ClusterMemberOp) → hit id ops ≡ false → trashes id ops ≡ false
unfolding hit trashes
trashes_miss id [] h = refl
trashes_miss id (op ∷ ops) h = ground (arith, trashes_miss id ops)

-- `q` with the four fields that a decision remembers, taken from `p`.
settle : Photo → Photo → Photo
settle p q = record q {
  state = p.state;
  keep_count = p.keep_count;
  unsure_count = p.unsure_count;
  last_seen_at = p.last_seen_at;
}

abbrev Recalls : ClusterMemberOp → Photo → Type 0
Recalls op p =
    (op.prev_state ≡ p.state)
    × (op.prev_keep_count ≡ p.keep_count)
    × (op.prev_unsure_count ≡ p.unsure_count)
    × (op.prev_last_seen_at ≡ p.last_seen_at)

-- The operations on photo `id` remember the four fields of `p`.
abbrev Remembers : String → Photo → List ClusterMemberOp → Type 0
Remembers id p [] = Unit
Remembers id p (op ∷ ops) = (str_eq op.photo_id id ≡ true → Recalls op p) × Remembers id p ops

-- `q` after some operations are undone: `h` if one is on it, `t` if one of these trashes it.
abbrev undone_as : Bool → Bool → Photo → Photo → Photo
undone_as h t p q =
    if h then record (settle p q) { trashed_path = if t then "" else q.trashed_path } else q

undone_again :
    (n h t : Bool) (p q : Photo)
    → (h ≡ false → t ≡ false)
    → undone_as true n p (undone_as h t p q) ≡ undone_as true (n || t) p q
unfolding settle
undone_again true true t p q miss = refl
undone_again true false t p q miss = refl
undone_again false true true p q miss = refl
undone_again false true false p q miss = refl
undone_again false false true p q miss = cc (miss refl)
undone_again false false false p q miss = refl

restore_member_lem :
    (op : ClusterMemberOp) (p q : Photo)
    → Recalls op p
    → restore_member op q ≡ undone_as true (is_trashed op.new_state) p q
unfolding restore_member settle
restore_member_lem op p q (state, keep, unsure, seen) = λ i. record q {
  state = state i;
  keep_count = keep i;
  unsure_count = unsure i;
  last_seen_at = seen i;
  trashed_path = if is_trashed op.new_state then "" else q.trashed_path;
}

restore_on_lem :
    (id : String) (p q : Photo) (ops : List ClusterMemberOp)
    → Remembers id p ops
    → restore_on id ops q ≡ undone_as (hit id ops) (trashes id ops) p q
unfolding restore_on hit trashes restore_step
restore_on_lem id p q [] r = refl
restore_on_lem id p q (op ∷ ops) (r, rs) = elim (Bool-cases (str_eq op.photo_id id)) [
  | inl e ↦ rw e (
      restore_member_lem op p (restore_on id ops q) (r e)
      ∙ ap (undone_as true (is_trashed op.new_state) p) (restore_on_lem id p q ops rs)
      ∙ undone_again _ (hit id ops) (trashes id ops) p q (trashes_miss id ops))
  | inr e ↦ rw e (restore_on_lem id p q ops rs)
]

-- What a decision changes beside the four fields and the trash path.
apply_on_lem :
    (id : String) (now : Time) (p q : Photo) (ops : List ClusterMemberOp)
    → record (settle p (apply_on id now ops q)) { trashed_path = "" } ≡ record (settle p q) {
      trashed_path = "";
      last_decision_at = if hit id ops then now else q.last_decision_at;
    }
unfolding apply_on hit apply_step member_decide member_counted settle
apply_on_lem id now p q [] = refl
apply_on_lem id now p q (op ∷ ops) =
    apply_on_lem id now p (apply_step id now op q) ops ∙ ground arith

apply_on-trashed_path :
    (id : String) (now : Time) (q : Photo) (ops : List ClusterMemberOp)
    → trashes id ops ≡ false
    → (apply_on id now ops q).trashed_path ≡ q.trashed_path
unfolding apply_on trashes apply_step member_decide member_counted
apply_on-trashed_path id now q [] h = refl
apply_on-trashed_path id now q (op ∷ ops) h =
    apply_on-trashed_path id now (apply_step id now op q) ops (ground arith) ∙ ground arith

-- What undo leaves of a photo after a cluster decision.
unfoldable pub cluster_undecided : String → Time → List ClusterMemberOp → Photo → Photo
cluster_undecided id now ops p =
    if hit id ops
    then record p {
      last_decision_at = now;
      trashed_path = if trashes id ops then "" else p.trashed_path;
    }
    else p

apply_on_miss :
    (id : String) (now : Time) (q : Photo) (ops : List ClusterMemberOp)
    → hit id ops ≡ false
    → apply_on id now ops q ≡ q
unfolding apply_on hit apply_step
apply_on_miss id now q [] h = refl
apply_on_miss id now q (op ∷ ops) h =
    apply_on_miss id now (apply_step id now op q) ops (ground arith) ∙ ground arith

restore-apply :
    (id : String) (now : Time) (p : Photo) (ops : List ClusterMemberOp)
    → Remembers id p ops
    → restore_on id ops (apply_on id now ops p) ≡ cluster_undecided id now ops p
unfolding cluster_undecided settle
restore-apply id now p ops r =
    restore_on_lem id p (apply_on id now ops p) ops r
    ∙ split (hit id ops) (trashes id ops) refl refl
  where
    same :
        (path : String)
        → hit id ops ≡ true
        → record (settle p (apply_on id now ops p)) { trashed_path = path }
          ≡ record p { last_decision_at = now; trashed_path = path }
    same path h =
        ap (λ (x : Photo). record x { trashed_path = path }) (apply_on_lem id now p p ops) ∙ rw h

    split :
        (h t : Bool)
        → hit id ops ≡ h
        → trashes id ops ≡ t
        → (if h
            then record (settle p (apply_on id now ops p)) {
              trashed_path = if t then "" else (apply_on id now ops p).trashed_path;
            }
            else apply_on id now ops p)
          ≡ (if h
              then record p {
                last_decision_at = now;
                trashed_path = if t then "" else p.trashed_path;
              }
              else p)
    split false t h e = apply_on_miss id now p ops h
    split true true h e = same "" h
    split true false h e =
        ap (λ path. record (settle p (apply_on id now ops p)) { trashed_path = path })
          (apply_on-trashed_path id now p ops e)
        ∙ same p.trashed_path h

-- What a successful snapshot has found.
pub snapshot_inv :
    (op : ClusterMemberOp) (o : Option Photo) (r : Result (List ClusterMemberOp))
    (taken : List ClusterMemberOp)
    → elim o [ none ↦ err (photo_not_found op.photo_id) | some p ↦ prepend (with_prev op p) r ]
      ≡ ok taken
    → (x : Photo) × (rest : List ClusterMemberOp) × (o ≡ some x)
      × (r ≡ ok rest)
      × (taken ≡ with_prev op x ∷ rest)
snapshot_inv op none r taken h = cc
snapshot_inv op (some x) (ok rest) taken h = (x, rest, refl, refl, ground arith)
snapshot_inv op (some x) (err e) taken h = cc

with_prev-Recalls : (op : ClusterMemberOp) (x p : Photo) → x ≡ p → Recalls (with_prev op x) p
unfolding with_prev
with_prev-Recalls op x p e = (
  ap (λ (q : Photo). q.state) e,
  ap (λ (q : Photo). q.keep_count) e,
  ap (λ (q : Photo). q.unsure_count) e,
  ap (λ (q : Photo). q.last_seen_at) e,
)

-- The snapshot remembers the four fields, and keeps what the caller has asked for.
pub Remembers-snapshot :
    (id : String) (p : Photo) (photos : Map Photo) (ops taken : List ClusterMemberOp)
    → lookup id photos ≡ some p
    → snapshot photos ops ≡ ok taken
    → Remembers id p taken × (hit id taken ≡ hit id ops) × (trashes id taken ≡ trashes id ops)
unfolding snapshot hit trashes
Remembers-snapshot id p photos [] [] e h = (tt, refl, refl)
Remembers-snapshot id p photos [] (t ∷ ts) e h = cc
Remembers-snapshot id p photos (op ∷ ops) taken e h =
    let (x, rest, found, more, shape) =
      snapshot_inv op (lookup op.photo_id photos) (snapshot photos ops) taken h in
    let (ih, hits, trash) = Remembers-snapshot id p photos ops rest e more in
    rw shape (
      unfold with_prev in
      (
        (λ here. with_prev-Recalls op x p (ground (arith, lookup_eq op.photo_id id photos)), ih),
        ap (λ b. str_eq op.photo_id id || b) hits,
        ap (λ b. (str_eq op.photo_id id && is_trashed op.new_state) || b) trash,
      ))

-- Every photo of the store after a cluster decision and its undo.
pub lookup-undone_members :
    (id : String) (now : Time) (photos : Map Photo) (ops taken : List ClusterMemberOp)
    → snapshot photos ops ≡ ok taken
    → lookup id (restore_members taken (apply_members now taken photos))
      ≡ Option.map (cluster_undecided id now ops) (lookup id photos)
lookup-undone_members id now photos ops taken h =
    lookup-restore_members id taken (apply_members now taken photos)
    ∙ ap (Option.map (restore_on id taken)) (lookup-apply_members id now taken photos)
    ∙ map-map _ _ (lookup id photos)
    ∙ at (lookup id photos) refl
  where
    at :
        (o : Option Photo)
        → lookup id photos ≡ o
        → Option.map (λ p. restore_on id taken (apply_on id now taken p)) o
          ≡ Option.map (cluster_undecided id now ops) o
    at none e = refl
    at (some p) e =
        let (r, hits, trash) = Remembers-snapshot id p photos ops taken e h in
        ap some (restore-apply id now p taken r ∙ unfold cluster_undecided in rw (hits, trash))
