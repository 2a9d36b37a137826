-- ===== src/Store/Undo.antt =====
-- internal/store/store.go: Undo.
pub mod Rollback
pub mod Single
pub mod Fifo
pub mod Skip
pub mod ClusterSkip
pub mod Gone
pub mod Loops
pub mod Members
pub mod Cluster
use photo_swipe.Prelude.{
  String, Bool, true, false, none, some, List, [], ◌∷◌, ◌++◌, ◌≡◌, split_last-append, arith,
  if◌then◌else◌, str_eq, mem, split_last,
}
use photo_swipe.Prelude.Int.{ℤ, pos, sub64, leb_ℤ}
use photo_swipe.Prelude.Map.{Map, lookup, insert, modify}
use photo_swipe.Store.Photo.{Photo, is_trashed}
use photo_swipe.Store.Session.{Slice, ClusterMemberOp, Decision, Session}
use photo_swipe.Store.State.{
  RootState, Store, Env, Result, ok, err, photo_not_found, nothing_to_undo, commit,
}
use photo_swipe.Store.Decisions.{count_on}

-- bumpAmount: CounterBump, with 1 for what is not positive
unfoldable pub bump_amount : Decision → ℤ
bump_amount d = if leb_ℤ d.counter_bump (pos 0) then pos 1 else d.counter_bump

-- if n >= bump { n -= bump } else { n = 0 }
unfoldable pub take_back : ℤ → ℤ → ℤ
take_back bump n = if leb_ℤ bump n then sub64 n bump else pos 0

-- rollbackCounter, on the state whose session is `sess`
unfoldable pub rollback : String → ℤ → Session → RootState → RootState
unfolding take_back count_on
rollback day bump sess st = record st {
  session = some (record sess { done = take_back bump sess.done });
  daily_stats = insert day (take_back bump (count_on day st.daily_stats)) st.daily_stats;
}

-- The loop from the end of RecentlySkipped that removes the last occurrence of `id`.
unfoldable pub remove_last : String → List String → List String
remove_last id [] = []
remove_last id (x ∷ xs) =
    let rest = remove_last id xs in
    if mem id xs then x ∷ rest else if str_eq x id then xs else x ∷ xs

unfoldable pub remove_each : List ClusterMemberOp → List String → List String
unfolding remove_last
remove_each [] rs = rs
remove_each (op ∷ ops) rs = remove_each ops (remove_last op.photo_id rs)

unfoldable pub restore_member : ClusterMemberOp → Photo → Photo
restore_member op p = record p {
  state = op.prev_state;
  keep_count = op.prev_keep_count;
  unsure_count = op.prev_unsure_count;
  last_seen_at = op.prev_last_seen_at;
  trashed_path = if is_trashed op.new_state then "" else p.trashed_path;
}

unfoldable pub restore_one : ClusterMemberOp → Map Photo → Map Photo
unfolding restore_member
restore_one op = modify op.photo_id (restore_member op)

-- for i := len(Cluster)-1; i >= 0; i--: the rest of the list goes first
unfoldable pub restore_members : List ClusterMemberOp → Map Photo → Map Photo
unfolding restore_one
restore_members [] photos = photos
restore_members (op ∷ ops) photos = restore_one op (restore_members ops photos)

unfoldable pub restore_photo : Decision → Photo → Photo
restore_photo d p = record p {
  state = d.prev_state;
  keep_count = d.prev_keep_count;
  unsure_count = d.prev_unsure_count;
  last_seen_at = d.prev_last_seen_at;
  trashed_path = if is_trashed d.new_state then "" else p.trashed_path;
}

-- The last part of a skip: RecentlySkipped is rewritten, and the counters fall if they had risen.
unfoldable pub unskip : String → Decision → List String → Session → RootState → RootState
unfolding rollback bump_amount
unskip day d rs sess st =
    let sess' = record sess { recently_skipped = rs } in
    if d.advanced_counter
    then rollback day (bump_amount d) sess' st
    else record st { session = some sess' }

-- The `switch` of Undo, by `last.Skipped` and `last.Cluster`; `sess` has lost the decision `d`.
unfoldable pub revert :
    Bool
    → Slice ClusterMemberOp
    → String
    → Decision
    → Session
    → RootState
    → Result Decision × RootState
unfolding unskip remove_each remove_last restore_members restore_photo rollback bump_amount
revert true (some ops) day d sess st =
    (ok d, unskip day d (remove_each ops sess.recently_skipped) sess st)
revert true none day d sess st = (
  ok d,
  unskip day d (remove_last d.photo_id sess.recently_skipped) sess (record st {
    photos = elim (lookup d.photo_id st.photos) [
      | none ↦ st.photos
      | some p ↦ insert d.photo_id (record p { last_seen_at = d.prev_last_seen_at }) st.photos
    ];
  }),
)
revert false (some ops) day d sess st =
    (ok d, rollback day (bump_amount d) sess (record st { photos = restore_members ops st.photos }))
revert false none day d sess st = elim (lookup d.photo_id st.photos) [
  | none ↦ (err (photo_not_found d.photo_id), record st { session = some sess })
  | some p ↦ (
    ok d,
    rollback day (bump_amount d) sess
        (record st { photos = insert d.photo_id (restore_photo d p) st.photos }),
  )
]

unfoldable pub undone : Env → RootState → Result Decision × RootState
undone env st = elim st.session [
  | none ↦ (err nothing_to_undo, st)
  | some sess ↦ elim (split_last sess.stack) [
    | none ↦ (err nothing_to_undo, st)
    | some (front, d) ↦
        revert d.skipped d.cluster (env.day d.timestamp) d (record sess { stack = front }) st
  ]
]

unfoldable pub undo : Env → Store → Result Decision × Store
undo env s = commit env s (undone env s.state)

-- With a decision on top of the stack, Undo reverts it.
pub undone_lem :
    (env : Env) (st : RootState) (sess : Session) (front : List Decision) (d : Decision)
    → st.session ≡ some sess
    → sess.stack ≡ front ++ d ∷ []
    → undone env st
      ≡ revert d.skipped d.cluster (env.day d.timestamp) d (record sess { stack = front }) st
unfolding undone
undone_lem env st sess front d e f = ground (arith, split_last-append front d)
