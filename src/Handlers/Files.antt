-- ===== src/Handlers/Files.antt =====
-- No request that decides on photos loses a file.
use photo_swipe.Prelude.{
  ◌≡◌, refl, eq_iff, String, ◌||◌, Option, none, some, List, [], ◌∷◌, str_eq, mem, Bool-cases,
  Option-cases, inl, inr,
}
use photo_swipe.Store.Photo.{Photo, kept, trashed, is_unsorted}
use photo_swipe.Img.Trash.{Disk, Moved, moved_to, not_moved, no_end}
use photo_swipe.Store.State.{Store, Result, ok, err}
use photo_swipe.Store.Photos.{get_photo}
use photo_swipe.Store.Decisions.{record_decision, record_skip}
use photo_swipe.Handlers.{Call, Deps, Site, Form, form_value, resolve_photo_path}
use photo_swipe.Store.Session.{ClusterMemberOp}
use photo_swipe.Dupes.{Cluster}
use photo_swipe.Handlers.View.{cluster_by_id, clusters_now}
use photo_swipe.Handlers.Decide.{handle_decision, act, handle_trash, record_trashed, then_next}
use photo_swipe.Handlers.Resolve.{
  handle_cluster_resolve, resolve, recorded, form_values, member_ops, member_op, trash_member,
  op_of_move, with_op, add_made,
}
use photo_swipe.Handlers.Kept.{
  Moves, Moves-same, move_to_trash-Moves, Keeps, Keeps-same, move_to_trash-Keeps,
}

-- The path is that of the file of the photo that the form posts to the trash.
abbrev pub IsPosted : Call → Deps → Option Form → Store → String → Type 0
IsPosted call deps none s path = ⊥
IsPosted call deps (some form) s path =
    (p : Photo) × (get_photo (form_value "photo_id" form) s ≡ some p)
    × (form_value "action" form ≡ "trash")
    × (resolve_photo_path call deps p.path ≡ some path)

module _ (May : String → Type 0) where
  Moves-then_next :
      {A : Type 0} (call : Call) (disk disk' : Disk) (r : Result A × Store)
      → Moves May disk disk'
      → Moves May disk (then_next call disk' r).1.disk
  Moves-then_next call disk disk' (ok _, s) k = k
  Moves-then_next call disk disk' (err _, s) k = k

  Moves-record_trashed :
      (call : Call) (id src : String) (s : Store) (disk : Disk) (m : Moved × Disk)
      → Moves May disk m.1
      → Moves May disk (record_trashed call id src s m).1.disk
  Moves-record_trashed call id src s disk (moved_to dst, disk') k =
      Moves-then_next call disk disk' (record_decision call.env id trashed src dst s) k
  Moves-record_trashed call id src s disk (not_moved, disk') k = k
  Moves-record_trashed call id src s disk (no_end, disk') k = k

  Moves-handle_trash :
      (call : Call) (deps : Deps) (id : String) (p : Photo) (site : Site)
      → ((src : String) → resolve_photo_path call deps p.path ≡ some src → May src)
      → Moves May site.disk (handle_trash call deps id p site).1.disk
  unfolding handle_trash
  Moves-handle_trash call deps id p site may =
      elim (Option-cases (resolve_photo_path call deps p.path)) [
        | inl h ↦ rw (h, handle_trash) (Moves-same May site.disk site.disk refl)
        | inr (src, h) ↦
            rw (h, handle_trash)
              (Moves-record_trashed call id src site.store site.disk _ (
                move_to_trash-Moves May call.paths call.os src deps.photo_dir deps.trash_dir
                  site.disk (may src h)))
      ]

  Moves-act :
      (call : Call) (deps : Deps) (action id : String) (p : Photo) (site : Site)
      → ((src : String)
          → action ≡ "trash"
          → resolve_photo_path call deps p.path ≡ some src
          → May src)
      → Moves May site.disk (act call deps action id p site).1.disk
  unfolding act
  Moves-act call deps action id p site may =
      let same = Moves-same May site.disk site.disk refl in
      elim (Bool-cases (str_eq action "skip" || str_eq action "unsure")) [
        | inl e ↦
            rw (e, act)
              (Moves-then_next call site.disk site.disk (record_skip call.env id site.store) same)
        | inr e ↦ elim (Bool-cases (str_eq action "keep")) [
          | inl f ↦
              rw (e, f, act)
                (Moves-then_next call site.disk site.disk
                  (record_decision call.env id kept "" "" site.store) same)
          | inr f ↦ elim (Bool-cases (str_eq action "trash")) [
            | inl g ↦
                rw (e, f, g, act)
                  (Moves-handle_trash call deps id p site
                    (λ src. may src ((eq_iff action "trash").0 g)))
            | inr g ↦ rw (e, f, g, act) same
          ]
        ]
      ]

  Moves-decision :
      (call : Call) (deps : Deps) (form : Form) (site : Site)
      → ((p : Photo) (src : String)
          → get_photo (form_value "photo_id" form) site.store ≡ some p
          → form_value "action" form ≡ "trash"
          → resolve_photo_path call deps p.path ≡ some src
          → May src)
      → Moves May site.disk (handle_decision call deps (some form) site).1.disk
  unfolding handle_decision
  Moves-decision call deps form site may =
      elim (Option-cases (get_photo (form_value "photo_id" form) site.store)) [
        | inl h ↦ rw (h, handle_decision) (Moves-same May site.disk site.disk refl)
        | inr (p, h) ↦
            rw (h, handle_decision)
              (Moves-act call deps (form_value "action" form) _ p site (λ src. may p src h))
      ]

-- After POST /decision, whatever it replies, each file that the disk had is at its path with its
-- content. Only the file of the posted photo, and only where the posted action is to trash it, may
-- have another path, and its content is there.
pub handle_decision-Moves :
    (call : Call) (deps : Deps) (form : Option Form) (site : Site)
    → Moves
        (IsPosted call deps form site.store)
        site.disk
        (handle_decision call deps form site).1.disk
unfolding handle_decision
handle_decision-Moves call deps none site =
    Moves-same (IsPosted call deps none site.store) site.disk site.disk refl
handle_decision-Moves call deps (some form) site =
    Moves-decision (IsPosted call deps (some form) site.store) call deps form site
      (λ p src h e r. (p, h, e, r))

Keeps-chain : (a b c : Disk) → Keeps a b → Keeps b c → Keeps a c
Keeps-chain a b c k l path content h = let (path', h') = k path content h in l path' content h'

Keeps-op_of_move :
    (id src : String) (disk : Disk) (m : Moved × Disk)
    → Keeps disk m.1
    → Keeps disk (op_of_move id src m).1
Keeps-op_of_move id src disk (moved_to dst, disk') k = k
Keeps-op_of_move id src disk (not_moved, disk') k = k
Keeps-op_of_move id src disk (no_end, disk') k = k

Keeps-member_op :
    (call : Call) (deps : Deps) (keep : List String) (p : Photo) (disk : Disk)
    → Keeps disk (member_op call deps keep p disk).1
unfolding member_op trash_member
Keeps-member_op call deps keep p disk = elim (Bool-cases (is_unsorted p.state)) [
  | inr e ↦ rw (e, member_op) (Keeps-same disk disk refl)
  | inl e ↦ elim (Bool-cases (mem p.id keep)) [
    | inl f ↦ rw (e, f, member_op) (Keeps-same disk disk refl)
    | inr f ↦ elim (Option-cases (resolve_photo_path call deps p.path)) [
      | inl h ↦ rw (e, f, h, member_op, trash_member) (Keeps-same disk disk refl)
      | inr (src, h) ↦
          rw (e, f, h, member_op, trash_member)
            (Keeps-op_of_move p.id src disk _
              (move_to_trash-Keeps call.paths call.os src deps.photo_dir deps.trash_dir disk))
    ]
  ]
]

Keeps-with_op :
    (disk : Disk) (op : ClusterMemberOp) (r : Option (List ClusterMemberOp) × Disk)
    → Keeps disk r.1
    → Keeps disk (with_op op r).1
Keeps-with_op disk op (none, disk') k = k
Keeps-with_op disk op (some ops, disk') k = k

Keeps-add_made :
    (disk : Disk) (m : Option (Option ClusterMemberOp) × Disk)
    (rest : Disk → Option (List ClusterMemberOp) × Disk)
    → Keeps disk m.1
    → ((d : Disk) → Keeps d (rest d).1)
    → Keeps disk (add_made m rest).1
Keeps-add_made disk (none, d) rest k r = k
Keeps-add_made disk (some none, d) rest k r = Keeps-chain disk d (rest d).1 k (r d)
Keeps-add_made disk (some (some op), d) rest k r =
    Keeps-with_op disk op (rest d) (Keeps-chain disk d (rest d).1 k (r d))

Keeps-member_ops :
    (call : Call) (deps : Deps) (keep : List String) (photos : List Photo) (disk : Disk)
    → Keeps disk (member_ops call deps keep photos disk).1
unfolding member_ops
Keeps-member_ops call deps keep [] disk = Keeps-same disk disk refl
Keeps-member_ops call deps keep (p ∷ photos) disk =
    Keeps-add_made disk (member_op call deps keep p disk) (member_ops call deps keep photos)
      (Keeps-member_op call deps keep p disk) (Keeps-member_ops call deps keep photos)

Keeps-recorded :
    (call : Call) (id : String) (s : Store) (disk : Disk) (r : Option (List ClusterMemberOp) × Disk)
    → Keeps disk r.1
    → Keeps disk (recorded call id s r).1.disk
Keeps-recorded call id s disk (none, disk') k = k
Keeps-recorded call id s disk (some [], disk') k = k
Keeps-recorded call id s disk (some (op ∷ ops), disk') k = k

Keeps-resolve :
    (call : Call) (deps : Deps) (id : String) (form : Form) (target : Cluster) (site : Site)
    → Keeps site.disk (resolve call deps id form target site).1.disk
unfolding resolve
Keeps-resolve call deps id form target site =
    elim (Bool-cases (str_eq (form_value "action" form) "skip")) [
      | inl e ↦ rw (e, resolve) (Keeps-same site.disk site.disk refl)
      | inr e ↦
          rw (e, resolve)
            (Keeps-recorded call id site.store site.disk _
              (Keeps-member_ops call deps (form_values "keep" form) target.photos site.disk))
    ]

-- After POST /cluster/resolve, whatever it replies, each file that the disk had is there with its
-- content.
pub handle_cluster_resolve-Keeps :
    (call : Call) (deps : Deps) (form : Option Form) (site : Site)
    → Keeps site.disk (handle_cluster_resolve call deps form site).1.disk
unfolding handle_cluster_resolve
handle_cluster_resolve-Keeps call deps none site = Keeps-same site.disk site.disk refl
handle_cluster_resolve-Keeps call deps (some form) site =
    let id = form_value "cluster_id" form in
    elim (Option-cases (cluster_by_id id (clusters_now call site.store))) [
      | inl h ↦ rw (h, handle_cluster_resolve) (Keeps-same site.disk site.disk refl)
      | inr (target, h) ↦
          rw (h, handle_cluster_resolve) (Keeps-resolve call deps id form target site)
    ]
