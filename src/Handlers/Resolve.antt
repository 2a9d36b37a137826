-- ===== src/Handlers/Resolve.antt =====
-- internal/handlers/handlers.go: handleClusterResolve.
use photo_swipe.Prelude.{String, Option, none, some, List, [], ◌∷◌, str_eq, mem, if◌then◌else◌}
use photo_swipe.Prelude.Map.{lookup}
use photo_swipe.Store.Photo.{Photo, kept, trashed, is_unsorted}
use photo_swipe.Store.Session.{ClusterMemberOp}
use photo_swipe.Store.State.{Store}
use photo_swipe.Store.Clusters.{bare_op, skip_cluster, record_cluster_decision}
use photo_swipe.Dupes.{Cluster}
use photo_swipe.Img.Trash.{Disk, Moved, moved_to, not_moved, no_end, move_to_trash}
use photo_swipe.Handlers.{
  Call, Deps, Site, Form, form_value, Reply, bad_request, hangs, resolve_photo_path,
}
use photo_swipe.Handlers.View.{clusters_now, cluster_by_id, render_next}

-- r.PostForm[name]
unfoldable pub form_values : String → Form → List String
form_values name form = elim (lookup name form) [ none ↦ [] | some values ↦ values ]

unfoldable pub unsorted_ids : List Photo → List String
unsorted_ids [] = []
unsorted_ids (p ∷ photos) =
    let rest = unsorted_ids photos in if is_unsorted p.state then p.id ∷ rest else rest

abbrev pub kept_op : String → ClusterMemberOp
kept_op id = record (bare_op id) { new_state = kept }

abbrev pub trashed_op : String → String → String → ClusterMemberOp
trashed_op id src dst = record (bare_op id) {
  new_state = trashed;
  trash_from = src;
  trash_to = dst;
}

-- `none` where the loop does not end
abbrev pub with_op :
    ClusterMemberOp → Option (List ClusterMemberOp) × Disk → Option (List ClusterMemberOp) × Disk
with_op op (none, disk) = (none, disk)
with_op op (some ops, disk) = (some (op ∷ ops), disk)

abbrev pub op_of_move : String → String → Moved × Disk → Option (Option ClusterMemberOp) × Disk
op_of_move id src (moved_to dst, disk) = (some (some (trashed_op id src dst)), disk)
op_of_move id src (not_moved, disk) = (some none, disk)
op_of_move id src (no_end, disk) = (none, disk)

-- The file of an unsorted member that is not kept goes to the trash; where that fails the member is
-- left out.
unfoldable pub trash_member : Call → Deps → Photo → Disk → Option (Option ClusterMemberOp) × Disk
unfolding resolve_photo_path move_to_trash
trash_member call deps p disk = elim (resolve_photo_path call deps p.path) [
  | none ↦ (some none, disk)
  | some src ↦
      op_of_move p.id src (move_to_trash call.paths call.os src deps.photo_dir deps.trash_dir disk)
]

-- One round of the loop over the members.
unfoldable pub member_op :
    Call → Deps → List String → Photo → Disk → Option (Option ClusterMemberOp) × Disk
unfolding trash_member
member_op call deps keep p disk =
    if is_unsorted p.state
    then if mem p.id keep then (some (some (kept_op p.id)), disk) else trash_member call deps p disk
    else (some none, disk)

-- The end of a round, by what it made, and the other rounds from the disk that it left.
abbrev pub add_made :
    Option (Option ClusterMemberOp) × Disk
    → (Disk → Option (List ClusterMemberOp) × Disk)
    → Option (List ClusterMemberOp) × Disk
add_made (none, disk) rest = (none, disk)
add_made (some none, disk) rest = rest disk
add_made (some (some op), disk) rest = with_op op (rest disk)

-- The loop over the members.
unfoldable pub member_ops :
    Call → Deps → List String → List Photo → Disk → Option (List ClusterMemberOp) × Disk
unfolding member_op
member_ops call deps keep [] disk = (some [], disk)
member_ops call deps keep (p ∷ photos) disk =
    add_made (member_op call deps keep p disk) (member_ops call deps keep photos)

-- The end of the handler: an error of the store is only printed.
abbrev pub recorded : Call → String → Store → Option (List ClusterMemberOp) × Disk → Reply × Site
recorded call id s (none, disk) = (hangs, record { store = s; disk = disk })
recorded call id s (some [], disk) = (render_next call s, record { store = s; disk = disk })
recorded call id s (some (op ∷ ops), disk) =
    let s' = (record_cluster_decision call.env id (some (op ∷ ops)) s).1 in
    (render_next call s', record { store = s'; disk = disk })

unfoldable pub resolve : Call → Deps → String → Form → Cluster → Site → Reply × Site
unfolding unsorted_ids form_values form_value member_ops skip_cluster record_cluster_decision
    render_next
resolve call deps id form target site =
    if str_eq (form_value "action" form) "skip"
    then (let s = (skip_cluster call.env id (unsorted_ids target.photos) site.store).1 in
        (render_next call s, record site { store = s }))
    else recorded call id site.store
        (member_ops call deps (form_values "keep" form) target.photos site.disk)

unfoldable pub handle_cluster_resolve : Call → Deps → Option Form → Site → Reply × Site
unfolding form_value cluster_by_id clusters_now resolve render_next
handle_cluster_resolve call deps none site = (bad_request, site)
handle_cluster_resolve call deps (some form) site =
    let id = form_value "cluster_id" form in
    elim (cluster_by_id id (clusters_now call site.store)) [
      | none ↦ (render_next call site.store, site)
      | some target ↦ resolve call deps id form target site
    ]
