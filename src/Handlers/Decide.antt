-- ===== src/Handlers/Decide.antt =====
-- internal/handlers/handlers.go: handleDecision and handleUndo.
use photo_swipe.Prelude.{
  String, Bool, true, false, not, ◌&&◌, ◌||◌, Option, none, some, List, [], ◌∷◌, str_eq,
  if◌then◌else◌,
}
use photo_swipe.Store.Photo.{Photo, PhotoState, kept, trashed, is_trashed}
use photo_swipe.Store.Session.{ClusterMemberOp, Decision, Slice}
use photo_swipe.Store.State.{Store, Result, ok, err}
use photo_swipe.Store.Photos.{get_photo}
use photo_swipe.Store.Decisions.{record_decision, record_skip}
use photo_swipe.Store.Undo.{undo}
use photo_swipe.Img.Trash.{
  Disk, Moved, moved_to, not_moved, no_end, move_to_trash, restore_from_trash,
}
use photo_swipe.Handlers.{
  Call, Deps, Site, Form, form_value, Reply, bad_request, not_found, internal_error, hangs,
  resolve_photo_path,
}
use photo_swipe.Handlers.View.{render_next, render_for_photo, render_cluster_by_id}

-- The end of handleDecision: a 500 for an error of the store, or the next photo.
abbrev pub then_next : {A : Type 0} → Call → Disk → Result A × Store → Reply × Site
then_next call disk (ok _, s) = (render_next call s, record { store = s; disk = disk })
then_next call disk (err _, s) = (internal_error, record { store = s; disk = disk })

-- The call of RecordDecision, once `disk` is what MoveToTrash has left.
abbrev pub record_trashed : Call → String → String → Store → Moved × Disk → Reply × Site
record_trashed call id src s (moved_to dst, disk) =
    then_next call disk (record_decision call.env id trashed src dst s)
record_trashed call id src s (not_moved, disk) = (internal_error, record { store = s; disk = disk })
record_trashed call id src s (no_end, disk) = (hangs, record { store = s; disk = disk })

unfoldable pub handle_trash : Call → Deps → String → Photo → Site → Reply × Site
unfolding resolve_photo_path move_to_trash record_decision render_next
handle_trash call deps id p site = elim (resolve_photo_path call deps p.path) [
  | none ↦ (bad_request, site)
  | some src ↦
      record_trashed call id src site.store
        (move_to_trash call.paths call.os src deps.photo_dir deps.trash_dir site.disk)
]

-- The part of handleDecision that follows once the photo is found.
unfoldable pub act : Call → Deps → String → String → Photo → Site → Reply × Site
unfolding handle_trash record_skip record_decision render_next
act call deps action id p site =
    if str_eq action "skip" || str_eq action "unsure"
    then then_next call site.disk (record_skip call.env id site.store)
    else if str_eq action "keep"
    then then_next call site.disk (record_decision call.env id kept "" "" site.store)
    else if str_eq action "trash"
    then handle_trash call deps id p site
    else (bad_request, site)

-- `form` is none where it cannot be parsed.
unfoldable pub handle_decision : Call → Deps → Option Form → Site → Reply × Site
unfolding form_value get_photo act
handle_decision call deps none site = (bad_request, site)
handle_decision call deps (some form) site =
    let id = form_value "photo_id" form in
    elim (get_photo id site.store) [
      | none ↦ (not_found, site)
      | some p ↦ act call deps (form_value "action" form) id p site
    ]

-- new == StateTrashed && to != "" && from != "": the file goes back, and an error is only printed.
unfoldable pub put_back : Call → PhotoState → String → String → Disk → Disk
unfolding restore_from_trash
put_back call new from to disk =
    if is_trashed new && not (str_eq to "") && not (str_eq from "")
    then (restore_from_trash call.paths call.os to from disk).1
    else disk

unfoldable pub put_all_back : Call → List ClusterMemberOp → Disk → Disk
unfolding put_back
put_all_back call [] disk = disk
put_all_back call (op ∷ ops) disk =
    put_all_back call ops (put_back call op.new_state op.trash_from op.trash_to disk)

abbrev pub show_photo : Call → Store → Option Photo → Reply
show_photo call s none = render_next call s
show_photo call s (some p) = render_for_photo call s p

abbrev pub show_cluster : Call → Store → Option Reply → Reply
show_cluster call s none = render_next call s
show_cluster call s (some reply) = reply

-- The `switch` of handleUndo.
unfoldable pub show_undone :
    Call → Slice ClusterMemberOp → Bool → Decision → Store → Disk → Reply × Site
unfolding put_all_back put_back render_cluster_by_id get_photo render_next render_for_photo
show_undone call (some ops) _ d s disk = (
  show_cluster call s (render_cluster_by_id call s d.photo_id),
  record { store = s; disk = put_all_back call ops disk },
)
show_undone call none true d s disk =
    (show_photo call s (get_photo d.photo_id s), record { store = s; disk = disk })
show_undone call none false d s disk = (
  show_photo call s (get_photo d.photo_id s),
  record { store = s; disk = put_back call d.new_state d.trash_from d.trash_to disk },
)

abbrev pub after_undo : Call → Disk → Result Decision × Store → Reply × Site
after_undo call disk (err _, s) = (bad_request, record { store = s; disk = disk })
after_undo call disk (ok d, s) = show_undone call d.cluster d.skipped d s disk

unfoldable pub handle_undo : Call → Site → Reply × Site
unfolding undo show_undone
handle_undo call site = after_undo call site.disk (undo call.env site.store)
