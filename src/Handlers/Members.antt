-- ===== src/Handlers/Members.antt =====
-- What POST /cluster/resolve does with each member of the cluster.
use photo_swipe.Prelude.{
  ◌≡◌, String, true, false, Option, none, some, List, [], ◌∷◌, mem, str_eq, ◌⊎◌, if◌then◌else◌,
}
use photo_swipe.Prelude.Map.{lookup}
use photo_swipe.Prelude.Sorted.{In}
use photo_swipe.Store.Photo.{Photo, is_unsorted}
use photo_swipe.Store.State.{Store}
use photo_swipe.Store.Session.{ClusterMemberOp}
use photo_swipe.Store.Clusters.{record_cluster_decision}
use photo_swipe.Img.Trash.{Disk, not_moved, no_end, move_to_trash}
use photo_swipe.Handlers.{Call, Deps, resolve_photo_path}
use photo_swipe.Handlers.Resolve.{kept_op, trashed_op}

-- The file at `src` has moved to `dst`, where there was none, and every other file is where it was.
pub record HasMoved (src dst : String) (disk disk' : Disk) : Type 0 where
  pub content : String
  pub here : lookup src disk.files ≡ some content
  pub room : lookup dst disk.files ≡ none
  pub there :
      (path : String)
      → lookup path disk'.files ≡ (
          if str_eq dst path
          then some content
          else if str_eq src path
          then none
          else lookup path disk.files)

-- The members in their order, the disk before them, what is decided and the disk after them.
pub data Resolution (call : Call) (deps : Deps) (keep : List String)
    : List Photo → Disk → List ClusterMemberOp → Disk → Type 0 where
  all_done : {d : Disk} → Resolution call deps keep [] d [] d
  left_alone :
      {p : Photo} {photos : List Photo} {d d' : Disk} {ops : List ClusterMemberOp}
      → is_unsorted p.state ≡ false
      → Resolution call deps keep photos d ops d'
      → Resolution call deps keep (p ∷ photos) d ops d'
  keeps :
      {p : Photo} {photos : List Photo} {d d' : Disk} {ops : List ClusterMemberOp}
      → is_unsorted p.state ≡ true
      → mem p.id keep ≡ true
      → Resolution call deps keep photos d ops d'
      → Resolution call deps keep (p ∷ photos) d (kept_op p.id ∷ ops) d'
  stays :
      {p : Photo} {photos : List Photo} {d d1 d' : Disk} {ops : List ClusterMemberOp}
      → is_unsorted p.state ≡ true
      → mem p.id keep ≡ false
      → d1.files ≡ d.files
      → (resolve_photo_path call deps p.path ≡ none)
        ⊎ ((src : String) × (resolve_photo_path call deps p.path ≡ some src)
            × (move_to_trash call.paths call.os src deps.photo_dir deps.trash_dir d
                ≡ (not_moved, d1)))
      → Resolution call deps keep photos d1 ops d'
      → Resolution call deps keep (p ∷ photos) d ops d'
  trashes :
      {p : Photo} {photos : List Photo} {d d1 d' : Disk} {ops : List ClusterMemberOp}
      (src dst : String)
      → is_unsorted p.state ≡ true
      → mem p.id keep ≡ false
      → resolve_photo_path call deps p.path ≡ some src
      → HasMoved src dst d d1
      → Resolution call deps keep photos d1 ops d'
      → Resolution call deps keep (p ∷ photos) d (trashed_op p.id src dst ∷ ops) d'

-- The search for a free name in the trash runs out of rounds for the file of some member.
abbrev pub Searches : Call → Deps → List Photo → Type 0
Searches call deps photos =
    (p : Photo) × In p photos
    × (src : String) × (d : Disk) × (resolve_photo_path call deps p.path ≡ some src)
    × ((move_to_trash call.paths call.os src deps.photo_dir deps.trash_dir d).0 ≡ no_end)

module _ (call : Call) (deps : Deps) (keep : List String) where
  abbrev Outcome : List Photo → Disk → Option (List ClusterMemberOp) × Disk → Type 0
  Outcome photos d (none, d') = Searches call deps photos
  Outcome photos d (some ops, d') = Resolution call deps keep photos d ops d'

-- The store once these decisions are recorded, which is not done where there are none.
abbrev pub with_ops : Call → String → List ClusterMemberOp → Store → Store
with_ops call id [] s = s
with_ops call id (op ∷ ops) s = (record_cluster_decision call.env id (some (op ∷ ops)) s).1
