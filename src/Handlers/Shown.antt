-- ===== src/Handlers/Shown.antt =====
-- What the swipe view shows: a cluster with a choice, or one photo.
use photo_swipe.Prelude.{◌≤◌, ◌≡◌, String, true, List, length}
use photo_swipe.Prelude.Sorted.{In}
use photo_swipe.Store.Photo.{Photo, is_unsorted}
use photo_swipe.Store.State.{Store}
use photo_swipe.Dupes.{Cluster}
use photo_swipe.Handlers.{Call, ClusterMember}
use photo_swipe.Handlers.View.{member_of}

-- The cluster has the photo among its members, and two members or more that are unsorted; what is
-- shown are these, each as its card shows it.
pub record IsOpen (call : Call) (id : String) (clusters : List Cluster) (c : Cluster)
    (members : List ClusterMember) : Type 0 where
  pub found : In c clusters
  pub member : (m : Photo) × In m c.photos × (m.id ≡ id)
  pub choice : 2 ≤ length members
  pub shown_unsorted :
      (m : ClusterMember)
      → In m members
      → (p : Photo) × In p c.photos × (is_unsorted p.state ≡ true) × (m ≡ member_of call p)
  pub unsorted_shown :
      (p : Photo) → In p c.photos → is_unsorted p.state ≡ true → In (member_of call p) members
