-- ===== src/Handlers/View.antt =====
-- internal/handlers/handlers.go: what is shown next, a photo or the cluster that it is in.
use photo_swipe.Prelude.{
  ℕ, suc, ◌-◌, ◌/◌, String, Bool, false, ◌&&◌, ◌||◌, Option, none, some, List, [], ◌∷◌, map, str_eq,
  leb, ◌==◌, if◌then◌else◌,
}
use Prim.Native.String.{String}
use Prim.Native.Char.{code}
use photo_swipe.Prelude.Int.{ℤ, pos, negsuc, add64, ltb_ℤ}
use photo_swipe.Prelude.Sort.{sort_stable}
use photo_swipe.Prelude.Text.{str_lt}
use photo_swipe.Store.Photo.{Photo, is_unsorted, is_zero}
use photo_swipe.Store.Session.{Session, complete}
use photo_swipe.Store.State.{Store}
use photo_swipe.Store.Sessions.{session, settings}
use photo_swipe.Queue.{Pick, picked, no_session, no_candidate, next}
use photo_swipe.Dupes.{Cluster, find_clusters}
use photo_swipe.Handlers.{
  Call, ClusterMember, Chip, empty_chip, chip_of, chip, Reply, internal_error, hx_redirect, card,
  cluster_card,
}

-- AllPhotos, sorted by path; the paths of different photos differ.
unfoldable pub all_photos : Store → List Photo
all_photos s = sort_stable (λ p q. str_lt p.path q.path) (map (λ e. e.1) s.state.photos)

-- The clusters of the store's photos under its settings.
unfoldable pub clusters_now : Call → Store → List Cluster
unfolding find_clusters all_photos settings
clusters_now call s =
    let window = call.floats.hours (settings s).dupe_time_window_hours in
    elim (find_clusters (all_photos s) (settings s).dupe_threshold window) [
      | none ↦ []
      | some clusters ↦ clusters
    ]

-- The two counters of the inner loop of openClusterFor.
unfoldable pub contains : String → List Photo → Bool
contains id [] = false
contains id (m ∷ members) = str_eq m.id id || contains id members

unfoldable pub unsorted_count : List Photo → ℕ
unsorted_count [] = 0
unsorted_count (m ∷ members) =
    let n = unsorted_count members in if is_unsorted m.state then suc n else n

unfoldable pub first_open : String → List Cluster → Option Cluster
unfolding contains unsorted_count
first_open id [] = none
first_open id (c ∷ clusters) =
    let rest = first_open id clusters in
    if contains id c.photos && leb 2 (unsorted_count c.photos) then some c else rest

unfoldable pub open_cluster_for : Call → Store → Photo → Option Cluster
unfolding clusters_now first_open
open_cluster_for call s p = first_open p.id (clusters_now call s)

-- short[strings.LastIndex(short, "/")+1:], and the whole text where there is no slash
unfoldable pub short_path : String → String → String
short_path best String.[] = best
short_path best (String.◌∷◌ c rest) =
    if code c == 47 then short_path rest rest else short_path best rest

-- (n + 1023) / 1024, which Go rounds towards zero
abbrev pub div_1024 : ℤ → ℤ
div_1024 (pos n) = pos (n / 1024)
div_1024 (negsuc n) = if suc n / 1024 == 0 then pos 0 else negsuc (suc n / 1024 - 1)

unfoldable pub member_of : Call → Photo → ClusterMember
unfolding short_path
member_of call p = record {
  id = p.id;
  path_short = short_path p.path p.path;
  time_str = if is_zero p.time then "" else call.minute p.time;
  size_kb = div_1024 (add64 p.size_bytes (pos 1023));
}

unfoldable pub cluster_members : Call → List Photo → List ClusterMember
unfolding member_of
cluster_members call [] = []
cluster_members call (p ∷ photos) =
    let rest = cluster_members call photos in
    if is_unsorted p.state then member_of call p ∷ rest else rest

-- writeProgressOOB
unfoldable pub progress : Store → Chip
unfolding session
progress s = elim (session s) [
  | none ↦ empty_chip
  | some sess ↦ if ltb_ℤ (pos 0) sess.target then chip_of sess.done sess.target else chip sess.done
]

unfoldable pub render_for_photo : Call → Store → Photo → Reply
unfolding open_cluster_for cluster_members progress settings
render_for_photo call s p = elim (open_cluster_for call s p) [
  | none ↦ card (progress s) p (settings s)
  | some c ↦ cluster_card (progress s) c.id (cluster_members call c.photos) (settings s)
]

unfoldable pub cluster_by_id : String → List Cluster → Option Cluster
cluster_by_id id [] = none
cluster_by_id id (c ∷ clusters) =
    let rest = cluster_by_id id clusters in if str_eq c.id id then some c else rest

-- `none` where renderClusterByID returns false
unfoldable pub render_cluster_by_id : Call → Store → String → Option Reply
unfolding cluster_by_id clusters_now cluster_members progress settings
render_cluster_by_id call s id = elim (cluster_by_id id (clusters_now call s)) [
  | none ↦ none
  | some c ↦ some (cluster_card (progress s) c.id (cluster_members call c.photos) (settings s))
]

unfoldable pub pick_next : Call → Store → Session → Pick
unfolding all_photos settings next
pick_next call s sess = next call.floats call.drawn (all_photos s) (some sess) (settings s) call.now

-- What follows a pick in renderNext, which shows the photo as renderForPhoto does.
unfoldable pub render_pick : Call → Store → Pick → Reply
unfolding render_for_photo
render_pick call s (picked p) = render_for_photo call s p
render_pick call s no_candidate = hx_redirect "/"
render_pick call s no_session = internal_error

unfoldable pub render_next : Call → Store → Reply
unfolding session pick_next render_pick
render_next call s = elim (session s) [
  | none ↦ hx_redirect "/"
  | some sess ↦
      if complete sess then hx_redirect "/" else render_pick call s (pick_next call s sess)
]
