-- ===== src/Store/Steps/Keyed.antt =====
-- The photos are kept under their ids, each once: what the operations on the map keep of that.
use photo_swipe.Prelude.{
  ◌≡◌, refl, ap, ◌∙◌, String, ◌||◌, Option, none, some, List, [], ◌∷◌, arith, str_eq, eq_iff,
  if◌then◌else◌, Bool-cases, Option-cases, inl, inr, mem,
}
use photo_swipe.Prelude.Map.{Map, lookup, insert, modify, lookup-insert, IsUnique, insert-IsUnique}
use photo_swipe.Store.Photo.{Photo, Time, is_trashed}
use photo_swipe.Store.Session.{ClusterMemberOp}
use photo_swipe.Store.Clusters.{apply_one, apply_members}
use photo_swipe.Store.Undo.{restore_one, restore_members}
use photo_swipe.Store.Photos.{forget}

abbrev pub IsKeyed : Map Photo → Type 0
IsKeyed photos = IsUnique photos × ((k : String) (p : Photo) → lookup k photos ≡ some p → p.id ≡ k)

pub insert-IsKeyed :
    (k : String) (p : Photo) (photos : Map Photo)
    → p.id ≡ k
    → IsKeyed photos
    → IsKeyed (insert k p photos)
insert-IsKeyed k p photos same (once, keyed) = (
  insert-IsUnique k p photos once,
  λ j q h. ground (arith, lookup-insert k j p photos, eq_iff k j, keyed j q),
)

pub modify-IsKeyed :
    (k : String) (f : Photo → Photo) (photos : Map Photo)
    → ((p : Photo) → (f p).id ≡ p.id)
    → IsKeyed photos
    → IsKeyed (modify k f photos)
unfolding modify
modify-IsKeyed k f photos keeps w = elim (Option-cases (lookup k photos)) [
  | inl e ↦ rw (e, modify) w
  | inr (p, e) ↦ rw (e, modify) (insert-IsKeyed k (f p) photos (keeps p ∙ w.1 k p e) w)
]

pub apply_members-IsKeyed :
    (now : Time) (ops : List ClusterMemberOp) (photos : Map Photo)
    → IsKeyed photos
    → IsKeyed (apply_members now ops photos)
unfolding apply_members apply_one
apply_members-IsKeyed now [] photos w = w
apply_members-IsKeyed now (op ∷ ops) photos w =
    apply_members-IsKeyed now ops (apply_one now op photos)
      (modify-IsKeyed op.photo_id _ photos (λ p. ground arith) w)

pub restore_members-IsKeyed :
    (ops : List ClusterMemberOp) (photos : Map Photo)
    → IsKeyed photos
    → IsKeyed (restore_members ops photos)
unfolding restore_members restore_one
restore_members-IsKeyed [] photos w = w
restore_members-IsKeyed (op ∷ ops) photos w =
    modify-IsKeyed op.photo_id _ (restore_members ops photos) (λ p. refl)
      (restore_members-IsKeyed ops photos w)

-- What ForgetMissing leaves of the entry of `id`: a photo that is in the keep set or trashed.
abbrev pub remaining : List String → String → Option Photo → Option Photo
remaining keep id none = none
remaining keep id (some p) = if mem id keep || is_trashed p.state then some p else none

pub lookup-forget :
    (keep : List String) (id : String) (photos : Map Photo)
    → IsUnique photos
    → lookup id (forget keep photos).0 ≡ remaining keep id (lookup id photos)
unfolding lookup forget
lookup-forget keep id [] once = refl
lookup-forget keep id ((j, p) ∷ photos) (fresh, once) = elim (Bool-cases (str_eq j id)) [
  | inl e ↦
      let same = (eq_iff j id).0 e in
      ground (
        arith,
        lookup-forget keep id photos once,
        ap (λ i. lookup i photos) same,
        ap (λ i. mem i keep) same,
      )
  | inr e ↦ ground (arith, lookup-forget keep id photos once)
]

forget-IsUnique :
    (keep : List String) (photos : Map Photo) → IsUnique photos → IsUnique (forget keep photos).0
unfolding lookup forget
forget-IsUnique keep [] once = tt
forget-IsUnique keep ((j, p) ∷ photos) (fresh, once) =
    elim (Bool-cases (mem j keep || is_trashed p.state)) [
      | inl e ↦ rw e (
        lookup-forget keep j photos once ∙ ap (remaining keep j) fresh,
        forget-IsUnique keep photos once,
      )
      | inr e ↦ rw e (forget-IsUnique keep photos once)
    ]

pub forget-IsKeyed :
    (keep : List String) (photos : Map Photo) → IsKeyed photos → IsKeyed (forget keep photos).0
forget-IsKeyed keep photos (once, keyed) = (
  forget-IsUnique keep photos once,
  λ k p h. keyed k p (ground (arith, lookup-forget keep k photos once)),
)
