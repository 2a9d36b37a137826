-- ===== src/Store/Undo/Loops.antt =====
-- The loops of RecordClusterDecision and of its undo, seen from one photo.
use mathlib.Core.Option
use photo_swipe.Prelude.{
  ◌≡◌, refl, ap, ◌∙◌, String, Option, none, some, List, [], ◌∷◌, str_eq, if◌then◌else◌,
}
use photo_swipe.Prelude.Map.{Map, lookup, lookup-modify}
use photo_swipe.Store.Photo.{Photo, Time}
use photo_swipe.Store.Session.{ClusterMemberOp}
use photo_swipe.Store.Clusters.{member_decide, apply_one, apply_members}
use photo_swipe.Store.Undo.{restore_member, restore_one, restore_members}

unfoldable pub apply_step : String → Time → ClusterMemberOp → Photo → Photo
apply_step id now op p = if str_eq op.photo_id id then member_decide now op p else p

unfoldable pub apply_on : String → Time → List ClusterMemberOp → Photo → Photo
apply_on id now [] p = p
apply_on id now (op ∷ ops) p = apply_on id now ops (apply_step id now op p)

unfoldable pub restore_step : String → ClusterMemberOp → Photo → Photo
restore_step id op p = if str_eq op.photo_id id then restore_member op p else p

unfoldable pub restore_on : String → List ClusterMemberOp → Photo → Photo
restore_on id [] p = p
restore_on id (op ∷ ops) p = restore_step id op (restore_on id ops p)

pub map-id : {A : Type 0} (o : Option A) → o ≡ Option.map (λ a. a) o
map-id none = refl
map-id (some a) = refl

pub map-map :
    {A : Type 0} (f g : A → A) (o : Option A)
    → Option.map f (Option.map g o) ≡ Option.map (λ a. f (g a)) o
map-map f g none = refl
map-map f g (some a) = refl

pub lookup-apply_one :
    (id : String) (now : Time) (op : ClusterMemberOp) (photos : Map Photo)
    → lookup id (apply_one now op photos) ≡ Option.map (apply_step id now op) (lookup id photos)
unfolding apply_one apply_step
lookup-apply_one id now op photos = lookup-modify op.photo_id id (member_decide now op) photos

pub lookup-restore_one :
    (id : String) (op : ClusterMemberOp) (photos : Map Photo)
    → lookup id (restore_one op photos) ≡ Option.map (restore_step id op) (lookup id photos)
unfolding restore_one restore_step
lookup-restore_one id op photos = lookup-modify op.photo_id id (restore_member op) photos

pub lookup-apply_members :
    (id : String) (now : Time) (ops : List ClusterMemberOp) (photos : Map Photo)
    → lookup id (apply_members now ops photos) ≡ Option.map (apply_on id now ops) (lookup id photos)
unfolding apply_members apply_on
lookup-apply_members id now [] photos = map-id (lookup id photos)
lookup-apply_members id now (op ∷ ops) photos =
    lookup-apply_members id now ops (apply_one now op photos)
    ∙ ap (Option.map (apply_on id now ops)) (lookup-apply_one id now op photos)
    ∙ map-map _ _ (lookup id photos)

pub lookup-restore_members :
    (id : String) (ops : List ClusterMemberOp) (photos : Map Photo)
    → lookup id (restore_members ops photos) ≡ Option.map (restore_on id ops) (lookup id photos)
unfolding restore_members restore_on
lookup-restore_members id [] photos = map-id (lookup id photos)
lookup-restore_members id (op ∷ ops) photos =
    lookup-restore_one id op (restore_members ops photos)
    ∙ ap (Option.map (restore_step id op)) (lookup-restore_members id ops photos)
    ∙ map-map _ _ (lookup id photos)
