-- ===== src/Store/Photos/Missing.antt =====
-- What ForgetMissing removes.
use photo_swipe.Prelude.{
  ◌+◌, ◌≡◌, refl, sym, ap, ap₂, ◌∙◌, String, List, [], ◌∷◌, arith, Bool-cases, inl, inr, ltb,
  length,
}
use photo_swipe.Prelude.Map.{Map, lookup, IsUnique}
use photo_swipe.Store.Photo.{Photo}
use photo_swipe.Store.State.{RootState, Store, Env, state-save_locked}
use photo_swipe.Store.Photos.{forget, forget_missing, with_photos}
use photo_swipe.Store.Steps.Keyed.{remaining, lookup-forget}

length-forget :
    (keep : List String) (photos : Map Photo)
    → length (forget keep photos).0 + (forget keep photos).1 ≡ length photos
unfolding forget
length-forget keep [] = omega arith
length-forget keep ((j, p) ∷ photos) = ground (arith, length-forget keep photos)

forget_none :
    (keep : List String) (photos : Map Photo)
    → (forget keep photos).1 ≡ 0
    → (forget keep photos).0 ≡ photos
unfolding forget
forget_none keep [] e = refl
forget_none keep ((j, p) ∷ photos) e = ground (arith, forget_none keep photos)

-- ForgetMissing changes only the photos.
pub state-forget_missing :
    (env : Env) (keep : List String) (s : Store)
    → (forget_missing env keep s).1.1.state
      ≡ record s.state { photos = (forget keep s.state.photos).0 }
unfolding forget_missing
state-forget_missing env keep s = elim (Bool-cases (ltb 0 (forget keep s.state.photos).1)) [
  | inl e ↦
      rw (e, forget_missing) (state-save_locked env (with_photos s (forget keep s.state.photos).0))
  | inr e ↦
      rw (e, forget_missing)
        (ap (λ photos. record s.state { photos = photos })
          (sym (forget_none keep s.state.photos (ground arith))))
]

forget_missing-count :
    (env : Env) (keep : List String) (s : Store)
    → (forget_missing env keep s).0 ≡ (forget keep s.state.photos).1
unfolding forget_missing
forget_missing-count env keep s = ground arith

-- If no id stands in the map twice, ForgetMissing keeps exactly the photos that are in the keep
-- set or trashed, unchanged, and the number that it returns, whether or not the save succeeds, is
-- by how many photos the pool has become smaller.
pub lookup-forget_missing :
    (env : Env) (keep : List String) (s : Store)
    → IsUnique s.state.photos
    → ((id : String)
        → lookup id (forget_missing env keep s).1.1.state.photos
          ≡ remaining keep id (lookup id s.state.photos))
      × (length (forget_missing env keep s).1.1.state.photos + (forget_missing env keep s).0
          ≡ length s.state.photos)
lookup-forget_missing env keep s once =
    let photos = ap (λ (st : RootState). st.photos) (state-forget_missing env keep s) in
    (
      λ id. ap (lookup id) photos ∙ lookup-forget keep id s.state.photos once,
      ap₂ (λ ps n. length ps + n) photos (forget_missing-count env keep s)
          ∙ length-forget keep s.state.photos,
    )
