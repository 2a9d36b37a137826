-- ===== src/Indexer/Rounds.antt =====
-- The indexer finishes, with a fingerprint for each photo that waited: each round takes one photo off those that wait for a hash.
use photo_swipe.Prelude.{
  suc, ◌≤◌, ◌≡◌, refl, sym, ap, ◌∙◌, false, none, some, List, [], ◌∷◌, arith, length, Option-cases,
  inl, inr, subst, ℕ, String, Option, Bool-cases, str_eq, eq_iff,
}
use photo_swipe.Prelude.Map.{Map, lookup, insert}
use photo_swipe.Prelude.Sorted.{All}
use photo_swipe.Store.Photo.{Photo, is_zero}
use photo_swipe.Store.State.{Store}
use photo_swipe.Store.Photos.{next_unhashed, hash_progress, hashed_as}
use photo_swipe.Store.Photos.Hashing.{
  waiting, Awaits, first_unhashed_inv, first_unhashed-waiting, waiting-first_unhashed,
  next_unhashed-none,
}
use photo_swipe.Store.Steps.Keyed.{IsKeyed}
use photo_swipe.Indexer.{Tools, exif_of, hash_one, settled, index_round, index_rounds}
use photo_swipe.Indexer.Fates.{Fingerprint, Fate, Alike-round, Fingerprint-round}
use photo_swipe.Indexer.Left.{
  Left-capture, weight, waiting-balance, Left, weight-hashed_as, Left-round,
}

-- The photo that NextUnhashed returns is one that waits.
next-Left :
    (s : Store) (p : Photo)
    → IsKeyed s.state.photos
    → next_unhashed s ≡ some p
    → Left p.id 1 (waiting s.state.photos) s
unfolding next_unhashed Awaits weight
next-Left s p keyed e =
    let (k, (here, active, needs)) = first_unhashed_inv s.state.photos p keyed.0 e in
    record {
      photo = p;
      here = subst (λ i. lookup i s.state.photos ≡ some p) (sym (keyed.1 k p here)) here;
      counts = ground (arith, active, needs);
      total = refl;
      keyed = keyed;
    }

index_rounds-more :
    (tools : Tools) (rest : List Tools) (s : Store) (p : Photo)
    → next_unhashed s ≡ some p
    → index_rounds (tools ∷ rest) s ≡ index_rounds rest (settled tools p.id (hash_one tools p s))
unfolding index_rounds index_round
index_rounds-more tools rest s p e = rw (e, index_rounds, index_round) refl

index_rounds-done :
    (tools : Tools) (rest : List Tools) (s : Store)
    → next_unhashed s ≡ none
    → index_rounds (tools ∷ rest) s ≡ s
unfolding index_rounds index_round
index_rounds-done tools rest s e = rw (e, index_rounds, index_round) refl

next_unhashed-waiting : (s : Store) → waiting s.state.photos ≡ 0 → next_unhashed s ≡ none
unfolding next_unhashed
next_unhashed-waiting s h = first_unhashed-waiting s.state.photos h

next_unhashed-rest : (s : Store) → next_unhashed s ≡ none → waiting s.state.photos ≡ 0
unfolding next_unhashed
next_unhashed-rest s e = waiting-first_unhashed s.state.photos e

weight-le-waiting :
    (k : String) (p : Photo) (photos : Map Photo)
    → lookup k photos ≡ some p
    → weight p ≤ waiting photos
unfolding waiting lookup weight
weight-le-waiting k p [] h = absurd (ground arith)
weight-le-waiting k p ((j, q) ∷ photos) h = elim (Bool-cases (str_eq j k)) [
  | inl e ↦ let own : q ≡ p = ground (arith, h, e) in ground (arith, ap weight own)
  | inr e ↦ ground (arith, weight-le-waiting k p photos (ground (arith, h, e)))
]

-- Where no photo waits, each has what it had.
Fate-rest :
    (rounds : List Tools) (k : String) (s : Store)
    → waiting s.state.photos ≡ 0
    → Fate rounds (lookup k s.state.photos) (lookup k s.state.photos)
Fate-rest rounds k s none_waits = at (lookup k s.state.photos) (weight-le-waiting k) refl
  where
    at :
        (o : Option Photo)
        → ((p : Photo) (photos : Map Photo) → lookup k photos ≡ some p → weight p ≤ waiting photos)
        → (o ≡ lookup k s.state.photos)
        → Fate rounds o o
    at none le e = tt
    at (some p) le e = inr (omega (arith, le p s.state.photos (sym e), none_waits), refl, refl)

-- One round more before the others.
Fate-later :
    (tools : Tools) (rest : List Tools) (o o' : Option Photo)
    → Fate rest o o'
    → Fate (tools ∷ rest) o o'
Fate-later tools rest none none h = tt
Fate-later tools rest (some p) (some p') (inl (w, t, i, f)) = inl (w, t, inr i, f)
Fate-later tools rest (some p) (some p') (inr h) = inr h
Fate-later tools rest none (some p') h = h
Fate-later tools rest (some p) none h = h

-- The fingerprint of the round's own photo stays in the later rounds.
Fate-own :
    (tools : Tools) (rest : List Tools) (p p' : Photo) (o : Option Photo)
    → weight p ≡ 1
    → weight p' ≡ 0
    → Fingerprint tools p p'
    → Fate rest (some p') o
    → Fate (tools ∷ rest) (some p) o
Fate-own tools rest p p' none w z f h = h
Fate-own tools rest p p' (some q) w z f (inl (one, t, i, g)) = absurd (omega (arith, one, z))
Fate-own tools rest p p' (some q) w z (inl (im, d, h, v)) (inr (zero_weight, same_h, same_v)) =
    inl (w, tools, inl refl, inl (im, d, same_h ∙ h, same_v ∙ v))
Fate-own tools rest p p' (some q) w z (inr (h, v, why)) (inr (zero_weight, same_h, same_v)) =
    inl (w, tools, inl refl, inr (same_h ∙ h, same_v ∙ v, why))

next-here :
    (s : Store) (p : Photo)
    → IsKeyed s.state.photos
    → next_unhashed s ≡ some p
    → (lookup p.id s.state.photos ≡ some p) × (weight p ≡ 1)
unfolding next_unhashed Awaits weight
next-here s p keyed e =
    let (k, (here, active, needs)) = first_unhashed_inv s.state.photos p keyed.0 e in
    (
      subst (λ i. lookup i s.state.photos ≡ some p) (sym (keyed.1 k p here)) here,
      ground (arith, active, needs),
    )

-- What a round does to the photo under `k`, by whether that is the round's own photo.
Fate-round :
    (tools : Tools) (rest : List Tools) (k : String) (p : Photo) (n : ℕ) (s : Store)
    (final : Option Photo)
    → IsKeyed s.state.photos
    → next_unhashed s ≡ some p
    → Left p.id 1 (suc n) s
    → Left p.id 0 n (settled tools p.id (hash_one tools p s))
    → Fate rest (lookup k (settled tools p.id (hash_one tools p s)).state.photos) final
    → Fate (tools ∷ rest) (lookup k s.state.photos) final
Fate-round tools rest k p n s final keyed e before left fate = elim (Bool-cases (str_eq p.id k)) [
  | inr other ↦
      Fate-later tools rest _ final
        (subst (λ o. Fate rest o final) (Alike-round tools p k s other) fate)
  | inl own ↦
      let at_k = (eq_iff p.id k).0 own in
      let (here, one) = next-here s p keyed e in
      let l =
        Left-capture tools p.id 1 (suc n) (exif_of tools (tools.path_of p.path)).date_time_original
          s before in
      let (p', there, f) = Fingerprint-round tools p l.photo s l.here in
      let done : weight p' ≡ 0 =
        subst (λ q. weight q ≡ 0) (some_inj (sym left.here ∙ there)) left.counts in
      let now_there =
        ap (λ i. lookup i (settled tools p.id (hash_one tools p s)).state.photos) (sym at_k)
        ∙ there in
      subst (λ o. Fate (tools ∷ rest) o final) (sym here ∙ ap (λ i. lookup i s.state.photos) at_k)
        (Fate-own tools rest p p' final one done f (subst (λ o. Fate rest o final) now_there fate))
]
  where
    some_inj : {x y : Photo} → some x ≡ some y → x ≡ y
    some_inj e = ground (arith, e)

index_rounds_finish :
    (rounds : List Tools) (s : Store)
    → IsKeyed s.state.photos
    → All (λ tools. is_zero tools.env.now ≡ false) rounds
    → waiting s.state.photos ≤ length rounds
    → (next_unhashed (index_rounds rounds s) ≡ none)
      × ((k : String)
          → Fate rounds (lookup k s.state.photos) (lookup k (index_rounds rounds s).state.photos))
unfolding index_rounds
index_rounds_finish [] s keyed started h =
    (next_unhashed-waiting s (omega (arith, h)), λ k. Fate-rest [] k s (omega (arith, h)))
index_rounds_finish (tools ∷ rest) s keyed (now, started) h =
    elim (Option-cases (next_unhashed s)) [
      | inl e ↦
          rw (index_rounds-done tools rest s e)
            (e, λ k. Fate-rest (tools ∷ rest) k s (next_unhashed-rest s e))
      | inr (p, e) ↦
          let l = next-Left s p keyed e in
          let n = waiting (insert p.id (hashed_as tools.env.now 0 0 l.photo) s.state.photos) in
          let one_more : waiting s.state.photos ≡ suc n = omega (
            arith,
            waiting-balance p.id l.photo (hashed_as tools.env.now 0 0 l.photo) s.state.photos
                l.here,
            l.counts,
            weight-hashed_as tools.env.now 0 0 l.photo now,
          ) in
          let before = subst (λ m. Left p.id 1 m s) one_more l in
          let left = Left-round tools p n s now before in
          let (finished, fates) =
            index_rounds_finish rest _ left.keyed started
              (omega (arith, left.total, one_more, h)) in
          rw (index_rounds-more tools rest s p e)
            (finished, λ k. Fate-round tools rest k p n s _ keyed e before left (fates k))
    ]

-- After as many rounds as photos wait for a hash, whatever the files hold and whether or not the
-- saves succeed, HashProgress says that all photos are hashed, and no photo is lost or made. Each
-- photo that waited has a fingerprint from one of the rounds: that of the picture, turned upright,
-- which its file decodes to in this round, or zero, and this only if the file does not decode or
-- a save fails. Every other photo has the fingerprint that it had. The photos are kept once and
-- under their own ids, and the clock is past Go's zero time in every round.
pub hash_progress-index_rounds :
    (rounds : List Tools) (s : Store)
    → IsKeyed s.state.photos
    → All (λ tools. is_zero tools.env.now ≡ false) rounds
    → waiting s.state.photos ≤ length rounds
    → ((hash_progress (index_rounds rounds s)).0 ≡ (hash_progress (index_rounds rounds s)).1)
      × ((id : String)
          → Fate rounds (lookup id s.state.photos) (lookup id (index_rounds rounds s).state.photos))
hash_progress-index_rounds rounds s keyed started h =
    let (finished, fates) = index_rounds_finish rounds s keyed started h in
    ((next_unhashed-none (index_rounds rounds s)).0 finished, fates)
