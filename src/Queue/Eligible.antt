-- ===== src/Queue/Eligible.antt =====
-- What Next may pick, and when it finds nothing.
use mathlib.Core.List.{Mem, mem-cons_self, mem-cons_of_mem}
use photo_swipe.Prelude.{
  suc, ◌+◌, ◌≡◌, ◌↔◌, ◌⊎◌, inl, inr, refl, true, false, ◌||◌, some, List, [], ◌∷◌, String, arith,
  mem, split_last, length, Bool-cases, Option-cases, split_last_inv, split_last-none,
  split_last-nil, ◌++◌, subst,
}
use photo_swipe.Prelude.Int.{pos, ◌≤ℤ◌, ◌<ℤ◌}
use photo_swipe.Store.Photo.{Photo, Time, is_zero, is_trashed}
use photo_swipe.Store.Session.{Float64, Session, Settings, sub_time}
use photo_swipe.Queue.{
  Floats, Cand, picked, no_candidate, Estimate, le_zero, weight_of, weight_for, session_weight,
  fill_pool, choose, total_from, next, tally, estimate, estimate_counts,
}

abbrev pub All {ℓ} : {A : Type 0} → (A → Type ℓ) → List A → Type ℓ
All P [] = Unit
All P (x ∷ xs) = P x × All P xs

abbrev pub IsCand : List String → (Photo → Float64) → List Photo → Photo → Type 0
IsCand skipped weight photos p =
    Mem p photos × (mem p.id skipped ≡ false) × (le_zero (weight p) ≡ false)

module _ (skipped : List String) (weight : Photo → Float64) (photos : List Photo) where
  fill_pool-IsCand :
      (ps : List Photo)
      → ((p : Photo) → Mem p ps → Mem p photos)
      → All (λ (c : Cand). IsCand skipped weight photos c.photo) (fill_pool skipped weight ps)
  unfolding fill_pool
  fill_pool-IsCand [] sub = tt
  fill_pool-IsCand (p ∷ ps) sub =
      let rest = fill_pool-IsCand ps (λ q m. sub q (mem-cons_of_mem p m)) in
      let here = sub p mem-cons_self in
      elim (Bool-cases (mem p.id skipped)) [
        | inl s ↦ rw s rest
        | inr s ↦ elim (Bool-cases (le_zero (weight p))) [
          | inl z ↦ rw (s, z) rest
          | inr z ↦ rw (s, z) ((here, s, z), rest)
        ]
      ]

module _ (P : Photo → Type 0) where
  choose-All :
      (fl : Floats) (target : Float64) (pool : List Cand) (last : Photo)
      → All (λ (c : Cand). P c.photo) pool
      → P last
      → P (choose fl target pool last)
  unfolding choose
  choose-All fl target [] last h l = l
  choose-All fl target (c ∷ pool) last h l = elim (Bool-cases (le_zero (fl.sub target c.weight))) [
    | inl z ↦ rw z h.0
    | inr z ↦ rw z (choose-All fl _ pool last h.1 l)
  ]

  last-All :
      (front : List Cand) (last : Cand)
      → All (λ (c : Cand). P c.photo) (front ++ last ∷ [])
      → P last.photo
  last-All [] last h = h.0
  last-All (c ∷ front) last h = last-All front last h.1

  split_last-All :
      (pool front : List Cand) (last : Cand)
      → All (λ (c : Cand). P c.photo) pool
      → split_last pool ≡ some (front, last)
      → P last.photo
  split_last-All pool front last h e =
      last-All front last
        (subst (All (λ (c : Cand). P c.photo)) (split_last_inv pool front last e) h)

-- A photo that Next may show: its weight is not zero because none of the exclusions holds.
pub record Eligible (fl : Floats) (sess : Session) (settings : Settings) (now : Time) (p : Photo)
    : Type 0 where
  pub not_skipped : mem p.id sess.recently_skipped ≡ false
  pub not_trashed : is_trashed p.state ≡ false
  pub not_locked : p.locked ≡ false
  pub below_threshold :
      (settings.lock_threshold ≤ℤ pos 0) ⊎ (p.keep_count <ℤ settings.lock_threshold)
  pub cooled_down :
      (is_zero p.last_decision_at ≡ true)
      ⊎ (fl.hours settings.cooldown_hours ≤ℤ sub_time now p.last_decision_at)

zero_weightless : le_zero 0 ≡ true
unfolding le_zero
zero_weightless = refl

weight_for-Eligible :
    (fl : Floats) (sess : Session) (settings : Settings) (now : Time) (p : Photo)
    → mem p.id sess.recently_skipped ≡ false
    → le_zero (session_weight fl sess settings now p) ≡ false
    → Eligible fl sess settings now p
unfolding session_weight weight_for
weight_for-Eligible fl sess settings now p s w = record {
  not_skipped = s;
  not_trashed = ground (arith, zero_weightless);
  not_locked = ground (arith, zero_weightless);
  below_threshold = ground (arith, zero_weightless);
  cooled_down = ground (arith, zero_weightless);
}

-- Whatever number is drawn, Next picks a photo of the pool that is not among the recently skipped,
-- not trashed, not locked, below the lock threshold if there is one, and out of its cooldown.
pub next-Eligible :
    (fl : Floats) (drawn : Float64) (photos : List Photo) (sess : Session) (settings : Settings)
    (now : Time) (p : Photo)
    → next fl drawn photos (some sess) settings now ≡ picked p
    → Mem p photos × Eligible fl sess settings now p
unfolding next
next-Eligible fl drawn photos sess settings now p h =
    let weight = session_weight fl sess settings now in
    let pool = fill_pool sess.recently_skipped weight photos in
    let Good = IsCand sess.recently_skipped weight photos in
    let all = fill_pool-IsCand sess.recently_skipped weight photos photos (λ q m. m) in
    elim (Option-cases (split_last pool)) [
      | inl e ↦ absurd (ground arith)
      | inr ((front, last), e) ↦
          let target = fl.mul drawn (total_from fl 0 pool) in
          let same : choose fl target pool last.photo ≡ p = ground arith in
          let (m, s, w) = subst Good same (
            choose-All Good fl target pool last.photo all
              (split_last-All Good pool front last all e)) in
          (m, weight_for-Eligible fl sess settings now p s w)
    ]

-- No weight, or among the recently skipped.
abbrev pub Excluded : List String → (Photo → Float64) → Photo → Type 0
Excluded skipped weight p = (mem p.id skipped || le_zero (weight p)) ≡ true

fill_pool-nil :
    (skipped : List String) (weight : Photo → Float64) (photos : List Photo)
    → (fill_pool skipped weight photos ≡ []) ↔ All (Excluded skipped weight) photos
unfolding fill_pool
fill_pool-nil skipped weight [] = (λ _. tt, λ _. refl)
fill_pool-nil skipped weight (p ∷ photos) =
    let (to, from) = fill_pool-nil skipped weight photos in (ground arith, ground arith)

-- Next finds no candidate exactly when every photo of the pool is among the recently skipped or
-- has no positive weight; so it picks one whenever there is one.
pub next-eq-no_candidate :
    (fl : Floats) (drawn : Float64) (photos : List Photo) (sess : Session) (settings : Settings)
    (now : Time)
    → (next fl drawn photos (some sess) settings now ≡ no_candidate)
      ↔ All (Excluded sess.recently_skipped (session_weight fl sess settings now)) photos
unfolding next
next-eq-no_candidate fl drawn photos sess settings now =
    let weight = session_weight fl sess settings now in
    let pool = fill_pool sess.recently_skipped weight photos in
    let (to, from) = fill_pool-nil sess.recently_skipped weight photos in
    (
      λ h. to (split_last-none pool (ground arith)),
      λ a. rw (from a, next) (rw (split_last-nil, next)),
    )

counted :
    (fl : Floats) (sess : Session) (settings : Settings) (now : Time) (p : Photo) (e : Estimate)
    → le_zero (session_weight fl sess settings now p) ≡ false
    → (tally p.state e).fresh + (tally p.state e).of_kept + (tally p.state e).of_unsure
      ≡ suc (e.fresh + e.of_kept + e.of_unsure)
unfolding session_weight weight_for weight_of tally
counted fl sess settings now p e h = ground (arith, zero_weightless)

estimate-length :
    (fl : Floats) (sess : Session) (settings : Settings) (now : Time) (photos : List Photo)
    (e : Estimate)
    → let weight = session_weight fl sess settings now in
      let e' = estimate weight photos e in
      e'.fresh + e'.of_kept + e'.of_unsure
      ≡ e.fresh + e.of_kept + e.of_unsure + length (fill_pool [] weight photos)
unfolding estimate fill_pool
estimate-length fl sess settings now [] e = omega arith
estimate-length fl sess settings now (p ∷ photos) e =
    elim (Bool-cases (le_zero (session_weight fl sess settings now p))) [
      | inl z ↦ rw (z, estimate) (estimate-length fl sess settings now photos e)
      | inr z ↦
          rw (z, estimate)
            (omega (
              arith,
              estimate-length fl sess settings now photos (tally p.state e),
              counted fl sess settings now p e z,
            ))
    ]

-- The three counts of EstimateCounts add up to the size of the pool that Next would fill if no
-- photo had been skipped.
pub estimate_counts-length :
    (fl : Floats) (photos : List Photo) (sess : Session) (settings : Settings) (now : Time)
    → let e = estimate_counts fl photos (some sess) settings now in
      e.fresh + e.of_kept + e.of_unsure
      ≡ length (fill_pool [] (session_weight fl sess settings now) photos)
unfolding estimate_counts
estimate_counts-length fl photos sess settings now = omega (
  arith,
  estimate-length fl sess settings now photos (record { fresh = 0; of_kept = 0; of_unsure = 0 }),
)
