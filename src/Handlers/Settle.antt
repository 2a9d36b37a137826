-- ===== src/Handlers/Settle.antt =====
-- The settings that a form leaves, and the bars of the statistics.
use photo_swipe.Prelude.{
  ℕ, zero, suc, ◌*◌, ◌/◌, ◌≤◌, ◌≡◌, refl, ap, ◌∙◌, String, true, Option, none, some, List, [], ◌∷◌,
  arith, ltb→lt, if◌then◌else◌, Bool-cases, inl, inr, subst,
}
use native.Mathlib.Nat.{div-le_of_le-mul}
use photo_swipe.Prelude.Int.{ℤ, pos, negsuc, ◌≤ℤ◌, wrap64, max_int64, ltb_ℤ}
use photo_swipe.Prelude.Sorted.{All}
use photo_swipe.Store.Session.{valid, Settings}
use photo_swipe.Store.State.{Store, RootState, Result, ok, err, state-commit}
use photo_swipe.Store.Sessions.{update_settings, settings}
use photo_swipe.Handlers.{Call, Form, form_value}
use photo_swipe.Handlers.Pages.{redirected}
use photo_swipe.Handlers.Forms.{posted_settings, handle_update_settings, mix_of}
use photo_swipe.Handlers.Stats.{
  DailyBar, bars_of, day_bar, handle_stats, max_count, scaled, with_height, div_pos, times_100,
}

redirected_state : {A : Type 0} (path : String) (r : Result A × Store) → (redirected path r).1 ≡ r.1
redirected_state path (ok _, s) = refl
redirected_state path (err _, s) = refl

posted-valid :
    (call : Call) (form : Form) (cur : Settings)
    → valid cur.default_mix ≡ true
    → valid (posted_settings call form cur).default_mix ≡ true
unfolding posted_settings
posted-valid call form cur h = elim (Bool-cases (valid (mix_of (form_value "default_mix" form)))) [
  | inl e ↦ rw (e, posted_settings) e
  | inr e ↦ rw (e, posted_settings) h
]

-- POST /settings never leaves an invalid mix where there was a valid one, whatever the form holds.
pub handle_update_settings-valid :
    (call : Call) (form : Option Form) (s : Store)
    → valid s.state.settings.default_mix ≡ true
    → valid (handle_update_settings call form s).1.state.settings.default_mix ≡ true
unfolding handle_update_settings posted_settings update_settings settings
handle_update_settings-valid call none s h = h
handle_update_settings-valid call (some form) s h =
    let posted = posted_settings call form (settings s) in
    ap (λ (x : Store). valid x.state.settings.default_mix)
      (redirected_state "/settings" (update_settings call.env posted s))
    ∙ ap (λ (x : RootState). valid x.settings.default_mix) (state-commit call.env s _)
    ∙ posted-valid call form (settings s) h

max_count_seed : (most : ℤ) (bars : List DailyBar) → most ≤ℤ max_count most bars
unfolding max_count
max_count_seed most [] = omega arith
max_count_seed most (b ∷ bars) = elim (Bool-cases (ltb_ℤ most b.count)) [
  | inl e ↦ rw (e, max_count) (omega (arith, ltb→lt _ _ e, max_count_seed b.count bars))
  | inr e ↦ rw (e, max_count) (max_count_seed most bars)
]

max_count-ge : (bars : List DailyBar) (most : ℤ) → All (λ b. b.count ≤ℤ max_count most bars) bars
unfolding max_count
max_count-ge [] most = tt
max_count-ge (b ∷ bars) most = (
  elim (Bool-cases (ltb_ℤ most b.count)) [
    | inl e ↦ rw (e, max_count) (max_count_seed b.count bars)
    | inr e ↦ rw (e, max_count) (ground (arith, e, max_count_seed most bars))
  ],
  max_count-ge bars (if ltb_ℤ most b.count then b.count else most),
)

-- A count of the week that is not negative, and so small that its hundredfold does not wrap.
abbrev pub IsCounted : DailyBar → Type 0
IsCounted b = (n : ℕ) × (b.count ≡ pos n) × (n * 100 ≤ max_int64)

-- The height is a percentage.
abbrev pub IsPercent : DailyBar → Type 0
IsPercent b = (h : ℕ) × (b.height ≡ pos h) × (h ≤ 100)

height-IsPercent :
    (most : ℤ) (b : DailyBar)
    → b.height ≡ pos 0
    → IsCounted b
    → b.count ≤ℤ most
    → IsPercent (with_height most b)
unfolding with_height div_pos times_100 wrap64
height-IsPercent (negsuc m) b z (n, e, r) le = (0, ground (arith, z), omega arith)
height-IsPercent (pos zero) b z (n, e, r) le = (0, ground (arith, z), omega arith)
height-IsPercent (pos (suc m)) b z (n, e, r) le = (
  n * 100 / suc m,
  rw (e, with_height) (ground (arith, r)),
  div-le_of_le-mul (suc m) (omega (arith, subst (λ c. c ≤ℤ pos (suc m)) e le)),
)

scaled-ArePercents :
    (most : ℤ) (bars : List DailyBar)
    → All (λ b. b.height ≡ pos 0) bars
    → All IsCounted bars
    → All (λ b. b.count ≤ℤ most) bars
    → All IsPercent (scaled most bars)
unfolding scaled
scaled-ArePercents most [] z c l = tt
scaled-ArePercents most (b ∷ bars) (z, zs) (c, cs) (l, ls) =
    (height-IsPercent most b z c l, scaled-ArePercents most bars zs cs ls)

-- The bars of GET /stats have heights from 0 to 100, where no count of the last seven days is
-- negative or as large as a hundredth of the largest int.
pub handle_stats-ArePercents :
    (call : Call) (s : Store)
    → All IsCounted (bars_of call s 7)
    → All IsPercent (handle_stats call s).daily_bars
unfolding handle_stats bars_of day_bar
handle_stats-ArePercents call s c =
    scaled-ArePercents (max_count (pos 0) (bars_of call s 7)) (bars_of call s 7)
      (refl, (refl, (refl, (refl, (refl, (refl, (refl, tt))))))) c
      (max_count-ge (bars_of call s 7) (pos 0))
