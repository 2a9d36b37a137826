-- ===== src/Handlers/Forms.antt =====
-- internal/handlers/handlers.go: the form of the settings, and the width of a thumbnail.
use photo_swipe.Prelude.{String, Bool, not, ◌&&◌, Option, none, some, str_eq, if◌then◌else◌}
use photo_swipe.Prelude.Int.{ℤ, pos, ltb_ℤ}
use photo_swipe.Store.Session.{
  CompositionMix, all_new, mixed, heavy_review, review_only, other_mix, valid, Settings, Float64,
}
use photo_swipe.Store.State.{Store}
use photo_swipe.Store.Sessions.{settings, update_settings}
use photo_swipe.Handlers.{Call, Form, form_value, Reply, bad_request}
use photo_swipe.Handlers.Pages.{redirected}

-- store.CompositionMix(text)
unfoldable pub mix_of : String → CompositionMix
mix_of text =
    if str_eq text "all_new"
    then all_new
    else if str_eq text "mixed"
    then mixed
    else if str_eq text "heavy_review"
    then heavy_review
    else if str_eq text "review_only"
    then review_only
    else other_mix text

-- parseF and parseI: the value of a field, or what it was where the text is no number
unfoldable pub parse_f : Call → Form → String → Float64 → Float64
unfolding form_value
parse_f call form name fallback =
    let (v, fine) = call.parsers.parse_float (form_value name form) in if fine then v else fallback

unfoldable pub parse_i : Call → Form → String → ℤ → ℤ
unfolding form_value
parse_i call form name fallback =
    let (v, fine) = call.parsers.atoi (form_value name form) in if fine then v else fallback

abbrev pub is_set : String → Form → Bool
is_set name form = not (str_eq (form_value name form) "")

unfoldable pub posted_settings : Call → Form → Settings → Settings
unfolding parse_f parse_i form_value mix_of valid
posted_settings call form cur = record {
  base_rate = parse_f call form "base_rate" cur.base_rate;
  decay = parse_f call form "decay" cur.decay;
  unsure_base_rate = parse_f call form "unsure_base_rate" cur.unsure_base_rate;
  cooldown_hours = parse_f call form "cooldown_hours" cur.cooldown_hours;
  lock_threshold = parse_i call form "lock_threshold" cur.lock_threshold;
  fatigue_nudge = is_set "fatigue_nudge" form;
  fatigue_threshold = parse_i call form "fatigue_threshold" cur.fatigue_threshold;
  dupe_threshold = parse_i call form "dupe_threshold" cur.dupe_threshold;
  dupe_time_window_hours = parse_f call form "dupe_time_window_hours" cur.dupe_time_window_hours;
  default_batch_size = parse_i call form "default_batch_size" cur.default_batch_size;
  default_mix =
      let mix = mix_of (form_value "default_mix" form) in
      if valid mix then mix else cur.default_mix;
  skip_advances_counter = is_set "skip_advances_counter" form;
  info_overlay = is_set "info_overlay" form;
  cluster_counts_as_one = is_set "cluster_counts_as_one" form;
}

unfoldable pub handle_update_settings : Call → Option Form → Store → Reply × Store
unfolding posted_settings update_settings settings
handle_update_settings call none s = (bad_request, s)
handle_update_settings call (some form) s =
    redirected "/settings" (update_settings call.env (posted_settings call form (settings s)) s)

-- The width that handleThumb asks for: the positive number `w` of the query, or 600.
unfoldable pub thumb_width : Call → String → ℤ
thumb_width call w =
    let (n, fine) = call.parsers.atoi w in
    if not (str_eq w "") && (fine && ltb_ℤ (pos 0) n) then n else pos 600
