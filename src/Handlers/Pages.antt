-- ===== src/Handlers/Pages.antt =====
-- internal/handlers/handlers.go: the home page, and the end and the extension of a session.
use photo_swipe.Prelude.{String, ◌&&◌, Option, none, some, if◌then◌else◌}
use photo_swipe.Prelude.Int.{pos, leb_ℤ, eq_ℤ}
use photo_swipe.Store.Session.{Session, complete}
use photo_swipe.Store.State.{Store, Result, ok, err}
use photo_swipe.Store.Photos.{counts}
use photo_swipe.Store.Sessions.{
  session, settings, daily_count, auto_start_session, end_session, session_extend,
}
use photo_swipe.Queue.{picked, no_session, no_candidate}
use photo_swipe.Handlers.{
  Call, Form, form_value, Reply, bad_request, internal_error, redirect, summary_page, photo_page,
  SummaryData,
}
use photo_swipe.Handlers.View.{pick_next, open_cluster_for, cluster_members}

unfoldable pub summary_data : Call → Store → Session → SummaryData
unfolding settings daily_count counts
summary_data call s sess =
    let today = daily_count (call.env.day call.now) s in
    record {
      session = some sess;
      counts = counts s;
      done = sess.done;
      show_fatigue_nudge = (settings s).fatigue_nudge && leb_ℤ (settings s).fatigue_threshold today;
      today_count = today;
    }

-- handleHome, once there is a session
unfoldable pub home : Call → Store → Session → Reply
unfolding summary_data pick_next open_cluster_for cluster_members counts settings
home call s sess =
    if complete sess
    then summary_page (summary_data call s sess)
    else elim (pick_next call s sess) [
      | no_candidate ↦ summary_page (summary_data call s sess)
      | no_session ↦ internal_error
      | picked p ↦ photo_page (record {
        session = sess;
        counts = counts s;
        photo = p;
        settings = settings s;
        cluster = elim (open_cluster_for call s p) [
          | none ↦ none
          | some c ↦ some (c.id, cluster_members call c.photos)
        ];
      })
    ]

abbrev pub started : Call → Result Session × Store → Reply × Store
started call (ok sess, s) = (home call s sess, s)
started call (err _, s) = (internal_error, s)

unfoldable pub handle_home : Call → Store → Reply × Store
unfolding session auto_start_session home
handle_home call s = elim (session s) [
  | none ↦ started call (auto_start_session call.env s)
  | some sess ↦ (home call s sess, s)
]

-- An error of the store is a 500, and success sends the browser to `path`.
abbrev pub redirected : {A : Type 0} → String → Result A × Store → Reply × Store
redirected path (ok _, s) = (redirect path, s)
redirected path (err _, s) = (internal_error, s)

unfoldable pub handle_session_end : Call → Store → Reply × Store
unfolding end_session
handle_session_end call s = redirected "/stats" (end_session call.env s)

-- `form` is none where it cannot be parsed.
unfoldable pub handle_session_extend : Call → Option Form → Store → Reply × Store
unfolding session_extend settings form_value
handle_session_extend call none s = (bad_request, s)
handle_session_extend call (some form) s =
    let delta = (call.parsers.atoi (form_value "delta" form)).0 in
    redirected "/" (
      session_extend call.env
        (if eq_ℤ delta (pos 0) then (settings s).default_batch_size else delta) s)
