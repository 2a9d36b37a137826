-- ===== src/Store/Open.antt =====
-- internal/store/store.go: Open, load and Close.
pub mod Settled
pub mod Examples
use photo_swipe.Prelude.{String, Bool, false, Option, none, some, [], ◌∷◌, if◌then◌else◌}
use photo_swipe.Prelude.Int.{ℤ, pos, eq_ℤ}
use photo_swipe.Prelude.Map.{Map}
use photo_swipe.Store.Photo.{Photo, unsorted, is_unsure}
use photo_swipe.Store.Session.{Session, Settings, default_settings, is_zero_float, valid, stale}
use photo_swipe.Store.State.{
  RootState, Store, Env, Result, ok, err, unreadable, bad_json, empty_state, save_locked,
  save_and_return,
}

-- 24 hours
abbrev pub stale_session_age : ℤ
stale_session_age = pos 86_400_000_000_000

unfoldable pub settled : Settings → Settings
settled loaded =
    let s = if is_zero_float loaded.base_rate then default_settings else loaded in
    record s {
      dupe_threshold =
          if eq_ℤ s.dupe_threshold (pos 0)
          then default_settings.dupe_threshold
          else s.dupe_threshold;
      default_batch_size =
          if eq_ℤ s.default_batch_size (pos 0)
          then default_settings.default_batch_size
          else s.default_batch_size;
      default_mix = if valid s.default_mix then s.default_mix else default_settings.default_mix;
    }

-- StateUnsure becomes StateUnsorted.
unfoldable pub decided_again : Photo → Photo
decided_again p = if is_unsure p.state then record p { state = unsorted } else p

unfoldable pub normalize_photos : Map Photo → Map Photo
unfolding decided_again
normalize_photos [] = []
normalize_photos ((id, p) ∷ photos) = (id, decided_again p) ∷ normalize_photos photos

-- A map that the file lacks is read as the empty map.
unfoldable pub normalize : RootState → RootState
unfolding settled normalize_photos
normalize rs = record rs { settings = settled rs.settings; photos = normalize_photos rs.photos }

unfoldable pub load : Env → Store → Result (Unit {0}) × Store
unfolding normalize
load env s = elim s.disk [
  | none ↦ save_locked env s
  | some bytes ↦
      if env.read_ok
      then elim (env.unmarshal bytes) [
        | none ↦ (err bad_json, s)
        | some rs ↦ (ok tt, record s { state = normalize rs })
      ]
      else (err unreadable, s)
]

abbrev pub is_stale : Env → Option Session → Bool
is_stale env none = false
is_stale env (some sess) = stale sess env.now stale_session_age

-- Open, on the content of the state file.
unfoldable pub open_store : Env → Option String → Result Store × Option String
unfolding load
open_store env disk =
    let (r, s) = load env (record { state = empty_state; disk = disk }) in
    elim r [
      | err e ↦ (err e, s.disk)
      | ok _ ↦
          if is_stale env s.state.session
          then (let s' = record s { state = record s.state { session = none } } in
              let (r', s'') = save_and_return env s' s' in
              elim r' [ err e ↦ (err e, s''.disk) | ok _ ↦ (ok s'', s''.disk) ])
          else (ok s, s.disk)
    ]

unfoldable pub close : Env → Store → Result (Unit {0}) × Store
close env s = save_locked env s
