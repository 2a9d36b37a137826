-- ===== src/Store/Open/Examples.antt =====
-- Open, on a small state file.
use photo_swipe.Prelude.{◌≡◌, refl, false, some, [], ◌∷◌}
use photo_swipe.Store.Photo.{unsure}
use photo_swipe.Store.Session.{stale}
use photo_swipe.Store.State.{RootState, Store, Env, empty_state}
use photo_swipe.Store.Open.{normalize, load, is_stale, open_store}
use photo_swipe.Store.Open.Settled.{IsSettled, open_store-IsSettled}
use photo_swipe.Store.Examples.{photo, env_at, batch}

abbrev old : RootState
old = record empty_state {
  photos = ("a", record (photo "a") { state = unsure }) ∷ [];
  session = some batch;
}

abbrev env : Env
env = record (env_at 5) { unmarshal = λ _. some old }

abbrev reopened : Store
reopened = record { state = normalize old; disk = some "bytes" }

open_store-IsSettled_example :
    IsSettled reopened.state × (is_stale env reopened.state.session ≡ false)
unfolding open_store load normalize stale
open_store-IsSettled_example = open_store-IsSettled env (some "bytes") reopened refl
