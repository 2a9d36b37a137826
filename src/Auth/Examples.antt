-- ===== src/Auth/Examples.antt =====
-- The theorems on the gate, at a short history.
use photo_swipe.Prelude.{
  ◌≡◌, String, refl, false, not, none, some, List, [], ◌∷◌, arith, str_eq, if◌then◌else◌,
}
use photo_swipe.Prelude.Int.{pos, ltb_ℤ, ◌≤ℤ◌, ◌+ℤ◌}
use photo_swipe.Prelude.Map.{lookup, insert}
use photo_swipe.Store.Photo.{Time}
use photo_swipe.Auth.{
  Auth, Request, Reply, page, Event, serve, collect, get, post, authenticated, session_ttl,
  new_auth, handle_logout, handle_login, post_login, middleware, mux, gc, run, step,
}
use photo_swipe.Auth.Gate.{live_token}
use photo_swipe.Auth.Tokens.{
  Issued, middleware-Issued, live_token-handle_login, live_token-handle_logout, live_token-gc,
}

abbrev login : Request
login = record { path = "/login"; method = post; cookie = none; form = some "secret"; tls = false }

abbrev home : Request
home = record { path = "/"; method = get; cookie = some "t1"; form = none; tls = false }

abbrev pages : Request → Reply
pages r = page r.path

abbrev auth : Auth
auth = record { password = "secret"; tokens = ("t1", pos 100) ∷ ("t2", pos 7) ∷ [] }

abbrev history : List Event
history = serve (some "t1") (pos 5) login ∷ collect (pos 6) ∷ []

abbrev answer : Request → Auth → Reply × Auth
answer r a = (page r.path, a)

-- The page behind the gate is not the login page.
let_in : (middleware answer (pos 50) home (run pages history (new_auth "secret"))).0 ≡ page "/"
unfolding run step middleware mux handle_login post_login new_auth gc lookup insert ◌+ℤ◌
    authenticated
let_in = refl

middleware-Issued_example :
    (tok : String) × (exp : Time) × (some "t1" ≡ some tok)
    × Issued "secret" tok exp history
    × (pos 50 ≤ℤ exp)
middleware-Issued_example =
    middleware-Issued answer pages "secret" history (pos 50) home refl
      λ e. ground (arith, let_in, e)

live_token-handle_login_example :
    live_token (pos 50) (handle_login (some "t3") (pos 8) login auth).1.tokens (some "t3") ≡ (
      if str_eq "t3" "t3"
      then not (ltb_ℤ (pos 8 +ℤ session_ttl) (pos 50))
      else live_token (pos 50) auth.tokens (some "t3"))
live_token-handle_login_example =
    live_token-handle_login "t3" (pos 8) (pos 50) login auth "t3" refl refl

live_token-handle_logout_example :
    live_token (pos 50) (handle_logout home auth).1.tokens (some "t1")
    ≡ (if str_eq "t1" "t1" then false else live_token (pos 50) auth.tokens (some "t1"))
live_token-handle_logout_example = live_token-handle_logout (pos 50) home auth "t1" "t1" refl

live_token-gc_example :
    live_token (pos 50) (gc (pos 9) auth).tokens (some "t1")
    ≡ live_token (pos 50) auth.tokens (some "t1")
unfolding lookup
live_token-gc_example = live_token-gc (pos 9) (pos 50) auth "t1" (refl, (refl, tt)) (omega arith)
