-- ===== src/Auth/Gate.antt =====
-- Who gets through the gate.
use photo_swipe.Prelude.{
  ◌≡◌, String, Bool, true, false, not, ◌||◌, Option, none, some, arith, str_eq, starts_with,
}
use photo_swipe.Prelude.Int.{ltb_ℤ}
use photo_swipe.Prelude.Map.{Map, lookup}
use photo_swipe.Store.Photo.{Time}
use photo_swipe.Auth.{
  Auth, Request, Reply, redirect, login_path, logout_path, static_prefix, authenticated, middleware,
}

-- The request carries a token that is known and has not run out.
abbrev pub live_token : Time → Map Time → Option String → Bool
live_token now tokens none = false
live_token now tokens (some tok) = elim (lookup tok tokens) [
  | none ↦ false
  | some exp ↦ not (ltb_ℤ exp now)
]

-- The paths that the gate lets through or answers itself.
abbrev pub is_exempt : String → Bool
is_exempt path = str_eq path login_path || starts_with path static_prefix || str_eq path logout_path

-- On every path but the login page, the logout page and the static files, the handler behind the
-- gate runs exactly when the request carries a live token, and then on the tokens as they are;
-- without one the reply is a redirect to the login page, whatever the handler would do.
pub middleware_gate :
    (next : Request → Auth → Reply × Auth) (now : Time) (r : Request) (a : Auth)
    → is_exempt r.path ≡ false
    → (live_token now a.tokens r.cookie ≡ true → middleware next now r a ≡ next r a)
      × (live_token now a.tokens r.cookie ≡ false
          → (middleware next now r a).0 ≡ redirect login_path none)
unfolding middleware authenticated
middleware_gate next now r a h = (λ k. ground arith, λ k. ground arith)
