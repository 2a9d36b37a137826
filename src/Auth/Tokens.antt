-- ===== src/Auth/Tokens.antt =====
-- Where live tokens come from, and where they go.
use photo_swipe.Prelude.{
  ◌≡◌, ◌≢◌, refl, ◌⊎◌, inl, inr, String, Bool, false, not, Option, none, some, List, [], ◌∷◌, arith,
  str_eq, eq_iff, if◌then◌else◌, Option-cases, Bool-cases, eq_refl, ◌&&◌, ◌||◌,
}
use photo_swipe.Prelude.Int.{ltb_ℤ, ◌≤ℤ◌, ◌+ℤ◌}
use photo_swipe.Prelude.Map.{Map, IsUnique, lookup, insert, delete, lookup-insert, lookup-delete}
use photo_swipe.Store.Photo.{Time}
use photo_swipe.Auth.{
  Auth, Request, Reply, redirect, Event, serve, collect, login_path, session_ttl, new_auth,
  authenticated, handle_logout, handle_login, post_login, middleware, mux, gc, sweep, step, run,
  post,
}
use photo_swipe.Auth.Gate.{live_token, is_exempt}

-- The event is a login with the password, and hands out this token with this expiry.
abbrev pub IssuedBy : String → String → Time → Event → Type 0
IssuedBy password tok exp (serve (some t) now r) =
    (t ≡ tok)
    × (exp ≡ now +ℤ session_ttl)
    × (r.path ≡ login_path)
    × (r.method ≡ post)
    × (r.form ≡ some password)
IssuedBy password tok exp _ = ⊥

abbrev pub Issued : String → String → Time → List Event → Type 0
Issued password tok exp [] = ⊥
Issued password tok exp (e ∷ es) = IssuedBy password tok exp e ⊎ Issued password tok exp es

password-step :
    (pages : Request → Reply) (e : Event) (a : Auth) → (step pages e a).password ≡ a.password
unfolding step middleware mux gc handle_logout authenticated handle_login post_login
password-step pages (serve token now r) a = ground arith
password-step pages (collect now) a = refl

lookup-delete_inv :
    (k tok : String) (m : Map Time) (exp : Time)
    → lookup tok (delete k m) ≡ some exp
    → lookup tok m ≡ some exp
lookup-delete_inv k tok m exp h = ground (arith, lookup-delete k tok m)

lookup-sweep_inv :
    (now : Time) (tok : String) (entries : List (String × Time)) (m : Map Time) (exp : Time)
    → lookup tok (sweep now entries m) ≡ some exp
    → lookup tok m ≡ some exp
unfolding sweep
lookup-sweep_inv now tok [] m exp h = h
lookup-sweep_inv now tok ((t, e) ∷ entries) m exp h =
    let before = lookup-sweep_inv now tok entries _ exp h in
    ground (arith, before, lookup-delete_inv t tok m exp)

lookup-insert_inv :
    (t tok : String) (e exp : Time) (m : Map Time)
    → lookup tok (insert t e m) ≡ some exp
    → (lookup tok m ≡ some exp) ⊎ ((t ≡ tok) × (exp ≡ e))
lookup-insert_inv t tok e exp m h = ground (arith, lookup-insert t tok e m, eq_iff t tok)

lookup-post_login :
    (token : Option String) (now : Time) (r : Request) (a : Auth) (tok : String) (exp : Time)
    → r.path ≡ login_path
    → r.method ≡ post
    → lookup tok (post_login token now r a).1.tokens ≡ some exp
    → (lookup tok a.tokens ≡ some exp) ⊎ IssuedBy a.password tok exp (serve token now r)
unfolding post_login
lookup-post_login none now r a tok exp p m h = ground arith
lookup-post_login (some t) now r a tok exp p m h = elim (Option-cases r.form) [
  | inl e ↦ ground arith
  | inr (pw, e) ↦
      ground
        (arith, lookup-insert_inv t tok (now +ℤ session_ttl) exp a.tokens, eq_iff pw a.password)
]

lookup-mux :
    (pages : Request → Reply) (token : Option String) (now : Time) (r : Request) (a : Auth)
    (tok : String) (exp : Time)
    → lookup tok (mux pages token now r a).1.tokens ≡ some exp
    → (lookup tok a.tokens ≡ some exp) ⊎ IssuedBy a.password tok exp (serve token now r)
unfolding mux handle_login
lookup-mux pages token now r a tok exp h =
    ground (arith, eq_iff r.path login_path, lookup-post_login token now r a tok exp)

lookup-handle_logout :
    (r : Request) (a : Auth) (tok : String) (exp : Time)
    → lookup tok (handle_logout r a).1.tokens ≡ some exp
    → lookup tok a.tokens ≡ some exp
unfolding handle_logout
lookup-handle_logout r a tok exp h = elim (Option-cases r.cookie) [
  | inl e ↦ ground arith
  | inr (t, e) ↦ ground (arith, lookup-delete_inv t tok a.tokens exp)
]

lookup-authenticated :
    (now : Time) (cookie : Option String) (a : Auth) (tok : String) (exp : Time)
    → lookup tok (authenticated now cookie a).1.tokens ≡ some exp
    → lookup tok a.tokens ≡ some exp
unfolding authenticated
lookup-authenticated now none a tok exp h = h
lookup-authenticated now (some t) a tok exp h = ground (arith, lookup-delete_inv t tok a.tokens exp)

password-authenticated :
    (now : Time) (cookie : Option String) (a : Auth)
    → (authenticated now cookie a).1.password ≡ a.password
unfolding authenticated
password-authenticated now none a = refl
password-authenticated now (some t) a = ground arith

-- One event keeps a token or hands it out.
lookup-step :
    (pages : Request → Reply) (e : Event) (a : Auth) (tok : String) (exp : Time)
    → lookup tok (step pages e a).tokens ≡ some exp
    → (lookup tok a.tokens ≡ some exp) ⊎ IssuedBy a.password tok exp e
unfolding step middleware gc
lookup-step pages (serve token now r) a tok exp h =
    let b = (authenticated now r.cookie a).1 in
    ground (
      arith,
      lookup-mux pages token now r a tok exp,
      lookup-handle_logout r a tok exp,
      lookup-authenticated now r.cookie a tok exp,
      password-authenticated now r.cookie a,
      lookup-mux pages token now r b tok exp,
    )
lookup-step pages (collect now) a tok exp h = inl (lookup-sweep_inv now tok a.tokens a.tokens exp h)

lookup-run :
    (pages : Request → Reply) (es : List Event) (a : Auth) (tok : String) (exp : Time)
    → lookup tok (run pages es a).tokens ≡ some exp
    → (lookup tok a.tokens ≡ some exp) ⊎ Issued a.password tok exp es
unfolding run
lookup-run pages [] a tok exp h = inl h
lookup-run pages (e ∷ es) a tok exp h = ground (
  arith,
  lookup-run pages es (step pages e a) tok exp h,
  lookup-step pages e a tok exp,
  password-step pages e a,
)

-- A reply behind the gate other than the redirect to the login page needs a token that has not run
-- out.
middleware_inv :
    (next : Request → Auth → Reply × Auth) (now : Time) (r : Request) (a : Auth)
    → is_exempt r.path ≡ false
    → (middleware next now r a).0 ≢ redirect login_path none
    → (tok : String) × (exp : Time) × (r.cookie ≡ some tok)
      × (lookup tok a.tokens ≡ some exp)
      × (now ≤ℤ exp)
unfolding middleware authenticated
middleware_inv next now r a behind other = elim (Option-cases r.cookie) [
  | inl e ↦ absurd (other (ground (arith, e, behind)))
  | inr (tok, e) ↦ elim (Option-cases (lookup tok a.tokens)) [
    | inl l ↦ absurd (other (ground (arith, e, l, behind)))
    | inr (exp, l) ↦ elim (Bool-cases (ltb_ℤ exp now)) [
      | inl t ↦ absurd (other (ground (arith, e, l, t, behind)))
      | inr t ↦ (tok, exp, e, l, ground (arith, t))
    ]
  ]
]

-- Whatever requests were served since the start and whatever the handler behind the gate does: on
-- every path but the login page, the logout page and the static files, a request that gets another
-- reply than the redirect to the login page carries a token that one of those requests handed out,
-- a login posted with the password, and the thirty days of that token are not over.
pub middleware-Issued :
    (next : Request → Auth → Reply × Auth) (pages : Request → Reply) (password : String)
    (es : List Event) (now : Time) (r : Request)
    → is_exempt r.path ≡ false
    → (middleware next now r (run pages es (new_auth password))).0 ≢ redirect login_path none
    → (tok : String) × (exp : Time) × (r.cookie ≡ some tok)
      × Issued password tok exp es
      × (now ≤ℤ exp)
unfolding new_auth lookup
middleware-Issued next pages password es now r behind other =
    let (tok, exp, e, l, h) =
      middleware_inv next now r (run pages es (new_auth password)) behind other in
    (tok, exp, e, issued tok exp (lookup-run pages es (new_auth password) tok exp l), h)
  where
    issued :
        (tok : String) (exp : Time)
        → (lookup tok (new_auth password).tokens ≡ some exp) ⊎ Issued password tok exp es
        → Issued password tok exp es
    issued tok exp (inl e) = cc e
    issued tok exp (inr i) = i

-- A login with the password makes its token live for exactly thirty days and no other token more or
-- less live than before.
pub live_token-handle_login :
    (tok : String) (now later : Time) (r : Request) (a : Auth) (c : String)
    → r.method ≡ post
    → r.form ≡ some a.password
    → live_token later (handle_login (some tok) now r a).1.tokens (some c) ≡ (
        if str_eq tok c
        then not (ltb_ℤ (now +ℤ session_ttl) later)
        else live_token later a.tokens (some c))
unfolding handle_login post_login
live_token-handle_login tok now later r a c m f =
    ground (arith, eq_refl a.password, lookup-insert tok c (now +ℤ session_ttl) a.tokens)

-- A logout ends the token that the request carries, and no other.
pub live_token-handle_logout :
    (later : Time) (r : Request) (a : Auth) (tok c : String)
    → r.cookie ≡ some tok
    → live_token later (handle_logout r a).1.tokens (some c)
      ≡ (if str_eq tok c then false else live_token later a.tokens (some c))
unfolding handle_logout
live_token-handle_logout later r a tok c h = ground (arith, lookup-delete tok c a.tokens)

-- Some entry of this token is over.
expired_in : Time → String → List (String × Time) → Bool
expired_in now tok [] = false
expired_in now tok ((t, e) ∷ entries) = (str_eq t tok && ltb_ℤ e now) || expired_in now tok entries

lookup-sweep :
    (now : Time) (tok : String) (entries : List (String × Time)) (m : Map Time)
    → lookup tok (sweep now entries m) ≡ (if expired_in now tok entries then none else lookup tok m)
unfolding sweep expired_in
lookup-sweep now tok [] m = refl
lookup-sweep now tok ((t, e) ∷ entries) m = ground (
  arith,
  lookup-sweep now tok entries m,
  lookup-sweep now tok entries (delete t m),
  lookup-delete t tok m,
)

expired_in-lookup :
    (now : Time) (tok : String) (m : Map Time)
    → IsUnique m
    → expired_in now tok m ≡ elim (lookup tok m) [ none ↦ false | some e ↦ ltb_ℤ e now ]
unfolding expired_in lookup
expired_in-lookup now tok [] u = refl
expired_in-lookup now tok ((t, e) ∷ m) (fresh, u) =
    ground (arith, expired_in-lookup now tok m u, eq_iff t tok)

-- If no token stands in the map twice, the garbage collector is invisible: at no later time does
-- it make a token more or less live.
pub live_token-gc :
    (now later : Time) (a : Auth) (tok : String)
    → IsUnique a.tokens
    → now ≤ℤ later
    → live_token later (gc now a).tokens (some tok) ≡ live_token later a.tokens (some tok)
unfolding gc
live_token-gc now later a tok u h =
    ground (arith, lookup-sweep now tok a.tokens a.tokens, expired_in-lookup now tok a.tokens u)
