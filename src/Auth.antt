-- ===== src/Auth.antt =====
-- internal/auth/auth.go: the password gate. Random tokens, the clock and the parsed form of a
-- request are arguments; cookies and pages are values of a reply. Each method that holds the lock
-- is one step.
pub mod Gate
pub mod Tokens
pub mod Examples
use photo_swipe.Prelude.{
  ◌≡◌, String, Bool, true, false, not, ◌||◌, Option, none, some, List, [], ◌∷◌, str_eq, starts_with,
  if◌then◌else◌,
}
use photo_swipe.Prelude.Int.{ℤ, pos, ltb_ℤ, ◌+ℤ◌}
use photo_swipe.Prelude.Map.{Map, lookup, insert, delete}
use photo_swipe.Store.Photo.{Time}

-- 30 days
abbrev pub session_ttl : ℤ
session_ttl = pos 2_592_000_000_000_000

abbrev pub login_path : String
login_path = "/login"

abbrev pub logout_path : String
logout_path = "/logout"

abbrev pub static_prefix : String
static_prefix = "/static/"

pub record Auth : Type 0 where
  pub password : String
  pub tokens : Map Time

pub data Method : Type 0 where
  get post other_method : Method

-- `cookie` is the value of the session cookie; `form` is the posted password, `none` where the form
-- cannot be parsed.
pub record Request : Type 0 where
  pub path : String
  pub method : Method
  pub cookie : Option String
  pub form : Option String
  pub tls : Bool

pub record Cookie : Type 0 where
  pub value : String
  pub http_only : Bool
  pub secure : Bool
  pub expires : Time

pub data Reply : Type 0 where
  page : String → Reply
  redirect : String → Option Cookie → Reply
  login_form wrong_password bad_request internal_error method_not_allowed : Reply

-- New
unfoldable pub new_auth : String → Auth
new_auth password = record { password = password; tokens = [] }

-- The loop of gc over the entries: it deletes those whose time is over.
unfoldable pub sweep : Time → List (String × Time) → Map Time → Map Time
sweep now [] tokens = tokens
sweep now ((tok, exp) ∷ entries) tokens =
    sweep now entries (if ltb_ℤ exp now then delete tok tokens else tokens)

unfoldable pub gc : Time → Auth → Auth
unfolding sweep
gc now a = record a { tokens = sweep now a.tokens a.tokens }

unfoldable pub authenticated : Time → Option String → Auth → Bool × Auth
authenticated now none a = (false, a)
authenticated now (some tok) a = elim (lookup tok a.tokens) [
  | none ↦ (false, a)
  | some exp ↦
      if ltb_ℤ exp now then (false, record a { tokens = delete tok a.tokens }) else (true, a)
]

-- time.Unix(0, 0), in nanoseconds from Go's zero time
abbrev pub unix_epoch : Time
unix_epoch = pos 62_135_596_800_000_000_000

unfoldable pub handle_logout : Request → Auth → Reply × Auth
handle_logout r a = (
  redirect login_path
      (some (record { value = ""; http_only = false; secure = false; expires = unix_epoch })),
  elim r.cookie [ none ↦ a | some tok ↦ record a { tokens = delete tok a.tokens } ],
)

-- Middleware, round the handler `next`.
unfoldable pub middleware : (Request → Auth → Reply × Auth) → Time → Request → Auth → Reply × Auth
middleware next now r a =
    if str_eq r.path login_path || starts_with r.path static_prefix
    then next r a
    else if str_eq r.path logout_path
    then handle_logout r a
    else let (allowed, a') = authenticated now r.cookie a in
      if not allowed then (redirect login_path none, a') else next r a'

-- The branch of HandleLogin for a posted form; `token` is what newToken returns.
unfoldable pub post_login : Option String → Time → Request → Auth → Reply × Auth
post_login token now r a = elim r.form [
  | none ↦ (bad_request, a)
  | some pw ↦ if not (str_eq pw a.password) then (wrong_password, a) else elim token [
    | none ↦ (internal_error, a)
    | some tok ↦ (
      redirect "/" (
          some (record {
            value = tok;
            http_only = true;
            secure = r.tls;
            expires = now +ℤ session_ttl;
          })),
      record a { tokens = insert tok (now +ℤ session_ttl) a.tokens },
    )
  ]
]

unfoldable pub handle_login : Option String → Time → Request → Auth → Reply × Auth
handle_login token now r a = elim r.method [
  | get ↦ (login_form, a)
  | post ↦ post_login token now r a
  | other_method ↦ (method_not_allowed, a)
]

-- The routes of handlers.New: the login page is HandleLogin's. Every other handler, `pages`, sees
-- the request and not the tokens. The two readings of the clock in HandleLogin are one.
unfoldable pub mux : (Request → Reply) → Option String → Time → Request → Auth → Reply × Auth
mux pages token now r a =
    if str_eq r.path login_path then handle_login token now r a else (pages r, a)

-- One request through the gate, or one round of the garbage collector.
pub data Event : Type 0 where
  serve : Option String → Time → Request → Event
  collect : Time → Event

unfoldable pub step : (Request → Reply) → Event → Auth → Auth
step pages (serve token now r) a = (middleware (mux pages token now) now r a).1
step pages (collect now) a = gc now a

unfoldable pub run : (Request → Reply) → List Event → Auth → Auth
run pages [] a = a
run pages (e ∷ es) a = run pages es (step pages e a)
