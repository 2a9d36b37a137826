-- ===== src/Store/State.antt =====
-- internal/store/store.go: the state of the store, and how an operation ends in `saveLocked`.
-- Each exported method holds the lock from start to end, so it is one step; the write lock is not
-- modelled further.
use photo_swipe.Prelude.{◌≡◌, refl, String, Bool, Option, none, some, [], if◌then◌else◌, arith}
use photo_swipe.Prelude.Int.{ℤ, pos}
use photo_swipe.Prelude.Map.{Map}
use photo_swipe.Store.Photo.{Photo, Time}
use photo_swipe.Store.Session.{Session, Settings, default_settings}

pub record RootState : Type 0 where
  pub version : ℤ
  pub photos : Map Photo
  pub session : Option Session
  pub settings : Settings
  pub daily_stats : Map ℤ
  pub last_batch_done : ℤ

-- `disk` is the content of the state file, `none` where there is no file.
pub record Store : Type 0 where
  pub state : RootState
  pub disk : Option String

-- What one call meets outside the program: the clock, the printed day of a time, the name that
-- `PhotoID` derives from a path (SHA-256 in base64), the random session id, the JSON codec, and
-- whether the temporary file is written and renamed.
pub record Env : Type 0 where
  pub now : Time
  pub day : Time → String
  pub photo_id : String → String
  pub rand_id : Option String
  pub marshal : RootState → Option String
  pub unmarshal : String → Option RootState
  pub read_ok : Bool
  pub write_ok : Bool
  pub rename_ok : Bool

pub data Error : Type 0 where
  photo_not_found : String → Error
  no_active_session nothing_to_undo invalid_mix negative_target no_entropy : Error
  unreadable bad_json marshal_failed write_failed rename_failed : Error

pub data Result (A : Type 0) : Type 0 where
  ok : A → Result A
  err : Error → Result A

-- saveLocked
unfoldable pub save_locked : Env → Store → Result (Unit {0}) × Store
save_locked env s = elim (env.marshal s.state) [
  | none ↦ (err marshal_failed, s)
  | some bytes ↦
      if env.write_ok
      then if env.rename_ok then (ok tt, record s { disk = some bytes }) else (err rename_failed, s)
      else (err write_failed, s)
]

abbrev pub returning : {A : Type 0} → A → Result (Unit {0}) → Result A
returning a (ok _) = ok a
returning a (err e) = err e

-- if err := s.saveLocked(); err != nil { return nil, err }; return a, nil
unfoldable pub save_and_return : {A : Type 0} → Env → A → Store → Result A × Store
unfolding save_locked
save_and_return env a s = let (r, s') = save_locked env s in (returning a r, s')

-- The critical section of a method that saves once it has succeeded, and not when it fails.
unfoldable pub commit : {A : Type 0} → Env → Store → Result A × RootState → Result A × Store
commit env s (ok a, st) = save_and_return env a (record s { state = st })
commit env s (err e, st) = (err e, record s { state = st })

-- The save changes nothing in memory, whether it succeeds or not.
pub state-save_locked : (env : Env) (s : Store) → (save_locked env s).1.state ≡ s.state
unfolding save_locked
state-save_locked env s = ground arith

pub state-commit :
    {A : Type 0} (env : Env) (s : Store) (r : Result A × RootState) → (commit env s r).1.state ≡ r.1
unfolding commit save_and_return
state-commit env s (ok a, st) = state-save_locked env (record s { state = st })
state-commit env s (err e, st) = refl

-- An operation that returns no error has left its state in the file.
pub disk-commit :
    {A : Type 0} (env : Env) (s : Store) (r : Result A × RootState) (a : A)
    → (commit env s r).0 ≡ ok a
    → (commit env s r).1.disk ≡ env.marshal (commit env s r).1.state
unfolding commit save_and_return save_locked
disk-commit env s (ok b, st) a h = ground arith
disk-commit env s (err e, st) a h = ground arith

pub result-commit :
    {A : Type 0} (env : Env) (s : Store) (r : Result A × RootState) (a : A)
    → (commit env s r).0 ≡ ok a
    → r.0 ≡ ok a
unfolding commit save_and_return save_locked
result-commit env s (ok b, st) a h = ground arith
result-commit env s (err e, st) a h = ground arith

abbrev pub empty_state : RootState
empty_state = record {
  version = pos 1;
  photos = [];
  session = none;
  settings = default_settings;
  daily_stats = [];
  last_batch_done = pos 0;
}
