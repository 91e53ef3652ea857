-- ===== src/Lobby/Monad.antt =====
-- One request's work on the database: SQLAlchemy's `AsyncSession` (lobby/src/db.py) and Python's
-- exceptions. What is not committed when the request ends is rolled back.
use sonalyze_backend.Prelude.{Bool, true, false, List, ◌++◌}
use sonalyze_backend.Lobby.Model.{Db, LobbyBroadcast}

-- `working` is what the open transaction reads, `committed` what it would leave if it ended now.
pub record DbSession : Type 0 where
  pub committed : Db
  pub working : Db
  pub outbox : List LobbyBroadcast

-- the exceptions that the service raises, by class and message
pub data ServiceError : Type 0 where
  not_open : ServiceError
  not_admin : ServiceError
  target_not_found : ServiceError
  not_startable : ServiceError
  no_unique_code : ServiceError

pub data Result (A : Type 0) : Type 0 where
  ok : A → Result A
  err : ServiceError → Result A

-- What was written before a raise stays written, so the session comes back beside the error too.
abbrev pub Action : Type 0 → Type 0
Action A = DbSession → Result A × DbSession

module _ {A : Type 0} where
  abbrev pub pure : A → Action A
  pure a s = (ok a, s)

  abbrev pub raise : ServiceError → Action A
  raise e s = (err e, s)

  -- a query
  abbrev pub query : (Db → A) → Action A
  query f s = (ok (f s.working), s)

infixl 5 ◌>>=◌ ◌>>◌
abbrev pub ◌>>=◌ : {A B : Type 0} → Action A → (A → Action B) → Action B
◌>>=◌ m f s = let (r, s') = m s in elim r [ ok a ↦ f a s' | err e ↦ (err e, s') ]

abbrev pub ◌>>◌ : {A B : Type 0} → Action A → Action B → Action B
m >> k = m >>= λ _. k

abbrev pub raise_if : Bool → ServiceError → Action (Unit {0})
raise_if true e = raise e
raise_if false e = pure tt

-- `session.add`, and an assignment to attributes of a row, with the flush
abbrev pub modify : (Db → Db) → Action (Unit {0})
modify f s = (ok tt, record s { working = f s.working })

-- `await session.commit()`
abbrev pub commit : Action (Unit {0})
commit s = (ok tt, record s { committed = s.working })

abbrev pub send : List LobbyBroadcast → Action (Unit {0})
send bs s = (ok tt, record s { outbox = s.outbox ++ bs })
