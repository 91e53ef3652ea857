-- ===== src/Lobby/Clean.antt =====
-- The parts of a handler in lobby/src/gateway_handler.py that answer by an HTTP error without effect.
use sonalyze_backend.Prelude.{
  ℕ, String, ◌≡◌, refl, ap, sym, ◌∙◌, Bool, true, false, Option, none, some, arith, if◌then◌else◌,
}
use sonalyze_backend.Json.{Value, Fields}
use sonalyze_backend.Lobby.Model.{Lobby, ParticipantRole}
use sonalyze_backend.Lobby.Monad.{DbSession, Action, ServiceError, Result, ok, err}
use sonalyze_backend.Lobby.Service.{Env}
use sonalyze_backend.Lobby.Request.{Body, Detail, Response, http, Service, fail}
use sonalyze_backend.Lobby.Handlers
use sonalyze_backend.Lobby.Handlers.{
  respond, with_lobby, by_id, by_code, create_action, join_action, leave_action, view_action,
  assign_action, start_action, share_action, step_action, profile_action, join_as, leave_by,
  view_lobby, assign_as, assign_in, start_in, share_in, step_in, profile_in,
}
use sonalyze_backend.Lobby.Atomic.{
  IsAtomic, create_lobby-IsAtomic, join_lobby-IsAtomic, leave_lobby-IsAtomic, assign_role-IsAtomic,
  start_measurement-IsAtomic, share_room_snapshot-IsAtomic, step_update-IsAtomic,
  profile_update-IsAtomic,
}

-- If the answer is an HTTP error, the state is as it was.
abbrev pub IsClean : Service → Response × Service → Type 0
IsClean s r = (status : ℕ) (detail : Detail) → r.0 ≡ http status detail → r.1 ≡ s

pub respond-IsClean :
    (status : ServiceError → ℕ) (m : Action Body) (s : Service)
    → IsAtomic m
    → IsClean s (respond status m s)
unfolding respond
respond-IsClean status m s atomic code detail = go (m s.db).0 (m s.db).1 refl
  where
    go :
        (r : Result Body) (t : DbSession)
        → m s.db ≡ (r, t)
        → Handlers.answer status r ≡ http code detail
        → record s { db = t } ≡ s
    go (ok b) t found failed = cc
    go (err x) t found failed =
        ap (λ (d : DbSession). record s { db = d })
          (ap (λ (p : Result Body × DbSession). p.1) (sym found)
            ∙ atomic s.db x (ap (λ (p : Result Body × DbSession). p.0) found))

pub with_lobby-IsClean :
    (o : Option Lobby) (next : Lobby → Service → Response × Service) (s : Service)
    → ((lobby : Lobby) → IsClean s (next lobby s))
    → IsClean s (with_lobby o next s)
unfolding with_lobby
with_lobby-IsClean none next s clean = λ status detail e. refl
with_lobby-IsClean (some lobby) next s clean = clean lobby

pub if-IsClean :
    (b : Bool) (s : Service) (x y : Response × Service)
    → IsClean s x
    → IsClean s y
    → IsClean s (if b then x else y)
if-IsClean true s x y cx cy = cx
if-IsClean false s x y cx cy = cy

pub fail-IsClean : (status : ℕ) (detail : Detail) (s : Service) → IsClean s (fail status detail s)
fail-IsClean status detail s code d e = refl

module _ (env : Env) (client : String) where
  pub create_action-IsAtomic : IsAtomic (create_action env client)
  unfolding create_action
  create_action-IsAtomic s e h = ground (arith, create_lobby-IsAtomic env client s e)

  pub join_action-IsAtomic : (lobby : Lobby) → IsAtomic (join_action env client lobby)
  unfolding join_action
  join_action-IsAtomic lobby s e h = ground (arith, join_lobby-IsAtomic env lobby client s e)

  pub leave_action-IsAtomic : (lobby : Lobby) → IsAtomic (leave_action env client lobby)
  unfolding leave_action
  leave_action-IsAtomic lobby s e h = ground (arith, leave_lobby-IsAtomic env lobby client s e)

  pub assign_action-IsAtomic :
      (target : String) (role : ParticipantRole) (slot_id slot_label : Option String)
      (lobby : Lobby)
      → IsAtomic (assign_action env client target role slot_id slot_label lobby)
  unfolding assign_action
  assign_action-IsAtomic target role slot_id slot_label lobby s e h =
      ground (arith, assign_role-IsAtomic env lobby client target role slot_id slot_label s e)

  pub start_action-IsAtomic : (lobby : Lobby) → IsAtomic (start_action env client lobby)
  unfolding start_action
  start_action-IsAtomic lobby s e h =
      ground (arith, start_measurement-IsAtomic env lobby client s e)

  pub share_action-IsAtomic :
      (room : Fields) (lobby : Lobby) → IsAtomic (share_action env client room lobby)
  unfolding share_action
  share_action-IsAtomic room lobby s e h =
      ground (arith, share_room_snapshot-IsAtomic env lobby client room s e)

  pub step_action-IsAtomic : (i : Value) (lobby : Lobby) → IsAtomic (step_action env client i lobby)
  unfolding step_action
  step_action-IsAtomic i lobby s e h = ground (arith, step_update-IsAtomic env lobby client i s e)

  pub profile_action-IsAtomic :
      (p : String) (lobby : Lobby) → IsAtomic (profile_action env client p lobby)
  unfolding profile_action
  profile_action-IsAtomic p lobby s e h =
      ground (arith, profile_update-IsAtomic env lobby client p s e)

pub view_action-IsAtomic : (lobby : Lobby) → IsAtomic (view_action lobby)
unfolding view_action
view_action-IsAtomic lobby s e h = cc
