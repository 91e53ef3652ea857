-- ===== src/Lobby/Lost.antt =====
-- The step and profile updates of lobby/src/gateway_handler.py, which are answered and broadcast, but
-- never committed.
use sonalyze_backend.Prelude.{
  lookup, String, ◌≡◌, refl, Option, none, some, arith, Bool, if◌then◌else◌,
}
use sonalyze_backend.Json.{Value}
use sonalyze_backend.Lobby.Model.{Lobby}
use sonalyze_backend.Lobby.Service.{Env, broadcast_but}
use sonalyze_backend.Lobby.Operations.{
  broadcast_step_update, broadcast_profile_update, require_admin,
}
use sonalyze_backend.Lobby.Request.{ClientData, is_missing, Detail, Response, Service, fail}
use sonalyze_backend.Lobby.Handlers.{
  respond, with_lobby, by_id, step_action, step_in, handle_lobby_step_update, profile_action,
  profile_in, handle_lobby_profile_update,
}
use sonalyze_backend.Lobby.Gateway.{gateway_handle, event_handlers, begin}

-- What is committed is as it was.
abbrev pub IsUncommitted : Service → Response × Service → Type 0
IsUncommitted s r = r.1.db.committed ≡ s.db.committed

with_lobby-IsUncommitted :
    (o : Option Lobby) (next : Lobby → Service → Response × Service) (s : Service)
    → ((lobby : Lobby) → IsUncommitted s (next lobby s))
    → IsUncommitted s (with_lobby o next s)
unfolding with_lobby
with_lobby-IsUncommitted none next s h = refl
with_lobby-IsUncommitted (some lobby) next s h = h lobby

if-IsUncommitted :
    (b : Bool) (s : Service) (x y : Response × Service)
    → IsUncommitted s x
    → IsUncommitted s y
    → IsUncommitted s (if b then x else y)
if-IsUncommitted b s x y hx hy = ground arith

module _ (env : Env) (client : String) (s : Service) where
  step_in-IsUncommitted :
      (i : Value) (lobby : Lobby) → IsUncommitted s (step_in env client i lobby s)
  unfolding step_in respond step_action broadcast_step_update require_admin broadcast_but
  step_in-IsUncommitted i lobby = ground arith

  profile_in-IsUncommitted :
      (o : Option String) (lobby : Lobby) → IsUncommitted s (profile_in env client o lobby s)
  unfolding profile_in respond profile_action broadcast_profile_update require_admin broadcast_but
  profile_in-IsUncommitted none lobby = refl
  profile_in-IsUncommitted (some p) lobby = ground arith

  handle_lobby_step_update-IsUncommitted :
      (d : ClientData) → IsUncommitted s (handle_lobby_step_update env client d s)
  unfolding handle_lobby_step_update
  handle_lobby_step_update-IsUncommitted d =
      if-IsUncommitted (is_missing d.lobby_id) s (fail 400 (Detail.missing "lobby_id") s)
        (elim d.step_index [
          | none ↦ fail 400 (Detail.missing "step_index") s
          | some i ↦ with_lobby (by_id d.lobby_id s) (step_in env client i) s
        ])
        refl (go d.step_index)
    where
      go :
          (o : Option Value)
          → IsUncommitted s (elim o [
            | none ↦ fail 400 (Detail.missing "step_index") s
            | some i ↦ with_lobby (by_id d.lobby_id s) (step_in env client i) s
          ])
      go none = refl
      go (some i) =
          with_lobby-IsUncommitted (by_id d.lobby_id s) (step_in env client i) s
            (step_in-IsUncommitted i)

  handle_lobby_profile_update-IsUncommitted :
      (d : ClientData) → IsUncommitted s (handle_lobby_profile_update env client d s)
  unfolding handle_lobby_profile_update
  handle_lobby_profile_update-IsUncommitted d =
      if-IsUncommitted (is_missing d.lobby_id) s (fail 400 (Detail.missing "lobby_id") s)
        (if is_missing d.profile_id then fail 400 (Detail.missing "profile_id") s else found) refl
        (if-IsUncommitted (is_missing d.profile_id) s (fail 400 (Detail.missing "profile_id") s)
          found refl
          (with_lobby-IsUncommitted (by_id d.lobby_id s) (profile_in env client d.profile_id) s
            (profile_in-IsUncommitted d.profile_id)))
    where
      found : Response × Service
      found = with_lobby (by_id d.lobby_id s) (profile_in env client d.profile_id) s

-- Whatever a client sends in a `lobby.step_update` or a `lobby.profile_update`, and whatever it is
-- answered, the request leaves the committed database as it was.
pub update-IsUncommitted :
    (env : Env) (client : String) (d : ClientData) (s : Service)
    → IsUncommitted s (gateway_handle "lobby.step_update" env client d s)
      × IsUncommitted s (gateway_handle "lobby.profile_update" env client d s)
unfolding gateway_handle event_handlers lookup
update-IsUncommitted env client d s = (
  handle_lobby_step_update-IsUncommitted env client (begin s) d,
  handle_lobby_profile_update-IsUncommitted env client (begin s) d,
)
