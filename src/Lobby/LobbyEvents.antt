-- ===== src/Lobby/LobbyEvents.antt =====
-- The handlers of the lobby events in lobby/src/gateway_handler.py answer by an HTTP error without effect.
use sonalyze_backend.Prelude.{String, ◌||◌, Option, none, some}
use sonalyze_backend.Json.{Value}
use sonalyze_backend.Lobby.Model.{Lobby, ParticipantRole}
use sonalyze_backend.Lobby.Service.{Env}
use sonalyze_backend.Lobby.Request.{
  ClientData, Detail, Response, Service, fail, is_missing, parse_role,
}
use sonalyze_backend.Lobby.Handlers
use sonalyze_backend.Lobby.Handlers.{
  respond, with_lobby, by_id, by_code, create_action, join_action, leave_action, view_action,
  assign_action, start_action, share_action, step_action, profile_action, join_as, leave_by,
  view_lobby, assign_as, assign_in, start_in, share_in, step_in, profile_in,
}
use sonalyze_backend.Lobby.Clean.{
  IsClean, respond-IsClean, with_lobby-IsClean, if-IsClean, fail-IsClean, create_action-IsAtomic,
  join_action-IsAtomic, leave_action-IsAtomic, view_action-IsAtomic, assign_action-IsAtomic,
  start_action-IsAtomic, share_action-IsAtomic, step_action-IsAtomic, profile_action-IsAtomic,
}

module _ (env : Env) (client : String) (d : ClientData) (s : Service) where
  pub handle_lobby_create-IsClean : IsClean s (Handlers.handle_lobby_create env client d s)
  unfolding Handlers.handle_lobby_create
  handle_lobby_create-IsClean =
      respond-IsClean Handlers.internal (create_action env client) s
        (create_action-IsAtomic env client)

  pub handle_lobby_join-IsClean : IsClean s (Handlers.handle_lobby_join env client d s)
  unfolding Handlers.handle_lobby_join
  handle_lobby_join-IsClean = if-IsClean (is_missing d.code) s _ _ (fail-IsClean _ _ s) (
      with_lobby-IsClean (by_code d.code s) (join_as env client) s λ lobby.
        respond-IsClean Handlers.internal (join_action env client lobby) s
          (join_action-IsAtomic env client lobby))

  pub handle_lobby_leave-IsClean : IsClean s (Handlers.handle_lobby_leave env client d s)
  unfolding Handlers.handle_lobby_leave
  handle_lobby_leave-IsClean = if-IsClean (is_missing d.lobby_id) s _ _ (fail-IsClean _ _ s) (
      with_lobby-IsClean (by_id d.lobby_id s) (leave_by env client) s λ lobby.
        respond-IsClean Handlers.internal (leave_action env client lobby) s
          (leave_action-IsAtomic env client lobby))

  view_lobby-IsClean : (lobby : Lobby) → IsClean s (view_lobby lobby s)
  unfolding view_lobby
  view_lobby-IsClean lobby =
      respond-IsClean Handlers.internal (view_action lobby) s (view_action-IsAtomic lobby)

  pub handle_lobby_get-IsClean : IsClean s (Handlers.handle_lobby_get env client d s)
  unfolding Handlers.handle_lobby_get
  handle_lobby_get-IsClean =
      if-IsClean (is_missing d.lobby_id) s _ _
        (if-IsClean (is_missing d.code) s _ _ (fail-IsClean _ _ s)
          (with_lobby-IsClean (by_code d.code s) view_lobby s view_lobby-IsClean))
        (with_lobby-IsClean (by_id d.lobby_id s) view_lobby s view_lobby-IsClean)

  assign_in-IsClean :
      (target role_text slot_id slot_label : Option String) (lobby : Lobby)
      → IsClean s (assign_in env client target role_text slot_id slot_label lobby s)
  unfolding assign_in
  assign_in-IsClean none r i l lobby = fail-IsClean _ _ s
  assign_in-IsClean (some t) none i l lobby = fail-IsClean _ _ s
  assign_in-IsClean (some t) (some r) i l lobby = go (parse_role r)
    where
      go :
          (o : Option ParticipantRole)
          → IsClean s (elim o [
            | none ↦ fail 400 (Detail.invalid_role r) s
            | some role ↦ assign_as env client t role i l lobby s
          ])
      go none = fail-IsClean _ _ s
      go (some role) =
          respond-IsClean Handlers.permission_or_lookup (assign_action env client t role i l lobby)
            s (assign_action-IsAtomic env client t role i l lobby)

  pub handle_role_assign-IsClean : IsClean s (Handlers.handle_role_assign env client d s)
  unfolding Handlers.handle_role_assign
  handle_role_assign-IsClean =
      if-IsClean (is_missing d.lobby_id || (is_missing d.target_device_id || is_missing d.role)) s _
        _ (fail-IsClean _ _ s)
        (with_lobby-IsClean (by_id d.lobby_id s)
          (assign_in env client d.target_device_id d.role d.role_slot_id d.role_slot_label) s
          (assign_in-IsClean d.target_device_id d.role d.role_slot_id d.role_slot_label))

  pub handle_lobby_start-IsClean : IsClean s (Handlers.handle_lobby_start env client d s)
  unfolding Handlers.handle_lobby_start
  handle_lobby_start-IsClean = if-IsClean (is_missing d.lobby_id) s _ _ (fail-IsClean _ _ s) (
      with_lobby-IsClean (by_id d.lobby_id s) (start_in env client) s λ lobby.
        respond-IsClean Handlers.permission_or_state (start_action env client lobby) s
          (start_action-IsAtomic env client lobby))

  share_in-IsClean : (room : Value) (lobby : Lobby) → IsClean s (share_in env client room lobby s)
  unfolding share_in
  share_in-IsClean (Value.object room) lobby =
      respond-IsClean Handlers.permission_or_value (share_action env client room lobby) s
        (share_action-IsAtomic env client room lobby)
  share_in-IsClean _ lobby = fail-IsClean _ _ s

  -- a handler that wants a JSON entry
  entry-IsClean :
      (o : Option Value) (name : String) (next : Value → Lobby → Service → Response × Service)
      → ((v : Value) (lobby : Lobby) → IsClean s (next v lobby s))
      → IsClean s (elim o [
        | none ↦ fail 400 (Detail.missing name) s
        | some v ↦ with_lobby (by_id d.lobby_id s) (next v) s
      ])
  entry-IsClean none name next clean = fail-IsClean _ _ s
  entry-IsClean (some v) name next clean =
      with_lobby-IsClean (by_id d.lobby_id s) (next v) s (clean v)

  pub handle_lobby_room_snapshot-IsClean :
      IsClean s (Handlers.handle_lobby_room_snapshot env client d s)
  unfolding Handlers.handle_lobby_room_snapshot
  handle_lobby_room_snapshot-IsClean =
      if-IsClean (is_missing d.lobby_id) s _ _ (fail-IsClean _ _ s)
        (entry-IsClean d.room "room" (share_in env client) share_in-IsClean)

  pub handle_lobby_step_update-IsClean :
      IsClean s (Handlers.handle_lobby_step_update env client d s)
  unfolding Handlers.handle_lobby_step_update
  handle_lobby_step_update-IsClean = if-IsClean (is_missing d.lobby_id) s _ _ (fail-IsClean _ _ s) (
      entry-IsClean d.step_index "step_index" (step_in env client) λ i lobby.
        respond-IsClean Handlers.permission_only (step_action env client i lobby) s
          (step_action-IsAtomic env client i lobby))

  profile_in-IsClean :
      (p : Option String) (lobby : Lobby) → IsClean s (profile_in env client p lobby s)
  unfolding profile_in
  profile_in-IsClean none lobby = fail-IsClean _ _ s
  profile_in-IsClean (some p) lobby =
      respond-IsClean Handlers.permission_only (profile_action env client p lobby) s
        (profile_action-IsAtomic env client p lobby)

  pub handle_lobby_profile_update-IsClean :
      IsClean s (Handlers.handle_lobby_profile_update env client d s)
  unfolding Handlers.handle_lobby_profile_update
  handle_lobby_profile_update-IsClean =
      if-IsClean (is_missing d.lobby_id) s _ _ (fail-IsClean _ _ s) (
        if-IsClean (is_missing d.profile_id) s _ _ (fail-IsClean _ _ s) (
          with_lobby-IsClean (by_id d.lobby_id s) (profile_in env client d.profile_id) s
            (profile_in-IsClean d.profile_id)))
