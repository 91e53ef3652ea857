-- ===== src/Lobby/Gateway.antt =====
-- The table of handlers and `gateway_handle` of lobby/src/gateway_handler.py.
use sonalyze_backend.Prelude.{String, none, some, [], ◌∷◌, Dict, lookup}
use sonalyze_backend.Lobby.Request.{Detail, Service, Handler, fail}
use sonalyze_backend.Lobby.Handlers
use sonalyze_backend.Lobby.Sessions

-- `EVENT_HANDLERS`
unfoldable pub event_handlers : Dict Handler
event_handlers =
    ("lobby.create", Handlers.handle_lobby_create)
    ∷ ("lobby.join", Handlers.handle_lobby_join)
    ∷ ("lobby.leave", Handlers.handle_lobby_leave)
    ∷ ("lobby.get", Handlers.handle_lobby_get)
    ∷ ("lobby.start", Handlers.handle_lobby_start)
    ∷ ("lobby.step_update", Handlers.handle_lobby_step_update)
    ∷ ("lobby.profile_update", Handlers.handle_lobby_profile_update)
    ∷ ("role.assign", Handlers.handle_role_assign)
    ∷ ("lobby.room_snapshot", Handlers.handle_lobby_room_snapshot)
    ∷ ("measurement.create_session", Sessions.handle_create_session)
    ∷ ("measurement.start_speaker", Sessions.handle_start_speaker)
    ∷ ("measurement.session_status", Sessions.handle_session_status)
    ∷ ("measurement.cancel_session", Sessions.handle_cancel_session)
    ∷ ("measurement.broadcast_results", Sessions.handle_broadcast_results)
    ∷ ("measurement.ready", Sessions.handle_client_ready)
    ∷ ("measurement.client_ready", Sessions.handle_client_ready)
    ∷ ("measurement.speaker_audio_ready", Sessions.handle_speaker_audio_ready)
    ∷ ("measurement.recording_started", Sessions.handle_recording_started)
    ∷ ("measurement.playback_complete", Sessions.handle_playback_complete)
    ∷ ("measurement.speaker_finished", Sessions.handle_speaker_finished)
    ∷ ("measurement.recording_uploaded", Sessions.handle_recording_uploaded)
    ∷ ("measurement.error", Sessions.handle_client_error)
    ∷ []

-- Every request has a database session of its own, which begins with what is committed.
abbrev pub begin : Service → Service
begin s = record s { db = record s.db { working = s.db.committed } }

-- One forwarded event. What the handler has not committed is gone with its session.
unfoldable pub gateway_handle : String → Handler
unfolding lookup
gateway_handle event env client data_in s = elim (lookup event event_handlers) [
  | none ↦ fail 400 (Detail.unknown_event event) (begin s)
  | some handler ↦ let (r, s') = handler env client data_in (begin s) in (r, begin s')
]
