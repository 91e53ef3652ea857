-- ===== src/Lobby/Sessions.antt =====
-- The handlers of the `measurement.*` events in lobby/src/gateway_handler.py.
use sonalyze_backend.Prelude.{ℕ, String, Option, none, some, is_empty, length, ◌==◌, if◌then◌else◌}
use sonalyze_backend.Coordinator.Messages.{Reply, SessionError}
use sonalyze_backend.Coordinator.Messages
use sonalyze_backend.Coordinator.Table.{Call, call, add_session}
use sonalyze_backend.Lobby.Service.{Env}
use sonalyze_backend.Lobby.Request.{
  ClientData, is_missing, Body, Detail, Response, body, http, Service, Handler, fail, Checked,
  complete, incomplete, check_entries,
}

-- `create_session` with the checked lists
unfoldable pub create_with :
    Env → Option String → Option String → Checked → Checked → Service → Response × Service
unfolding add_session
create_with env (some job_id) (some lobby_id) (complete speakers) (complete microphones) s = (
  body (
      Body.session_created env.session_uuid job_id lobby_id (length speakers) (length microphones)),
  record s {
    coordinator =
        add_session env.session_uuid env.now job_id lobby_id speakers microphones s.coordinator;
  },
)
create_with env _ _ (incomplete i) microphones s = fail 400 (Detail.speaker_incomplete i) s
create_with env _ _ (complete _) (incomplete i) s = fail 400 (Detail.microphone_incomplete i) s
create_with env _ _ _ _ s = fail 400 (Detail.missing "job_id or lobby_id") s

unfoldable pub handle_create_session : Handler
unfolding create_with check_entries
handle_create_session env client data_in s =
    if is_missing data_in.job_id
    then fail 400 (Detail.missing "job_id") s
    else if is_missing data_in.lobby_id
    then fail 400 (Detail.missing "lobby_id") s
    else if is_empty data_in.speakers
    then fail 400 Detail.no_speaker s
    else if is_empty data_in.microphones
    then fail 400 Detail.no_microphone s
    else create_with env data_in.job_id data_in.lobby_id (check_entries 0 data_in.speakers)
        (check_entries 0 data_in.microphones) s

-- What a coordinator function returns or raises; every `ValueError` becomes the same status.
abbrev pub answer : ℕ → Messages.Result → Response
answer status (Messages.ok reply) = body (Body.coordinator reply)
answer status (Messages.err e) = http status (Detail.session e)

unfoldable pub call_session : ℕ → Option String → Call → Service → Response × Service
unfolding call
call_session status none c s = fail 400 (Detail.missing "session_id") s
call_session status (some id) c s =
    let (r, w) = call id c s.coordinator in (answer status r, record s { coordinator = w })

-- the test of `session_id` that each handler begins with
unfoldable pub session_handler : ℕ → Call → ClientData → Service → Response × Service
unfolding call_session
session_handler status c data_in s =
    if is_missing data_in.session_id
    then fail 400 (Detail.missing "session_id") s
    else call_session status data_in.session_id c s

-- `data.get(name, default)`
abbrev pub or_default : String → Option String → String
or_default d none = d
or_default d (some t) = t

unfoldable pub handle_start_speaker : Handler
unfolding session_handler
handle_start_speaker env client = session_handler 400 (Call.start_measurement env.now)

unfoldable pub handle_client_ready : Handler
unfolding session_handler
handle_client_ready env client = session_handler 400 (Call.client_ready client)

unfoldable pub handle_speaker_audio_ready : Handler
unfolding session_handler
handle_speaker_audio_ready env client data_in =
    session_handler 400 (Call.speaker_audio_ready client data_in.audio_hash) data_in

unfoldable pub handle_recording_started : Handler
unfolding session_handler
handle_recording_started env client = session_handler 400 (Call.recording_started client)

unfoldable pub handle_playback_complete : Handler
unfolding session_handler
handle_playback_complete env client = session_handler 400 (Call.playback_complete client)

-- the legacy event
unfoldable pub handle_speaker_finished : Handler
unfolding session_handler
handle_speaker_finished env client = session_handler 400 (Call.playback_complete client)

unfoldable pub handle_recording_uploaded : Handler
unfolding session_handler
handle_recording_uploaded env client data_in s =
    if is_missing data_in.session_id
    then fail 400 (Detail.missing "session_id") s
    else elim data_in.upload_name [
      | none ↦ fail 400 (Detail.missing "upload_name") s
      | some name ↦
          if name == ""
          then fail 400 (Detail.missing "upload_name") s
          else session_handler 400 (Call.recording_uploaded env.now client name) data_in s
    ]

unfoldable pub handle_client_error : Handler
unfolding session_handler
handle_client_error env client data_in =
    session_handler 400
      (Call.handle_error client (or_default "Unknown error" data_in.error_message)
        data_in.error_code)
      data_in

unfoldable pub handle_session_status : Handler
unfolding session_handler
handle_session_status env client = session_handler 404 Call.get_session_status

unfoldable pub handle_cancel_session : Handler
unfolding session_handler
handle_cancel_session env client data_in =
    session_handler 404 (Call.cancel_session (or_default "cancelled_by_client" data_in.reason))
      data_in

unfoldable pub handle_broadcast_results : Handler
unfolding session_handler
handle_broadcast_results env client data_in s =
    if is_missing data_in.session_id
    then fail 400 (Detail.missing "session_id") s
    else elim data_in.job_id [
      | none ↦ fail 400 (Detail.missing "job_id") s
      | some job_id ↦
          if job_id == "" then fail 400 (Detail.missing "job_id") s else elim data_in.results [
            | none ↦ fail 400 (Detail.missing "results") s
            | some results ↦
                session_handler 404 (Call.broadcast_analysis_results job_id results) data_in s
          ]
    ]
