-- ===== src/Coordinator/Table.antt =====
-- The session table `_sessions` of lobby/src/measurement_coordinator.py, and the coordinator's
-- functions as calls on it. A session is one object that the table refers to, so what a call does to
-- it stays in the table.
use sonalyze_backend.Prelude.{
  ℕ, String, Option, none, some, List, [], ◌∷◌, ◌++◌, Dict, lookup, insert,
}
use sonalyze_backend.Json.{Value}
use sonalyze_backend.Coordinator.Model.{MeasurementSession, all_device_ids}
use sonalyze_backend.Coordinator.Messages.{Broadcast, session_not_found, Result, err, Outcome}
use sonalyze_backend.Coordinator.Start
use sonalyze_backend.Coordinator.Start.{ClientInfo}
use sonalyze_backend.Coordinator.Recording
use sonalyze_backend.Coordinator.Control

-- The state of the module: its setting, its table and what has been broadcast.
pub record World : Type 0 where
  pub gateway_url : String
  pub sessions : Dict MeasurementSession
  pub outbox : List Broadcast

-- The functions that take a session id, with their other arguments; a number is the time.
pub data Call : Type 0 where
  start_measurement : ℕ → Call
  client_ready : String → Call
  speaker_audio_ready : String → Option String → Call
  recording_started : String → Call
  playback_complete : String → Call
  recording_uploaded : ℕ → String → String → Call
  get_session_status : Call
  cancel_session : String → Call
  handle_error : String → String → Option String → Call
  broadcast_analysis_results : String → Value → Call

-- What a call does once the session is found.
unfoldable pub step : String → String → Call → MeasurementSession → Outcome
step url id (Call.start_measurement now) s = Start.start_measurement id now s
step url id (Call.client_ready device_id) s = Start.client_ready url id device_id s
step url id (Call.speaker_audio_ready device_id audio_hash) s =
    Recording.speaker_audio_ready id device_id audio_hash s
step url id (Call.recording_started device_id) s = Recording.recording_started id device_id s
step url id (Call.playback_complete device_id) s = Recording.playback_complete url id device_id s
step url id (Call.recording_uploaded now device_id name) s =
    Recording.recording_uploaded id now device_id name s
step url id Call.get_session_status s = Control.get_session_status id s
step url id (Call.cancel_session reason) s = Control.cancel_session id reason s
step url id (Call.handle_error device_id message code) s =
    Control.handle_error id device_id message code s
step url id (Call.broadcast_analysis_results job_id results) s =
    Control.broadcast_analysis_results id job_id results s

-- `session = await get_session(session_id)` and the raise where there is none.
unfoldable pub call : String → Call → World → Result × World
call id c w = elim (lookup id w.sessions) [
  | none ↦ (err (session_not_found id), w)
  | some s ↦
      let o = step w.gateway_url id c s in
      (
        o.result,
        record w { sessions = insert id o.session w.sessions; outbox = w.outbox ++ o.sent },
      )
]

-- The entry that `create_session` makes in the table.
unfoldable pub add_session :
    String → ℕ → String → String → List ClientInfo → List ClientInfo → World → World
unfolding Start.create_session
add_session id now job_id lobby_id speakers microphones w = record w {
  sessions =
      insert id (Start.create_session id now job_id lobby_id speakers microphones) w.sessions;
}

unfoldable pub get_session_device_ids : String → World → List String
unfolding all_device_ids
get_session_device_ids id w = elim (lookup id w.sessions) [ none ↦ [] | some s ↦ all_device_ids s ]

-- Calls on one session, one after the other.
unfoldable pub run : String → String → List Call → MeasurementSession → MeasurementSession
run url id [] s = s
run url id (c ∷ cs) s = run url id cs (step url id c s).session

-- What those calls broadcast, in order.
unfoldable pub broadcasts : String → String → List Call → MeasurementSession → List Broadcast
broadcasts url id [] s = []
broadcasts url id (c ∷ cs) s = let o = step url id c s in o.sent ++ broadcasts url id cs o.session
