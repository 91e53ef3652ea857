-- ===== src/Gateway/Router.antt =====
-- gateway/src/gateway/router.py, with the messages of gateway/src/gateway/models.py and the settings of
-- gateway/src/gateway/config.py. The HTTP client is a parameter.
use text.Mathlib.Text.{starts_with}
use sonalyze_backend.Prelude.{
  ℕ, String, ◌||◌, Option, none, some, List, [], ◌∷◌, ◌==◌, leb, if◌then◌else◌,
}
use sonalyze_backend.Json.{Value, Fields}
use sonalyze_backend.Gateway.Connections.{contains}

pub record Settings : Type 0 where
  pub lobby_url : String
  pub measurement_url : String
  pub simulation_url : String
  pub max_message_bytes : ℕ

pub record ClientMessage : Type 0 where
  pub event : String
  pub request_id : Option String
  pub data_in : Fields

pub record GatewayClientInfo : Type 0 where
  pub device_id : String
  pub connection_id : String
  pub ip : Option String

pub record GatewayForwardRequest : Type 0 where
  pub client : GatewayClientInfo
  pub message : ClientMessage

-- what `post_json` returns or raises
pub data Upstream : Type 0 where
  answered : ℕ → Value → Upstream
  timeout : Upstream
  unreachable : Upstream

-- the exceptions of `forward`: a `ValueError`, and the `RuntimeError`s by their texts
pub data ForwardError : Type 0 where
  unknown_event : String → ForwardError
  upstream_timeout : ForwardError
  upstream_unreachable : ForwardError
  upstream_error : ℕ → Value → ForwardError

pub data Forwarded : Type 0 where
  ok : Value → Forwarded
  err : ForwardError → Forwarded

-- `MEASUREMENT_SESSION_EVENTS`
abbrev pub measurement_session_events : List String
measurement_session_events =
    "measurement.create_session" ∷ "measurement.start_speaker" ∷ "measurement.session_status"
    ∷ "measurement.cancel_session" ∷ "measurement.broadcast_results" ∷ "measurement.ready"
    ∷ "measurement.client_ready" ∷ "measurement.speaker_audio_ready"
    ∷ "measurement.recording_started" ∷ "measurement.playback_complete"
    ∷ "measurement.speaker_finished" ∷ "measurement.recording_uploaded" ∷ "measurement.error" ∷ []

-- `MEASUREMENT_STATELESS_EVENTS`
abbrev pub measurement_stateless_events : List String
measurement_stateless_events =
    "measurement.create_job" ∷ "measurement.get_job" ∷ "measurement.get_audio_info" ∷ "analysis.run"
    ∷ []

-- `_service_url_for_event`
unfoldable pub service_url_for_event : Settings → String → Option String
unfolding contains
service_url_for_event st event =
    if starts_with event "lobby." || starts_with event "role."
    then some st.lobby_url
    else if contains event measurement_session_events
    then some st.lobby_url
    else if contains event measurement_stateless_events
    then some st.measurement_url
    else if starts_with event "measurement."
    then some st.lobby_url
    else if starts_with event "analysis."
    then some st.measurement_url
    else if starts_with event "simulation."
    then some st.simulation_url
    else none

-- the keys of `EVENT_HANDLERS` in measurement/src/app/gateway_handler.py
abbrev pub measurement_events : List String
measurement_events =
    "measurement.create_job" ∷ "measurement.get_job" ∷ "measurement.get_audio_info" ∷ "analysis.run"
    ∷ []

-- the keys of `EVENT_HANDLERS` in simulation/src/sonalyze_simulation/gateway_handler.py
abbrev pub simulation_events : List String
simulation_events = "simulation.run" ∷ "simulation.health" ∷ []

-- the end of `forward`, on what the service has answered; the error's text is made from the body
unfoldable pub read_answer : Upstream → Forwarded
read_answer (answered status body) =
    if leb 400 status then err (upstream_error status body) else ok body
read_answer timeout = err upstream_timeout
read_answer unreachable = err upstream_unreachable

-- `post` is `self._http.post_json`, by the service's url.
module _ (st : Settings) (post : String → GatewayForwardRequest → Upstream) where
  unfoldable pub forward : GatewayClientInfo → ClientMessage → Forwarded
  unfolding service_url_for_event read_answer
  forward client message = elim (service_url_for_event st message.event) [
    | none ↦ err (unknown_event message.event)
    | some url ↦
        if url == ""
        then err (unknown_event message.event)
        else read_answer (post url (record { client = client; message = message }))
  ]
