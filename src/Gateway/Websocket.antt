-- ===== src/Gateway/Websocket.antt =====
-- The websocket endpoint of gateway/src/gateway/main.py: what a connection does with one text that it
-- receives. `json.loads` and pydantic's validation are parameters.
use sonalyze_backend.Prelude.{
  ℕ, String, Option, none, some, List, [], ◌∷◌, ◌==◌, ltb, not, if◌then◌else◌,
}
use sonalyze_backend.Json.{Value, Fields}
use sonalyze_backend.Gateway.RateLimit.{TokenBucket, allow}
use sonalyze_backend.Gateway.Connections.{Connection, ConnectionManager, bind_device_id, update}
use sonalyze_backend.Gateway.Router.{
  Settings, ClientMessage, GatewayClientInfo, GatewayForwardRequest, Upstream, ForwardError,
  Forwarded, ok, err, forward, unknown_event,
}

-- the `code` of an error, with what its message is made from
pub data ErrorBody : Type 0 where
  message_too_large : ErrorBody
  rate_limited : ErrorBody
  invalid_message : ErrorBody
  unauthenticated : ErrorBody
  identify_incomplete : ErrorBody
  failed : ForwardError → ErrorBody

pub data ServerMessage : Type 0 where
  identified : Option String → String → ServerMessage
  response : String → Option String → Value → ServerMessage
  error : String → Option String → ErrorBody → ServerMessage

-- A received text: its size, and what `ClientMessage.model_validate(json.loads(raw))` makes of it.
pub record Frame : Type 0 where
  pub bytes : ℕ
  pub message : Option ClientMessage

-- What one turn of the loop sends to the client and forwards, and the connections after it.
pub record Turn : Type 0 where
  pub replies : List ServerMessage
  pub forwarded : List GatewayForwardRequest
  pub connections : ConnectionManager

abbrev pub say : ServerMessage → ConnectionManager → Turn
say message m = record { replies = message ∷ []; forwarded = []; connections = m }

abbrev pub set_limiter : TokenBucket → Connection → Connection
set_limiter b conn = record conn { rate_limiter = b }

abbrev pub client_info : String → Connection → GatewayClientInfo
client_info device_id conn = record {
  device_id = device_id;
  connection_id = conn.connection_id;
  ip = conn.ip;
}

-- the reply to a forwarded message
abbrev pub reply_to : ClientMessage → Forwarded → ServerMessage
reply_to msg (ok body) = ServerMessage.response msg.event msg.request_id body
reply_to msg (err e) = ServerMessage.error msg.event msg.request_id (failed e)

-- The service that is asked: nothing is posted for an unknown event.
abbrev pub posted : GatewayForwardRequest → Forwarded → List GatewayForwardRequest
posted req (err (unknown_event event)) = []
posted req _ = req ∷ []

-- `validate` is `IdentifyData.model_validate`, `post` the HTTP client, and one token is `unit` parts.
module _ (st : Settings) (unit : ℕ) (validate : Fields → Option String)
    (post : String → GatewayForwardRequest → Upstream) where
  -- a valid message of a connection that has not identified itself
  unfoldable pub identify : Connection → ClientMessage → ConnectionManager → Turn
  unfolding bind_device_id
  identify conn msg m =
      if not (msg.event == "identify")
      then say (ServerMessage.error msg.event msg.request_id unauthenticated) m
      else elim (validate msg.data_in) [
        | none ↦ say (ServerMessage.error msg.event msg.request_id identify_incomplete) m
        | some device_id ↦
            say (ServerMessage.identified msg.request_id device_id)
              (bind_device_id conn.connection_id device_id m)
      ]

  -- a valid message of a connection that has
  unfoldable pub pass_on : Connection → String → ClientMessage → ConnectionManager → Turn
  unfolding forward
  pass_on conn device_id msg m =
      let client = client_info device_id conn in
      let body = forward st post client msg in
      record {
        replies = reply_to msg body ∷ [];
        forwarded = posted (record { client = client; message = msg }) body;
        connections = m;
      }

  unfoldable pub accept : Connection → Option ClientMessage → ConnectionManager → Turn
  unfolding identify pass_on
  accept conn none m = say (ServerMessage.error "gateway" none invalid_message) m
  accept conn (some msg) m = elim conn.device_id [
    | none ↦ identify conn msg m
    | some device_id ↦ pass_on conn device_id msg m
  ]

  -- One turn of the loop, at the time `now`; `conn` is the object that the loop holds.
  unfoldable pub receive : Connection → ℕ → Frame → ConnectionManager → Turn
  unfolding allow update accept
  receive conn now frame m =
      if ltb st.max_message_bytes frame.bytes
      then say (ServerMessage.error "gateway" none message_too_large) m
      else (let (granted, bucket) = allow now unit conn.rate_limiter in
          let m' = update conn.connection_id (set_limiter bucket) m in
          if granted
          then accept conn frame.message m'
          else say (ServerMessage.error "gateway" none rate_limited) m')
