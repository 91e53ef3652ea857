-- ===== src/Gateway/Tests.antt =====
-- The gateway (gateway/src/gateway) on a few connections, and the theorems about it at them.
use sonalyze_backend.Prelude.{
  texts_apart, ◌∙◌, String, ◌≡◌, ◌≢◌, ◌≤◌, ◌*◌, ◌+◌, ◌-◌, refl, true, none, some, Option, [], ◌∷◌,
  All, lookup, insert, arith,
}
use sonalyze_backend.Json.{Value, Fields}
use sonalyze_backend.Lobby.Gateway.{event_handlers}
use sonalyze_backend.Gateway.RateLimit
use sonalyze_backend.Gateway.RateLimit.{TokenBucket, new_bucket}
use sonalyze_backend.Gateway.Bound.{run-Bounded}
use sonalyze_backend.Gateway.Connections.{
  Connection, ConnectionManager, no_connections, new_connection, register, bind_device_id,
  unregister, contains, recipients, send_to_device_ids, ids_of, index, add,
}
use sonalyze_backend.Gateway.Index.{IsIndexed}
use sonalyze_backend.Gateway.Bindings.{
  register-IsIndexed, bind_device_id-IsIndexed, register-unregister-IsIndexed, recipients-IsIndexed,
  is_any,
}
use sonalyze_backend.Gateway.Router.{
  Settings, GatewayForwardRequest, Upstream, answered, service_url_for_event, measurement_events,
  simulation_events,
}
use sonalyze_backend.Gateway.Routes.{service_url_for_event-handled}
use sonalyze_backend.Gateway.Websocket.{Frame, receive}
use sonalyze_backend.Gateway.Loop.{receive-device, receive-IsIndexed, receive-bound}

-- ten tokens each second, at ten parts a token and ten ticks a second
abbrev bucket : TokenBucket
bucket = new_bucket 10 10 2 0

run-grants : (RateLimit.run 10 (0 ∷ 0 ∷ 0 ∷ 1 ∷ []) bucket).0 ≡ 3
unfolding RateLimit.run RateLimit.allow new_bucket
run-grants = refl

run-Bounded_example :
    let (n, b') = RateLimit.run 10 (0 ∷ 0 ∷ 0 ∷ 1 ∷ []) bucket in
    (n * 10 + b'.tokens ≤ bucket.tokens + (b'.last - bucket.last) * bucket.rate)
    × (bucket.last ≤ b'.last)
    × (b'.rate ≡ bucket.rate)
unfolding new_bucket
run-Bounded_example =
    run-Bounded 10 (0 ∷ 0 ∷ 0 ∷ 1 ∷ []) bucket
      (omega arith, (omega arith, (omega arith, (omega arith, tt))))

abbrev named : Connection
named = new_connection "c1" (some "a") none bucket

abbrev unnamed : Connection
unnamed = new_connection "c2" none none bucket

abbrev two_connections : ConnectionManager
two_connections = register unnamed (register named no_connections)

no_connections-IsIndexed : IsIndexed no_connections
unfolding ids_of contains lookup
no_connections-IsIndexed d c = refl

register-unregister-IsIndexed_example :
    IsIndexed (register named no_connections) × IsIndexed (unregister "c1" no_connections)
unfolding lookup
register-unregister-IsIndexed_example =
    register-unregister-IsIndexed named "c1" no_connections refl no_connections-IsIndexed

two_connections-IsIndexed : IsIndexed two_connections
unfolding lookup register insert index
two_connections-IsIndexed =
    register-IsIndexed unnamed (register named no_connections) refl register-IsIndexed_twice
  where
    register-IsIndexed_twice : IsIndexed (register named no_connections)
    register-IsIndexed_twice = register-IsIndexed named no_connections refl no_connections-IsIndexed

named_b : ◌≢◌ {A = String} "b" ""
named_b = texts_apart "b" "" refl

bind_device_id-IsIndexed_example : IsIndexed (bind_device_id "c2" "b" two_connections)
unfolding lookup register insert index
bind_device_id-IsIndexed_example =
    bind_device_id-IsIndexed unnamed "c2" "b" two_connections refl refl named_b
      two_connections-IsIndexed

recipients-IsIndexed_example :
    contains "c1" (recipients ("b" ∷ "a" ∷ []) two_connections)
    ≡ is_any ("b" ∷ "a" ∷ []) "c1" two_connections
recipients-IsIndexed_example =
    recipients-IsIndexed ("b" ∷ "a" ∷ []) "c1" two_connections two_connections-IsIndexed

send-reaches : send_to_device_ids (λ c. true) ("b" ∷ "a" ∷ []) two_connections ≡ 1
unfolding send_to_device_ids recipients ids_of lookup register insert index add contains
send-reaches = refl

abbrev settings : Settings
settings = record {
  lobby_url = "http://lobby:8000";
  measurement_url = "http://measurement:8000";
  simulation_url = "http://simulation:8000";
  max_message_bytes = 65536;
}

service_url_for_event-handled_example :
    All (λ h. service_url_for_event settings h.0 ≡ some settings.lobby_url) event_handlers
    × All (λ e. service_url_for_event settings e ≡ some settings.measurement_url) measurement_events
    × All (λ e. service_url_for_event settings e ≡ some settings.simulation_url) simulation_events
service_url_for_event-handled_example = service_url_for_event-handled settings

-- a client that always says it is the device `b`, and services that always answer `null`
abbrev as_b : Fields → Option String
as_b f = some "b"

abbrev always : String → GatewayForwardRequest → Upstream
always url req = answered 200 Value.null

abbrev identify_frame : Frame
identify_frame = record {
  bytes = 40;
  message = some (record { event = "identify"; request_id = none; data_in = Fields.end });
}

abbrev get_frame : Frame
get_frame = record {
  bytes = 40;
  message = some (record { event = "lobby.get"; request_id = none; data_in = Fields.end });
}

receive-device_example :
    All
      (λ (q : GatewayForwardRequest). some q.client.device_id ≡ named.device_id)
      (receive settings 10 as_b always named 1 get_frame two_connections).forwarded
receive-device_example = receive-device settings 10 as_b always named 1 get_frame two_connections

as_b-named : (f : Fields) (d : String) → as_b f ≡ some d → d ≢ ""
as_b-named f d e same = let is_b : ◌≡◌ {A = String} "b" d = cc e in named_b (is_b ∙ same)

receive-IsIndexed_example :
    IsIndexed (receive settings 10 as_b always unnamed 1 identify_frame two_connections).connections
unfolding lookup register insert index
receive-IsIndexed_example =
    receive-IsIndexed settings 10 as_b always as_b-named unnamed 1 identify_frame two_connections
      refl two_connections-IsIndexed

-- A client that connected with an empty `device_id` tries to identify itself.
abbrev empty_named : Connection
empty_named = new_connection "c3" (some "") none bucket

receive-bound_example :
    (receive settings 10 as_b always empty_named 1 identify_frame
      (register empty_named two_connections)).connections.by_device
    ≡ (register empty_named two_connections).by_device
receive-bound_example =
    receive-bound settings 10 as_b always empty_named "" 1 identify_frame
      (register empty_named two_connections) refl
