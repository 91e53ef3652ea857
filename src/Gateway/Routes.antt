-- ===== src/Gateway/Routes.antt =====
-- The routing of gateway/src/gateway/router.py against the tables of the services that it routes to.
use sonalyze_backend.Prelude.{◌≡◌, some, All, arith}
use sonalyze_backend.Lobby.Gateway.{event_handlers}
use sonalyze_backend.Gateway.Connections.{contains}
use sonalyze_backend.Gateway.Router.{
  Settings, service_url_for_event, measurement_events, simulation_events,
}

-- Every event that a service has a handler for, the lobby, the measurement or the simulation service,
-- is routed to that service's url.
pub service_url_for_event-handled :
    (st : Settings)
    → All (λ h. service_url_for_event st h.0 ≡ some st.lobby_url) event_handlers
      × All (λ e. service_url_for_event st e ≡ some st.measurement_url) measurement_events
      × All (λ e. service_url_for_event st e ≡ some st.simulation_url) simulation_events
unfolding event_handlers service_url_for_event contains
service_url_for_event-handled st = ground arith
