-- ===== src/Lobby/Transactions.antt =====
-- A request that lobby/src/gateway_handler.py answers by an HTTP error has had no effect.
use sonalyze_backend.Prelude.{
  ℕ, String, ◌≡◌, refl, ap, subst, Option, none, some, [], ◌∷◌, inl, inr, Bool-cases, ◌==◌, Dict,
  lookup,
}
use sonalyze_backend.Lobby.Service.{Env}
use sonalyze_backend.Lobby.Request.{ClientData, Detail, Response, http, Service, Handler, fail}
use sonalyze_backend.Lobby.Clean.{IsClean}
use sonalyze_backend.Lobby.LobbyEvents.{
  handle_lobby_create-IsClean, handle_lobby_join-IsClean, handle_lobby_leave-IsClean,
  handle_lobby_get-IsClean, handle_lobby_start-IsClean, handle_lobby_step_update-IsClean,
  handle_lobby_profile_update-IsClean, handle_role_assign-IsClean,
  handle_lobby_room_snapshot-IsClean,
}
use sonalyze_backend.Lobby.SessionEvents.{
  handle_create_session-IsClean, handle_recording_uploaded-IsClean,
  handle_broadcast_results-IsClean, pass_on-IsClean,
}
use sonalyze_backend.Lobby.Gateway.{event_handlers, begin, gateway_handle}

abbrev CleanHandler : Handler → Type 0
CleanHandler h =
    (env : Env) (client : String) (d : ClientData) (s : Service) → IsClean s (h env client d s)

-- the handlers of a table, by a lookup
AllClean : Dict Handler → Type 0
AllClean [] = Unit
AllClean ((k, h) ∷ t) = CleanHandler h × AllClean t

lookup-CleanHandler :
    (event : String) (t : Dict Handler) (h : Handler)
    → AllClean t
    → lookup event t ≡ some h
    → CleanHandler h
unfolding lookup AllClean
lookup-CleanHandler event [] h clean found = cc
lookup-CleanHandler event ((k, g) ∷ t) h clean found = elim (Bool-cases (k == event)) [
  | inl e ↦
      let same : some g ≡ some h = rw (e, lookup) at found in
      let same' : g ≡ h = cc same in subst CleanHandler same' clean.0
  | inr e ↦
      let rest : lookup event t ≡ some h = rw (e, lookup) at found in
      lookup-CleanHandler event t h clean.1 rest
]

event_handlers-AllClean : AllClean event_handlers
unfolding AllClean event_handlers
event_handlers-AllClean = (
  handle_lobby_create-IsClean,
  (
    handle_lobby_join-IsClean,
    (
      handle_lobby_leave-IsClean,
      (
        handle_lobby_get-IsClean,
        (
          handle_lobby_start-IsClean,
          (
            handle_lobby_step_update-IsClean,
            (
              handle_lobby_profile_update-IsClean,
              (
                handle_role_assign-IsClean,
                (
                  handle_lobby_room_snapshot-IsClean,
                  (
                    handle_create_session-IsClean,
                    (
                      λ env client d s. (pass_on-IsClean env client d s).0,
                      (
                        λ env client d s. (pass_on-IsClean env client d s).1,
                        (
                          λ env client d s. (pass_on-IsClean env client d s).2,
                          (
                            handle_broadcast_results-IsClean,
                            (
                              λ env client d s. (pass_on-IsClean env client d s).3,
                              (
                                λ env client d s. (pass_on-IsClean env client d s).3,
                                (
                                  λ env client d s. (pass_on-IsClean env client d s).4,
                                  (
                                    λ env client d s. (pass_on-IsClean env client d s).5,
                                    (
                                      λ env client d s. (pass_on-IsClean env client d s).6,
                                      (
                                        λ env client d s. (pass_on-IsClean env client d s).7,
                                        (
                                          handle_recording_uploaded-IsClean,
                                          (
                                            λ env client d s. (pass_on-IsClean env client d s).8,
                                            tt,
                                          ),
                                        ),
                                      ),
                                    ),
                                  ),
                                ),
                              ),
                            ),
                          ),
                        ),
                      ),
                    ),
                  ),
                ),
              ),
            ),
          ),
        ),
      ),
    ),
  ),
)

-- Whatever event is forwarded, known or not, and whatever its data: if the answer is an HTTP error,
-- then the database, what has been broadcast, and the table of measurement sessions are all as they
-- were when the request began.
pub gateway_handle-http :
    (event : String) (env : Env) (client : String) (d : ClientData) (s : Service) (status : ℕ)
    (detail : Detail)
    → (gateway_handle event env client d s).0 ≡ http status detail
    → (gateway_handle event env client d s).1 ≡ begin s
unfolding gateway_handle
gateway_handle-http event env client d s status detail failed =
    go (lookup event event_handlers) refl failed
  where
    outcome : Option Handler → Response × Service
    outcome o = elim o [
      | none ↦ fail 400 (Detail.unknown_event event) (begin s)
      | some h ↦ let (r, s') = h env client d (begin s) in (r, begin s')
    ]

    go :
        (o : Option Handler)
        → lookup event event_handlers ≡ o
        → (outcome o).0 ≡ http status detail
        → (outcome o).1 ≡ begin s
    go none found e = refl
    go (some h) found e = ap begin (
        lookup-CleanHandler event event_handlers h event_handlers-AllClean found env client d
          (begin s) status detail e)
