-- ===== src/Lobby/Agreement.antt =====
-- The two interfaces of the lobby service, lobby/src/main.py and lobby/src/gateway_handler.py, agree.
use sonalyze_backend.Prelude.{
  String, ◌≡◌, ◌≢◌, refl, ap, ◌∙◌, ◌||◌, subst, sym, if◌then◌else◌, ◌⊎◌, inl, inr, Option, none,
  some, arith, eq_iff, lookup,
}
use sonalyze_backend.Lobby.Model.{Lobby, ParticipantRole}
use sonalyze_backend.Lobby.Monad.{DbSession, Result, ServiceError, ok, err}
use sonalyze_backend.Lobby.Service.{Env, get_lobby_by_id, get_lobby_by_code}
use sonalyze_backend.Lobby.Operations.{join_lobby}
use sonalyze_backend.Lobby.Request.{
  ClientData, is_missing, Detail, Body, fail, Response, http, Service, parse_role,
}
use sonalyze_backend.Lobby.Handlers
use sonalyze_backend.Lobby.Handlers.{with_lobby, by_id}
use sonalyze_backend.Lobby.Gateway.{event_handlers, begin, gateway_handle}
use sonalyze_backend.Lobby.Rest

-- The text of an entry that is there and not empty passes the handlers' test.
present :
    {A : Type 0} (o : Option String) (id : String) (bad : A) (next : Option String → A)
    → o ≡ some id
    → id ≢ ""
    → (if is_missing o then bad else next o) ≡ next (some id)
present {A} o id bad next e named =
    subst (λ (x : Option String). (if is_missing x then bad else next x) ≡ next (some id)) (sym e)
      (ground (arith, eq_iff id ""))

-- the end of a request
abbrev close : Response × Service → Response × Service
close r = (r.0, begin r.1)

named_role : (text : String) (role : ParticipantRole) → parse_role text ≡ some role → text ≢ ""
unfolding parse_role
named_role text role parsed e =
    let none_is : none ≡ some role = subst (λ (x : String). parse_role x ≡ some role) e parsed in
    cc none_is

module _ (env : Env) (client : String) (d : ClientData) (s : Service) where
  -- What the REST route answers and leaves for the creation of a lobby, and for the departure, the view
  -- and the start of a lobby whose id the data of the event holds, is what the gateway's handler does.
  pub gateway_handle-Rest :
      (id : String)
      → d.lobby_id ≡ some id
      → id ≢ ""
      → (gateway_handle "lobby.create" env client d s ≡ Rest.create env client s)
        × (gateway_handle "lobby.leave" env client d s ≡ Rest.leave env id client s)
        × (gateway_handle "lobby.get" env client d s ≡ Rest.get_lobby id s)
        × (gateway_handle "lobby.start" env client d s ≡ Rest.start env id client s)
  unfolding gateway_handle event_handlers lookup Handlers.handle_lobby_create
      Handlers.handle_lobby_leave Handlers.handle_lobby_get Handlers.handle_lobby_start Rest.create
      Rest.leave Rest.get_lobby Rest.start
  gateway_handle-Rest id e named = (
    refl,
    ap close (
        present d.lobby_id id (fail 400 (Detail.missing "lobby_id") (begin s))
          (λ o. with_lobby (by_id o (begin s)) (Handlers.leave_by env client) (begin s)) e named),
    ap close (
        present d.lobby_id id _ (λ o. with_lobby (by_id o (begin s)) Handlers.view_lobby (begin s))
          e named),
    ap close (
        present d.lobby_id id (fail 400 (Detail.missing "lobby_id") (begin s))
          (λ o. with_lobby (by_id o (begin s)) (Handlers.start_in env client) (begin s)) e named),
  )

  assigned :
      (target text : String) (role : ParticipantRole) (o : Option Lobby)
      → parse_role text ≡ some role
      → with_lobby o
          (Handlers.assign_in env client (some target) (some text) d.role_slot_id d.role_slot_label)
          (begin s)
        ≡ with_lobby o
            (λ lobby.
              Handlers.respond Rest.permission_lookup
                (Rest.roles_body env client target role d.role_slot_id d.role_slot_label lobby))
            (begin s)
  unfolding with_lobby Handlers.assign_in
  assigned target text role none parsed = refl
  assigned target text role (some lobby) parsed = rw (parsed, Handlers.assign_in)

  -- The REST route for the assignment of a role and the gateway's handler answer and leave the same,
  -- where the data of the event names the lobby, the target and a role.
  pub role_assign-Rest :
      (id target text : String) (role : ParticipantRole)
      → d.lobby_id ≡ some id
      → d.target_device_id ≡ some target
      → d.role ≡ some text
      → id ≢ ""
      → target ≢ ""
      → parse_role text ≡ some role
      → gateway_handle "role.assign" env client d s
        ≡ Rest.roles env id client target role d.role_slot_id d.role_slot_label s
  unfolding gateway_handle event_handlers lookup Handlers.handle_role_assign Handlers.assign_in
      Rest.roles parse_role
  role_assign-Rest id target text role e1 e2 e3 named named' parsed =
      let tested : Option String → Option String → Option String → Response × Service =
        λ o target' text'.
          if is_missing o || (is_missing target' || is_missing text')
          then fail 400 (Detail.missing "lobby_id, target_device_id or role") (begin s)
          else with_lobby (by_id o (begin s))
              (Handlers.assign_in env client target' text' d.role_slot_id d.role_slot_label)
              (begin s) in
      let given : tested d.lobby_id d.target_device_id d.role
          ≡ tested (some id) (some target) (some text) =
        cc (e1, e2, e3) in
      let passed : tested (some id) (some target) (some text)
          ≡ with_lobby (by_id (some id) (begin s))
              (Handlers.assign_in env client (some target) (some text) d.role_slot_id
                d.role_slot_label)
              (begin s) =
        ground
          (arith, eq_iff id "", eq_iff target "", eq_iff text "", named_role text role parsed) in
      ap close (
        given ∙ passed ∙ assigned target text role (get_lobby_by_id id (begin s).db.working) parsed)

-- The two answers to the same join.
abbrev pub IsSameJoin : Response → Response → Type 0
IsSameJoin gateway rest =
    (gateway ≡ rest)
    ⊎ ((gateway ≡ http 500 (Detail.service ServiceError.not_open))
        × (rest ≡ http 409 (Detail.service ServiceError.not_open)))

answers-IsSameJoin :
    (r : Result Body)
    → ((e : ServiceError) → r ≡ err e → e ≡ ServiceError.not_open)
    → IsSameJoin (Handlers.answer Handlers.internal r) (Handlers.answer Rest.value_error r)
answers-IsSameJoin (ok b) only = inl refl
answers-IsSameJoin (err e) only = rw (only e refl) (inr (refl, refl))

module _ (env : Env) (client : String) where
  join_action-err :
      (lobby : Lobby) (s : DbSession) (e : ServiceError)
      → (Handlers.join_action env client lobby s).0 ≡ err e
      → e ≡ ServiceError.not_open
  unfolding Handlers.join_action join_lobby
  join_action-err lobby s e failed = ground arith

  joined :
      (o : Option Lobby) (t : Service)
      → let g = with_lobby o (Handlers.join_as env client) t in
        let r =
          with_lobby o
            (λ lobby. Handlers.respond Rest.value_error (Rest.join_body env client lobby))
            t in
        (g.1 ≡ r.1) × IsSameJoin g.0 r.0
  unfolding with_lobby Handlers.join_as Handlers.join_action
  joined none t = (refl, inl refl)
  joined (some lobby) t = (refl, answers-IsSameJoin _ (join_action-err lobby t.db))

  -- Where the data of the event holds the code, the REST route for a join and the gateway's handler leave
  -- the same state, and answer the same or both refuse a lobby that is not open, with 409 and 500.
  pub join-Rest :
      (d : ClientData) (s : Service) (code : String)
      → d.code ≡ some code
      → code ≢ ""
      → ((gateway_handle "lobby.join" env client d s).1 ≡ (Rest.join env code client s).1)
        × IsSameJoin (gateway_handle "lobby.join" env client d s).0 (Rest.join env code client s).0
  unfolding gateway_handle event_handlers lookup Handlers.handle_lobby_join Rest.join
  join-Rest d s code e named =
      let same : Handlers.handle_lobby_join env client d (begin s)
          ≡ with_lobby (get_lobby_by_code code (begin s).db.working) (Handlers.join_as env client)
              (begin s) =
        present d.code code (fail 400 (Detail.missing "code") (begin s))
          (λ o. with_lobby (Handlers.by_code o (begin s)) (Handlers.join_as env client) (begin s)) e
          named in
      let (left, answered) = joined (get_lobby_by_code code (begin s).db.working) (begin s) in
      (
        ap (λ (r : Response × Service). begin r.1) same ∙ ap begin left,
        subst (λ (r : Response). IsSameJoin r (Rest.join env code client s).0)
            (sym (ap (λ (r : Response × Service). r.0) same)) answered,
      )
