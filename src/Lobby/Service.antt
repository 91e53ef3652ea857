-- ===== src/Lobby/Service.antt =====
-- lobby/src/service.py. Random draws, new ids and the time are arguments; `Env` holds those of one
-- request.
use Prim.Native.String.{char_at}
use sonalyze_backend.Prelude.{
  ℕ, zero, suc, ◌+◌, String, Bool, true, false, not, ◌&&◌, Option, none, some, List, [], ◌∷◌, ◌++◌,
  map, ◌==◌, leb, if◌then◌else◌, find, select,
}
use sonalyze_backend.Lobby.Model.{
  LobbyState, ParticipantRole, ParticipantStatus, Lobby, Participant, EventBody, LobbyEvent, Db,
  LobbyMessage, LobbyBroadcast,
}
use sonalyze_backend.Lobby.Monad.{
  Action, ServiceError, pure, raise, query, ◌>>=◌, ◌>>◌, modify, send,
}

-- What a request takes from outside: the time, the uuids of a new lobby, participant and measurement
-- session, and for each attempt at a lobby code the numbers drawn by `secrets.choice`.
pub record Env : Type 0 where
  pub now : ℕ
  pub lobby_uuid : String
  pub participant_uuid : String
  pub session_uuid : String
  pub draws : ℕ → List ℕ

abbrev pub alphabet : String
alphabet = "ABCDEFGHIJKLMNOPQRSTUVWXYZ0123456789"

-- `_generate_code`, from the six positions drawn
unfoldable pub generate_code : List ℕ → String
generate_code [] = ""
generate_code (i ∷ is) = String.◌∷◌ (char_at alphabet i) (generate_code is)

-- Rows.

abbrev pub is_open : LobbyState → Bool
is_open LobbyState.open_lobby = true
is_open _ = false

abbrev pub is_joined : ParticipantStatus → Bool
is_joined ParticipantStatus.joined = true
is_joined ParticipantStatus.left = false

abbrev pub is_of : String → String → Participant → Bool
is_of lobby_id device_id p = (p.lobby_id == lobby_id) && (p.device_id == device_id)

unfoldable pub find_participant : String → String → Db → Option Participant
find_participant lobby_id device_id db = find (is_of lobby_id device_id) db.participants

-- An assignment to the row that a query has returned, the first that fits.
unfoldable pub update_first {ℓ} : {A : Type ℓ} → (A → Bool) → (A → A) → List A → List A
update_first p f [] = []
update_first p f (x ∷ xs) = let rest = update_first p f xs in if p x then f x ∷ xs else x ∷ rest

abbrev pub update_participant : String → String → (Participant → Participant) → Db → Db
update_participant lobby_id device_id f db = record db {
  participants = update_first (is_of lobby_id device_id) f db.participants;
}

unfoldable pub get_lobby_by_id : String → Db → Option Lobby
get_lobby_by_id lobby_id db = find (λ l. l.id == lobby_id) db.lobbies

unfoldable pub get_lobby_by_code : String → Db → Option Lobby
get_lobby_by_code code db = find (λ l. l.code == code) db.lobbies

-- `ORDER BY joined_at ASC`; rows of one time stay in the order of insertion.
unfoldable pub insert_joined : Participant → List Participant → List Participant
insert_joined p [] = p ∷ []
insert_joined p (q ∷ qs) =
    let rest = insert_joined p qs in if leb p.joined_at q.joined_at then p ∷ q ∷ qs else q ∷ rest

unfoldable pub order_by_joined_at : List Participant → List Participant
unfolding insert_joined
order_by_joined_at [] = []
order_by_joined_at (p ∷ ps) = insert_joined p (order_by_joined_at ps)

unfoldable pub list_participants : String → Db → List Participant
unfolding order_by_joined_at
list_participants lobby_id db =
    order_by_joined_at (select (λ p. p.lobby_id == lobby_id) db.participants)

-- The database's part of an insertion into the events, whose key is declared `autoincrement`: the row is
-- given the next key.
abbrev pub insert_event : (ℕ → LobbyEvent) → Db → Db
insert_event row db = record db {
  events = db.events ++ row db.next_event_id ∷ [];
  next_event_id = db.next_event_id + 1;
}

-- `_append_event`, which sets all but the key
unfoldable pub append_event : Env → String → EventBody → Db → Db
append_event env lobby_id body db =
    insert_event
      (λ key. record { id = key; lobby_id = lobby_id; body = body; created_at = env.now }) db

-- `broadcast_to_devices` (lobby/src/broadcast.py): nothing is sent to an empty list, and a failure to
-- send is swallowed.
unfoldable pub broadcast_to_devices : List String → LobbyMessage → List LobbyBroadcast
broadcast_to_devices [] message = []
broadcast_to_devices (d ∷ ds) message = record { targets = d ∷ ds; message = message } ∷ []

unfoldable pub joined_device_ids : List Participant → List String
joined_device_ids ps = map (λ p. p.device_id) (select (λ p. is_joined p.status) ps)

unfoldable pub joined_device_ids_but : String → List Participant → List String
joined_device_ids_but device_id ps =
    map (λ p. p.device_id) (select (λ p. is_joined p.status && not (p.device_id == device_id)) ps)

-- `_broadcast_lobby_update`
unfoldable pub broadcast_lobby_update : String → LobbyMessage → Action (Unit {0})
unfolding broadcast_to_devices joined_device_ids
broadcast_lobby_update lobby_id message = do
  participants ← query (list_participants lobby_id)
  send (broadcast_to_devices (joined_device_ids participants) message)

-- `_broadcast_room_snapshot`, and the end of the step and profile updates: all but the sender.
unfoldable pub broadcast_but : String → String → LobbyMessage → Action (Unit {0})
unfolding broadcast_to_devices joined_device_ids_but
broadcast_but device_id lobby_id message = do
  participants ← query (list_participants lobby_id)
  send (broadcast_to_devices (joined_device_ids_but device_id participants) message)

-- Operations.

abbrev pub is_none {ℓ} : {A : Type ℓ} → Option A → Bool
is_none none = true
is_none (some _) = false

abbrev pub insert_lobby : Env → String → String → Db → Db
insert_lobby env code creator_device_id db = record db {
  lobbies =
      db.lobbies
      ++ record {
        id = env.lobby_uuid;
        code = code;
        creator_device_id = creator_device_id;
        state = LobbyState.open_lobby;
        created_at = env.now;
      }
        ∷ [];
}

abbrev pub new_participant : Env → String → String → Participant
new_participant env lobby_id device_id = record {
  id = env.participant_uuid;
  lobby_id = lobby_id;
  device_id = device_id;
  role = ParticipantRole.no_role;
  role_slot_id = none;
  role_slot_label = none;
  status = ParticipantStatus.joined;
  joined_at = env.now;
  left_at = none;
}

abbrev pub insert_participant : Participant → Db → Db
insert_participant p db = record db { participants = db.participants ++ p ∷ [] }

-- what `create_lobby` adds once a code is free, and the lobby that it returns
unfoldable pub open_with : Env → String → String → Action Lobby
unfolding append_event
open_with env creator_device_id code = do
  modify (insert_lobby env code creator_device_id)
  modify (insert_participant (new_participant env env.lobby_uuid creator_device_id))
  modify (append_event env env.lobby_uuid (EventBody.lobby_created creator_device_id code))
  pure (record {
    id = env.lobby_uuid;
    code = code;
    creator_device_id = creator_device_id;
    state = LobbyState.open_lobby;
    created_at = env.now;
  })

-- the attempts of `create_lobby` that are left; attempt `k` draws `env.draws k`
unfoldable pub create_from : Env → ℕ → ℕ → String → Action Lobby
unfolding generate_code get_lobby_by_code open_with
create_from env zero k creator_device_id = raise ServiceError.no_unique_code
create_from env (suc attempts) k creator_device_id =
    let code = generate_code (env.draws k) in
    let retry = create_from env attempts (k + 1) creator_device_id in
    query (λ db. is_none (get_lobby_by_code code db)) >>= λ free.
    if free then open_with env creator_device_id code else retry

unfoldable pub create_lobby : Env → String → Action Lobby
unfolding create_from
create_lobby env creator_device_id = create_from env 10 0 creator_device_id
