-- ===== src/Lobby/Departure.antt =====
-- What leaving and role assignment (lobby/src/service.py) do to the rows of the participants, and who
-- is sent what.
use mathlib.Core.Option
use sonalyze_backend.Prelude.{
  ℕ, String, ◌≡◌, refl, ap, ◌∙◌, true, false, Option, none, some, List, [], ◌∷◌, ◌++◌, arith, ◌==◌,
  find, eq_iff, All,
}
use sonalyze_backend.Json.{Value, Fields}
use sonalyze_backend.Lobby.Model.{
  ParticipantRole, ParticipantStatus, Participant, Lobby, LobbyMessage, LobbyBroadcast,
}
use sonalyze_backend.Lobby.Monad.{DbSession, Result, ok}
use sonalyze_backend.Lobby.Service.{
  Env, is_of, find_participant, update_participant, broadcast_to_devices, joined_device_ids_but,
  list_participants,
}
use sonalyze_backend.Lobby.Operations.{
  leave_lobby, assign_role, depart, set_role, is_present, share_room_snapshot,
  broadcast_step_update, broadcast_profile_update,
}
use sonalyze_backend.Lobby.Membership.{
  IsOther, found_after, found-cases, find-update_participant, find-update_participant_others,
}

-- What an operation on the row of one device does: it returns, that row becomes `new`, and no other
-- row is found differently.
abbrev Replaces : Lobby → String → Participant → DbSession → Result (Unit {0}) × DbSession → Type 0
Replaces lobby d new s (r, s') =
    (r ≡ ok tt)
    × (find_participant lobby.id d s'.working ≡ some new)
    × ((l' d' : String)
        → IsOther lobby.id d l' d'
        → find_participant l' d' s'.working ≡ find_participant l' d' s.working)

module _ (lobby : Lobby) (d : String) (s : DbSession) where
  -- the part that concerns the rows: the assignment, and then writes to the other tables
  replaced :
      (f : Participant → Participant) (p : Participant) (out : Result (Unit {0}) × DbSession)
      → ((q : Participant) → (f q).lobby_id ≡ q.lobby_id)
      → ((q : Participant) → (f q).device_id ≡ q.device_id)
      → find_participant lobby.id d s.working ≡ some p
      → out.0 ≡ ok tt
      → out.1.working.participants ≡ (update_participant lobby.id d f s.working).participants
      → Replaces lobby d (f p) s out
  unfolding find_participant
  replaced f p out lobby_kept device_kept present returns rows = (
    returns,
    ap (find (is_of lobby.id d)) rows
        ∙ (find-update_participant lobby.id d f lobby_kept device_kept s.working
            ∙ ap (Option.map f) present),
    λ l' d' apart.
        ap (find (is_of l' d')) rows
        ∙ find-update_participant_others lobby.id d f lobby_kept device_kept s.working l' d' apart,
  )

-- The row of a device that has left at a time, column by column.
abbrev pub left_row : ℕ → Participant → Participant
left_row now p = record {
  id = p.id;
  lobby_id = p.lobby_id;
  device_id = p.device_id;
  role = p.role;
  role_slot_id = p.role_slot_id;
  role_slot_label = p.role_slot_label;
  status = ParticipantStatus.left;
  joined_at = p.joined_at;
  left_at = some now;
}

-- The slot or the label that goes with a role: none without a role.
abbrev pub slot_for : ParticipantRole → Option String → Option String
slot_for ParticipantRole.no_role wanted = none
slot_for ParticipantRole.microphone wanted = wanted
slot_for ParticipantRole.speaker wanted = wanted

-- The row of a participant that has been given a role, column by column.
abbrev pub assigned_row :
    ParticipantRole → Option String → Option String → Participant → Participant
assigned_row role slot_id slot_label p = record {
  id = p.id;
  lobby_id = p.lobby_id;
  device_id = p.device_id;
  role = role;
  role_slot_id = slot_for role slot_id;
  role_slot_label = slot_for role slot_label;
  status = p.status;
  joined_at = p.joined_at;
  left_at = p.left_at;
}

set_role_lem :
    (role : ParticipantRole) (slot_id slot_label : Option String) (p : Participant)
    → set_role role slot_id slot_label p ≡ assigned_row role slot_id slot_label p
unfolding set_role
set_role_lem ParticipantRole.no_role slot_id slot_label p = refl
set_role_lem ParticipantRole.microphone slot_id slot_label p = refl
set_role_lem ParticipantRole.speaker slot_id slot_label p = refl

module _ (env : Env) (lobby : Lobby) (d : String) (s : DbSession) where
  leave_lobby-Replaces :
      (p : Participant)
      → find_participant lobby.id d s.working ≡ some p
      → Replaces lobby d (depart env p) s (leave_lobby env lobby d s)
  unfolding leave_lobby
  leave_lobby-Replaces p present =
      replaced lobby d s (depart env) p (leave_lobby env lobby d s) (λ q. refl) (λ q. refl) present
        (ground arith) (ground arith)

  -- A device that has a row in the lobby leaves: that returns without an error, and then a search for it
  -- finds the row marked as left at the time of the request, with its id, role, slot and time of joining,
  -- and any other search finds what it found before.
  pub leave_lobby-find :
      (p : Participant) (l' d' : String)
      → find_participant lobby.id d s.working ≡ some p
      → ((leave_lobby env lobby d s).0 ≡ ok tt)
        × (find_participant l' d' (leave_lobby env lobby d s).1.working
            ≡ found_after lobby.id d (left_row env.now p) l' d' s)
  leave_lobby-find p l' d' present =
      let (returns, self, others) = leave_lobby-Replaces p present in
      (
        returns,
        found-cases lobby.id d (depart env p) l' d' s (leave_lobby env lobby d s).1 self
            (others l' d'),
      )

  assign_role-Replaces :
      (target : String) (role : ParticipantRole) (slot_id slot_label : Option String)
      (p : Participant)
      → lobby.creator_device_id ≡ d
      → find_participant lobby.id target s.working ≡ some p
      → p.status ≡ ParticipantStatus.joined
      → Replaces lobby target
          (set_role role slot_id slot_label p)
          s
          (assign_role env lobby d target role slot_id slot_label s)
  unfolding assign_role
  assign_role-Replaces target role slot_id slot_label p admin present joined =
      let is_admin : (lobby.creator_device_id == d) ≡ true =
        (eq_iff lobby.creator_device_id d).1 admin in
      let is_here : is_present (find_participant lobby.id target s.working) ≡ true =
        rw present (rw joined) in
      replaced lobby target s (set_role role slot_id slot_label) p
        (assign_role env lobby d target role slot_id slot_label s) (λ q. refl) (λ q. refl) present
        (simp (is_admin, is_here)) (simp (is_admin, is_here))

  -- The admin assigns a role to a joined participant: that returns without an error, and then a search for
  -- it finds its row with the role, with the slot and the label of the request if there is a role and
  -- without them if there is none, and with all else as it was. Any other search finds what it found before.
  pub assign_role-find :
      (target : String) (role : ParticipantRole) (slot_id slot_label : Option String)
      (p : Participant) (l' d' : String)
      → lobby.creator_device_id ≡ d
      → find_participant lobby.id target s.working ≡ some p
      → p.status ≡ ParticipantStatus.joined
      → ((assign_role env lobby d target role slot_id slot_label s).0 ≡ ok tt)
        × (find_participant l' d'
              (assign_role env lobby d target role slot_id slot_label s).1.working
            ≡ found_after lobby.id target (assigned_row role slot_id slot_label p) l' d' s)
  assign_role-find target role slot_id slot_label p l' d' admin present joined =
      let (returns, self, others) =
        assign_role-Replaces target role slot_id slot_label p admin present joined in
      (
        returns,
        found-cases lobby.id target (assigned_row role slot_id slot_label p) l' d' s
            (assign_role env lobby d target role slot_id slot_label s).1
            (self ∙ ap some (set_role_lem role slot_id slot_label p)) (others l' d'),
      )

-- Who is sent the admin's broadcasts.
module _ (d : String) where
  OthersOnly : List Participant → Type 0
  OthersOnly ps = All (λ (x : String). (x == d) ≡ false) (joined_device_ids_but d ps)

  joined_but-OthersOnly : (ps : List Participant) → OthersOnly ps
  unfolding OthersOnly joined_device_ids_but
  joined_but-OthersOnly [] = tt
  joined_but-OthersOnly (p ∷ ps) = ground (arith, joined_but-OthersOnly ps)

  -- What was added to the outbox is addressed to devices other than `d`.
  pub record Excludes (s s' : DbSession) : Type 0 where
    pub added : List LobbyBroadcast
    pub is_appended : s'.outbox ≡ s.outbox ++ added
    pub others :
        All (λ (b : LobbyBroadcast). All (λ (x : String). (x == d) ≡ false) b.targets) added

  sent-others :
      (ids : List String) (message : LobbyMessage)
      → All (λ (x : String). (x == d) ≡ false) ids
      → All
          (λ (b : LobbyBroadcast). All (λ (x : String). (x == d) ≡ false) b.targets)
          (broadcast_to_devices ids message)
  unfolding broadcast_to_devices
  sent-others [] message h = tt
  sent-others (i ∷ ids) message h = (h, tt)

  sent-Excludes :
      (ps : List Participant) (message : LobbyMessage) (s s' : DbSession)
      → s'.outbox ≡ s.outbox ++ broadcast_to_devices (joined_device_ids_but d ps) message
      → Excludes s s'
  unfolding OthersOnly
  sent-Excludes ps message s s' e = record {
    added = broadcast_to_devices (joined_device_ids_but d ps) message;
    is_appended = e;
    others = sent-others (joined_device_ids_but d ps) message (joined_but-OthersOnly ps);
  }

-- The admin is never among the targets of its own room snapshot, step update or profile update.
pub admin_not_notified :
    (env : Env) (lobby : Lobby) (d : String) (s : DbSession) (room : Fields) (i : Value)
    (p : String)
    → lobby.creator_device_id ≡ d
    → Excludes d s (share_room_snapshot env lobby d room s).1
      × Excludes d s (broadcast_step_update env lobby d i s).1
      × Excludes d s (broadcast_profile_update env lobby d p s).1
unfolding share_room_snapshot broadcast_step_update broadcast_profile_update list_participants
admin_not_notified env lobby d s room i p admin =
    let is_admin : (lobby.creator_device_id == d) ≡ true =
      (eq_iff lobby.creator_device_id d).1 admin in
    let ps : List Participant = list_participants lobby.id s.working in
    (
      sent-Excludes d ps (LobbyMessage.snapshot room d env.now lobby.id) s
          (share_room_snapshot env lobby d room s).1 (rw is_admin),
      sent-Excludes d ps (LobbyMessage.step i d lobby.id) s
          (broadcast_step_update env lobby d i s).1 (rw is_admin),
      sent-Excludes d ps (LobbyMessage.profile p d lobby.id) s
          (broadcast_profile_update env lobby d p s).1 (rw is_admin),
    )
