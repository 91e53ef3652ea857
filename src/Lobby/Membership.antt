-- ===== src/Lobby/Membership.antt =====
-- What joining, leaving and role assignment (lobby/src/service.py) do to the rows of the participants.
use mathlib.Core.Option
use sonalyze_backend.Prelude.{
  String, ◌≡◌, refl, ap, ◌∙◌, true, false, ◌&&◌, Option, none, some, List, arith, inl, inr,
  Option-cases, Bool-cases, if◌then◌else◌, ◌==◌, find, eq_iff, eq_refl,
}
use sonalyze_backend.Lobby.Model.{ParticipantRole, ParticipantStatus, Participant, Lobby, Db}
use sonalyze_backend.Lobby.Monad.{DbSession, ok}
use sonalyze_backend.Lobby.Service.{
  Env, is_of, is_open, find_participant, update_participant, new_participant, insert_participant,
}
use sonalyze_backend.Lobby.Operations.{join_lobby, rejoin}
use sonalyze_backend.Lobby.Rows.{
  find-update_self, find-update_ne, find-append_new, find-append_ne, is_of-apart,
}

-- The row that a device is to have once it has joined, column by column, from the row that it had.
abbrev pub joined_row : Env → String → String → Option Participant → Participant
joined_row env lobby_id d none = record {
  id = env.participant_uuid;
  lobby_id = lobby_id;
  device_id = d;
  role = ParticipantRole.no_role;
  role_slot_id = none;
  role_slot_label = none;
  status = ParticipantStatus.joined;
  joined_at = env.now;
  left_at = none;
}
joined_row env lobby_id d (some p) = record {
  id = p.id;
  lobby_id = p.lobby_id;
  device_id = p.device_id;
  role = p.role;
  role_slot_id = p.role_slot_id;
  role_slot_label = p.role_slot_label;
  status = ParticipantStatus.joined;
  joined_at = p.joined_at;
  left_at = none;
}

-- another device, or another lobby
abbrev pub IsOther : String → String → String → String → Type 0
IsOther l d l' d' = ((l' == l) && (d' == d)) ≡ false

is_of_same :
    (l d : String) (p q : Participant)
    → q.lobby_id ≡ p.lobby_id
    → q.device_id ≡ p.device_id
    → is_of l d p ≡ true
    → is_of l d q ≡ true
is_of_same l d p q sl sd e = rw (sl, sd) e

module _ (l d : String) (f : Participant → Participant)
    (lobby_kept : (p : Participant) → (f p).lobby_id ≡ p.lobby_id)
    (device_kept : (p : Participant) → (f p).device_id ≡ p.device_id) where
  pub find-update_participant :
      (db : Db)
      → find_participant l d (update_participant l d f db) ≡ Option.map f (find_participant l d db)
  unfolding find_participant
  find-update_participant db =
      find-update_self (is_of l d) f db.participants
        (λ p e. is_of_same l d p (f p) (lobby_kept p) (device_kept p) e)

  pub find-update_participant_others :
      (db : Db) (l' d' : String)
      → IsOther l d l' d'
      → find_participant l' d' (update_participant l d f db) ≡ find_participant l' d' db
  unfolding find_participant
  find-update_participant_others db l' d' apart =
      find-update_ne (is_of l d) (is_of l' d') f db.participants
        (λ p e. is_of-apart l d l' d' p (f p) (lobby_kept p) (device_kept p) apart e)

abbrev entered_rows : Env → String → String → Db → Option Participant → List Participant
entered_rows env l d db none = (insert_participant (new_participant env l d) db).participants
entered_rows env l d db (some _) = (update_participant l d rejoin db).participants

join_lobby-rows :
    (env : Env) (lobby : Lobby) (d : String) (s : DbSession)
    → is_open lobby.state ≡ true
    → ((join_lobby env lobby d s).0 ≡ ok tt)
      × ((join_lobby env lobby d s).1.working.participants
          ≡ entered_rows env lobby.id d s.working (find_participant lobby.id d s.working))
unfolding join_lobby
join_lobby-rows env lobby d s open_now =
    elim (Option-cases (find_participant lobby.id d s.working)) [
      | inl absent ↦ ground arith
      | inr (p, present) ↦ ground arith
    ]

module _ (env : Env) (l d : String) (db : Db) where
  entered_rows-find :
      find (is_of l d) (entered_rows env l d db (find_participant l d db))
      ≡ some (joined_row env l d (find_participant l d db))
  unfolding find_participant
  entered_rows-find = elim (Option-cases (find (is_of l d) db.participants)) [
    | inl absent ↦ rw absent (
        find-append_new (is_of l d) db.participants (new_participant env l d) absent
          (ground (arith, eq_refl l, eq_refl d)))
    | inr (p, present) ↦ rw present (
        find-update_participant l d rejoin (λ q. refl) (λ q. refl) db
        ∙ ap (Option.map rejoin) present)
  ]

  entered_rows-others :
      (o : Option Participant) (l' d' : String)
      → IsOther l d l' d'
      → find (is_of l' d') (entered_rows env l d db o) ≡ find (is_of l' d') db.participants
  unfolding find_participant
  entered_rows-others none l' d' apart =
      find-append_ne (is_of l' d') db.participants (new_participant env l d)
        (ground (arith, eq_iff l l', eq_iff d d', eq_iff l' l, eq_iff d' d))
  entered_rows-others (some p) l' d' apart =
      find-update_participant_others l d rejoin (λ q. refl) (λ q. refl) db l' d' apart

-- What an operation on the row of the device `d` in the lobby `l` does to the rows as they are found: a
-- search for that device finds `new`, and any other search what it found before.
abbrev pub found_after :
    String → String → Participant → String → String → DbSession → Option Participant
found_after l d new l' d' s =
    if (l' == l) && (d' == d) then some new else find_participant l' d' s.working

pub found-cases :
    (l d : String) (new : Participant) (l' d' : String) (s s' : DbSession)
    → find_participant l d s'.working ≡ some new
    → (IsOther l d l' d' → find_participant l' d' s'.working ≡ find_participant l' d' s.working)
    → find_participant l' d' s'.working ≡ found_after l d new l' d' s
found-cases l d new l' d' s s' self other = elim (Bool-cases ((l' == l) && (d' == d))) [
  | inl e ↦
      let same_lobby : l' ≡ l = ground (arith, eq_iff l' l) in
      let same_device : d' ≡ d = ground (arith, eq_iff d' d) in
      rw e (cc (self, same_lobby, same_device))
  | inr e ↦ rw e (other e)
]

-- A join of an open lobby returns without an error, and after it a search for the device finds a joined
-- row: a new one of that lobby and device, without a role, a slot or a time of leaving, joined at the time
-- of the request, or its old one with its id, role, slot and time of joining and without a time of leaving.
-- Any other search finds what it found before.
pub join_lobby-find :
    (env : Env) (lobby : Lobby) (d : String) (s : DbSession) (l' d' : String)
    → is_open lobby.state ≡ true
    → ((join_lobby env lobby d s).0 ≡ ok tt)
      × (find_participant l' d' (join_lobby env lobby d s).1.working
          ≡ found_after lobby.id d
              (joined_row env lobby.id d (find_participant lobby.id d s.working))
              l'
              d'
              s)
unfolding find_participant
join_lobby-find env lobby d s l' d' is_open_now =
    let (returns, rows) = join_lobby-rows env lobby d s is_open_now in
    (
      returns,
      found-cases lobby.id d _ l' d' s (join_lobby env lobby d s).1
          (ap (find (is_of lobby.id d)) rows ∙ entered_rows-find env lobby.id d s.working)
          (λ apart.
            ap (find (is_of l' d')) rows
            ∙ entered_rows-others env lobby.id d s.working _ l' d' apart),
    )
