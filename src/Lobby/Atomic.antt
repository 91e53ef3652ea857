-- ===== src/Lobby/Atomic.antt =====
-- The operations of lobby/src/service.py check before they write: what raises has written nothing.
use sonalyze_backend.Prelude.{
  ℕ, zero, suc, ◌+◌, String, ◌≡◌, ◌≢◌, refl, false, Option, arith, ◌==◌, eq_iff,
}
use sonalyze_backend.Json.{Value, Fields}
use sonalyze_backend.Lobby.Model.{ParticipantRole, Lobby}
use sonalyze_backend.Lobby.Monad.{DbSession, Action, ServiceError, Result, err}
use sonalyze_backend.Lobby.Service.{Env, create_lobby, create_from}
use sonalyze_backend.Lobby.Operations.{
  join_lobby, leave_lobby, assign_role, start_measurement, share_room_snapshot,
  broadcast_step_update, broadcast_profile_update,
}

-- If the action raises, the session is as it was.
abbrev pub IsAtomic : {A : Type 0} → Action A → Type 0
IsAtomic m = (s : DbSession) (e : ServiceError) → (m s).0 ≡ err e → (m s).1 ≡ s

module _ (env : Env) (lobby : Lobby) (d : String) where
  pub join_lobby-IsAtomic : IsAtomic (join_lobby env lobby d)
  unfolding join_lobby
  join_lobby-IsAtomic s e h = ground arith

  pub leave_lobby-IsAtomic : IsAtomic (leave_lobby env lobby d)
  unfolding leave_lobby
  leave_lobby-IsAtomic s e h = ground arith

  pub assign_role-IsAtomic :
      (target : String) (role : ParticipantRole) (slot_id slot_label : Option String)
      → IsAtomic (assign_role env lobby d target role slot_id slot_label)
  unfolding assign_role
  assign_role-IsAtomic target role slot_id slot_label s e h = ground arith

  pub start_measurement-IsAtomic : IsAtomic (start_measurement env lobby d)
  unfolding start_measurement
  start_measurement-IsAtomic s e h = ground arith

  pub share_room_snapshot-IsAtomic :
      (room : Fields) → IsAtomic (share_room_snapshot env lobby d room)
  unfolding share_room_snapshot
  share_room_snapshot-IsAtomic room s e h = ground arith

  pub step_update-IsAtomic : (i : Value) → IsAtomic (broadcast_step_update env lobby d i)
  unfolding broadcast_step_update
  step_update-IsAtomic i s e h = ground arith

  pub profile_update-IsAtomic : (p : String) → IsAtomic (broadcast_profile_update env lobby d p)
  unfolding broadcast_profile_update
  profile_update-IsAtomic p s e h = ground arith

  -- For a device that did not create the lobby, each administrative operation raises the permission
  -- error, and nothing is written or sent.
  pub admin_only :
      (s : DbSession) (target : String) (role : ParticipantRole)
      (slot_id slot_label : Option String) (room : Fields) (i : Value) (p : String)
      → lobby.creator_device_id ≢ d
      → let refused : Result (Unit {0}) × DbSession = (err ServiceError.not_admin, s) in
        (assign_role env lobby d target role slot_id slot_label s ≡ refused)
        × (start_measurement env lobby d s ≡ refused)
        × (share_room_snapshot env lobby d room s ≡ refused)
        × (broadcast_step_update env lobby d i s ≡ refused)
        × (broadcast_profile_update env lobby d p s ≡ refused)
  unfolding assign_role start_measurement share_room_snapshot broadcast_step_update
      broadcast_profile_update
  admin_only s target role slot_id slot_label room i p other =
      let foreign : (lobby.creator_device_id == d) ≡ false =
        ground (arith, eq_iff lobby.creator_device_id d) in
      (rw foreign, rw foreign, rw foreign, rw foreign, rw foreign)

create_from-IsAtomic :
    (env : Env) (attempts k : ℕ) (d : String) → IsAtomic (create_from env attempts k d)
unfolding create_from
create_from-IsAtomic env zero k d s e h = refl
create_from-IsAtomic env (suc n) k d s e h =
    ground (arith, create_from-IsAtomic env n (k + 1) d s e)

pub create_lobby-IsAtomic : (env : Env) (d : String) → IsAtomic (create_lobby env d)
unfolding create_lobby
create_lobby-IsAtomic env d = create_from-IsAtomic env 10 0 d
