-- ===== src/Lobby/Codes.antt =====
-- The codes of the lobbies (`create_lobby` of lobby/src/service.py).
use sonalyze_backend.Prelude.{
  ℕ, zero, suc, ◌+◌, String, ◌≡◌, refl, subst, none, some, inl, inr, Option-cases, ◌==◌, eq_refl,
}
use sonalyze_backend.Lobby.Model.{Lobby, LobbyState}
use sonalyze_backend.Lobby.Monad.{DbSession, ok}
use sonalyze_backend.Lobby.Service.{
  Env, create_lobby, create_from, open_with, generate_code, get_lobby_by_code,
}
use sonalyze_backend.Lobby.Rows.{find-append_new}

-- What a created lobby is: its code was free and now finds it, the creator is its admin, and it is
-- open.
pub record IsCreated (d : String) (lobby : Lobby) (s s' : DbSession) : Type 0 where
  pub was_free : get_lobby_by_code lobby.code s.working ≡ none
  pub is_found : get_lobby_by_code lobby.code s'.working ≡ some lobby
  pub admin : lobby.creator_device_id ≡ d
  pub is_open : lobby.state ≡ LobbyState.open_lobby

open_with-IsCreated :
    (env : Env) (d code : String) (s : DbSession) (lobby : Lobby)
    → get_lobby_by_code code s.working ≡ none
    → (open_with env d code s).0 ≡ ok lobby
    → IsCreated d lobby s (open_with env d code s).1
unfolding open_with get_lobby_by_code
open_with-IsCreated env d code s lobby free returned =
    subst (λ (l : Lobby). IsCreated d l s (open_with env d code s).1) same
      (record {
        was_free = free;
        is_found = find-append_new (λ l. l.code == code) s.working.lobbies new free (eq_refl code);
        admin = refl;
        is_open = refl;
      })
  where
    new : Lobby
    new = record {
      id = env.lobby_uuid;
      code = code;
      creator_device_id = d;
      state = LobbyState.open_lobby;
      created_at = env.now;
    }

    same : new ≡ lobby
    same = cc returned

create_from-IsCreated :
    (env : Env) (attempts k : ℕ) (d : String) (s : DbSession) (lobby : Lobby)
    → (create_from env attempts k d s).0 ≡ ok lobby
    → IsCreated d lobby s (create_from env attempts k d s).1
unfolding create_from
create_from-IsCreated env zero k d s lobby returned = cc
create_from-IsCreated env (suc n) k d s lobby returned =
    let code : String = generate_code (env.draws k) in
    elim (Option-cases (get_lobby_by_code code s.working)) [
      | inl free ↦
          let r : (open_with env d code s).0 ≡ ok lobby = rw (free, create_from) at returned in
          rw (free, create_from) (open_with-IsCreated env d code s lobby free r)
      | inr (other, taken) ↦
          let r : (create_from env n (k + 1) d s).0 ≡ ok lobby =
            rw (taken, create_from) at returned in
          rw (taken, create_from) (create_from-IsCreated env n (k + 1) d s lobby r)
    ]

-- A lobby that is created has a code that no lobby had, and is found by it; its creator is its admin,
-- and it is open.
pub create_lobby-IsCreated :
    (env : Env) (d : String) (s : DbSession) (lobby : Lobby)
    → (create_lobby env d s).0 ≡ ok lobby
    → IsCreated d lobby s (create_lobby env d s).1
unfolding create_lobby
create_lobby-IsCreated env d s lobby returned = create_from-IsCreated env 10 0 d s lobby returned
