-- ===== src/Lobby/Events.antt =====
-- The event log of the lobbies (`_append_event` and `get_events` of lobby/src/service.py).
use sonalyze_backend.Prelude.{
  ℕ, ◌+◌, ◌<◌, String, ◌≡◌, refl, ap, sym, ◌∙◌, Bool, not, ◌&&◌, none, some, List, [], ◌∷◌, ◌++◌,
  arith, inl, inr, Bool-cases, ◌==◌, ltb, select, All, All-append,
}
use sonalyze_backend.Lobby.Model.{LobbyEvent, EventBody, Db}
use sonalyze_backend.Lobby.Service.{Env, append_event}
use sonalyze_backend.Lobby.Operations.{insert_by_id, order_by_id, get_events}

-- Keys ascend, and the next key is above them all.
abbrev pub Ascends : List LobbyEvent → Type 0
Ascends [] = Unit
Ascends (e ∷ es) = All (λ f. e.id < f.id) es × Ascends es

pub record IsLog (db : Db) : Type 0 where
  pub ascends : Ascends db.events
  pub below : All (λ e. e.id < db.next_event_id) db.events

Ascends-append :
    (es : List LobbyEvent) (e : LobbyEvent)
    → Ascends es
    → All (λ f. f.id < e.id) es
    → Ascends (es ++ e ∷ [])
Ascends-append [] e a b = (tt, tt)
Ascends-append (f ∷ es) e a b =
    (All-append (λ g. f.id < g.id) es (e ∷ []) a.0 (b.0, tt), Ascends-append es e a.1 b.1)

All-below : (n : ℕ) (es : List LobbyEvent) → All (λ e. e.id < n) es → All (λ e. e.id < n + 1) es
All-below n [] h = tt
All-below n (e ∷ es) h = (omega (arith, h.0), All-below n es h.1)

-- an insertion keeps that
pub append_event-IsLog :
    (env : Env) (lobby_id : String) (body : EventBody) (db : Db)
    → IsLog db
    → IsLog (append_event env lobby_id body db)
unfolding append_event
append_event-IsLog env lobby_id body db l = record {
  ascends = Ascends-append db.events _ l.ascends l.below;
  below = All-append _ db.events _ (All-below db.next_event_id db.events l.below) (omega arith, tt);
}

-- the events of the lobby up to a key
abbrev pub seen : String → ℕ → List LobbyEvent → List LobbyEvent
seen lobby_id a es = select (λ e. (e.lobby_id == lobby_id) && not (ltb a e.id)) es

abbrev late : String → ℕ → List LobbyEvent → List LobbyEvent
late lobby_id a es = select (λ e. (e.lobby_id == lobby_id) && ltb a e.id) es

seen-nil : (l : String) (a : ℕ) (es : List LobbyEvent) → All (λ e. a < e.id) es → seen l a es ≡ []
seen-nil l a [] h = refl
seen-nil l a (e ∷ es) h = ground (arith, seen-nil l a es)

All-above :
    (a n : ℕ) (es : List LobbyEvent) → a < n → All (λ e. n < e.id) es → All (λ e. a < e.id) es
All-above a n [] lt h = tt
All-above a n (e ∷ es) lt h = (omega (arith, h.0), All-above a n es lt h.1)

seen-late :
    (l : String) (a : ℕ) (es : List LobbyEvent)
    → Ascends es
    → select (λ e. e.lobby_id == l) es ≡ seen l a es ++ late l a es
seen-late l a [] h = refl
seen-late l a (e ∷ es) h = elim (Bool-cases (ltb a e.id)) [
  | inl new ↦
      ground (arith, seen-late l a es h.1, seen-nil l a es (All-above a e.id es (ground arith) h.0))
  | inr old ↦ ground (arith, seen-late l a es h.1)
]

-- Rows whose keys ascend are in their order already.
insert_by_id-least :
    (e : LobbyEvent) (es : List LobbyEvent) → All (λ f. e.id < f.id) es → insert_by_id e es ≡ e ∷ es
unfolding insert_by_id
insert_by_id-least e [] h = refl
insert_by_id-least e (f ∷ es) h = ground (arith, h.0)

order_by_id-Ascends : (es : List LobbyEvent) → Ascends es → order_by_id es ≡ es
unfolding order_by_id
order_by_id-Ascends [] a = refl
order_by_id-Ascends (e ∷ es) a = rw (order_by_id-Ascends es a.1) (insert_by_id-least e es a.0)

All-select :
    (n : ℕ) (p : LobbyEvent → Bool) (es : List LobbyEvent)
    → All (λ f. n < f.id) es
    → All (λ f. n < f.id) (select p es)
All-select n p [] h = tt
All-select n p (e ∷ es) h = elim (Bool-cases (p e)) [
  | inl kept ↦ rw kept (h.0, All-select n p es h.1)
  | inr dropped ↦ rw dropped (All-select n p es h.1)
]

Ascends-select : (p : LobbyEvent → Bool) (es : List LobbyEvent) → Ascends es → Ascends (select p es)
Ascends-select p [] a = tt
Ascends-select p (e ∷ es) a = elim (Bool-cases (p e)) [
  | inl kept ↦ rw kept (All-select e.id p es a.0, Ascends-select p es a.1)
  | inr dropped ↦ rw dropped (Ascends-select p es a.1)
]

ordered-select :
    (p : LobbyEvent → Bool) (es : List LobbyEvent)
    → Ascends es
    → order_by_id (select p es) ≡ select p es
ordered-select p es a = order_by_id-Ascends (select p es) (Ascends-select p es a)

-- With ascending keys, the whole log of a lobby is what a client has seen up to a key followed by what
-- it is given when it asks for the events after that key.
pub get_events-after :
    (lobby_id : String) (a : ℕ) (db : Db)
    → IsLog db
    → get_events lobby_id none db ≡ seen lobby_id a db.events ++ get_events lobby_id (some a) db
unfolding get_events
get_events-after lobby_id a db l =
    ordered-select (λ e. e.lobby_id == lobby_id) db.events l.ascends
    ∙ seen-late lobby_id a db.events l.ascends
    ∙ ap (λ es. seen lobby_id a db.events ++ es)
        (sym (ordered-select (λ e. (e.lobby_id == lobby_id) && ltb a e.id) db.events l.ascends))
