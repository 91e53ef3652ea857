-- ===== src/Gateway/Connections.antt =====
-- gateway/src/gateway/connection_manager.py. A `Connection` is one object, which the manager finds by
-- its id, so an id stands for a reference to it; a set of ids is a list without repetitions.
use sonalyze_backend.Prelude.{
  ℕ, String, Bool, true, false, not, ◌||◌, Option, none, some, List, [], ◌∷◌, ◌++◌, ◌==◌,
  if◌then◌else◌, select, is_empty, count, Dict, lookup, insert,
}
use sonalyze_backend.Gateway.RateLimit.{TokenBucket}

pub record Connection : Type 0 where
  pub connection_id : String
  pub device_id : Option String
  pub ip : Option String
  pub rate_limiter : TokenBucket

pub record ConnectionManager : Type 0 where
  pub by_id : Dict Connection
  pub by_device : Dict (List String)

abbrev pub no_connections : ConnectionManager
no_connections = record { by_id = []; by_device = [] }

-- `d.pop(k, None)`
unfoldable pub remove {ℓ} : {V : Type ℓ} → String → Dict V → Dict V
remove k [] = []
remove k ((j, v) ∷ d) = let rest = remove k d in if j == k then rest else (j, v) ∷ rest

unfoldable pub contains : String → List String → Bool
contains x [] = false
contains x (y ∷ ys) = (x == y) || contains x ys

-- `s.add(x)`
unfoldable pub add : String → List String → List String
unfolding contains
add x s = if contains x s then s else s ++ x ∷ []

-- `s.discard(x)`
unfoldable pub discard : String → List String → List String
discard x s = select (λ y. not (y == x)) s

-- `d.get(device_id, set())`
abbrev pub or_empty : Option (List String) → List String
or_empty none = []
or_empty (some ids) = ids

unfoldable pub ids_of : String → ConnectionManager → List String
unfolding lookup
ids_of device_id m = or_empty (lookup device_id m.by_device)

-- `self._connections_by_device.setdefault(device_id, set()).add(connection_id)`
unfoldable pub index : String → String → ConnectionManager → ConnectionManager
unfolding insert add ids_of
index device_id connection_id m = record m {
  by_device = insert device_id (add connection_id (ids_of device_id m)) m.by_device;
}

-- `if device_id: …`, false for a missing and for an empty id
abbrev pub index_named : Option String → String → ConnectionManager → ConnectionManager
index_named none connection_id m = m
index_named (some device_id) connection_id m =
    if device_id == "" then m else index device_id connection_id m

-- the connection built by `register`; `connection_id` is `secrets.token_urlsafe(16)`
abbrev pub new_connection : String → Option String → Option String → TokenBucket → Connection
new_connection connection_id device_id ip rate_limiter = record {
  connection_id = connection_id;
  device_id = device_id;
  ip = ip;
  rate_limiter = rate_limiter;
}

unfoldable pub register : Connection → ConnectionManager → ConnectionManager
unfolding insert index
register conn m =
    index_named conn.device_id conn.connection_id
      (record m { by_id = insert conn.connection_id conn m.by_id })

-- an assignment to the object that the id refers to
unfoldable pub update : String → (Connection → Connection) → ConnectionManager → ConnectionManager
unfolding lookup insert
update connection_id f m = elim (lookup connection_id m.by_id) [
  | none ↦ m
  | some conn ↦ record m { by_id = insert connection_id (f conn) m.by_id }
]

unfoldable pub bind_device_id : String → String → ConnectionManager → ConnectionManager
unfolding update index
bind_device_id connection_id device_id m =
    index device_id connection_id
      (update connection_id (λ conn. record conn { device_id = some device_id }) m)

-- the entry of a device after `ids.discard(connection_id)`, dropped where nothing is left
unfoldable pub unindex : String → String → ConnectionManager → ConnectionManager
unfolding lookup insert remove discard
unindex device_id connection_id m = elim (lookup device_id m.by_device) [
  | none ↦ m
  | some ids ↦
      if is_empty ids
      then m
      else if is_empty (discard connection_id ids)
      then record m { by_device = remove device_id m.by_device }
      else record m { by_device = insert device_id (discard connection_id ids) m.by_device }
]

abbrev pub unindex_named : Option String → String → ConnectionManager → ConnectionManager
unindex_named none connection_id m = m
unindex_named (some device_id) connection_id m =
    if device_id == "" then m else unindex device_id connection_id m

unfoldable pub unregister : String → ConnectionManager → ConnectionManager
unfolding lookup remove unindex
unregister connection_id m = elim (lookup connection_id m.by_id) [
  | none ↦ m
  | some conn ↦
      unindex_named conn.device_id connection_id (record m { by_id = remove connection_id m.by_id })
]

abbrev pub is_registered : ConnectionManager → String → Bool
is_registered m connection_id = elim (lookup connection_id m.by_id) [ none ↦ false | some _ ↦ true ]

-- `to_send` of `send_to_device_ids`, by the ids of the connections
unfoldable pub recipients : List String → ConnectionManager → List String
unfolding ids_of lookup
recipients [] m = []
recipients (d ∷ ds) m = select (is_registered m) (ids_of d m) ++ recipients ds m

-- What `send_to_device_ids` returns: `delivers` says whether the socket of a connection takes the
-- payload or raises.
unfoldable pub send_to_device_ids : (String → Bool) → List String → ConnectionManager → ℕ
unfolding recipients
send_to_device_ids delivers device_ids m = count delivers (recipients device_ids m)
