-- ===== src/Gateway/Bindings.antt =====
-- The operations of gateway/src/gateway/connection_manager.py keep its two tables in agreement, and so
-- a payload reaches the connections of the devices that it is sent to, and no other.
use sonalyze_backend.Prelude.{
  String, ◌≡◌, ◌≢◌, refl, ap, subst, ◌∙◌, sym, Bool, true, false, not, ◌&&◌, ◌||◌, Option, none,
  some, List, [], ◌∷◌, ◌==◌, if◌then◌else◌, select, Dict, lookup, insert, lookup-insert, arith,
  eq_iff, eq_refl, inl, inr, Bool-cases, Option-cases,
}
use sonalyze_backend.Gateway.Connections.{
  Connection, ConnectionManager, contains, ids_of, index, index_named, register, update,
  bind_device_id, unindex, unindex_named, unregister, is_registered, recipients, remove,
}
use sonalyze_backend.Gateway.Index.{
  is_device, bound_to, is_bound, IsIndexed, contains-append, contains-index, contains-unindex,
  lookup-remove,
}

index-by_id : (d c : String) (m : ConnectionManager) → (index d c m).by_id ≡ m.by_id
unfolding index
index-by_id d c m = refl

module _ (id : String) (m : ConnectionManager) (d c : String) where
  index_named-contains :
      (o : Option String)
      → contains c (ids_of d (index_named o id m))
        ≡ (is_device d o && (c == id)) || contains c (ids_of d m)
  index_named-contains none = refl
  index_named-contains (some e) = elim (Bool-cases (e == "")) [
    | inl t ↦ rw t
    | inr f ↦ rw f (contains-index e id d c m)
  ]

  index_named-by_id : (o : Option String) → (index_named o id m).by_id ≡ m.by_id
  unfolding index
  index_named-by_id none = refl
  index_named-by_id (some e) = ground arith

  unindex_named-contains :
      (o : Option String)
      → contains c (ids_of d (unindex_named o id m))
        ≡ contains c (ids_of d m) && not (is_device d o && (c == id))
  unindex_named-contains none = ground arith
  unindex_named-contains (some e) = elim (Bool-cases (e == "")) [
    | inl t ↦ rw t (ground arith)
    | inr f ↦ rw f (contains-unindex e id d c m)
  ]

  unindex_named-by_id : (o : Option String) → (unindex_named o id m).by_id ≡ m.by_id
  unfolding unindex
  unindex_named-by_id none = refl
  unindex_named-by_id (some e) = ground arith

  -- the entry of another connection, and the one that is set
  bound_to-insert :
      (conn : Connection)
      → bound_to d (lookup c (insert id conn m.by_id))
        ≡ (if id == c then is_device d conn.device_id else is_bound d c m)
  bound_to-insert conn = ground (arith, lookup-insert id c conn m.by_id)

  bound_to-remove :
      bound_to d (lookup c (remove id m.by_id)) ≡ (if id == c then false else is_bound d c m)
  bound_to-remove = ground (arith, lookup-remove id c m.by_id)

  -- what the tables say of the connection at hand
  here :
      (o : Option Connection)
      → IsIndexed m
      → lookup id m.by_id ≡ o
      → (c == id) ≡ true
      → contains c (ids_of d m) ≡ bound_to d o
  here o agree found e =
      agree d c
      ∙ ap (bound_to d) (ap (λ (x : String). lookup x m.by_id) ((eq_iff c id).0 e) ∙ found)

-- A connection that registers under a fresh id keeps the tables in agreement.
pub register-IsIndexed :
    (conn : Connection) (m : ConnectionManager)
    → lookup conn.connection_id m.by_id ≡ none
    → IsIndexed m
    → IsIndexed (register conn m)
unfolding register ids_of
register-IsIndexed conn m fresh agree d c =
    let id : String = conn.connection_id in
    let m' : ConnectionManager = record m { by_id = insert id conn m.by_id } in
    index_named-contains id m' d c conn.device_id
    ∙ ground (arith, agree d c, here id m d c none agree fresh, eq_iff c id, eq_iff id c)
    ∙ sym (bound_to-insert id m d c conn)
    ∙ ap (λ (t : Dict Connection). bound_to d (lookup c t))
        (sym (index_named-by_id id m' d c conn.device_id))

-- A registered connection that is not yet bound can be bound to a device, which keeps the tables in
-- agreement.
pub bind_device_id-IsIndexed :
    (conn : Connection) (id device : String) (m : ConnectionManager)
    → lookup id m.by_id ≡ some conn
    → conn.device_id ≡ none
    → device ≢ ""
    → IsIndexed m
    → IsIndexed (bind_device_id id device m)
unfolding bind_device_id ids_of
bind_device_id-IsIndexed conn id device m found unbound named agree d c =
    let conn' : Connection = record conn { device_id = some device } in
    let m' : ConnectionManager = record m { by_id = insert id conn' m.by_id } in
    let old : bound_to d (some conn) ≡ false = rw unbound in
    subst
      (λ (n : ConnectionManager).
        contains c (ids_of d (index device id n)) ≡ is_bound d c (index device id n))
      (sym (rw (found, update)))
      (contains-index device id d c m'
        ∙ ground (
          arith,
          agree d c,
          here id m d c (some conn) agree found,
          old,
          eq_iff c id,
          eq_iff id c,
          eq_iff device "",
        )
        ∙ sym (bound_to-insert id m d c conn')
        ∙ ap (λ (t : Dict Connection). bound_to d (lookup c t)) (sym (index-by_id device id m')))

-- After a connection is unregistered, known or not, the tables agree still.
pub unregister-IsIndexed :
    (id : String) (m : ConnectionManager) → IsIndexed m → IsIndexed (unregister id m)
unfolding unregister ids_of
unregister-IsIndexed id m agree d c = elim (Option-cases (lookup id m.by_id)) [
  | inl unknown ↦ rw (unknown, unregister) (agree d c)
  | inr (conn, found) ↦
      let m' : ConnectionManager = record m { by_id = remove id m.by_id } in
      rw (found, unregister)
        (unindex_named-contains id m' d c conn.device_id
          ∙ ground
              (arith, agree d c, here id m d c (some conn) agree found, eq_iff c id, eq_iff id c)
          ∙ sym (bound_to-remove id m d c)
          ∙ ap (λ (t : Dict Connection). bound_to d (lookup c t))
              (sym (unindex_named-by_id id m' d c conn.device_id)))
]

-- the connection is bound to one of the devices
abbrev pub is_any : List String → String → ConnectionManager → Bool
is_any [] c m = false
is_any (d ∷ ds) c m = is_bound d c m || is_any ds c m

contains-select :
    (p : String → Bool) (c : String) (s : List String)
    → contains c (select p s) ≡ contains c s && p c
unfolding contains
contains-select p c [] = refl
contains-select p c (x ∷ s) = elim (Bool-cases (c == x)) [
  | inl e ↦ rw ((eq_iff c x).0 e) (ground (arith, contains-select p x s, eq_refl x))
  | inr e ↦ ground (arith, contains-select p c s)
]

-- A connection that registers under a fresh id, and the unregistering of any id, known or not, keep the
-- tables in agreement.
pub register-unregister-IsIndexed :
    (conn : Connection) (id : String) (m : ConnectionManager)
    → lookup conn.connection_id m.by_id ≡ none
    → IsIndexed m
    → IsIndexed (register conn m) × IsIndexed (unregister id m)
register-unregister-IsIndexed conn id m fresh agree =
    (register-IsIndexed conn m fresh agree, unregister-IsIndexed id m agree)

-- Where the tables agree, a payload that is sent to some devices goes to a connection if and only if it
-- is bound to one of them.
pub recipients-IsIndexed :
    (ids : List String) (c : String) (m : ConnectionManager)
    → IsIndexed m
    → contains c (recipients ids m) ≡ is_any ids c m
unfolding recipients contains
recipients-IsIndexed [] c m agree = refl
recipients-IsIndexed (d ∷ ids) c m agree =
    contains-append c (select (is_registered m) (ids_of d m)) (recipients ids m)
    ∙ ground (
      arith,
      contains-select (is_registered m) c (ids_of d m),
      agree d c,
      recipients-IsIndexed ids c m agree,
    )
