-- ===== src/Gateway/Index.antt =====
-- The two tables of gateway/src/gateway/connection_manager.py agree: a device's set holds just the ids
-- of the connections that are bound to it.
use sonalyze_backend.Prelude.{
  String, ◌≡◌, refl, ap, subst, ◌∙◌, sym, Bool, true, false, not, ◌&&◌, ◌||◌, Option, none, some,
  List, [], ◌∷◌, ◌++◌, ◌==◌, if◌then◌else◌, is_empty, Dict, lookup, insert, lookup-insert, arith,
  eq_iff, eq_refl, inl, inr, Bool-cases, Option-cases,
}
use sonalyze_backend.Gateway.Connections.{
  Connection, ConnectionManager, remove, contains, add, discard, or_empty, ids_of, index, unindex,
}

pub contains-append :
    (c : String) (s t : List String) → contains c (s ++ t) ≡ contains c s || contains c t
unfolding contains
contains-append c [] t = refl
contains-append c (x ∷ s) t = ground (arith, contains-append c s t)

contains-add : (c x : String) (s : List String) → contains c (add x s) ≡ (c == x) || contains c s
unfolding add contains
contains-add c x s = ground (arith, contains-append c s (x ∷ []), eq_iff c x)

contains-discard :
    (c x : String) (s : List String) → contains c (discard x s) ≡ contains c s && not (c == x)
unfolding contains discard
contains-discard c x [] = refl
contains-discard c x (y ∷ s) =
    ground (arith, contains-discard c x s, eq_iff c x, eq_iff c y, eq_iff y x)

pub lookup-remove {ℓ} :
    {V : Type ℓ} (k j : String) (d : Dict V)
    → lookup j (remove k d) ≡ (if k == j then none else lookup j d)
unfolding lookup remove
lookup-remove k j [] = ground arith
lookup-remove k j ((i, v) ∷ d) =
    ground (arith, lookup-remove k j d, eq_iff k j, eq_iff i k, eq_iff i j)

-- The connection `c` is registered and bound to the device `d`, which is not empty.
abbrev pub is_device : String → Option String → Bool
is_device d none = false
is_device d (some e) = not (e == "") && (e == d)

abbrev pub bound_to : String → Option Connection → Bool
bound_to d none = false
bound_to d (some conn) = is_device d conn.device_id

abbrev pub is_bound : String → String → ConnectionManager → Bool
is_bound d c m = bound_to d (lookup c m.by_id)

abbrev pub IsIndexed : ConnectionManager → Type 0
IsIndexed m = (d c : String) → contains c (ids_of d m) ≡ is_bound d c m

-- a device's set after an entry was set to `ids`
ids_after :
    (d d' c' : String) (ids : List String) (b : Dict (List String))
    → contains c' (or_empty (lookup d' (insert d ids b)))
      ≡ (if d == d' then contains c' ids else contains c' (or_empty (lookup d' b)))
ids_after d d' c' ids b = ground (arith, lookup-insert d d' ids b)

ids_without :
    (d d' c' : String) (b : Dict (List String))
    → contains c' (or_empty (lookup d' (remove d b)))
      ≡ (if d == d' then false else contains c' (or_empty (lookup d' b)))
unfolding contains
ids_without d d' c' b = ground (arith, lookup-remove d d' b)

pub contains-index :
    (d c d' c' : String) (m : ConnectionManager)
    → contains c' (ids_of d' (index d c m)) ≡ ((d == d') && (c' == c)) || contains c' (ids_of d' m)
unfolding index add ids_of
contains-index d c d' c' m =
    ids_after d d' c' (add c (or_empty (lookup d m.by_device))) m.by_device
    ∙ elim (Bool-cases (d == d')) [
      | inl e ↦
          let same : d ≡ d' = (eq_iff d d').0 e in
          rw e (contains-add c' c (or_empty (lookup d m.by_device)) ∙ rw same)
      | inr e ↦ rw e
    ]

empty-contains : (c : String) (ids : List String) → is_empty ids ≡ true → contains c ids ≡ false
unfolding contains
empty-contains c [] e = refl
empty-contains c (x ∷ ids) e = cc

module _ (d c : String) (m : ConnectionManager) where
  pub unindexed : Option (List String) → ConnectionManager
  unindexed none = m
  unindexed (some ids) =
      if is_empty ids
      then m
      else if is_empty (discard c ids)
      then record m { by_device = remove d m.by_device }
      else record m { by_device = insert d (discard c ids) m.by_device }

  unindex_self :
      (c' : String) (o : Option (List String))
      → lookup d m.by_device ≡ o
      → contains c' (or_empty (lookup d (unindexed o).by_device))
        ≡ contains c' (discard c (or_empty o))
  unfolding unindexed discard
  unindex_self c' none absent = rw absent
  unindex_self c' (some []) present = rw present
  unindex_self c' (some (x ∷ ids)) present = elim (Bool-cases (is_empty (discard c (x ∷ ids)))) [
    | inl e ↦ rw e (
        ids_without d d c' m.by_device
        ∙ rw (eq_refl d) (sym (empty-contains c' (discard c (x ∷ ids)) e)))
    | inr e ↦ rw e (ids_after d d c' (discard c (x ∷ ids)) m.by_device ∙ rw (eq_refl d))
  ]

  unindex_other :
      (d' : String) (o : Option (List String))
      → (d == d') ≡ false
      → lookup d' (unindexed o).by_device ≡ lookup d' m.by_device
  unfolding unindexed
  unindex_other d' none ne = refl
  unindex_other d' (some ids) ne =
      ground (arith, lookup-remove d d' m.by_device, lookup-insert d d' (discard c ids) m.by_device)

pub unindex-unindexed :
    (d c : String) (m : ConnectionManager) → unindex d c m ≡ unindexed d c m (lookup d m.by_device)
unfolding unindex unindexed
unindex-unindexed d c m = elim (Option-cases (lookup d m.by_device)) [
  | inl absent ↦ rw (absent, unindex)
  | inr (ids, present) ↦ rw (present, unindex)
]

pub contains-unindex :
    (d c d' c' : String) (m : ConnectionManager)
    → contains c' (ids_of d' (unindex d c m))
      ≡ contains c' (ids_of d' m) && not ((d == d') && (c' == c))
unfolding ids_of
contains-unindex d c d' c' m =
    let o : Option (List String) = lookup d m.by_device in
    ap (λ (n : ConnectionManager). contains c' (or_empty (lookup d' n.by_device)))
      (unindex-unindexed d c m)
    ∙ elim (Bool-cases (d == d')) [
      | inl e ↦
          let same : d ≡ d' = (eq_iff d d').0 e in
          rw e (
            subst
              (λ (x : String).
                contains c' (or_empty (lookup x (unindexed d c m o).by_device))
                ≡ contains c' (or_empty (lookup x m.by_device)) && not (c' == c))
              same (unindex_self d c m c' o refl ∙ contains-discard c' c (or_empty o)))
      | inr e ↦ rw (unindex_other d c m d' o e) (ground arith)
    ]
