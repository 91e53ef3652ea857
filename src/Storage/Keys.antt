-- ===== src/Storage/Keys.antt =====
-- The primary keys of a table and the references to them, after the writes of Storage/Rows.antt.
use sonalyze_backend.Prelude.{
  String, ◌≡◌, refl, subst, Bool, true, false, Option, none, some, List, [], ◌∷◌, ◌++◌, map, ◌==◌,
  inl, inr, Bool-cases, eq_iff, arith, All, select,
}
use sonalyze_backend.Storage.Rows.{get, has, without, replace, forget}
use sonalyze_backend.Storage.Common.{refers}

module _ {A : Type 0} (P Q : A → Type 0) where
  pub All-imp : (xs : List A) → ((a : A) → P a → Q a) → All P xs → All Q xs
  All-imp [] f h = tt
  All-imp (x ∷ xs) f h = (f x h.0, All-imp xs f h.1)

  -- the rows that pass a test
  pub All-select :
      (p : A → Bool) (xs : List A)
      → ((a : A) → p a ≡ true → P a → Q a)
      → All P xs
      → All Q (select p xs)
  All-select p [] f h = tt
  All-select p (x ∷ xs) f h = elim (Bool-cases (p x)) [
    | inl e ↦ rw e (f x e h.0, All-select p xs f h.1)
    | inr e ↦ rw e (All-select p xs f h.1)
  ]

  pub All-map : (g : A → A) (xs : List A) → ((a : A) → P a → Q (g a)) → All P xs → All Q (map g xs)
  All-map g [] f h = tt
  All-map g (x ∷ xs) f h = (f x h.0, All-map g xs f h.1)

module _ {A : Type 0} (key : A → String) where
  pub All-replace :
      (P : A → Type 0) (id : String) (new : A) (rows : List A)
      → P new
      → All P rows
      → All P (replace key id new rows)
  unfolding replace
  All-replace P id new [] h hs = tt
  All-replace P id new (r ∷ rows) h hs = elim (Bool-cases (key r == id)) [
    | inl e ↦ rw e (h, All-replace P id new rows h hs.1)
    | inr e ↦ rw e (hs.0, All-replace P id new rows h hs.1)
  ]

  -- the row that is found is one of the table and has the id
  pub All-get :
      (P : A → Type 0) (id : String) (rows : List A) (row : A)
      → get key id rows ≡ some row
      → All P rows
      → P row × (key row ≡ id)
  unfolding get
  All-get P id [] row e hs = cc e
  All-get P id (r ∷ rows) row e hs = elim (Bool-cases (key r == id)) [
    | inl is ↦
        let found : some r ≡ some row = rw is at e in
        let same : r ≡ row = cc found in
        subst (λ (x : A). P x × (key x ≡ id)) same (hs.0, (eq_iff (key r) id).0 is)
    | inr is ↦ All-get P id rows row (rw is at e) hs.1
  ]

  pub has-append :
      (id : String) (rows : List A) (r : A)
      → has key id rows ≡ true
      → has key id (rows ++ r ∷ []) ≡ true
  unfolding has
  has-append id [] r e = cc e
  has-append id (q ∷ rows) r e = ground (arith, has-append id rows r)

  pub has-replace :
      (k id : String) (new : A) (rows : List A)
      → key new ≡ id
      → has key k (replace key id new rows) ≡ has key k rows
  unfolding has replace
  has-replace k id new [] e = refl
  has-replace k id new (r ∷ rows) e = ground (arith, has-replace k id new rows e, eq_iff (key r) id)

  pub has-map :
      (g : A → A) (k : String) (rows : List A)
      → ((a : A) → key (g a) ≡ key a)
      → has key k (map g rows) ≡ has key k rows
  unfolding has
  has-map g k [] e = refl
  has-map g k (r ∷ rows) e = rw (e r) (rw (has-map g k rows e) refl)

  pub refers-map :
      (g : A → A) (o : Option String) (rows : List A)
      → ((a : A) → key (g a) ≡ key a)
      → refers key o (map g rows) ≡ refers key o rows
  refers-map g none rows e = refl
  refers-map g (some k) rows e = has-map g k rows e

  pub has-without :
      (k id : String) (rows : List A)
      → (k == id) ≡ false
      → has key k (without key id rows) ≡ has key k rows
  unfolding has without
  has-without k id [] e = refl
  has-without k id (r ∷ rows) e =
      ground (arith, has-without k id rows e, eq_iff (key r) id, eq_iff (key r) k, eq_iff k id)

  -- `ON DELETE SET NULL` leaves no reference to the row that is gone.
  pub refers-without :
      (o : Option String) (id : String) (rows : List A)
      → refers key o rows ≡ true
      → refers key (forget id o) (without key id rows) ≡ true
  refers-without none id rows e = refl
  refers-without (some k) id rows e = elim (Bool-cases (k == id)) [
    | inl is ↦ rw is refl
    | inr is ↦ rw is (rw (has-without k id rows is) e)
  ]
