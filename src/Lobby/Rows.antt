-- ===== src/Lobby/Rows.antt =====
-- Queries after writes, on the tables of lobby/src/service.py.
use mathlib.Core.Option
use sonalyze_backend.Prelude.{
  String, ◌≡◌, refl, Bool, true, false, ◌&&◌, none, some, List, [], ◌∷◌, ◌++◌, arith, inl, inr,
  Bool-cases, ◌==◌, find, eq_iff,
}
use sonalyze_backend.Lobby.Model.{Participant}
use sonalyze_backend.Lobby.Service.{is_of, update_first}

module _ {ℓ} {A : Type ℓ} (p : A → Bool) where
  -- the row itself, with the assignment made
  pub find-update_self :
      (f : A → A) (xs : List A)
      → ((x : A) → p x ≡ true → p (f x) ≡ true)
      → find p (update_first p f xs) ≡ Option.map f (find p xs)
  unfolding update_first
  find-update_self f [] keeps = refl
  find-update_self f (x ∷ xs) keeps = elim (Bool-cases (p x)) [
    | inl e ↦ rw (e, keeps x e)
    | inr e ↦ rw e (rw e (find-update_self f xs keeps))
  ]

  -- another row: `q` fits the assigned row neither before nor after
  pub find-update_ne :
      (q : A → Bool) (f : A → A) (xs : List A)
      → ((x : A) → p x ≡ true → (q x ≡ false) × (q (f x) ≡ false))
      → find q (update_first p f xs) ≡ find q xs
  unfolding update_first
  find-update_ne q f [] apart = refl
  find-update_ne q f (x ∷ xs) apart = elim (Bool-cases (p x)) [
    | inl e ↦ rw (e, (apart x e).0) (rw (apart x e).1)
    | inr e ↦ rw e (ground (arith, find-update_ne q f xs apart))
  ]

  pub find-append_new :
      (xs : List A) (y : A) → find p xs ≡ none → p y ≡ true → find p (xs ++ y ∷ []) ≡ some y
  find-append_new [] y absent fits = rw fits
  find-append_new (x ∷ xs) y absent fits = elim (Bool-cases (p x)) [
    | inl e ↦ let impossible : some x ≡ none = rw e at absent in cc impossible
    | inr e ↦ rw e (find-append_new xs y (rw e at absent) fits)
  ]

  pub find-append_ne : (xs : List A) (y : A) → p y ≡ false → find p (xs ++ y ∷ []) ≡ find p xs
  find-append_ne [] y other = rw other
  find-append_ne (x ∷ xs) y other = ground (arith, find-append_ne xs y other)

-- A row of one device is no row of another.
pub is_of-apart :
    (l d l' d' : String) (p q : Participant)
    → q.lobby_id ≡ p.lobby_id
    → q.device_id ≡ p.device_id
    → ((l' == l) && (d' == d)) ≡ false
    → is_of l d p ≡ true
    → (is_of l' d' p ≡ false) × (is_of l' d' q ≡ false)
is_of-apart l d l' d' p q sl sd apart e = ground (
  arith,
  eq_iff p.lobby_id l,
  eq_iff p.device_id d,
  eq_iff p.lobby_id l',
  eq_iff p.device_id d',
  eq_iff l' l,
  eq_iff d' d,
)
