-- ===== src/Storage/Constraints.antt =====
-- What a commit has checked, and how a property of the database passes through an endpoint.
use sonalyze_backend.Prelude.{
  ℕ, String, ◌≡◌, ◌≢◌, refl, Bool-cases, inl, inr, Bool, true, false, not, Option, none, some,
}
use sonalyze_backend.Storage.Model.{Database}
use sonalyze_backend.Storage.Answers.{is_valid}
use sonalyze_backend.Storage.Common.{
  Violation, Body, Response, Endpoint, Framework, commit, with_row, show, ◌orelse◌, fails, respond,
  body, http,
}

pub orelse-none : (v w : Option Violation) → (v orelse w) ≡ none → (v ≡ none) × (w ≡ none)
orelse-none none w e = (refl, e)
orelse-none (some v) w e = cc e

pub fails-none : (b : Bool) (v : Violation) → fails b v ≡ none → b ≡ false
fails-none true v e = cc e
fails-none false v e = refl

-- a requirement that is met
pub met : (b : Bool) (v : Violation) → fails (not b) v ≡ none → b ≡ true
met true v e = refl
met false v e = cc e

module _ (P : Database → Type 0) where
  pub commit-keeps :
      (fw : Framework) (failure : Violation → Response) (v : Option Violation) (answer : Body)
      (after db : Database)
      → P db
      → (v ≡ none → P after)
      → P ((commit fw failure v answer after db).1)
  commit-keeps fw failure none answer after db h f = f refl
  commit-keeps fw failure (some v) answer after db h f = h

  pub with_row-keeps :
      {A : Type 0} (entity : String) (found : Option A) (next : A → Endpoint) (db : Database)
      → P db
      → ((row : A) → found ≡ some row → P ((next row db).1))
      → P ((with_row entity found next db).1)
  with_row-keeps entity none next db h f = h
  with_row-keeps entity (some row) next db h f = f row refl

module _ (P : Database → Type 0) where
  pub show-keeps :
      {A : Type 0} (fw : Framework) (entity : String) (view : A → Body) (found : Option A)
      (db : Database)
      → P db
      → P ((show fw entity view found db).1)
  show-keeps fw entity view none db h = h
  show-keeps fw entity view (some row) db h = h

module _ (fw : Framework) (db : Database) (code : ℕ) (detail : String) where
  -- Only a row that the response model rejects is answered by an error after the commit.
  pub respond-accepts :
      {A : Type 0} (answer : Body) → respond fw answer ≡ http code detail → code ≢ 500 → A
  respond-accepts answer e ne = elim (Bool-cases (is_valid fw answer)) [
    | inl ok ↦ let f : body answer ≡ http code detail = rw ok at e in cc f
    | inr bad ↦
        let f : http 500 "Internal Server Error" ≡ http code detail = rw bad at e in
        let is_500 : code ≡ 500 = cc f in elim (ne is_500) [ ]
  ]

  pub commit-refused :
      (failure : Violation → Response) (v : Option Violation) (answer : Body) (after : Database)
      → (commit fw failure v answer after db).0 ≡ http code detail
      → code ≢ 500
      → (commit fw failure v answer after db).1 ≡ db
  commit-refused failure none answer after e ne = respond-accepts answer e ne
  commit-refused failure (some v) answer after e ne = refl

  pub with_row-refused :
      {A : Type 0} (entity : String) (found : Option A) (next : A → Endpoint)
      → ((row : A) → (next row db).0 ≡ http code detail → (next row db).1 ≡ db)
      → (with_row entity found next db).0 ≡ http code detail
      → (with_row entity found next db).1 ≡ db
  with_row-refused entity none next f e = refl
  with_row-refused entity (some row) next f e = f row e

pub show-unchanged :
    {A : Type 0} (fw : Framework) (entity : String) (view : A → Body) (found : Option A)
    (db : Database)
    → (show fw entity view found db).1 ≡ db
show-unchanged fw entity view none db = refl
show-unchanged fw entity view (some row) db = refl

-- what a creation that is answered by its row has passed
pub commit-body :
    (fw : Framework) (failure : Violation → Response) (v : Option Violation) (row : Body)
    (after db : Database) (answer : Body)
    → ((v' : Violation) → failure v' ≢ body answer)
    → (commit fw failure v row after db).0 ≡ body answer
    → (v ≡ none) × (respond fw row ≡ body answer) × ((commit fw failure v row after db).1 ≡ after)
commit-body fw failure none row after db answer fails_otherwise e = (refl, e, refl)
commit-body fw failure (some v) row after db answer fails_otherwise e =
    elim (fails_otherwise v e) [ ]
