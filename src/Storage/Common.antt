-- ===== src/Storage/Common.antt =====
-- storage/src/app/routers/_common.py and http_errors.py, and what a commit does: the database checks its
-- constraints, and a violation undoes the work of the request.
use Prim.Native.String.{◌++◌ as ◌<>◌, char_at}
use sonalyze_backend.Prelude.{
  ℕ, String, Bool, true, false, ◌||◌, Option, none, some, List, [], ◌∷◌, ◌==◌, if◌then◌else◌,
}
use sonalyze_backend.Storage.Model.{Database}
use sonalyze_backend.Storage.Answers.{is_valid}
pub use sonalyze_backend.Storage.Answers.{Violation, not_null, unique, foreign_key, Body, Framework}
use sonalyze_backend.Storage.Rows.{has}
use sonalyze_backend.Storage.Schemas.{Change, unset, null, set}

pub data Response : Type 0 where
  body : Body → Response
  http : ℕ → String → Response

abbrev pub Endpoint : Type 0
Endpoint = Database → Response × Database

-- What a request takes from outside: a new uuid, the time, and the draws for a lobby code.
pub record Stamp : Type 0 where
  pub id : String
  pub now : ℕ
  pub draws : List ℕ

-- the detail chosen by `map_integrity_error`
unfoldable pub integrity_detail : Framework → String → Violation → String
integrity_detail fw default_detail v =
    if fw.is_in "uq_participant_lobby_device" v
    then "participant already exists for lobby/device"
    else if fw.is_in "devices_external_id_key" v || fw.is_in "devices.external_id" v
    then "device external_id already exists"
    else if fw.is_in "lobbies_code_key" v || fw.is_in "lobbies.code" v
    then "lobby code already exists"
    else default_detail

unfoldable pub map_integrity_error : Framework → String → Violation → Response
unfolding integrity_detail
map_integrity_error fw default_detail v = http 409 (integrity_detail fw default_detail v)

-- an exception that no handler catches
abbrev pub uncaught : Violation → Response
uncaught v = http 500 "Internal Server Error"

unfoldable pub not_found : String → Response
not_found entity = http 404 (entity <> " not found")

-- the answer, once the response model has looked at it
abbrev pub respond : Framework → Body → Response
respond fw answer = if is_valid fw answer then body answer else http 500 "Internal Server Error"

-- `await db.commit()`: the work is kept, or undone and answered by `failure`.
abbrev pub commit :
    Framework → (Violation → Response) → Option Violation → Body → Database → Endpoint
commit fw failure none answer after db = (respond fw answer, after)
commit fw failure (some v) answer after db = (failure v, db)

-- `row = await db.get(…)` and the 404
abbrev pub with_row : {A : Type 0} → String → Option A → (A → Endpoint) → Endpoint
with_row entity none next db = (not_found entity, db)
with_row entity (some row) next db = next row db

-- `scalar_one_or_none`, for a query on a unique column
abbrev pub show : {A : Type 0} → Framework → String → (A → Body) → Option A → Endpoint
show fw entity view none db = (not_found entity, db)
show fw entity view (some row) db = (respond fw (view row), db)

-- the first of several violations
infixr 30 ◌orelse◌
abbrev pub ◌orelse◌ : Option Violation → Option Violation → Option Violation
none orelse w = w
some v orelse w = some v

abbrev pub fails : Bool → Violation → Option Violation
fails true v = some v
fails false v = none

-- A reference to a row, which may be null.
abbrev pub refers : {A : Type 0} → (A → String) → Option String → List A → Bool
refers key none rows = true
refers key (some id) rows = has key id rows

-- `setattr(model_obj, key, value)` for the entries that are set: a column that may be null, and one
-- that may not, where a null is found by the commit.
abbrev pub patch_nullable : {A : Type 0} → Change A → Option A → Option A
patch_nullable unset old = old
patch_nullable null old = none
patch_nullable (set a) old = some a

abbrev pub patch : {A : Type 0} → Change A → A → A
patch unset old = old
patch null old = old
patch (set a) old = a

abbrev pub is_null : {A : Type 0} → Change A → Bool
is_null null = true
is_null _ = false

abbrev pub no_null : {A : Type 0} → String → Change A → Option Violation
no_null column change = fails (is_null change) (not_null column)

-- `value or default`
abbrev pub or_default : String → Option String → String
or_default default none = default
or_default default (some value) = if value == "" then default else value

-- `generate_lobby_code` of storage/src/app/utils.py, from the positions drawn
abbrev pub alphabet : String
alphabet = "ABCDEFGHIJKLMNOPQRSTUVWXYZ0123456789"

unfoldable pub generate_lobby_code : List ℕ → String
generate_lobby_code [] = ""
generate_lobby_code (i ∷ is) = String.◌∷◌ (char_at alphabet i) (generate_lobby_code is)
