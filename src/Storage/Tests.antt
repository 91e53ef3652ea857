-- ===== src/Storage/Tests.antt =====
-- The theorems on the storage service at concrete databases.
use sonalyze_backend.Prelude.{
  ℕ, zero, suc, ◌≢◌, String, ◌≡◌, refl, Bool, true, false, Option, none, some, List, [], ◌∷◌, ◌==◌,
  length, count, arith, ◌≤◌,
}
use sonalyze_backend.Json.{pos, Fields}
use sonalyze_backend.Storage.Model.{Device, Lobby, Participant, Database, empty_database}
use sonalyze_backend.Storage.Schemas.{Change, DeviceCreate, DevicePatch, LobbyCreate}
use sonalyze_backend.Storage.Rows.{get, has, page, newest_first}
use sonalyze_backend.Storage.Common.{Framework, Stamp, Violation, unique, Body, body, http}
use sonalyze_backend.Storage.Devices
use sonalyze_backend.Storage.Lobbies
use sonalyze_backend.Storage.Participants
use sonalyze_backend.Storage.Measurements
use sonalyze_backend.Storage.AnalysisOutputs
use sonalyze_backend.Storage.SimulationJobs
use sonalyze_backend.Storage.SimulationResults
use sonalyze_backend.Storage.Api.{Request, serve}
use sonalyze_backend.Storage.Consistency.{IsConsistent}
use sonalyze_backend.Storage.Invariants.{serve-IsConsistent}
use sonalyze_backend.Storage.Refused.{serve-refused}
use sonalyze_backend.Storage.RoundTrip.{create_lobby-get_lobby, delete-get}
use sonalyze_backend.Storage.Upserts.{upsert_device-find}
use sonalyze_backend.Storage.Orders.{IsNewestFirst}
use sonalyze_backend.Storage.Pages.{all_pages, all_pages-newest_first}
use sonalyze_backend.Storage.Answers.{Attribute, is_valid}
use sonalyze_backend.Storage.Metadata.{ReadsAlias, Hides, serve-Hides}
use sonalyze_backend.Storage.NullMeta.{patch_device-null}

-- a database whose messages name the constraint and which orders rows of one time by their ids, and pydantic
-- with the alias first
abbrev names : String → Violation → Bool
names text (unique constraint) = constraint == text
names text _ = false

abbrev or_named : Option Attribute → Option Attribute → Option Attribute
or_named none named = named
or_named (some value) named = some value

abbrev framework : Framework
framework = record {
  is_in = names;
  is_blank = λ text. text == "";
  precedes = λ i j. true;
  class_metadata = Attribute.foreign;
  get_field = λ alias name attributes. or_named (attributes alias) (attributes name);
}

reads_alias : ReadsAlias framework
reads_alias alias name attributes value e = rw e refl

abbrev phone : Device
phone = record {
  id = "d1";
  external_id = "phone";
  label = none;
  platform = some "ios";
  meta = some Fields.end;
  created_at = 5;
}

abbrev room : Lobby
room = record {
  id = "l1";
  code = "ABC123";
  state = "created";
  creator_device_id = some "d1";
  created_at = 6;
}

abbrev member : Participant
member = record {
  id = "p1";
  lobby_id = "l1";
  device_id = "d1";
  role = "observer";
  status = "connected";
  joined_at = 7;
}

abbrev database : Database
database = record empty_database {
  devices = phone ∷ [];
  lobbies = room ∷ [];
  participants = member ∷ [];
}

abbrev stamp : Stamp
stamp = record { id = "n1"; now = 9; draws = 0 ∷ 27 ∷ 2 ∷ 3 ∷ 4 ∷ 5 ∷ [] }

database-IsConsistent : IsConsistent database
unfolding has
database-IsConsistent = record {
  lobbies = (refl, tt);
  participants = ((refl, refl), tt);
  measurements = tt;
  analysis_outputs = tt;
  simulation_jobs = tt;
  simulation_results = tt;
}

serve-Hides_example : Hides ((serve framework (Request.get_device "d1") database).0)
serve-Hides_example = serve-Hides framework reads_alias refl (Request.get_device "d1") database

-- the device goes, the lobby's reference with it, and the participant
serve-IsConsistent_example :
    IsConsistent ((serve framework (Request.delete_device "d1") database).1)
serve-IsConsistent_example =
    serve-IsConsistent framework (Request.delete_device "d1") database database-IsConsistent

-- the pair of the lobby and the device is there already
abbrev again : Request
again =
    Request.create_participant stamp
      (record { lobby_id = "l1"; device_id = "d1"; role = none; status = none })

serve-refused_example : (serve framework again database).1 ≡ database
unfolding serve Participants.create_participant
serve-refused_example =
    serve-refused framework again database 409 "participant already exists for lobby/device" refl
      (omega arith)

abbrev other_lobby : LobbyCreate
other_lobby = record { code = none; state = none; creator_device_id = some "d1" }

create_lobby-get_lobby_example :
    ((Lobbies.get_lobby framework "n1"
        (Lobbies.create_lobby framework stamp other_lobby database).1).0
      ≡ body (Body.lobby (Lobbies.new_lobby framework stamp other_lobby)))
    × ((Lobbies.get_lobby_by_code framework "A1CDEF"
          (Lobbies.create_lobby framework stamp other_lobby database).1).0
        ≡ body (Body.lobby (Lobbies.new_lobby framework stamp other_lobby)))
unfolding Lobbies.create_lobby Lobbies.new_lobby is_valid
create_lobby-get_lobby_example =
    create_lobby-get_lobby framework stamp other_lobby database
      (Body.lobby (Lobbies.new_lobby framework stamp other_lobby)) refl

abbrev phone_again : DeviceCreate
phone_again = record {
  external_id = "phone";
  label = some "my phone";
  platform = none;
  meta = Fields.end;
}

abbrev labelled : Device
labelled = record phone { label = some "my phone"; platform = none }

upsert_device-find_example :
    let (answer, after) = Devices.upsert_device framework stamp phone_again database in
    (Devices.by_external_id "phone" after.devices ≡ some labelled)
    × (get Device.id "d1" after.devices ≡ some labelled)
    × ((Devices.get_device_by_external_id framework "phone" after).0 ≡ answer)
unfolding has
upsert_device-find_example = upsert_device-find framework stamp phone_again database "d1" refl

delete-get_example :
    ((Devices.get_device framework "d1" (Devices.delete_device framework "d1" database).1).0
      ≡ http 404 "device not found")
    × ((Lobbies.get_lobby framework "d1" (Lobbies.delete_lobby framework "d1" database).1).0
        ≡ http 404 "lobby not found")
    × ((Participants.get_participant framework "d1"
          (Participants.delete_participant framework "d1" database).1).0
        ≡ http 404 "participant not found")
    × ((Measurements.get_measurement framework "d1"
          (Measurements.delete_measurement framework "d1" database).1).0
        ≡ http 404 "measurement not found")
    × ((AnalysisOutputs.get_analysis_output framework "d1"
          (AnalysisOutputs.delete_analysis_output framework "d1" database).1).0
        ≡ http 404 "analysis output not found")
    × ((SimulationJobs.get_simulation_job framework "d1"
          (SimulationJobs.delete_simulation_job framework "d1" database).1).0
        ≡ http 404 "simulation job not found")
    × ((SimulationResults.get_simulation_result framework "d1"
          (SimulationResults.delete_simulation_result framework "d1" database).1).0
        ≡ http 404 "simulation result not found")
delete-get_example = delete-get framework "d1" database

abbrev nulled : DevicePatch
nulled = record { label = Change.unset; platform = Change.unset; meta = Change.null }

wants_meta : (d : Device) → d.meta ≡ none → is_valid framework (Body.device d) ≡ false
unfolding is_valid
wants_meta d e = refl

patch_device-null_example :
    ((Devices.patch_device framework "d1" nulled database).0 ≡ http 500 "Internal Server Error")
    × ((Devices.get_device framework "d1" (Devices.patch_device framework "d1" nulled database).1).0
        ≡ http 500 "Internal Server Error")
unfolding get
patch_device-null_example =
    patch_device-null framework database "d1" nulled phone wants_meta refl refl

abbrev other_phone : Device
other_phone = record phone { id = "d2"; external_id = "other"; created_at = 8 }

times_differ : ◌≢◌ {A = ℕ} 8 5
times_differ e = absurd (omega arith)

abbrev two_phones : List Device
two_phones = phone ∷ other_phone ∷ []

-- two pages of one row
all_pages-newest_first_example :
    let all = all_pages Device.id Device.created_at (λ start i j. true) (pos 1) 0 2 two_phones in
    IsNewestFirst Device.id Device.created_at all
    × (count (λ (d : Device). d.id == "d1") all ≡ count (λ (d : Device). d.id == "d1") two_phones)
    × (length
          (page (pos 1) (pos 7) (newest_first Device.id (λ i j. true) Device.created_at two_phones))
        ≤ 500)
all_pages-newest_first_example =
    all_pages-newest_first Device.id Device.created_at (λ start i j. true) (pos 1) (pos 7) 2
      two_phones (λ d. d.id == "d1") ((times_differ, tt), (tt, tt)) (omega arith)

abbrev twins : List Device
twins = phone ∷ record other_phone { created_at = 5 } ∷ []

abbrev flips : ℕ → String → String → Bool
flips zero i j = true
flips (suc n) i j = false

-- Rows of one time may come in another order at each request: here the first page repeats on the second.
twins-repeated : all_pages Device.id Device.created_at flips (pos 1) 0 2 twins ≡ phone ∷ phone ∷ []
unfolding all_pages
twins-repeated = refl

-- the newest first
first_page :
    page (pos 1) (pos 0) (newest_first Device.id framework.precedes Device.created_at two_phones)
    ≡ other_phone ∷ []
unfolding page newest_first
first_page = refl
