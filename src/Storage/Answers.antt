-- ===== src/Storage/Answers.antt =====
-- What an endpoint of the storage service answers, and the response models of storage/src/app/schemas.py that
-- look at the answer. The texts, numbers, uuids and times of a row have the types of its model, so only the
-- entries that a model declares as `dict` can be refused.
use sonalyze_backend.Prelude.{
  String, Bool, true, false, Option, none, some, List, ◌==◌, if◌then◌else◌, all,
}
use sonalyze_backend.Json.{Fields}
use sonalyze_backend.Storage.Model.{
  Device, Lobby, Participant, Measurement, AnalysisOutput, SimulationJob, SimulationResult,
}

-- A violated constraint; the constraints for uniqueness and references have names.
pub data Violation : Type 0 where
  not_null : String → Violation
  unique : String → Violation
  foreign_key : String → Violation

pub data Body : Type 0 where
  device : Device → Body
  devices : List Device → Body
  lobby : Lobby → Body
  lobbies : List Lobby → Body
  participant : Participant → Body
  participants : List Participant → Body
  measurement : Measurement → Body
  measurements : List Measurement → Body
  analysis_output : AnalysisOutput → Body
  analysis_outputs : List AnalysisOutput → Body
  simulation_job : SimulationJob → Body
  simulation_jobs : List SimulationJob → Body
  simulation_result : SimulationResult → Body
  simulation_results : List SimulationResult → Body
  deleted : Body

-- The value of an attribute of a row: a dict, None, or an object of another class.
pub data Attribute : Type 0 where
  dictionary : Fields → Attribute
  absent : Attribute
  foreign : Attribute

-- What the code takes from the packages it calls: whether a text is in the message of an
-- `IntegrityError`, `str.strip() == ""`, the order in which the database lists rows of one time, by their
-- ids, the attribute `metadata` that SQLAlchemy's `DeclarativeBase` gives to every row, and pydantic's
-- `from_attributes` for a field with an alias and a name, either of which `populate_by_name` allows: what it
-- reads from an object's attributes.
pub record Framework : Type 0 where
  pub is_in : String → Violation → Bool
  pub is_blank : String → Bool
  pub precedes : String → String → Bool
  pub class_metadata : Attribute
  pub get_field : String → String → (String → Option Attribute) → Option Attribute

abbrev pub is_dict : Option Attribute → Bool
is_dict (some (Attribute.dictionary _)) = true
is_dict (some Attribute.absent) = false
is_dict (some Attribute.foreign) = false
is_dict none = false

-- a JSON column as it is read
abbrev pub json_attribute : Option Fields → Option Attribute
json_attribute none = some Attribute.absent
json_attribute (some fields) = some (Attribute.dictionary fields)

-- The attributes `metadata` and `meta` of a row of the devices or the measurements.
abbrev pub meta_attributes : Attribute → Option Fields → String → Option Attribute
meta_attributes class_metadata meta name =
    if name == "metadata"
    then some class_metadata
    else if name == "meta"
    then json_attribute meta
    else none

module _ (fw : Framework) where
  -- `meta: dict = Field(alias="metadata")`
  unfoldable pub is_meta_valid : Option Fields → Bool
  is_meta_valid meta =
      is_dict (fw.get_field "metadata" "meta" (meta_attributes fw.class_metadata meta))

  -- whether the `response_model` of a route accepts what the route returns
  unfoldable pub is_valid : Body → Bool
  unfolding is_meta_valid
  is_valid (Body.device d) = is_meta_valid d.meta
  is_valid (Body.devices ds) = all (λ (d : Device). is_meta_valid d.meta) ds
  is_valid (Body.lobby _) = true
  is_valid (Body.lobbies _) = true
  is_valid (Body.participant _) = true
  is_valid (Body.participants _) = true
  is_valid (Body.measurement m) = is_meta_valid m.meta
  is_valid (Body.measurements ms) = all (λ (m : Measurement). is_meta_valid m.meta) ms
  is_valid (Body.analysis_output o) = is_dict (json_attribute o.result)
  is_valid (Body.analysis_outputs os) =
      all (λ (o : AnalysisOutput). is_dict (json_attribute o.result)) os
  is_valid (Body.simulation_job j) = is_dict (json_attribute j.params)
  is_valid (Body.simulation_jobs js) =
      all (λ (j : SimulationJob). is_dict (json_attribute j.params)) js
  is_valid (Body.simulation_result r) = is_dict (json_attribute r.result)
  is_valid (Body.simulation_results rs) =
      all (λ (r : SimulationResult). is_dict (json_attribute r.result)) rs
  is_valid Body.deleted = true
