-- ===== src/Coordinator/Start.antt =====
-- Steps 1 to 4 of lobby/src/measurement_coordinator.py: a session is created, a speaker's
-- measurement starts, the clients report that they are ready. What a call does to its session is
-- an `Outcome`; Coordinator/Table.antt looks the session up.
use Prim.Native.String.{◌++◌ as ◌<>◌}
use sonalyze_backend.Prelude.{
  ℕ, suc, String, true, false, Option, none, some, List, [], ◌∷◌, ◌++◌, map, ◌==◌, if◌then◌else◌,
  get_elem?, length, count,
}
use sonalyze_backend.Coordinator.Model.{
  MeasurementPhase, ClientRole, MeasurementClient, Clients, modify, SpeakerMeasurement,
  SessionStatus, MeasurementSession, all_ready, all_device_ids,
}
use sonalyze_backend.Coordinator.Messages.{
  Message, Reply, no_active_measurement, ok, err, Outcome, broadcast_to_devices,
  broadcast_phase_update,
}

-- one entry of the lists `speakers` and `microphones` of a request
pub record ClientInfo : Type 0 where
  pub device_id : String
  pub slot_id : String
  pub slot_label : Option String

abbrev pub new_client : ClientRole → ClientInfo → MeasurementClient
new_client role c = record {
  device_id = c.device_id;
  role = role;
  slot_id = c.slot_id;
  slot_label = c.slot_label;
  is_ready = false;
  is_finished = false;
  recording_uploaded = false;
  recording_started = false;
  audio_received = false;
  error = none;
}

-- The objects built from a list of entries stand at the references from `r` on.
unfoldable pub new_refs : ℕ → List ClientInfo → List ℕ
new_refs r [] = []
new_refs r (c ∷ cs) = r ∷ new_refs (suc r) cs

unfoldable pub new_clients : ClientRole → ℕ → List ClientInfo → Clients → Clients
new_clients role r [] h = h
new_clients role r (c ∷ cs) h = modify r (λ _. new_client role c) (new_clients role (suc r) cs h)

-- What stands at the references that hold no object.
abbrev pub unallocated : Clients
unallocated r =
    new_client ClientRole.speaker (record { device_id = ""; slot_id = ""; slot_label = none })

-- The session of `create_session`; `session_id` is the new uuid and `now` the time.
unfoldable pub create_session :
    String → ℕ → String → String → List ClientInfo → List ClientInfo → MeasurementSession
unfolding new_refs new_clients
create_session session_id now job_id lobby_id speakers microphones = record {
  session_id = session_id;
  job_id = job_id;
  lobby_id = lobby_id;
  speakers = new_refs 0 speakers;
  microphones = new_refs (length speakers) microphones;
  clients =
      new_clients ClientRole.speaker 0 speakers
        (new_clients ClientRole.microphone (length speakers) microphones unallocated);
  current_speaker_index = 0;
  current_measurement = none;
  completed_measurements = [];
  created_at = now;
  status = SessionStatus.created;
  error = none;
}

-- `for r in refs: …` with an assignment to the object in each round
unfoldable pub for_each : (MeasurementClient → MeasurementClient) → List ℕ → Clients → Clients
for_each f [] h = h
for_each f (r ∷ rs) h = for_each f rs (modify r f h)

abbrev pub reset_microphone : MeasurementClient → MeasurementClient
reset_microphone c = record c {
  is_ready = false;
  is_finished = false;
  recording_uploaded = false;
  recording_started = false;
  error = none;
}

abbrev pub reset_speaker : MeasurementClient → MeasurementClient
reset_speaker c = record c {
  is_ready = false;
  is_finished = false;
  audio_received = false;
  error = none;
}

-- `start_measurement` once there is a speaker left, at the reference `speaker`.
unfoldable pub start_speaker : String → ℕ → ℕ → MeasurementSession → Outcome
unfolding for_each all_device_ids broadcast_to_devices broadcast_phase_update
start_speaker session_id now speaker s =
    let h = modify speaker reset_speaker (for_each reset_microphone s.microphones s.clients) in
    let m : SpeakerMeasurement = record {
      speaker = speaker;
      microphones = s.microphones;
      phase = MeasurementPhase.initiating;
      started_at = some now;
      finished_at = none;
      audio_file_id = none;
      audio_hash = none;
      error = none;
    } in
    let c = h speaker in
    let s' = record s {
      clients = h;
      current_measurement = some (record m { phase = MeasurementPhase.notifying_clients });
      status = SessionStatus.running;
    } in
    record {
      result = ok (
          Reply.notifying_clients session_id (c.device_id, c.slot_id, c.slot_label)
            (map (λ r. ((h r).device_id, (h r).slot_id)) s.microphones));
      session = s';
      sent =
          broadcast_to_devices (all_device_ids s') (
            Message.start_measurement session_id s.job_id c.slot_id c.slot_label c.device_id
              (length s.microphones))
          ++ broadcast_phase_update s' MeasurementPhase.notifying_clients none;
    }

-- `start_measurement`: the test `current_speaker_index >= len(speakers)` and the indexing are one
-- lookup.
unfoldable pub start_measurement : String → ℕ → MeasurementSession → Outcome
unfolding start_speaker
start_measurement session_id now s = elim (get_elem? s.speakers s.current_speaker_index) [
  | none ↦ record {
    result = ok (Reply.all_measured session_id s.completed_measurements);
    session = record s { status = SessionStatus.completed };
    sent = [];
  }
  | some speaker ↦ start_speaker session_id now speaker s
]

-- `for mic in microphones: if mic.device_id == device_id: …; break`
unfoldable pub mark_first :
    (MeasurementClient → MeasurementClient) → String → List ℕ → Clients → Clients
mark_first f device_id [] h = h
mark_first f device_id (r ∷ rs) h =
    let rest = mark_first f device_id rs h in
    if (h r).device_id == device_id then modify r f h else rest

abbrev pub set_ready : MeasurementClient → MeasurementClient
set_ready c = record c { is_ready = true }

-- the marking of `client_ready`
unfoldable pub mark_ready : String → SpeakerMeasurement → Clients → Clients
unfolding mark_first
mark_ready device_id m h =
    if (h m.speaker).device_id == device_id
    then modify m.speaker set_ready h
    else mark_first set_ready device_id m.microphones h

abbrev pub set_phase : MeasurementPhase → SpeakerMeasurement → SpeakerMeasurement
set_phase p m = record m { phase = p }

-- The call raises, and has changed and sent nothing.
abbrev pub no_measurement : MeasurementSession → Outcome
no_measurement s = record { result = err no_active_measurement; session = s; sent = [] }

-- `measurement = session.current_measurement`, and the raise where there is none
abbrev pub with_measurement :
    (SpeakerMeasurement → MeasurementSession → Outcome) → MeasurementSession → Outcome
with_measurement body s = elim s.current_measurement [ none ↦ no_measurement s | some m ↦ body m s ]

-- `client_ready` with the current measurement at hand
unfoldable pub ready_in :
    String → String → String → SpeakerMeasurement → MeasurementSession → Outcome
unfolding mark_ready all_ready broadcast_to_devices broadcast_phase_update
ready_in gateway_url session_id device_id m s =
    let h = mark_ready device_id m s.clients in
    let m' = set_phase MeasurementPhase.speaker_downloading m in
    let s' = record s { clients = h; current_measurement = some m' } in
    if all_ready h m
    then record {
      result = ok (Reply.all_ready_reply session_id);
      session = s';
      sent =
          broadcast_phase_update s' MeasurementPhase.speaker_downloading none
          ++ broadcast_to_devices ((h m.speaker).device_id ∷ []) (
              Message.request_audio session_id
                (gateway_url <> ("/v1/measurement/audio?session_id=" <> session_id)));
    }
    else record {
      result = ok (
          Reply.waiting session_id (h m.speaker).is_ready
            (count (λ r. (h r).is_ready) m.microphones) (length m.microphones));
      session = record s { clients = h };
      sent = [];
    }

unfoldable pub client_ready : String → String → String → MeasurementSession → Outcome
unfolding ready_in
client_ready gateway_url session_id device_id =
    with_measurement (ready_in gateway_url session_id device_id)
