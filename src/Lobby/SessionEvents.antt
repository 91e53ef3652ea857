-- ===== src/Lobby/SessionEvents.antt =====
-- The handlers of the measurement events in lobby/src/gateway_handler.py answer by an HTTP error without
-- effect.
use sonalyze_backend.Prelude.{
  ℕ, String, ◌≡◌, refl, ap, sym, ◌∙◌, Option, none, some, arith, ◌==◌, is_empty, if◌then◌else◌,
}
use sonalyze_backend.Json.{Value}
use sonalyze_backend.Coordinator.Messages
use sonalyze_backend.Coordinator.Table.{World, Call, call}
use sonalyze_backend.Coordinator.Errors.{call-err}
use sonalyze_backend.Lobby.Service.{Env}
use sonalyze_backend.Lobby.Request.{
  ClientData, Detail, Response, Service, fail, Checked, is_missing, check_entries,
}
use sonalyze_backend.Lobby.Sessions
use sonalyze_backend.Lobby.Clean.{IsClean, if-IsClean, fail-IsClean}

call_session-IsClean :
    (status : ℕ) (id : Option String) (c : Call) (s : Service)
    → IsClean s (Sessions.call_session status id c s)
unfolding Sessions.call_session
call_session-IsClean status none c s = fail-IsClean _ _ s
call_session-IsClean status (some id) c s =
    go (call id c s.coordinator).0 (call id c s.coordinator).1 refl
  where
    go :
        (r : Messages.Result) (w : World)
        → call id c s.coordinator ≡ (r, w)
        → IsClean s (Sessions.answer status r, record s { coordinator = w })
    go (Messages.ok reply) w found code detail failed = cc
    go (Messages.err e) w found code detail failed =
        ap (λ (x : World). record s { coordinator = x })
          (ap (λ (p : Messages.Result × World). p.1) (sym found)
            ∙ call-err id c s.coordinator e (ap (λ (p : Messages.Result × World). p.0) found))

session_handler-IsClean :
    (status : ℕ) (c : Call) (d : ClientData) (s : Service)
    → IsClean s (Sessions.session_handler status c d s)
unfolding Sessions.session_handler
session_handler-IsClean status c d s =
    if-IsClean (is_missing d.session_id) s _ _ (fail-IsClean _ _ s)
      (call_session-IsClean status d.session_id c s)

create_with-IsClean :
    (env : Env) (job lobby : Option String) (speakers microphones : Checked) (s : Service)
    → IsClean s (Sessions.create_with env job lobby speakers microphones s)
unfolding Sessions.create_with
create_with-IsClean env job lobby speakers microphones s status detail e = ground arith

text_entry-IsClean :
    (o : Option String) (name : String) (s : Service) (next : String → Response × Service)
    → ((t : String) → IsClean s (next t))
    → IsClean s (elim o [
      | none ↦ fail 400 (Detail.missing name) s
      | some t ↦ if t == "" then fail 400 (Detail.missing name) s else next t
    ])
text_entry-IsClean none name s next clean = fail-IsClean _ _ s
text_entry-IsClean (some t) name s next clean =
    if-IsClean (t == "") s _ _ (fail-IsClean _ _ s) (clean t)

module _ (env : Env) (client : String) (d : ClientData) (s : Service) where
  pub handle_create_session-IsClean : IsClean s (Sessions.handle_create_session env client d s)
  unfolding Sessions.handle_create_session
  handle_create_session-IsClean = if-IsClean (is_missing d.job_id) s _ _ (fail-IsClean _ _ s) (
      if-IsClean (is_missing d.lobby_id) s _ _ (fail-IsClean _ _ s) (
        if-IsClean (is_empty d.speakers) s _ _ (fail-IsClean _ _ s) (
          if-IsClean (is_empty d.microphones) s _ _ (fail-IsClean _ _ s) (
            create_with-IsClean env d.job_id d.lobby_id (check_entries 0 d.speakers)
              (check_entries 0 d.microphones) s))))

  pub handle_recording_uploaded-IsClean :
      IsClean s (Sessions.handle_recording_uploaded env client d s)
  unfolding Sessions.handle_recording_uploaded
  handle_recording_uploaded-IsClean =
      if-IsClean (is_missing d.session_id) s _ _ (fail-IsClean _ _ s) (
        text_entry-IsClean d.upload_name "upload_name" s
          (λ name. Sessions.session_handler 400 (Call.recording_uploaded env.now client name) d s)
          (λ name. session_handler-IsClean _ _ d s))

  results-IsClean :
      (o : Option Value) (job : String)
      → IsClean s (elim o [
        | none ↦ fail 400 (Detail.missing "results") s
        | some results ↦
            Sessions.session_handler 404 (Call.broadcast_analysis_results job results) d s
      ])
  results-IsClean none job = fail-IsClean _ _ s
  results-IsClean (some results) job = session_handler-IsClean _ _ d s

  pub handle_broadcast_results-IsClean :
      IsClean s (Sessions.handle_broadcast_results env client d s)
  unfolding Sessions.handle_broadcast_results
  handle_broadcast_results-IsClean =
      if-IsClean (is_missing d.session_id) s _ _ (fail-IsClean _ _ s)
        (text_entry-IsClean d.job_id "job_id" s _ (λ job. results-IsClean d.results job))

  pub pass_on-IsClean :
      (IsClean s (Sessions.handle_start_speaker env client d s))
      × (IsClean s (Sessions.handle_session_status env client d s))
      × (IsClean s (Sessions.handle_cancel_session env client d s))
      × (IsClean s (Sessions.handle_client_ready env client d s))
      × (IsClean s (Sessions.handle_speaker_audio_ready env client d s))
      × (IsClean s (Sessions.handle_recording_started env client d s))
      × (IsClean s (Sessions.handle_playback_complete env client d s))
      × (IsClean s (Sessions.handle_speaker_finished env client d s))
      × (IsClean s (Sessions.handle_client_error env client d s))
  unfolding Sessions.handle_start_speaker Sessions.handle_session_status
      Sessions.handle_cancel_session Sessions.handle_client_ready
      Sessions.handle_speaker_audio_ready Sessions.handle_recording_started
      Sessions.handle_playback_complete Sessions.handle_speaker_finished
      Sessions.handle_client_error
  pass_on-IsClean = (
    session_handler-IsClean _ _ d s,
    session_handler-IsClean _ _ d s,
    session_handler-IsClean _ _ d s,
    session_handler-IsClean _ _ d s,
    session_handler-IsClean _ _ d s,
    session_handler-IsClean _ _ d s,
    session_handler-IsClean _ _ d s,
    session_handler-IsClean _ _ d s,
    session_handler-IsClean _ _ d s,
  )
