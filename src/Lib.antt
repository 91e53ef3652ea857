-- ===== src/Lib.antt =====
-- Sonalyze backend: the coordination of acoustic measurements between devices. Clients connect by
-- websocket to the gateway service (gateway/src/gateway), which limits, identifies and forwards their
-- messages to the service that handles the event. The lobby service (lobby/src) keeps the lobbies, their
-- participants and roles in a database, and leads the devices of a lobby through a measurement session;
-- what it sends to devices goes back through the gateway. The storage service (storage/src/app) keeps
-- devices, lobbies, measurements and the jobs and results of simulations in a database of its own.
-- The simulation service (simulation/src) turns what clients send into requests to its engine. The
-- measurement service (measurement/src) keeps jobs with their uploads, which it analyses.
--
-- Files.
-- Prelude: shared names, Boolean tests, lists over native numbers, Python's dict (Prelude/Mapping).
-- Json: JSON values.
-- Coordinator: lobby/src/measurement_coordinator.py. Model has its dataclasses, Messages what it sends,
-- returns and raises, Start the functions create_session, start_measurement and client_ready, Recording
-- the functions speaker_audio_ready to recording_uploaded, Control the status, cancellation, error and
-- results, Table the dict `_sessions`, with each function as a call on it. The proofs are in Evidence
-- and Phases, Participants, Addressed, Broadcasts, Linked and Created, Progress, Errors, Ready,
-- Completion, Deadlock and Duplicates, on the lemmas of Cases and Clients.
-- Lobby: lobby/src/models.py (Model), the sessions of lobby/src/db.py (Monad), lobby/src/service.py
-- (Service and Operations) and lobby/src/gateway_handler.py (Request, Handlers for lobby and role
-- events, Sessions for measurement events, Gateway for the table of handlers and gateway_handle), and
-- the routes of lobby/src/main.py (Rest). The proofs are in Atomic, Clean, LobbyEvents, SessionEvents
-- and Transactions, Rows, Membership and Departure, Codes, Events and Lost, and Agreement for the two
-- interfaces.
-- Gateway: gateway/src/gateway/rate_limit.py (RateLimit), connection_manager.py (Connections), router.py
-- with models.py and config.py (Router) and the websocket endpoint of main.py (Websocket). The proofs
-- are in Bound, Index and Bindings, Routes and Loop.
-- Storage: storage/src/app/models.py (Model), schemas.py (Schemas), the queries and writes of a table
-- (Rows), the response models (Answers), http_errors.py, utils.py, routers/_common.py and what a commit does
-- (Common), a module for each file of routers, and main.py with all its routes (Api). The constraints are those of
-- storage/src/alembic/versions/0001_init.py. The proofs are in Keys and Constraints, Consistency, Creates,
-- Patches, Deletes and Invariants, Refused, RoundTrip, Upserts, Orders and Pages, NullMeta and Metadata.
-- Simulation: simulation/src/sonalyze_simulation/payload_adapter.py. Python has the values of a payload and
-- what is taken from Python, Numbers the conversions, Points the positions, Polygon the chaining of walls,
-- Inside the test and the choice of a point inside a room, Emitters the sources and microphones, Rooms the
-- walls and furniture, Payload normalize_simulation_payload. Materials is materials.py with
-- _extract_material_spec. The proofs are in Chain, Placed and Usable.
-- Measurement: measurement/src/app/storage.py and create_job, get_job and upload of api/routes.py (Jobs).
-- The proofs are in Uploads.
-- The modules Tests and Lobby/RestTests run the definitions on small inputs.
--
-- How state is modelled. The client objects of a session are shared between its lists and the current
-- measurement, so a client is a number and the objects stand in a heap, a function from numbers. A call
-- on a session gives the reply or error, the session and the broadcasts. A request of the lobby service
-- works on a database session with a committed and a working state, in a monad whose errors keep what
-- was written. A database table is the list of its rows in the order of insertion; a query that returns
-- one row is the first that fits, and `ORDER BY joined_at` is a stable insertion sort. The database gives
-- an event its key, one more than the last. A connection of
-- the gateway is found by its id.
--
-- An endpoint of the storage service takes the tables to an answer and the tables after its commit. A
-- commit checks the primary key, the unique constraints and then the foreign keys, and `ON DELETE` is
-- part of the deletion. Rows are listed by time, and in what order rows of one time come is up to the
-- database at each request. Then the response model looks at the answer, which it may turn into a 500.
--
-- The payload adapter of the simulation works on values with an abstract type of floats, whose operations
-- and conversions are a record (Python); each function returns its result or the class of the exception.
-- The loop
-- over wall segments runs on as much fuel as there are segments, since each turn uses one up. An upload
-- is read in chunks, on more fuel than it has bytes.
--
-- What is assumed or left out. A call is one step: calls do not interleave at an `await`. Ids,
-- times and random draws are arguments (Service.Env), a time is a number, and the seconds of
-- expected_duration are a whole number. Sending a broadcast never fails, as the source swallows
-- such failures. Logging is left out. The entries of a request that the protocol declares as text
-- are texts; a reason and an error_message are not null. The lobby service's database raises no
-- error of its own. Replies such as "1/2" are the two numbers. In the rate limit a token is a
-- number of parts and the clock counts ticks, so that amounts are exact where the source has
-- floats. JSON parsing, pydantic's validation and the HTTP client are parameters of Websocket and
-- Router, and the only thing asked of validation is that an `identify` has no empty device id,
-- which gateway/src/gateway/models.py declares. In the storage service the message of an
-- IntegrityError, `str.strip`, the order of rows of one time, the attribute `metadata` that
-- SQLAlchemy gives to a row, and which of its alias and its name pydantic reads a field by are
-- parameters (Answers.Framework), payloads have passed pydantic, and no value is too large for its
-- column. All other loops are structural recursion; create_lobby has the ten attempts of the
-- source. A job's id names one directory, its temporary JSON files are left out, and the match of
-- _SAFE_UPLOAD_RE and the order of `sorted` are parameters.
--
-- Not modelled: the HTTP proxies and the internal broadcast of gateway/src/gateway/main.py, the
-- analysis, the references and the gateway's handlers of the measurement service
-- (measurement/src) and the engine, schemas and profiles of the simulation service
-- (simulation/src), which compute on floating point signals or declare data, and the health checks,
-- settings and database engines, which are I/O.
pub mod Prelude
pub mod Json
pub mod Coordinator
pub mod Lobby
pub mod Gateway
pub mod Storage
pub mod Simulation
pub mod Measurement
