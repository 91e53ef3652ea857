-- ===== src/Gateway/Loop.antt =====
-- What a turn of the websocket loop in gateway/src/gateway/main.py keeps.
use sonalyze_backend.Prelude.{
  ℕ, String, ◌≡◌, ◌≢◌, refl, subst, ◌∙◌, sym, Option, none, some, All, ◌==◌, lookup, lookup-insert,
  arith, eq_iff, ltb, inl, inr, Bool-cases, Option-cases,
}
use sonalyze_backend.Json.{Fields}
use sonalyze_backend.Gateway.RateLimit.{TokenBucket, allow}
use sonalyze_backend.Gateway.Connections.{
  Connection, ConnectionManager, update, bind_device_id, ids_of,
}
use sonalyze_backend.Gateway.Index.{IsIndexed}
use sonalyze_backend.Gateway.Bindings.{bind_device_id-IsIndexed}
use sonalyze_backend.Gateway.Router.{
  Settings, ClientMessage, GatewayForwardRequest, Upstream, Forwarded, ok, err, unknown_event,
  ForwardError, forward,
}
use sonalyze_backend.Gateway.Websocket.{
  say, ServerMessage, message_too_large, rate_limited, invalid_message, Frame, Turn, receive,
  accept, identify, pass_on, set_limiter, client_info, posted,
}

set_limiter-IsIndexed :
    (b : TokenBucket) (conn : Connection) (m : ConnectionManager)
    → lookup conn.connection_id m.by_id ≡ some conn
    → IsIndexed m
    → IsIndexed (update conn.connection_id (set_limiter b) m)
unfolding update ids_of
set_limiter-IsIndexed b conn m found agree d c =
    rw (found, update)
      (agree d c
        ∙ ground (
          arith,
          lookup-insert conn.connection_id c (set_limiter b conn) m.by_id,
          eq_iff conn.connection_id c,
        ))

set_limiter-lookup :
    (b : TokenBucket) (conn : Connection) (m : ConnectionManager)
    → lookup conn.connection_id m.by_id ≡ some conn
    → lookup conn.connection_id (update conn.connection_id (set_limiter b) m).by_id
      ≡ some (set_limiter b conn)
unfolding update
set_limiter-lookup b conn m found =
    rw (found, update)
      (ground (
        arith,
        lookup-insert conn.connection_id conn.connection_id (set_limiter b conn) m.by_id,
        eq_iff conn.connection_id conn.connection_id,
      ))

module _ (st : Settings) (unit : ℕ) (validate : Fields → Option String)
    (post : String → GatewayForwardRequest → Upstream) where
  posted-device :
      (d : String) (conn : Connection) (msg : ClientMessage) (r : Forwarded)
      → All
          (λ (q : GatewayForwardRequest). some q.client.device_id ≡ some d)
          (posted (record { client = client_info d conn; message = msg }) r)
  posted-device d conn msg (ok b) = (refl, tt)
  posted-device d conn msg (err (unknown_event e)) = tt
  posted-device d conn msg (err ForwardError.upstream_timeout) = (refl, tt)
  posted-device d conn msg (err ForwardError.upstream_unreachable) = (refl, tt)
  posted-device d conn msg (err (ForwardError.upstream_error n v)) = (refl, tt)

  -- A turn refuses a text that is too large or comes too fast, or goes on to its message.
  receive-cases :
      (P : Turn → Type 0) (conn : Connection) (now : ℕ) (frame : Frame) (m : ConnectionManager)
      → let m' = update conn.connection_id (set_limiter (allow now unit conn.rate_limiter).1) m in
        P (say (ServerMessage.error "gateway" none message_too_large) m)
        → P (say (ServerMessage.error "gateway" none rate_limited) m')
        → P (accept st unit validate post conn frame.message m')
        → P (receive st unit validate post conn now frame m)
  unfolding receive
  receive-cases P conn now frame m large fast valid =
      elim (Bool-cases (ltb st.max_message_bytes frame.bytes)) [
        | inl e ↦ rw (e, receive) large
        | inr e ↦ elim (Bool-cases (allow now unit conn.rate_limiter).0) [
          | inl g ↦ rw (e, g, receive) valid
          | inr g ↦ rw (e, g, receive) fast
        ]
      ]

  -- A message is refused as invalid, or goes to `identify` or `pass_on`.
  accept-cases :
      (P : Turn → Type 0) (conn : Connection) (o : Option ClientMessage) (m : ConnectionManager)
      → P (say (ServerMessage.error "gateway" none invalid_message) m)
      → ((msg : ClientMessage)
          → conn.device_id ≡ none
          → P (identify st unit validate post conn msg m))
      → ((msg : ClientMessage) (d : String)
          → conn.device_id ≡ some d
          → P (pass_on st unit validate post conn d msg m))
      → P (accept st unit validate post conn o m)
  unfolding accept
  accept-cases P conn none m invalid unbound bound = invalid
  accept-cases P conn (some msg) m invalid unbound bound = elim (Option-cases conn.device_id) [
    | inl e ↦ rw (e, accept) (unbound msg e)
    | inr (d, e) ↦ rw (e, accept) (bound msg d e)
  ]

  identify-cases :
      (P : Turn → Type 0) (conn : Connection) (msg : ClientMessage) (m : ConnectionManager)
      → ((reply : ServerMessage) → P (say reply m))
      → ((reply : ServerMessage) (d : String)
          → validate msg.data_in ≡ some d
          → P (say reply (bind_device_id conn.connection_id d m)))
      → P (identify st unit validate post conn msg m)
  unfolding identify
  identify-cases P conn msg m refused bound = elim (Bool-cases (msg.event == "identify")) [
    | inl e ↦ elim (Option-cases (validate msg.data_in)) [
      | inl none_given ↦ rw (e, none_given, identify) (refused _)
      | inr (d, given) ↦ rw (e, given, identify) (bound _ d given)
    ]
    | inr e ↦ rw (e, identify) (refused _)
  ]

  -- Nothing is forwarded but in the name of the device that the connection is bound to, so that an
  -- unbound connection forwards nothing.
  pub receive-device :
      (conn : Connection) (now : ℕ) (frame : Frame) (m : ConnectionManager)
      → All
          (λ (q : GatewayForwardRequest). some q.client.device_id ≡ conn.device_id)
          (receive st unit validate post conn now frame m).forwarded
  unfolding pass_on
  receive-device conn now frame m = receive-cases P conn now frame m tt tt (
      accept-cases P conn frame.message _ tt
        (λ msg e. identify-cases P conn msg _ (λ r. tt) (λ r d g. tt))
        (λ msg d e.
          subst
            (λ (o : Option String).
              All (λ (q : GatewayForwardRequest). some q.client.device_id ≡ o)
                (posted (record { client = client_info d conn; message = msg })
                  (forward st post (client_info d conn) msg)))
            (sym e) (posted-device d conn msg (forward st post (client_info d conn) msg))))
    where
      P : Turn → Type 0
      P t =
          All (λ (q : GatewayForwardRequest). some q.client.device_id ≡ conn.device_id) t.forwarded

  -- Where `identify` yields no empty id, a turn of a registered connection keeps the tables of the
  -- connections in agreement.
  pub receive-IsIndexed :
      ((f : Fields) (d : String) → validate f ≡ some d → d ≢ "")
      → (conn : Connection) (now : ℕ) (frame : Frame) (m : ConnectionManager)
      → lookup conn.connection_id m.by_id ≡ some conn
      → IsIndexed m
      → IsIndexed (receive st unit validate post conn now frame m).connections
  unfolding pass_on
  receive-IsIndexed named conn now frame m found agree =
      receive-cases (λ t. IsIndexed t.connections) conn now frame m agree agree'
        (accept-cases (λ t. IsIndexed t.connections) conn frame.message m' agree'
          (λ msg e.
            identify-cases (λ t. IsIndexed t.connections) conn msg m' (λ r. agree')
              (λ r d g.
                bind_device_id-IsIndexed (set_limiter b conn) conn.connection_id d m'
                  (set_limiter-lookup b conn m found) e (named msg.data_in d g) agree'))
          (λ msg d e. agree'))
    where
      b : TokenBucket
      b = (allow now unit conn.rate_limiter).1

      m' : ConnectionManager
      m' = update conn.connection_id (set_limiter b) m

      agree' : IsIndexed m'
      agree' = set_limiter-IsIndexed b conn m found agree

  -- A connection that is bound, be it to the empty id, is never bound anew: its turns leave the sets of
  -- all devices as they are.
  pub receive-bound :
      (conn : Connection) (d : String) (now : ℕ) (frame : Frame) (m : ConnectionManager)
      → conn.device_id ≡ some d
      → (receive st unit validate post conn now frame m).connections.by_device ≡ m.by_device
  unfolding pass_on update
  receive-bound conn d now frame m bound =
      receive-cases P conn now frame m refl limited
        (accept-cases P conn frame.message _ limited (λ msg e. cc) (λ msg d' e. limited))
    where
      P : Turn → Type 0
      P t = t.connections.by_device ≡ m.by_device

      limited :
          (update conn.connection_id (set_limiter (allow now unit conn.rate_limiter).1) m).by_device
          ≡ m.by_device
      limited = ground arith
