-- ===== src/Observability/Export.antt =====
-- `UdpJsonTraceSink` of observability.cpp: JSON datagrams about calls, and the commands that its
-- control thread takes. The socket is the list of the datagrams handed to it.
pub mod Escape
pub mod Command
pub mod Control
use graphx_docker.Base.{
  ℕ, suc, ◌+◌, ◌/◌, ◌%◌, Bool, true, false, not, ◌&&◌, ◌||◌, Option, none, some, List, [], ◌∷◌,
  ◌++◌, Bytes, codes, Result, ok, err, ◌>>=◌, leb, ltb, ◌==◌, if◌then◌else◌, length, take, ℤ, pos,
  negsuc, negate,
}
use graphx_docker.Identity.{hex_digit}
use graphx_docker.Attributes.{bytes_equal}
use graphx_docker.Envelope.{Envelope}
use graphx_docker.Observability.{ConnectionState, connection_name, TraceSink, null_sink}
use graphx_docker.Observability.Text.{is_empty, concat, to_string, signed_to_string}
use graphx_docker.Observability.Commands.{
  Rejection, Hmac, signed_datagram, authenticate_command, command_payload, json_string_field,
  json_integer_field, valid_command_id,
}

-- The `switch` of `escape_json` on one character.
unfoldable pub escape_character : ℕ → Bytes
unfolding hex_digit
escape_character c =
    if c == b'\\'
    then b'\\' ∷ b'\\' ∷ []
    else if c == b'"'
    then b'\\' ∷ b'"' ∷ []
    else if c == b'\n'
    then b'\\' ∷ b'n' ∷ []
    else if c == b'\r'
    then b'\\' ∷ b'r' ∷ []
    else if c == b'\t'
    then b'\\' ∷ b't' ∷ []
    else if ltb c 32 || leb 127 c
    then b'\\' ∷ b'u' ∷ b'0' ∷ b'0' ∷ hex_digit (c / 16) ∷ hex_digit (c % 16) ∷ []
    else c ∷ []

-- `escape_json`
unfoldable pub escape_json : Bytes → Bytes
unfolding escape_character
escape_json [] = []
escape_json (c ∷ value) = escape_character c ++ escape_json value

-- `Impl`, without the threads: `connected` says whether the socket is there.
pub record Exporter : Type 0 where
  pub node_id : Bytes
  pub counter_session : Bytes
  pub connected : Bool
  pub paused : Bool
  pub outbox : List Bytes

-- What a call reads: the clock in milliseconds, the secret (a reader of it may throw), and the
-- clock and the random bytes for the signature.
pub record Moment : Type 0 where
  pub now : ℕ
  pub secret : Option Bytes
  pub sign_now : ℕ
  pub entropy : Option Bytes

-- `duration_cast` to microseconds, which rounds towards zero.
abbrev pub microseconds : ℤ → ℤ
microseconds (pos n) = pos (n / 1000)
microseconds (negsuc n) = negate (suc n / 1000)

-- A member of a JSON object, by the text in front of its value.
abbrev text_member : Bytes → Bytes → Bytes
text_member before value = concat (before ∷ escape_json value ∷ [])

abbrev number_member : Bytes → ℕ → Bytes
number_member before value = concat (before ∷ to_string value ∷ [])

module _ (hmac : Hmac) where
  abbrev signed_or_nothing : Result Rejection Bytes → Bytes
  signed_or_nothing (ok value) = value
  signed_or_nothing (err e) = []

  -- `sign`: nothing, if the secret cannot be read or the signature cannot be made.
  unfoldable pub sign : Moment → Bytes → Bytes
  unfolding signed_datagram
  sign moment payload = elim moment.secret [
    | none ↦ []
    | some secret ↦
        signed_or_nothing (signed_datagram hmac moment.sign_now moment.entropy payload secret)
  ]

  abbrev post : Bytes → Exporter → Exporter
  post datagram s = record s { outbox = s.outbox ++ datagram ∷ [] }

  -- The value of the JSON text is signed and sent, if there is a socket.
  abbrev publish_json : Moment → Bytes → Exporter → Exporter
  publish_json moment json s = if s.connected then post (sign moment json) s else s

  -- The part of `emit` about an envelope.
  abbrev envelope_members : Option Envelope → Bytes
  envelope_members none = []
  envelope_members (some envelope) = concat (
      number_member (codes ",\"sequence\":") envelope.sequence
      ∷ number_member (codes ",\"wireVersion\":") envelope.wire_version
      ∷ text_member (codes ",\"type\":\"") envelope.type
      ∷ number_member (codes "\",\"payloadBytes\":") (length envelope.payload)
      ∷ text_member (codes ",\"messageId\":\"") envelope.message_id
      ∷ text_member (codes "\",\"parentMessageId\":\"") envelope.parent_message_id
      ∷ text_member (codes "\",\"traceId\":\"") envelope.trace_id
      ∷ codes "\""
      ∷ [])

  -- The text of `emit`. A CPU load is given by its printed form, and by nothing if it is negative.
  unfoldable pub emit_text :
      Bytes → ℕ → Bytes → Bytes → Option Envelope → ℕ → ℤ → Bytes → Bytes → Bytes
  unfolding escape_json to_string signed_to_string
  emit_text node_id now event edge_id envelope wire_bytes latency message cpu_percent = concat (
      codes "{\"kind\":\"trace\",\"event\":\""
      ∷ event
      ∷ text_member (codes "\",\"nodeId\":\"") node_id
      ∷ codes "\""
      ∷ (if is_empty edge_id
          then []
          else concat (text_member (codes ",\"edgeId\":\"") edge_id ∷ codes "\"" ∷ []))
      ∷ number_member (codes ",\"timestamp\":") now
      ∷ number_member (codes ",\"wireBytes\":") wire_bytes
      ∷ codes ",\"latencyUs\":"
      ∷ signed_to_string (microseconds latency)
      ∷ envelope_members envelope
      ∷ (if is_empty message
          then []
          else concat (text_member (codes ",\"message\":\"") message ∷ codes "\"" ∷ []))
      ∷ (if is_empty cpu_percent then [] else codes ",\"cpuPercent\":" ++ cpu_percent)
      ∷ codes "}"
      ∷ [])

  -- `emit`
  unfoldable pub emit :
      Moment → Bytes → Bytes → Option Envelope → ℕ → ℤ → Bytes → Bytes → Exporter → Exporter
  unfolding sign emit_text
  emit moment event edge_id envelope wire_bytes latency message cpu_percent s =
      publish_json moment
        (emit_text s.node_id moment.now event edge_id envelope wire_bytes latency message
          cpu_percent)
        s

  -- `on_edge_totals`
  unfoldable pub on_edge_totals : Moment → Bytes → Bool → ℕ → ℕ → Exporter → Exporter
  unfolding sign escape_json to_string
  on_edge_totals moment edge_id sent packets wire_bytes s =
      publish_json moment
        (concat (
          text_member (codes "{\"kind\":\"edge_totals\",\"event\":\"totals\",\"nodeId\":\"")
            s.node_id
          ∷ text_member (codes "\",\"edgeId\":\"") edge_id
          ∷ codes "\",\"direction\":\""
          ∷ (if sent then codes "sent" else codes "received")
          ∷ codes "\",\"sessionId\":\""
          ∷ s.counter_session
          ∷ number_member (codes "\",\"timestamp\":") moment.now
          ∷ number_member (codes ",\"packets\":") packets
          ∷ number_member (codes ",\"wireBytes\":") wire_bytes
          ∷ codes "}"
          ∷ []))
        s

  -- `on_capture`
  unfoldable pub on_capture :
      Moment → Bytes → Envelope → Bytes → Bytes → ℕ → ℕ → Exporter → Exporter
  unfolding sign escape_json to_string
  on_capture moment edge_id envelope direction file packet_index file_offset s =
      publish_json moment
        (concat (
          text_member (codes "{\"kind\":\"capture\",\"event\":\"frame\",\"nodeId\":\"") s.node_id
          ∷ text_member (codes "\",\"edgeId\":\"") edge_id
          ∷ number_member (codes "\",\"timestamp\":") moment.now
          ∷ number_member (codes ",\"sequence\":") envelope.sequence
          ∷ number_member (codes ",\"wireVersion\":") envelope.wire_version
          ∷ text_member (codes ",\"type\":\"") envelope.type
          ∷ text_member (codes "\",\"messageId\":\"") envelope.message_id
          ∷ text_member (codes "\",\"parentMessageId\":\"") envelope.parent_message_id
          ∷ text_member (codes "\",\"traceId\":\"") envelope.trace_id
          ∷ text_member (codes "\",\"direction\":\"") direction
          ∷ text_member (codes "\",\"captureFile\":\"") file
          ∷ number_member (codes "\",\"capturePacket\":") packet_index
          ∷ number_member (codes ",\"captureOffset\":") file_offset
          ∷ codes "}"
          ∷ []))
        s

  -- The virtual table of the class, for calls at one moment. Datagram events are not overridden.
  unfoldable pub json_sink : Moment → TraceSink Exporter
  unfolding emit connection_name
  json_sink moment = record null_sink {
    on_send = λ edge_id envelope wire_bytes.
        emit moment (codes "send") edge_id (some envelope) wire_bytes (pos 0) [] [];
    on_receive = λ edge_id envelope wire_bytes latency.
        emit moment (codes "receive") edge_id (some envelope) wire_bytes latency [] [];
    on_error = λ edge_id message. emit moment (codes "error") edge_id none 0 (pos 0) message [];
    on_connection = λ edge_id state.
        emit moment (codes "connection") edge_id none 0 (pos 0) (connection_name state) [];
    on_reconnect = λ edge_id. emit moment (codes "reconnect") edge_id none 0 (pos 0) [] [];
    on_backpressure = λ edge_id duration rejected.
        emit moment (codes "backpressure") edge_id none 0 duration
          (if rejected then codes "rejected" else codes "blocked") [];
    on_processing = λ node_id envelope duration success.
        emit moment (codes "processing") [] (some envelope) 0 duration
          (if success then codes "ok" else codes "error") [];
    on_heartbeat =
        λ node_id cpu_percent. emit moment (codes "heartbeat") [] none 0 (pos 0) [] cpu_percent;
  }

  -- The acknowledgement of a command.
  abbrev acknowledgement : Bytes → Bytes → Bytes → Bool → Bytes
  acknowledgement node_id action command_id paused = concat (
      codes "{\"kind\":\"control_ack\",\"nodeId\":\""
      ∷ escape_json node_id
      ∷ codes "\",\"action\":\""
      ∷ action
      ∷ codes "\",\"commandId\":\""
      ∷ command_id
      ∷ codes "\",\"accepted\":true,\"state\":\""
      ∷ (if paused then codes "paused" else codes "running")
      ∷ codes "\"}"
      ∷ [])

  -- `pause` and `resume`; anything else is ignored.
  unfoldable pub run_action : Moment → Bytes → Bytes → Exporter → Exporter
  unfolding sign escape_json
  run_action moment requested command_id s =
      let answer = λ (paused : Bool).
        post (sign moment (acknowledgement s.node_id requested command_id paused))
          (record s { paused = paused }) in
      if bytes_equal requested (codes "pause")
      then answer true
      else if bytes_equal requested (codes "resume")
      then answer false
      else s

  -- Whether a command has not expired, and does not expire more than 30 seconds from now.
  abbrev pub expires_soon : Option ℤ → ℕ → Bool
  expires_soon none now = false
  expires_soon (some (negsuc n)) now = false
  expires_soon (some (pos n)) now = leb now n && leb n (now + 30000)

  -- Whether the payload is a control command for this node.
  abbrev pub is_control : Moment → Bytes → Exporter → Bool
  is_control moment payload s =
      bytes_equal (json_string_field payload (codes "kind") 16) (codes "control")
      && (valid_command_id (json_string_field payload (codes "commandId") 36)
          && (bytes_equal (json_string_field payload (codes "targetNode") 64) s.node_id
              && expires_soon (json_integer_field payload (codes "expiresAt")) moment.now))

  -- The rest of the loop, on the payload of an authenticated command.
  unfoldable pub run_command : Moment → Bytes → Exporter → Exporter
  unfolding json_string_field json_integer_field valid_command_id run_action
  run_command moment payload s =
      if is_control moment payload s
      then run_action moment (json_string_field payload (codes "action") 8)
          (json_string_field payload (codes "commandId") 36) s
      else s

  abbrev after_authentication :
      Moment → Bytes → Exporter → List Bytes → Result Rejection (List Bytes) → Exporter × List Bytes
  after_authentication moment command s nonces (err e) = (s, nonces)
  after_authentication moment command s nonces (ok left) =
      (run_command moment (command_payload command) s, left)

  -- One round of the control thread, on a datagram that `recv` cuts to the size of the buffer. The
  -- clock and the secret are read for the authentication first (`arrival`), then for the rest.
  unfoldable pub control_step :
      Moment → Moment → Bytes → Exporter × List Bytes → Exporter × List Bytes
  unfolding run_command authenticate_command command_payload
  control_step arrival moment datagram (s, nonces) = elim arrival.secret [
    | none ↦ (s, nonces)
    | some secret ↦
        after_authentication moment (take 2048 datagram) s nonces
          (authenticate_command hmac (take 2048 datagram) secret nonces arrival.now)
  ]
