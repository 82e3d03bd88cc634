-- ===== src/Examples/Telemetry.antt =====
-- The trace sinks at concrete inputs.
use graphx_docker.Base.{
  ℕ, ◌+◌, ◌≡◌, refl, true, false, Option, some, List, [], ◌∷◌, ◌++◌, Bytes, codes, ok, err, arith,
  length, replicate, pos, negsuc, IsBytes, take, subst, ◌⊎◌,
}
use graphx_docker.Examples.{sample}
use graphx_docker.Observability.{
  TraceSink, null_sink, dispatch, dispatch_all, Call, send_call, receive_call, error_call,
  connection_call, reconnect_call, backpressure_call, processing_call, heartbeat_call,
  udp_event_call, connected, sequence_gap,
}
use graphx_docker.Observability.Metrics.{Edges, edge, metrics_sink}
use graphx_docker.Observability.Metrics.Weights.{calls_about, Tallies}
use graphx_docker.Observability.Metrics.Tallies.{dispatch_all-Tallies}
use graphx_docker.Observability.Composite.{composite, IsForeign, Implements, dispatch_all-composite}
use graphx_docker.Observability.Text.{to_string, digits}
use graphx_docker.Observability.Commands.{
  Hmac, hex_bytes, sealed, signed_datagram, authenticate_command, command_payload, remember,
  refused, json_string_field,
}
use graphx_docker.Observability.Commands.Accepted.{IsHmac, authenticate_command-signed_datagram}
use graphx_docker.Observability.Commands.Replay.{receive_all, receive_all-refused, IsAuthentic}
use graphx_docker.Observability.Export.{Exporter, Moment, control_step, escape_json}
use graphx_docker.Observability.Export.Command.{IsCommandFor}
use graphx_docker.Observability.Export.Control.{Does, control_step_lem}
use graphx_docker.Observability.Export.Escape.{read_string, plain, read_string-escape_json}
use graphx_docker.Observability.Spans.{new_queue}
use graphx_docker.Observability.Spans.Post.{Send, Writes, write_request, write_request_ends}
use graphx_docker.Observability.Spans.Delivery.{
  Accounts, pushes, works, shuts_down, taken_in, run, run-Accounts,
}

abbrev calls : List Call
calls =
    send_call (codes "a") sample 100
    ∷ receive_call (codes "a") sample 100 (pos 10000)
    ∷ receive_call (codes "a") sample 50 (pos 10001)
    ∷ receive_call (codes "a") sample 50 (negsuc 4)
    ∷ error_call (codes "b") (codes "lost")
    ∷ connection_call (codes "a") connected
    ∷ udp_event_call (codes "a") sequence_gap 3
    ∷ []

dispatch_all-Tallies_example :
    Tallies (calls_about (codes "a") calls) (edge (dispatch_all metrics_sink calls []) (codes "a"))
dispatch_all-Tallies_example = dispatch_all-Tallies calls (codes "a")

-- A store with the counters of a metrics sink and the number of errors that another sink has seen.
abbrev Store : Type 0
Store = Edges × ℕ

abbrev counting_sink : TraceSink Store
counting_sink = record null_sink { on_error = λ edge_id message s. (s.0, s.1 + 1) }

abbrev stored_sink : TraceSink Store
stored_sink = record {
  on_send = λ edge_id envelope n s. (metrics_sink.on_send edge_id envelope n s.0, s.1);
  on_receive = λ edge_id envelope n l s. (metrics_sink.on_receive edge_id envelope n l s.0, s.1);
  on_error = λ edge_id message s. (metrics_sink.on_error edge_id message s.0, s.1);
  on_connection = λ edge_id state s. (metrics_sink.on_connection edge_id state s.0, s.1);
  on_reconnect = λ edge_id s. (metrics_sink.on_reconnect edge_id s.0, s.1);
  on_backpressure = λ edge_id d r s. (metrics_sink.on_backpressure edge_id d r s.0, s.1);
  on_processing =
      λ node_id envelope d r s. (metrics_sink.on_processing node_id envelope d r s.0, s.1);
  on_heartbeat = λ node_id cpu s. (metrics_sink.on_heartbeat node_id cpu s.0, s.1);
  on_udp_event = λ edge_id event n s. (metrics_sink.on_udp_event edge_id event n s.0, s.1);
}

abbrev counters : Store → Edges
counters s = s.0

counting_sink-IsForeign : IsForeign counters counting_sink
unfolding dispatch
counting_sink-IsForeign (send_call _ _ _) s = refl
counting_sink-IsForeign (receive_call _ _ _ _) s = refl
counting_sink-IsForeign (error_call _ _) s = refl
counting_sink-IsForeign (connection_call _ _) s = refl
counting_sink-IsForeign (reconnect_call _) s = refl
counting_sink-IsForeign (backpressure_call _ _ _) s = refl
counting_sink-IsForeign (processing_call _ _ _ _) s = refl
counting_sink-IsForeign (heartbeat_call _ _) s = refl
counting_sink-IsForeign (udp_event_call _ _ _) s = refl

stored_sink-Implements : Implements counters stored_sink metrics_sink
unfolding dispatch
stored_sink-Implements (send_call _ _ _) s = refl
stored_sink-Implements (receive_call _ _ _ _) s = refl
stored_sink-Implements (error_call _ _) s = refl
stored_sink-Implements (connection_call _ _) s = refl
stored_sink-Implements (reconnect_call _) s = refl
stored_sink-Implements (backpressure_call _ _ _) s = refl
stored_sink-Implements (processing_call _ _ _ _) s = refl
stored_sink-Implements (heartbeat_call _ _) s = refl
stored_sink-Implements (udp_event_call _ _ _) s = refl

abbrev no_store : Store
no_store = ([], 0)

dispatch_all-composite_example :
    counters
      (dispatch_all (composite (counting_sink ∷ stored_sink ∷ counting_sink ∷ [])) calls no_store)
    ≡ dispatch_all metrics_sink calls []
dispatch_all-composite_example =
    dispatch_all-composite counters (counting_sink ∷ []) (counting_sink ∷ []) stored_sink
      metrics_sink (counting_sink-IsForeign, tt) (counting_sink-IsForeign, tt)
      stored_sink-Implements calls no_store

-- A stand-in for the HMAC: the same 32 bytes for everything.
abbrev constant_hmac : Hmac
constant_hmac secret value = some (replicate 32 171)

constant_hmac-IsHmac : IsHmac constant_hmac
constant_hmac-IsHmac secret value digest h =
    let e : replicate 32 171 ≡ digest = cc in
    subst (λ d. (length d ≡ 32) × IsBytes d) e (refl, omega arith)

abbrev secret : Bytes
secret = codes "s3cret"

abbrev random : Bytes
random = replicate 16 90

abbrev command : Bytes
command =
    codes
      "{\"kind\":\"control\",\"commandId\":\"01234567-89ab-cdef-0123-456789abcdef\",\"targetNode\":\"n\",\"action\":\"pause\",\"expiresAt\":41000}"

abbrev signed_command : Bytes
signed_command = sealed command (codes "40000") (hex_bytes random) (hex_bytes (replicate 32 171))

signs_command : signed_datagram constant_hmac 40000 (some random) command secret ≡ ok signed_command
unfolding signed_datagram hex_bytes to_string digits
signs_command = refl

authenticate_command-signed_datagram_example :
    (authenticate_command constant_hmac signed_command secret [] 55000
      ≡ ok (remember (hex_bytes random) []))
    × (command_payload signed_command ≡ command)
authenticate_command-signed_datagram_example =
    authenticate_command-signed_datagram constant_hmac command secret random 40000 55000 []
      constant_hmac-IsHmac refl (refl, omega arith) signs_command refl (omega arith) (omega arith)
      (omega arith)

receive_all-refused_example :
    authenticate_command constant_hmac signed_command secret
      (receive_all constant_hmac secret
        ((codes "noise", 56000) ∷ [])
        (remember (hex_bytes random) []))
      57000
    ≡ err refused
receive_all-refused_example =
    receive_all-refused constant_hmac signed_command secret [] 55000
      authenticate_command-signed_datagram_example.0 ((codes "noise", 56000) ∷ []) (omega arith)
      57000

abbrev node : Exporter
node = record {
  node_id = codes "n";
  counter_session = codes "0";
  connected = true;
  paused = false;
  outbox = [];
}

abbrev moment : Moment
moment = record { now = 40500; secret = some secret; sign_now = 40500; entropy = some random }

control_step_lem_example :
    ((control_step constant_hmac moment moment signed_command (node, [])).0 ≡ node)
    ⊎ ((key : Bytes) × (◌≡◌ {A = Option Bytes} (some secret) (some key))
        × IsAuthentic constant_hmac (take 2048 signed_command) key [] 40500
        × IsCommandFor moment (command_payload (take 2048 signed_command)) node
        × Does constant_hmac moment
            (json_string_field (command_payload (take 2048 signed_command)) (codes "action") 8)
            (json_string_field (command_payload (take 2048 signed_command)) (codes "commandId") 36)
            node
            (control_step constant_hmac moment moment signed_command (node, [])).0)
control_step_lem_example = control_step_lem constant_hmac moment moment signed_command node []

read_string-escape_json_example :
    read_string plain (escape_json (34 ∷ 92 ∷ 10 ∷ 200 ∷ 97 ∷ []) ++ (34 ∷ 44 ∷ []))
    ≡ some (34 ∷ 92 ∷ 10 ∷ 200 ∷ 97 ∷ [], 44 ∷ [])
read_string-escape_json_example =
    read_string-escape_json (34 ∷ 92 ∷ 10 ∷ 200 ∷ 97 ∷ []) (44 ∷ []) (omega arith)

-- A socket that takes one byte at a time, and one that has failed.
abbrev one_byte : Send
one_byte bytes = pos 1

abbrev broken : Send
broken bytes = negsuc 0

writes_two : write_request (one_byte ∷ one_byte ∷ broken ∷ []) (codes "abc") 0 ≡ some (codes "ab")
unfolding write_request
writes_two = refl

write_request_ends_example :
    (written : Bytes) × (write_request (one_byte ∷ one_byte ∷ broken ∷ []) (codes "abc") 0
      ≡ some written)
    × Writes (one_byte ∷ one_byte ∷ broken ∷ []) (codes "abc") written
write_request_ends_example =
    write_request_ends (one_byte ∷ one_byte ∷ broken ∷ []) (codes "abc") (omega arith)

run-Accounts_example :
    Accounts
      (taken_in
        (pushes (codes "a") ∷ pushes (codes "b") ∷ works ∷ works ∷ shuts_down ∷ [])
        (new_queue (codes "n") 2))
      (run
        (pushes (codes "a") ∷ pushes (codes "b") ∷ works ∷ works ∷ shuts_down ∷ [])
        (new_queue (codes "n") 2))
run-Accounts_example =
    run-Accounts (codes "n") 2
      (pushes (codes "a") ∷ pushes (codes "b") ∷ works ∷ works ∷ shuts_down ∷ [])
