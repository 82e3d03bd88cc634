-- ===== src/Capture.antt =====
-- The PCAPNG writer of capture.cpp. A `put` on a buffer gives the bytes that it appends; where the
-- size of the buffer matters, the function takes the buffer. The file is the bytes up to the
-- descriptor's offset. Whether the writes of a block succeed is an argument; when they do not, the
-- file is cut back to where it was, which the code attempts and the model takes to succeed.
-- `to_string` is the standard library's.
pub mod Literals
pub mod Comment
pub mod Blocks
pub mod Writer
pub mod Limits
pub mod Session
use graphx_docker.Base.{
  ℕ, zero, suc, ◌+◌, ◌-◌, ◌*◌, ◌/◌, ◌%◌, ◌^◌, Bool, true, false, not, ◌||◌, ◌&&◌, List, [], ◌∷◌,
  ◌++◌, Bytes, Result, ok, err, ◌>>=◌, ◌>>◌, guard, leb, ltb, ◌==◌, if◌then◌else◌, length, take,
  replicate,
}
use graphx_docker.Identity.{hex_digit}
use graphx_docker.Capture.Literals.{
  open_edge, open_direction, open_sequence, open_version, open_message, open_parent, open_trace,
  open_type, close_comment, truncated_start, truncated_end,
}

pub data CaptureError : Type 0 where
  option_too_large packet_limit file_limit write_failed frame_too_short : CaptureError
  snaplen_zero file_limit_too_small packet_limit_zero : CaptureError

-- kMaximumOptionLength
abbrev pub maximum_option_length : ℕ
maximum_option_length = 65535

-- `put_u16`, `put_u32` and `put_u64`, for 2, 4 and 8 bytes: the least significant byte first.
unfoldable pub put_little : ℕ → ℕ → Bytes
put_little zero value = []
put_little (suc n) value = (value % 256) ∷ put_little n (value / 256)

-- The loop of `pad32`, which takes three rounds at most.
unfoldable pub pad_loop : ℕ → Bytes → Bytes
pad_loop zero out = out
pad_loop (suc rounds) out =
    let padded = pad_loop rounds (out ++ 0 ∷ []) in if length out % 4 == 0 then out else padded

unfoldable pub pad32 : Bytes → Bytes
unfolding pad_loop
pad32 out = pad_loop 3 out

unfoldable pub put_option : Bytes → ℕ → Bytes → Result CaptureError Bytes
unfolding put_little pad32
put_option out code value = do
  guard (leb (length value) maximum_option_length) option_too_large
  ok (pad32 (out ++ (put_little 2 code ++ (put_little 2 (length value) ++ value))))

unfoldable pub end_options : Bytes → Bytes
unfolding put_little
end_options out = out ++ (put_little 2 0 ++ put_little 2 0)

-- `append_bounded`: false is `err tt`.
unfoldable pub append_bounded : Bytes → Bytes → Result (Unit {0}) Bytes
append_bounded output value =
    if ltb maximum_option_length (length output)
      || ltb (maximum_option_length - length output) (length value)
    then err tt
    else ok (output ++ value)

-- The switch of `append_escaped_json`.
unfoldable pub escape : ℕ → Bytes
unfolding hex_digit
escape c =
    if c == b'\\'
    then b'\\' ∷ b'\\' ∷ []
    else if c == 34
    then b'\\' ∷ 34 ∷ []
    else if c == 10
    then b'\\' ∷ b'n' ∷ []
    else if c == 13
    then b'\\' ∷ b'r' ∷ []
    else if c == 9
    then b'\\' ∷ b't' ∷ []
    else if ltb c 0x20 || leb 0x7f c
    then b'\\' ∷ b'u' ∷ b'0' ∷ b'0' ∷ hex_digit (c / 16) ∷ hex_digit (c % 16) ∷ []
    else c ∷ []

unfoldable pub append_escaped_json : Bytes → Bytes → Result (Unit {0}) Bytes
unfolding append_bounded escape
append_escaped_json output [] = ok output
append_escaped_json output (c ∷ cs) = do
  output' ← append_bounded output (escape c)
  append_escaped_json output' cs

-- `CaptureSink::Metadata` less its direction, which `record_frame` turns into a word.
pub record Metadata : Type 0 where
  pub sequence : ℕ
  pub wire_version : ℕ
  pub message_id : Bytes
  pub parent_message_id : Bytes
  pub trace_id : Bytes
  pub type : Bytes

-- The chain of conditions in `capture_comment`.
unfoldable pub full_comment : (ℕ → Bytes) → Bytes → Bytes → Metadata → Result (Unit {0}) Bytes
unfolding append_bounded append_escaped_json
full_comment to_string edge_id direction m = do
  r₁ ← append_bounded [] open_edge
  r₂ ← append_escaped_json r₁ edge_id
  r₃ ← append_bounded r₂ open_direction
  r₄ ← append_escaped_json r₃ direction
  r₅ ← append_bounded r₄ open_sequence
  r₆ ← append_bounded r₅ (to_string m.sequence)
  r₇ ← append_bounded r₆ open_version
  r₈ ← append_bounded r₇ (to_string m.wire_version)
  r₉ ← append_bounded r₈ open_message
  r₁₀ ← append_escaped_json r₉ m.message_id
  r₁₁ ← append_bounded r₁₀ open_parent
  r₁₂ ← append_escaped_json r₁₁ m.parent_message_id
  r₁₃ ← append_bounded r₁₂ open_trace
  r₁₄ ← append_escaped_json r₁₃ m.trace_id
  r₁₅ ← append_bounded r₁₄ open_type
  r₁₆ ← append_escaped_json r₁₅ m.type
  append_bounded r₁₆ close_comment

abbrev pub or_else : Result (Unit {0}) Bytes → Bytes → Bytes
or_else (ok result) other = result
or_else (err _) other = other

-- The comment that replaces one that is too long.
abbrev pub truncated_comment : (ℕ → Bytes) → Metadata → Bytes
truncated_comment to_string m =
    truncated_start
    ++ (to_string m.sequence ++ (open_version ++ (to_string m.wire_version ++ truncated_end)))

unfoldable pub capture_comment : (ℕ → Bytes) → Bytes → Bytes → Metadata → Bytes
unfolding full_comment
capture_comment to_string edge_id direction m =
    or_else (full_comment to_string edge_id direction m) (truncated_comment to_string m)

-- `block`, with the total length on a uint32_t.
unfoldable pub block : ℕ → Bytes → Bytes
unfolding put_little
block type body =
    let total = (length body + 12) % 2 ^ 32 in
    put_little 4 type ++ (put_little 4 total ++ (body ++ put_little 4 total))

-- `WriterState`
pub record WriterState : Type 0 where
  pub snaplen : ℕ
  pub max_file_bytes : ℕ
  pub max_packets : ℕ
  pub file : Bytes
  pub packets : ℕ
  pub last_offset : ℕ
  pub bytes_written : ℕ

-- `write_block`, whose result is the position before the block.
unfoldable pub write_block : Bool → WriterState → Bytes → Result CaptureError ℕ × WriterState
write_block writes w bytes =
    if ltb w.max_file_bytes w.bytes_written
      || ltb (w.max_file_bytes - w.bytes_written) (length bytes)
    then (err file_limit, w)
    else if not writes
    then (err write_failed, w)
    else (
      ok (length w.file),
      record w { file = w.file ++ bytes; bytes_written = w.bytes_written + length bytes },
    )
