-- ===== src/Examples/Captures.antt =====
-- The capture writer at concrete inputs.
use graphx_docker.Base.{
  ℕ, zero, suc, ◌+◌, ◌/◌, ◌%◌, ◌≤◌, ◌≡◌, refl, true, [], ◌∷◌, ◌++◌, Bytes, ok, arith, ltb,
  if◌then◌else◌, length, length-append, take, drop, All, All-append, Bool-cases, inl, inr,
}
use graphx_docker.Capture.{
  WriterState, Metadata, capture_comment, maximum_option_length, block, put_little, pad_loop, pad32,
  put_option, end_options, write_block,
}
use graphx_docker.Capture.Blocks.{IsCapture, block-read_little, read_little}
use graphx_docker.Capture.Comment.{IsPrintable, IsDecimal, IsMetadata, capture_comment-IsPrintable}
use graphx_docker.Capture.Writer.{open_writer, section_body, interface_body}
use graphx_docker.Capture.Session.{Offer, record_all, file_types, record_all-IsCapture}
use graphx_docker.Examples.{message_hex, trace_hex}

-- `std::to_string` below 10^20.
digits : ℕ → ℕ → Bytes
digits zero n = []
digits (suc k) n =
    let rest = digits k (n / 10) in
    if ltb n 10 then (b'0' + n) ∷ [] else rest ++ (b'0' + n % 10) ∷ []

length-digits : (k n : ℕ) → length (digits k n) ≤ k
unfolding digits
length-digits zero n = omega arith
length-digits (suc k) n =
    ground
      (arith, length-digits k (n / 10), length-append (digits k (n / 10)) ((b'0' + n % 10) ∷ []))

digits-IsPrintable : (k n : ℕ) → All IsPrintable (digits k n)
unfolding digits
digits-IsPrintable zero n = tt
digits-IsPrintable (suc k) n = elim (Bool-cases (ltb n 10)) [
  | inl e ↦ rw e (ground arith, tt)
  | inr e ↦ rw e (
      All-append IsPrintable (digits k (n / 10)) ((b'0' + n % 10) ∷ [])
        (digits-IsPrintable k (n / 10)) (omega arith))
]

digits-IsDecimal : IsDecimal (digits 20)
digits-IsDecimal n h = (length-digits 20 n, digits-IsPrintable 20 n)

abbrev metadata : Metadata
metadata = record {
  sequence = 12;
  wire_version = 2;
  message_id = message_hex;
  parent_message_id = [];
  trace_id = trace_hex;
  type = 34 ∷ 200 ∷ [];
}

metadata-IsMetadata : IsMetadata metadata
metadata-IsMetadata = record {
  sequence_uint = omega arith;
  version_uint = omega arith;
  message_bytes = omega arith;
  parent_bytes = omega arith;
  trace_bytes = omega arith;
  type_bytes = omega arith;
}

capture_comment-IsPrintable_example :
    (length (capture_comment (digits 20) (101 ∷ []) (115 ∷ []) metadata) ≤ maximum_option_length)
    × All IsPrintable (capture_comment (digits 20) (101 ∷ []) (115 ∷ []) metadata)
capture_comment-IsPrintable_example =
    capture_comment-IsPrintable (digits 20) (101 ∷ []) (115 ∷ []) metadata digits-IsDecimal
      (omega arith) (omega arith) metadata-IsMetadata

abbrev body : Bytes
body = 1 ∷ 2 ∷ 3 ∷ 4 ∷ []

block-read_little_example :
    (length (block 6 body) ≡ length body + 12)
    × (read_little (take 4 (drop 4 (block 6 body))) ≡ length (block 6 body))
    × (read_little (drop (length body + 8) (block 6 body)) ≡ length (block 6 body))
block-read_little_example = block-read_little 6 body (omega arith)

abbrev opened_file : Bytes
opened_file =
    10 ∷ 13 ∷ 13 ∷ 10 ∷ 40 ∷ 0 ∷ 0 ∷ 0 ∷ 77 ∷ 60 ∷ 43 ∷ 26 ∷ 1 ∷ 0 ∷ 0 ∷ 0 ∷ 255 ∷ 255 ∷ 255 ∷ 255
    ∷ 255 ∷ 255 ∷ 255 ∷ 255 ∷ 1 ∷ 0 ∷ 1 ∷ 0 ∷ 115 ∷ 0 ∷ 0 ∷ 0 ∷ 0 ∷ 0 ∷ 0 ∷ 0 ∷ 40 ∷ 0 ∷ 0 ∷ 0 ∷ 1
    ∷ 0 ∷ 0 ∷ 0 ∷ 48 ∷ 0 ∷ 0 ∷ 0 ∷ 147 ∷ 0 ∷ 0 ∷ 0 ∷ 232 ∷ 3 ∷ 0 ∷ 0 ∷ 2 ∷ 0 ∷ 1 ∷ 0 ∷ 110 ∷ 0 ∷ 0
    ∷ 0 ∷ 3 ∷ 0 ∷ 1 ∷ 0 ∷ 100 ∷ 0 ∷ 0 ∷ 0 ∷ 9 ∷ 0 ∷ 1 ∷ 0 ∷ 9 ∷ 0 ∷ 0 ∷ 0 ∷ 0 ∷ 0 ∷ 0 ∷ 0 ∷ 48 ∷ 0
    ∷ 0 ∷ 0 ∷ []

-- A writer as it opens, for one packet.
abbrev opened : WriterState
opened = record {
  snaplen = 1000;
  max_file_bytes = 65536;
  max_packets = 1;
  file = opened_file;
  packets = 0;
  last_offset = 0;
  bytes_written = 88;
}

opens : open_writer (λ _. true) 147 1000 (b'n' ∷ []) (b'd' ∷ []) (b's' ∷ []) 65536 1 ≡ ok opened
unfolding open_writer section_body interface_body put_option end_options put_little pad32 pad_loop
    block write_block
opens = refl

abbrev offer : Offer
offer = record { bytes = body; tick = 5; comment = []; writes = true }

record_all-IsCapture_example :
    IsCapture
      (file_types (record_all opened (offer ∷ offer ∷ [])).packets)
      (record_all opened (offer ∷ offer ∷ [])).file
    × ((record_all opened (offer ∷ offer ∷ [])).bytes_written
        ≡ length (record_all opened (offer ∷ offer ∷ [])).file)
    × ((record_all opened (offer ∷ offer ∷ [])).bytes_written ≤ 65536)
    × ((record_all opened (offer ∷ offer ∷ [])).packets ≤ 1)
record_all-IsCapture_example =
    record_all-IsCapture (λ _. true) 147 1000 (b'n' ∷ []) (b'd' ∷ []) (b's' ∷ []) 65536 1 opened
      (offer ∷ offer ∷ []) (omega arith) opens
