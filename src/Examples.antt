-- ===== src/Examples.antt =====
-- The theorems at concrete inputs.
mod Codec
mod Queues
mod Captures
mod Telemetry
mod Radio
mod Networks
use graphx_docker.Base.{ℕ, List, [], ◌∷◌, Bytes}
use graphx_docker.Attributes.{Attribute}
use graphx_docker.Envelope.{Envelope}

abbrev pub message_hex : Bytes
message_hex =
    48 ∷ 48 ∷ 48 ∷ 48 ∷ 48 ∷ 48 ∷ 48 ∷ 48 ∷ 48 ∷ 48 ∷ 48 ∷ 48 ∷ 48 ∷ 48 ∷ 48 ∷ 48 ∷ 48 ∷ 48 ∷ 48
    ∷ 48 ∷ 48 ∷ 48 ∷ 48 ∷ 48 ∷ 48 ∷ 48 ∷ 48 ∷ 48 ∷ 48 ∷ 48 ∷ 48 ∷ 49 ∷ []

abbrev pub trace_hex : Bytes
trace_hex =
    97 ∷ 97 ∷ 97 ∷ 97 ∷ 97 ∷ 97 ∷ 97 ∷ 97 ∷ 97 ∷ 97 ∷ 97 ∷ 97 ∷ 97 ∷ 97 ∷ 97 ∷ 97 ∷ 97 ∷ 97 ∷ 97
    ∷ 97 ∷ 97 ∷ 97 ∷ 97 ∷ 97 ∷ 97 ∷ 97 ∷ 97 ∷ 97 ∷ 97 ∷ 97 ∷ 97 ∷ 97 ∷ []

abbrev pub unsorted : List Attribute
unsorted = (98 ∷ [], 50 ∷ []) ∷ (97 ∷ [], 49 ∷ []) ∷ []

abbrev pub sorted : List Attribute
sorted = (97 ∷ [], 49 ∷ []) ∷ (98 ∷ [], 50 ∷ []) ∷ []

abbrev pub sample_of : List Attribute → Envelope
sample_of attributes = record {
  sequence = 7;
  timestamp_ns = 9;
  type = 116 ∷ [];
  trace_id = trace_hex;
  attributes = attributes;
  payload = 104 ∷ 105 ∷ [];
  message_id = message_hex;
  parent_message_id = [];
  wire_version = 2;
}

-- Attributes out of order, as a hash map may have them.
abbrev pub sample : Envelope
sample = sample_of unsorted

abbrev pub arrived_sample : Envelope
arrived_sample = sample_of sorted

abbrev pub sample_bytes : Bytes
sample_bytes =
    71 ∷ 88 ∷ 69 ∷ 2 ∷ 0 ∷ 0 ∷ 0 ∷ 0 ∷ 0 ∷ 0 ∷ 0 ∷ 7 ∷ 0 ∷ 0 ∷ 0 ∷ 0 ∷ 0 ∷ 0 ∷ 0 ∷ 9 ∷ 0 ∷ 0 ∷ 0 ∷ 0
    ∷ 0 ∷ 0 ∷ 0 ∷ 0 ∷ 0 ∷ 0 ∷ 0 ∷ 0 ∷ 0 ∷ 0 ∷ 0 ∷ 1 ∷ 170 ∷ 170 ∷ 170 ∷ 170 ∷ 170 ∷ 170 ∷ 170 ∷ 170
    ∷ 170 ∷ 170 ∷ 170 ∷ 170 ∷ 170 ∷ 170 ∷ 170 ∷ 170 ∷ 0 ∷ 0 ∷ 0 ∷ 0 ∷ 0 ∷ 0 ∷ 0 ∷ 0 ∷ 0 ∷ 0 ∷ 0 ∷ 0
    ∷ 0 ∷ 0 ∷ 0 ∷ 0 ∷ 0 ∷ 0 ∷ 0 ∷ 1 ∷ 116 ∷ 0 ∷ 0 ∷ 0 ∷ 2 ∷ 0 ∷ 0 ∷ 0 ∷ 1 ∷ 97 ∷ 0 ∷ 0 ∷ 0 ∷ 1 ∷ 49
    ∷ 0 ∷ 0 ∷ 0 ∷ 1 ∷ 98 ∷ 0 ∷ 0 ∷ 0 ∷ 1 ∷ 50 ∷ 0 ∷ 0 ∷ 0 ∷ 2 ∷ 104 ∷ 105 ∷ []
