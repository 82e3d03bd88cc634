-- ===== src/Capture/Literals.antt =====
-- The fixed parts of the JSON comment in `capture_comment` of capture.cpp, character by character.
use graphx_docker.Base.{[], ◌∷◌, Bytes}

-- {"graphx":{"edge":"
abbrev pub open_edge : Bytes
open_edge =
    123 ∷ 34 ∷ 103 ∷ 114 ∷ 97 ∷ 112 ∷ 104 ∷ 120 ∷ 34 ∷ 58 ∷ 123 ∷ 34 ∷ 101 ∷ 100 ∷ 103 ∷ 101 ∷ 34
    ∷ 58 ∷ 34 ∷ []

-- ","direction":"
abbrev pub open_direction : Bytes
open_direction =
    34 ∷ 44 ∷ 34 ∷ 100 ∷ 105 ∷ 114 ∷ 101 ∷ 99 ∷ 116 ∷ 105 ∷ 111 ∷ 110 ∷ 34 ∷ 58 ∷ 34 ∷ []

-- ","sequence":
abbrev pub open_sequence : Bytes
open_sequence = 34 ∷ 44 ∷ 34 ∷ 115 ∷ 101 ∷ 113 ∷ 117 ∷ 101 ∷ 110 ∷ 99 ∷ 101 ∷ 34 ∷ 58 ∷ []

-- ,"wire_version":
abbrev pub open_version : Bytes
open_version =
    44 ∷ 34 ∷ 119 ∷ 105 ∷ 114 ∷ 101 ∷ 95 ∷ 118 ∷ 101 ∷ 114 ∷ 115 ∷ 105 ∷ 111 ∷ 110 ∷ 34 ∷ 58 ∷ []

-- ,"message_id":"
abbrev pub open_message : Bytes
open_message = 44 ∷ 34 ∷ 109 ∷ 101 ∷ 115 ∷ 115 ∷ 97 ∷ 103 ∷ 101 ∷ 95 ∷ 105 ∷ 100 ∷ 34 ∷ 58 ∷ 34 ∷ []

-- ","parent_message_id":"
abbrev pub open_parent : Bytes
open_parent =
    34 ∷ 44 ∷ 34 ∷ 112 ∷ 97 ∷ 114 ∷ 101 ∷ 110 ∷ 116 ∷ 95 ∷ 109 ∷ 101 ∷ 115 ∷ 115 ∷ 97 ∷ 103 ∷ 101
    ∷ 95 ∷ 105 ∷ 100 ∷ 34 ∷ 58 ∷ 34 ∷ []

-- ","trace_id":"
abbrev pub open_trace : Bytes
open_trace = 34 ∷ 44 ∷ 34 ∷ 116 ∷ 114 ∷ 97 ∷ 99 ∷ 101 ∷ 95 ∷ 105 ∷ 100 ∷ 34 ∷ 58 ∷ 34 ∷ []

-- ","type":"
abbrev pub open_type : Bytes
open_type = 34 ∷ 44 ∷ 34 ∷ 116 ∷ 121 ∷ 112 ∷ 101 ∷ 34 ∷ 58 ∷ 34 ∷ []

-- "}}
abbrev pub close_comment : Bytes
close_comment = 34 ∷ 125 ∷ 125 ∷ []

-- {"graphx":{"metadata_truncated":true,"sequence":
abbrev pub truncated_start : Bytes
truncated_start =
    123 ∷ 34 ∷ 103 ∷ 114 ∷ 97 ∷ 112 ∷ 104 ∷ 120 ∷ 34 ∷ 58 ∷ 123 ∷ 34 ∷ 109 ∷ 101 ∷ 116 ∷ 97 ∷ 100
    ∷ 97 ∷ 116 ∷ 97 ∷ 95 ∷ 116 ∷ 114 ∷ 117 ∷ 110 ∷ 99 ∷ 97 ∷ 116 ∷ 101 ∷ 100 ∷ 34 ∷ 58 ∷ 116 ∷ 114
    ∷ 117 ∷ 101 ∷ 44 ∷ 34 ∷ 115 ∷ 101 ∷ 113 ∷ 117 ∷ 101 ∷ 110 ∷ 99 ∷ 101 ∷ 34 ∷ 58 ∷ []

-- }}
abbrev pub truncated_end : Bytes
truncated_end = 125 ∷ 125 ∷ []
