-- ===== src/Capture/Writer.antt =====
-- `WriterState` of capture.cpp: its constructor, with the section and the interface block, `record`,
-- and the two sinks on top of it. The opening of the file is not modelled: the file starts empty.
use graphx_docker.Base.{
  ℕ, ◌+◌, ◌-◌, ◌/◌, ◌%◌, ◌^◌, Bool, not, [], ◌∷◌, ◌++◌, Bytes, Result, ok, err, ◌>>=◌, ◌>>◌, guard,
  leb, ltb, ◌==◌, if◌then◌else◌, length, take,
}
use graphx_docker.Wire.{uint32_max}
use graphx_docker.Capture.{
  CaptureError, packet_limit, frame_too_short, snaplen_zero, file_limit_too_small,
  packet_limit_zero, put_little, pad32, put_option, end_options, block, WriterState, write_block,
  Metadata, capture_comment,
}

-- kSectionHeaderBlock, kInterfaceDescriptionBlock and kEnhancedPacketBlock
abbrev pub section_header_block : ℕ
section_header_block = 0x0a0d0d0a

abbrev pub interface_description_block : ℕ
interface_description_block = 1

abbrev pub enhanced_packet_block : ℕ
enhanced_packet_block = 6

-- The fixed part of the section block, and those of the interface block in front of its names and
-- behind them.
abbrev pub section_start : Bytes
section_start =
    put_little 4 0x1a2b3c4d ++ (put_little 2 1 ++ (put_little 2 0 ++ put_little 8 (2 ^ 64 - 1)))

abbrev pub interface_start : ℕ → ℕ → Bytes
interface_start linktype snaplen = put_little 2 linktype ++ (put_little 2 0 ++ put_little 4 snaplen)

abbrev pub resolution : Bytes
resolution = put_little 2 9 ++ (put_little 2 1 ++ 9 ∷ [])

unfoldable pub section_body : Bytes → Result CaptureError Bytes
unfolding put_option end_options put_little
section_body section_comment = do
  options ← put_option section_start 1 section_comment
  ok (end_options options)

unfoldable pub interface_body : ℕ → ℕ → Bytes → Bytes → Result CaptureError Bytes
unfolding put_option end_options put_little pad32
interface_body linktype snaplen interface_name interface_description = do
  named ← put_option (interface_start linktype snaplen) 2 interface_name
  described ← put_option named 3 interface_description
  ok (end_options (pad32 (described ++ resolution)))

-- A `write_block` whose exception leaves the constructor.
abbrev pub write_or_throw : Result CaptureError ℕ × WriterState → Result CaptureError WriterState
write_or_throw (ok position, w) = ok w
write_or_throw (err x, w) = err x

abbrev pub empty_writer : ℕ → ℕ → ℕ → WriterState
empty_writer maximum max_file_bytes max_packets = record {
  snaplen = maximum;
  max_file_bytes = max_file_bytes;
  max_packets = max_packets;
  file = [];
  packets = 0;
  last_offset = 0;
  bytes_written = 0;
}

unfoldable pub open_writer :
    (ℕ → Bool) → ℕ → ℕ → Bytes → Bytes → Bytes → ℕ → ℕ → Result CaptureError WriterState
unfolding section_body interface_body block write_block
open_writer writes linktype maximum interface_name interface_description section_comment
      max_file_bytes max_packets =
    do
      guard (not (maximum == 0)) snaplen_zero
      guard (not (ltb max_file_bytes 65536)) file_limit_too_small
      guard (not (max_packets == 0)) packet_limit_zero
      let empty = empty_writer maximum max_file_bytes max_packets
      section ← section_body section_comment
      w ← write_or_throw (write_block (writes 0) empty (block section_header_block section))
      interface ← interface_body linktype maximum interface_name interface_description
      write_or_throw (write_block (writes 1) w (block interface_description_block interface))

abbrev pub minimum : ℕ → ℕ → ℕ
minimum a b = if ltb b a then b else a

-- The packet that `record` builds, for the time `tick` in nanoseconds.
abbrev pub packet_data : ℕ → Bytes → ℕ → Bytes
packet_data snaplen bytes tick =
    let captured = minimum (length bytes) snaplen in
    let original = minimum (length bytes) uint32_max in
    (put_little 4 0
      ++ (put_little 4 (tick / 2 ^ 32)
          ++ (put_little 4 (tick % 2 ^ 32) ++ (put_little 4 captured ++ put_little 4 original))))
    ++ take captured bytes

abbrev pub put_comment : Bytes → Bytes → Result CaptureError Bytes
put_comment packet [] = ok packet
put_comment packet (c ∷ cs) = put_option packet 1 (c ∷ cs)

unfoldable pub packet_body : ℕ → Bytes → ℕ → Bytes → Result CaptureError Bytes
unfolding put_option end_options put_little pad32
packet_body snaplen bytes tick comment = do
  commented ← put_comment (pad32 (packet_data snaplen bytes tick)) comment
  ok (end_options commented)

unfoldable pub finish_record :
    Result CaptureError ℕ × WriterState → Result CaptureError (Unit {0}) × WriterState
finish_record (err x, w) = (err x, w)
finish_record (ok position, w) =
    (ok tt, record w { last_offset = position; packets = w.packets + 1 })

unfoldable pub write_packet :
    Bool → WriterState → Result CaptureError Bytes → Result CaptureError (Unit {0}) × WriterState
unfolding finish_record write_block block
write_packet writes w (err x) = (err x, w)
write_packet writes w (ok packet) =
    finish_record (write_block writes w (block enhanced_packet_block packet))

-- `WriterState::record`. A time before the epoch is a tick of zero.
unfoldable pub record_packet_at :
    Bool → WriterState → Bytes → ℕ → Bytes → Result CaptureError (Unit {0}) × WriterState
unfolding write_packet packet_body
record_packet_at writes w bytes tick comment =
    if leb w.max_packets w.packets
    then (err packet_limit, w)
    else write_packet writes w (packet_body w.snaplen bytes tick comment)

-- `PcapngCaptureSink::record_frame`
unfoldable pub record_frame :
    (ℕ → Bytes)
    → Bool
    → WriterState
    → Bytes
    → Bytes
    → Bytes
    → ℕ
    → Metadata
    → Result CaptureError (Unit {0}) × WriterState
unfolding record_packet_at
record_frame to_string writes w edge_id direction frame tick m =
    record_packet_at writes w frame tick (capture_comment to_string edge_id direction m)

-- `EthernetPcapngCaptureSink::record_packet`
unfoldable pub record_packet :
    Bool → WriterState → Bytes → ℕ → Bytes → Result CaptureError (Unit {0}) × WriterState
unfolding record_packet_at
record_packet writes w ethernet_frame tick comment =
    if ltb (length ethernet_frame) 14
    then (err frame_too_short, w)
    else record_packet_at writes w ethernet_frame tick comment
