-- ===== src/Capture/Limits.antt =====
-- What the writer keeps, over any number of packets, whether or not their writes succeed.
use graphx_docker.Base.{
  ℕ, ◌+◌, ◌^◌, ◌≤◌, ◌<◌, ◌≡◌, ◌⊎◌, subst, Bool, List, [], ◌∷◌, ◌++◌, Bytes, Result, ok, err, ◌>>=◌,
  length, length-append, arith, ok-injective, >>=-elim,
}
use graphx_docker.Capture.{
  CaptureError, block, WriterState, write_block, put_option, pad32, end_options,
}
use graphx_docker.Capture.Blocks.{
  IsAligned, IsCapture, next_block, pad32-IsAligned, end_options-IsAligned, put_option-IsAligned,
  length-block,
}
use graphx_docker.Capture.Writer.{
  section_body, interface_body, packet_body, section_start, interface_start, resolution,
  packet_data, put_comment,
}

-- The file is a sequence of blocks of the given types, as long as the writer counts and within its
-- limits.
pub record Inv (file_max packet_max : ℕ) (types : List ℕ) (packets : ℕ) (w : WriterState)
    : Type 0 where
  pub file_kept : w.max_file_bytes ≡ file_max
  pub packets_kept : w.max_packets ≡ packet_max
  pub blocks : IsCapture types w.file
  pub counted : w.bytes_written ≡ length w.file
  pub bounded : w.bytes_written ≤ w.max_file_bytes
  pub small : w.max_file_bytes < 2 ^ 32
  pub packets_are : w.packets ≡ packets
  pub few : packets ≤ w.max_packets

pub section_body-IsAligned :
    (comment : Bytes) {body : Bytes} → section_body comment ≡ ok body → IsAligned body
unfolding section_body
section_body-IsAligned comment h =
    >>=-elim (put_option section_start 1 comment) (λ options. ok (end_options options)) h
      λ options e k.
        subst IsAligned (ok-injective k)
          (end_options-IsAligned options (put_option-IsAligned section_start 1 comment e))

pub interface_body-IsAligned :
    (linktype snaplen : ℕ) (name description : Bytes) {body : Bytes}
    → interface_body linktype snaplen name description ≡ ok body
    → IsAligned body
unfolding interface_body
interface_body-IsAligned linktype snaplen name description {body} h =
    >>=-elim (put_option (interface_start linktype snaplen) 2 name)
      (λ named. put_option named 3 description >>= λ described.
        ok (end_options (pad32 (described ++ resolution))))
      h
      λ named e k.
        >>=-elim (put_option named 3 description)
          (λ described. ok (end_options (pad32 (described ++ resolution)))) k
          λ described e' k'. subst IsAligned (ok-injective k') (
            end_options-IsAligned (pad32 (described ++ resolution))
              (pad32-IsAligned (described ++ resolution)))

put_comment-IsAligned :
    (packet comment : Bytes) {out : Bytes}
    → IsAligned packet
    → put_comment packet comment ≡ ok out
    → IsAligned out
put_comment-IsAligned packet [] a h = subst IsAligned (ok-injective h) a
put_comment-IsAligned packet (c ∷ cs) a h = put_option-IsAligned packet 1 (c ∷ cs) h

pub packet_body-IsAligned :
    (snaplen : ℕ) (bytes : Bytes) (tick : ℕ) (comment : Bytes) {body : Bytes}
    → packet_body snaplen bytes tick comment ≡ ok body
    → IsAligned body
unfolding packet_body
packet_body-IsAligned snaplen bytes tick comment h =
    >>=-elim (put_comment (pad32 (packet_data snaplen bytes tick)) comment)
      (λ out. ok (end_options out)) h
      λ commented e k. subst IsAligned (ok-injective k) (
        end_options-IsAligned commented (
          put_comment-IsAligned (pad32 (packet_data snaplen bytes tick)) comment
            (pad32-IsAligned (packet_data snaplen bytes tick)) e))

-- A block that is written, and one that is not.
unfoldable pub Written : WriterState → Bytes → Result CaptureError ℕ → WriterState → Type 0
Written w bytes r w' =
    ((r ≡ ok (length w.file))
      × (w.bytes_written + length bytes ≤ w.max_file_bytes)
      × (w' ≡ record w { file = w.file ++ bytes; bytes_written = w.bytes_written + length bytes }))
    ⊎ ((x : CaptureError) × (r ≡ err x) × (w' ≡ w))

pub write_block-Written :
    (writes : Bool) (w : WriterState) (bytes : Bytes)
    → Written w bytes (write_block writes w bytes).0 (write_block writes w bytes).1
unfolding Written write_block
write_block-Written writes w bytes = ground arith

pub appended-Inv :
    {file_max packet_max : ℕ} {types : List ℕ} {packets : ℕ} (w : WriterState) (type : ℕ)
    (body : Bytes)
    → IsAligned body
    → w.bytes_written + length (block type body) ≤ w.max_file_bytes
    → Inv file_max packet_max types packets w
    → Inv file_max packet_max (types ++ type ∷ []) packets (record w {
      file = w.file ++ block type body;
      bytes_written = w.bytes_written + length (block type body);
    })
appended-Inv w type body a fits v = record {
  file_kept = v.file_kept;
  packets_kept = v.packets_kept;
  blocks = next_block type body a (omega (arith, v.small, length-block type body)) v.blocks;
  counted = omega (arith, v.counted, length-append w.file (block type body));
  bounded = fits;
  small = v.small;
  packets_are = v.packets_are;
  few = v.few;
}
