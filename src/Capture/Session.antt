-- ===== src/Capture/Session.antt =====
-- A capture from its opening on: the packets that are offered, one after the other.
use graphx_docker.Base.{
  ℕ, zero, suc, ◌^◌, ◌≤◌, ◌<◌, ◌≡◌, inl, inr, refl, sym, subst, ap, ap₂, ◌∙◌, Bool, not, List, [],
  ◌∷◌, ◌++◌, Bytes, Result, ok, err, leb, ltb, ◌==◌, length, arith, ok-injective, >>=-elim,
  guard-elim, Bool-cases,
}
use graphx_docker.Capture.{CaptureError, block, WriterState, write_block}
use graphx_docker.Capture.Blocks.{IsAligned, IsCapture, no_block}
use graphx_docker.Capture.Limits.{
  Inv, Written, write_block-Written, appended-Inv, section_body-IsAligned, interface_body-IsAligned,
  packet_body-IsAligned,
}
use graphx_docker.Capture.Writer.{
  section_header_block, interface_description_block, enhanced_packet_block, section_body,
  interface_body, write_or_throw, empty_writer, open_writer, packet_body, record_packet_at,
  write_packet, finish_record,
}

-- A call of `record`, and whether its writes succeed.
pub record Offer : Type 0 where
  pub bytes : Bytes
  pub tick : ℕ
  pub comment : Bytes
  pub writes : Bool

unfoldable pub record_all : WriterState → List Offer → WriterState
record_all w [] = w
record_all w (o ∷ os) = record_all (record_packet_at o.writes w o.bytes o.tick o.comment).1 os

-- The types of the blocks of a file with n packets.
abbrev pub file_types : ℕ → List ℕ
file_types zero = section_header_block ∷ interface_description_block ∷ []
file_types (suc n) = file_types n ++ enhanced_packet_block ∷ []

module _ {file_max packet_max : ℕ} where
  finish_record-Inv :
      (n : ℕ) (w : WriterState) (body : Bytes) (r : Result CaptureError ℕ) (w' : WriterState)
      → IsAligned body
      → n < packet_max
      → Inv file_max packet_max (file_types n) n w
      → Written w (block enhanced_packet_block body) r w'
      → (k : ℕ) × Inv file_max packet_max (file_types k) k (finish_record (r, w')).1
  unfolding Written finish_record
  finish_record-Inv n w body r w' a few v (inl (er, fits, ew)) =
      let u = appended-Inv w enhanced_packet_block body a fits v in
      subst (λ q. (k : ℕ) × Inv file_max packet_max (file_types k) k (finish_record q).1)
        (sym (ap₂ (λ x y. (x, y)) er ew))
        (
          suc n,
          record {
            file_kept = u.file_kept;
            packets_kept = u.packets_kept;
            blocks = u.blocks;
            counted = u.counted;
            bounded = u.bounded;
            small = u.small;
            packets_are = omega (arith, v.packets_are);
            few = omega (arith, v.packets_kept);
          },
        )
  finish_record-Inv n w body r w' a few v (inr (x, er, ew)) =
      subst (λ q. (k : ℕ) × Inv file_max packet_max (file_types k) k (finish_record q).1)
        (sym (ap₂ (λ x y. (x, y)) er ew)) (n, v)

  write_packet-Inv :
      (writes : Bool) (n : ℕ) (w : WriterState) (packet : Result CaptureError Bytes)
      → ((body : Bytes) → packet ≡ ok body → IsAligned body)
      → n < packet_max
      → Inv file_max packet_max (file_types n) n w
      → (k : ℕ) × Inv file_max packet_max (file_types k) k (write_packet writes w packet).1
  unfolding write_packet
  write_packet-Inv writes n w (err x) a few v = (n, v)
  write_packet-Inv writes n w (ok body) a few v =
      let p = write_block writes w (block enhanced_packet_block body) in
      finish_record-Inv n w body p.0 p.1 (a body refl) few v
        (write_block-Written writes w (block enhanced_packet_block body))

  record_packet_at-Inv :
      (n : ℕ) (w : WriterState) (o : Offer)
      → Inv file_max packet_max (file_types n) n w
      → (k : ℕ) × Inv file_max packet_max
          (file_types k)
          k
          (record_packet_at o.writes w o.bytes o.tick o.comment).1
  unfolding record_packet_at
  record_packet_at-Inv n w o v = elim (Bool-cases (leb w.max_packets w.packets)) [
    | inl e ↦ rw e (n, v)
    | inr e ↦
        let few : n < packet_max = ground (arith, v.packets_are, v.packets_kept, e) in
        rw e (
          write_packet-Inv o.writes n w (packet_body w.snaplen o.bytes o.tick o.comment)
            (λ body q. packet_body-IsAligned w.snaplen o.bytes o.tick o.comment q) few v)
  ]

  record_all-Inv :
      (n : ℕ) (w : WriterState) (os : List Offer)
      → Inv file_max packet_max (file_types n) n w
      → (k : ℕ) × Inv file_max packet_max (file_types k) k (record_all w os)
  unfolding record_all
  record_all-Inv n w [] v = (n, v)
  record_all-Inv n w (o ∷ os) v =
      let (k, u) = record_packet_at-Inv n w o v in
      record_all-Inv k (record_packet_at o.writes w o.bytes o.tick o.comment).1 os u

  write_or_throw-Inv :
      {types : List ℕ} {n : ℕ} (writes : Bool) (w : WriterState) (type : ℕ) (body : Bytes)
      {w' : WriterState}
      → IsAligned body
      → Inv file_max packet_max types n w
      → write_or_throw (write_block writes w (block type body)) ≡ ok w'
      → Inv file_max packet_max (types ++ type ∷ []) n w'
  unfolding Written
  write_or_throw-Inv {types} {n} writes w type body a v h =
      let p = write_block writes w (block type body) in
      elim (write_block-Written writes w (block type body)) [
        | inl (er, fits, ew) ↦
            let same : write_or_throw p ≡ ok _ = ap write_or_throw (ap₂ (λ x y. (x, y)) er ew) in
            subst (Inv file_max packet_max (types ++ type ∷ []) n) (ok-injective (sym same ∙ h))
              (appended-Inv w type body a fits v)
        | inr (x, er, ew) ↦
            absurd (thrown x w (sym (ap write_or_throw (ap₂ (λ x y. (x, y)) er ew)) ∙ h))
      ]
    where
      thrown :
          {w' : WriterState} (x : CaptureError) (w : WriterState)
          → write_or_throw (err x, w) ≡ ok w'
          → ⊥
      thrown x w h = cc

empty_writer-Inv :
    (snaplen file_max packet_max : ℕ)
    → file_max < 2 ^ 32
    → Inv file_max packet_max [] 0 (empty_writer snaplen file_max packet_max)
empty_writer-Inv snaplen file_max packet_max small = record {
  file_kept = refl;
  packets_kept = refl;
  blocks = no_block;
  counted = refl;
  bounded = omega arith;
  small = small;
  packets_are = refl;
  few = omega arith;
}

open_writer-Inv :
    (writes : ℕ → Bool) (linktype snaplen : ℕ) (name description comment : Bytes)
    (file_max packet_max : ℕ) {w : WriterState}
    → file_max < 2 ^ 32
    → open_writer writes linktype snaplen name description comment file_max packet_max ≡ ok w
    → Inv file_max packet_max (file_types 0) 0 w
unfolding open_writer
open_writer-Inv writes linktype snaplen name description comment file_max packet_max small h =
    guard-elim (not (snaplen == 0)) _ _ h λ b₁ h₁.
      guard-elim (not (ltb file_max 65536)) _ _ h₁ λ b₂ h₂.
        guard-elim (not (packet_max == 0)) _ _ h₂ λ b₃ h₃.
          >>=-elim (section_body comment) _ h₃ λ section e₄ h₄.
            >>=-elim
              (write_or_throw (
                write_block (writes 0) (empty_writer snaplen file_max packet_max)
                  (block section_header_block section)))
              _ h₄
              λ w e₅ h₅.
                >>=-elim (interface_body linktype snaplen name description) _ h₅ λ interface e₆ h₆.
                  write_or_throw-Inv (writes 1) w interface_description_block interface
                    (interface_body-IsAligned linktype snaplen name description e₆)
                    (write_or_throw-Inv (writes 0) (empty_writer snaplen file_max packet_max)
                      section_header_block section (section_body-IsAligned comment e₄)
                      (empty_writer-Inv snaplen file_max packet_max small) e₅)
                    h₆

-- A writer that opens, with a file limit below 4 GiB, and any packets offered to it, whether their
-- writes succeed or fail and whatever they are refused for: the file is at each time a section
-- block, an interface block and one packet block for each packet counted, all of them a multiple of
-- four bytes long; the writer counts its bytes exactly; and both limits hold.
pub record_all-IsCapture :
    (writes : ℕ → Bool) (linktype snaplen : ℕ) (name description comment : Bytes)
    (file_max packet_max : ℕ) (w : WriterState) (os : List Offer)
    → file_max < 2 ^ 32
    → open_writer writes linktype snaplen name description comment file_max packet_max ≡ ok w
    → IsCapture (file_types (record_all w os).packets) (record_all w os).file
      × ((record_all w os).bytes_written ≡ length (record_all w os).file)
      × ((record_all w os).bytes_written ≤ file_max)
      × ((record_all w os).packets ≤ packet_max)
record_all-IsCapture writes linktype snaplen name description comment file_max packet_max w os small
      h =
    let v =
      open_writer-Inv writes linktype snaplen name description comment file_max packet_max small
        h in
    let (k, u) = record_all-Inv 0 w os v in
    (
      subst (λ n. IsCapture (file_types n) (record_all w os).file) (sym u.packets_are) u.blocks,
      u.counted,
      omega (arith, u.bounded, u.file_kept),
      omega (arith, u.few, u.packets_are, u.packets_kept),
    )
