-- ===== src/Proto/Codec/Checked/Sound.antt =====
-- What `decode_packet` accepts, on any bytes.
use mathlib.Core.Path.{subst}
use favonius.Base.{
  ℕ, ◌+◌, ◌-◌, ◌≤◌, ◌≡◌, sym, ap, ◌∙◌, List, [], ◌++◌, Option, some, ltb, ltb_false→le, Bool-cases,
  inl, inr, length, take, drop, slice_front, slice_rest, length-take, take-append-drop, drop-append,
  append_assoc, All, arith,
}
use favonius.Base.{Outcome, ok, err}
use favonius.Bytes.Buf.{ByteBuf, Crc32c, BitFlags}
use favonius.Bytes.Endian.{IsBytes}
use favonius.Bytes.Cursor.{Total, done, failed, IsBytes-drop, IsBytes-take}
use favonius.Bytes.Many.{wires, Drained, read_all, stopped}
use favonius.Bytes.Fueled.{Fueled, ◌>>=◌, lift}
use favonius.Proto.Errors.{ProtoError}
use favonius.Proto.Flags.{PacketFlags, from_bits_truncate}
use favonius.Proto.Header.{PacketHeader, header_size, protocol_version, body, wire}
use favonius.Proto.Header.Encode.{length-wire}
use favonius.Proto.Header.Sound.{Accepted, decode-Total}
use favonius.Proto.Extensions.{Extension}
use favonius.Proto.Extensions.Laws.{Fits, framing, decode_extensions-Drained}
use favonius.Proto.Codec.{Packet, run, extensions_size}
use favonius.Proto.Codec.Encode.{packet_bytes, length-wires}
use favonius.Proto.Codec.Checked.{decode_packet}

module _ ⦃buf : ByteBuf⦄ ⦃crc : Crc32c⦄ ⦃bf : BitFlags⦄ where
  abbrev pub with_flags : Packet → PacketFlags → Packet
  with_flags p f = record p { header = record (p.header) { flags = f } }

  -- `bytes` is the encoding of `p`, with the flags that the decoder has dropped, and of `rest`.
  pub record IsEncodingOf (p : Packet) (bytes : List ℕ) : Type 0 where
    pub raw_flags : PacketFlags
    pub rest : List ℕ
    pub whole : bytes ≡ packet_bytes (with_flags p raw_flags) ++ rest
    pub truncated : p.header.flags ≡ from_bits_truncate raw_flags.bits
    pub checksum : p.header.header_crc ≡ crc.crc32c (body ((with_flags p raw_flags).header))
    pub current : p.header.version ≡ protocol_version
    pub header_length : p.header.header_length ≡ header_size + extensions_size p.extensions
    pub payload_length : p.header.payload_length ≡ length p.payload
    pub extensions_fit : All Fits p.extensions

  pub data Received (bytes : List ℕ) : Option (Outcome ProtoError Packet) → Type 0 where
    received : {p : Packet} → IsEncodingOf p bytes → Received bytes (some (ok p))
    rejected : {e : ProtoError} → Received bytes (some (err e))

  after_header :
      {Q : PacketHeader → List ℕ → Type 0} (bytes : List ℕ)
      {r : Outcome ProtoError PacketHeader × List ℕ}
      (k : PacketHeader × List ℕ → Fueled ProtoError Packet)
      → Total Q r
      → ((h : PacketHeader) (s : List ℕ) → Q h s → Received bytes (k (h, s)))
      → Received bytes (lift (run (λ _. r) bytes) >>= k)
  after_header bytes k (done {a = h} {s = s} q) f = f h s q
  after_header bytes k failed f = rejected

  after_extensions :
      (bytes s : List ℕ) {r : Option (Outcome ProtoError (List Extension))}
      (k : List Extension → Fueled ProtoError Packet)
      → Drained framing s [] r
      → ((es : List Extension) → s ≡ wires framing es → All Fits es → Received bytes (k es))
      → Received bytes (r >>= k)
  after_extensions bytes s k (read_all xs ys e h q) f =
      f ys (e ∙ ap (wires framing) (sym q)) (subst (All Fits) (sym q) h)
  after_extensions bytes s k (stopped e) f = rejected

  rest-IsBytes :
      (bytes rest : List ℕ) (h : PacketHeader)
      → IsBytes bytes
      → bytes ≡ wire h ++ rest
      → IsBytes rest
  rest-IsBytes bytes rest h hb e =
      subst IsBytes (ap (drop 42) e ∙ drop-append (wire h) rest 42 (length-wire h))
        (IsBytes-drop 42 bytes hb)

  -- The header, the extensions and the payload of an accepted packet, put together.
  joined :
      (bytes cursor : List ℕ) (h : PacketHeader) (es : List Extension)
      → Accepted bytes h cursor
      → take (h.header_length - 42) cursor ≡ wires framing es
      → All Fits es
      → h.header_length - 42 ≤ length cursor
      → h.payload_length ≤ length (drop (h.header_length - 42) cursor)
      → IsEncodingOf
          (record {
            header = h;
            extensions = es;
            payload = take h.payload_length (drop (h.header_length - 42) cursor);
          })
          bytes
  joined bytes cursor h es a e fit room room' =
      let n : ℕ = h.header_length - 42 in
      let after : List ℕ = drop n cursor in
      let w : List ℕ = wire (record h { flags = a.raw_flags }) in
      record {
        raw_flags = a.raw_flags;
        rest = drop h.payload_length after;
        whole =
            a.bytes
            ∙ ap (◌++◌ w) (
                sym (take-append-drop n cursor)
                ∙ ap (λ (xs : List ℕ). xs ++ after) e
                ∙ ap (◌++◌ (wires framing es)) (sym (take-append-drop h.payload_length after)))
            ∙ simp append_assoc;
        truncated = a.truncated;
        checksum = a.checksum;
        current = a.current;
        header_length =
            omega (arith, a.long_enough, length-take n cursor, ap length e, length-wires es);
        payload_length = omega (arith, length-take h.payload_length after);
        extensions_fit = fit;
      }

  -- On any bytes `decode_packet` returns (it neither panics nor runs out of the fuel of its loop),
  -- and what it accepts is the encoding of the packet that it returns, reserved flags apart,
  -- followed by bytes that it does not read: the checksum is right, the version is 1, and both
  -- lengths in the header are those of the parts.
  pub decode_packet-Received :
      (bytes : List ℕ) → IsBytes bytes → Received bytes (decode_packet bytes)
  unfolding decode_packet
  decode_packet-Received bytes hb = after_header bytes _ (decode-Total bytes hb) λ h cursor a.
      let n : ℕ = h.header_length - 42 in
      let cb = rest-IsBytes bytes cursor (record h { flags = a.raw_flags }) hb a.bytes in
      elim (Bool-cases (ltb (length cursor) n)) [
        | inl short ↦ rw short rejected
        | inr long ↦
            let room = ltb_false→le (length cursor) n long in
            rw (long, slice_front {E = ProtoError} cursor n room)
              (after_extensions bytes (take n cursor) _
                (decode_extensions-Drained (take n cursor) (IsBytes-take n cursor cb))
                λ es e fit.
                  let after : List ℕ = drop n cursor in
                  rw (slice_rest {E = ProtoError} cursor n room)
                    (elim (Bool-cases (ltb (length after) h.payload_length)) [
                      | inl short ↦ rw short rejected
                      | inr whole ↦
                          let room' = ltb_false→le (length after) h.payload_length whole in
                          rw (whole, slice_front {E = ProtoError} after h.payload_length room')
                            (received (joined bytes cursor h es a e fit room room'))
                    ]))
      ]
