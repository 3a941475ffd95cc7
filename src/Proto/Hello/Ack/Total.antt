-- ===== src/Proto/Hello/Ack/Total.antt =====
-- Panics in the decoder of HELLO_ACK.
use favonius.Base.{
  ℕ, ◌-◌, ◌≢◌, List, [], ◌∷◌, Option, none, some, leb, leb→le, inl, inr, Bool-cases, length,
  slice-ok, arith,
}
use favonius.Base.{Outcome-cases, panic}
use favonius.Proto.Hello.{HelloAckMode, plaintext, full_handshake, resumed, from_byte}
use favonius.Proto.Hello.Ack.{tail_port, material, with_mode, decode_hello_ack_payload}

module _ {E : Type 0} where
  tail_port_total : (rest : List ℕ) → tail_port {E = E} rest ≢ panic
  tail_port_total rest = elim (Bool-cases (leb 2 (length rest))) [
    | inr short ↦ rw short (λ e. cc)
    | inl long ↦
        rw (long, slice-ok {E = E} rest (length rest - 2) (length rest) (omega arith) (omega arith))
          (λ e. cc)
  ]

  material_total : (mode : HelloAckMode) (rest : List ℕ) → material {E = E} mode rest ≢ panic
  unfolding material
  material_total plaintext rest = elim (Bool-cases (leb 2 (length rest))) [
    | inl long ↦ rw long (λ e. cc)
    | inr short ↦ rw short (λ e. cc)
  ]
  material_total resumed rest = elim (Bool-cases (leb 16 (length rest))) [
    | inr short ↦ rw short (tail_port_total rest)
    | inl long ↦
        rw (long, slice-ok {E = E} rest 0 16 (omega arith) (leb→le 16 (length rest) long)) (λ e. cc)
  ]
  material_total full_handshake rest = elim (Bool-cases (leb 48 (length rest))) [
    | inr short ↦ rw short (tail_port_total rest)
    | inl long ↦
        let h = leb→le 48 (length rest) long in
        rw
          (
            long,
            slice-ok {E = E} rest 0 32 (omega arith) (omega arith),
            slice-ok {E = E} rest 32 48 (omega arith) (omega arith),
          )
          (elim (Bool-cases (leb 144 (length rest))) [
            | inr unsigned ↦ rw unsigned (λ e. cc)
            | inl signed ↦
                let g = leb→le 144 (length rest) signed in
                rw
                  (
                    signed,
                    slice-ok {E = E} rest 48 80 (omega arith) (omega arith),
                    slice-ok {E = E} rest 80 144 (omega arith) (omega arith),
                  )
                  (λ e. cc)
          ])
  ]

  with_mode_total :
      (mode : Option HelloAckMode) (rest : List ℕ) → with_mode {E = E} mode rest ≢ panic
  with_mode_total none rest = λ e. cc
  with_mode_total (some mode) rest = elim (Outcome-cases (material {E = E} mode rest)) [
    | inl (m, e) ↦ rw e (λ p. cc)
    | inr (inl (x, e)) ↦ rw e (λ p. cc)
    | inr (inr e) ↦ absurd (material_total mode rest e)
  ]

  -- Whatever a peer sends as the payload of HELLO_ACK, decoding it does not panic.
  pub decode_hello_ack_payload_total : (buf : List ℕ) → decode_hello_ack_payload {E = E} buf ≢ panic
  unfolding decode_hello_ack_payload
  decode_hello_ack_payload_total [] = λ e. cc
  decode_hello_ack_payload_total (b ∷ rest) = with_mode_total (from_byte b) rest
