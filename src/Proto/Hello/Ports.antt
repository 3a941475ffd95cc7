-- ===== src/Proto/Hello/Ports.antt =====
-- The count of data ports in the capability bits.
use favonius.Base.{
  ℕ, ◌≡◌, refl, ap, ◌∙◌, min, max, bit_or, Bool, true, false, ◌==◌, ==_iff, leb, if◌then◌else◌,
  every, every_sound, arith,
}
use favonius.Proto.Hello.{per_stream_ports, data_port_count, cap_peer_auth, cap_zero_runs}

-- The other capabilities that a daemon advertises.
abbrev pub others : Bool → Bool → ℕ
others auth zero = bit_or (if auth then cap_peer_auth else 0) (if zero then cap_zero_runs else 0)

abbrev same_count : Bool → Bool → ℕ → Bool
same_count auth zero n =
    data_port_count (bit_or (per_stream_ports n) (others auth zero)) == max 1 (min n 255)

counts : (auth zero : Bool) → every 256 (same_count auth zero) ≡ true
unfolding every per_stream_ports data_port_count
counts true true = refl
counts true false = refl
counts false true = refl
counts false false = refl

per_stream_ports-min : (n : ℕ) → per_stream_ports n ≡ per_stream_ports (min n 255)
unfolding per_stream_ports
per_stream_ports-min n =
    let again : min (min n 255) 255 ≡ min n 255 = omega arith in
    let same : leb (min n 255) 1 ≡ leb n 1 = ground arith in rw (same, again)

-- The sender finds the count of ports that the daemon advertised, between 1 and 255, whichever other
-- capabilities stand beside it.
pub data_port_count-per_stream_ports :
    (n : ℕ) (auth zero : Bool)
    → data_port_count (bit_or (per_stream_ports n) (others auth zero)) ≡ max 1 (min n 255)
data_port_count-per_stream_ports n auth zero =
    let m : ℕ = min n 255 in
    ap (λ (p : ℕ). data_port_count (bit_or p (others auth zero))) (per_stream_ports-min n)
    ∙ (==_iff _ (max 1 (min m 255))).0
        (every_sound 256 (same_count auth zero) m (counts auth zero) (omega arith))
    ∙ omega arith
