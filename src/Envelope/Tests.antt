-- ===== src/Envelope/Tests.antt =====
-- Witnesses and tests for models/envelope.py.
use ultimate_enigma.Prelude.{
  ℕ, zero, suc, ◌≤◌, ◌<◌, [], ◌∷◌, ◌++◌, ◌≡◌, ◌≢◌, refl, ok, length, replicate, arith,
}
use ultimate_enigma.Bytes.{Bytes, IsBytes, pack_be, unpack_be, be_bytes, be_value}
use ultimate_enigma.Utf8.{encode, encode_char, decode, decode_char}
use ultimate_enigma.Envelope.Ratchet
use ultimate_enigma.Envelope.Ratchet.{RatchetEnvelope}
use ultimate_enigma.Envelope.Ratchet.RoundTrip.{parse-build_ratchet, build-parse_ratchet}
use ultimate_enigma.Envelope.Pqc
use ultimate_enigma.Envelope.Pqc.{PqcEnvelope, default_nonce_length}
use ultimate_enigma.Envelope.Pqc.RoundTrip.{parse-build_pqc, build-parse_pqc}

abbrev alice : RatchetEnvelope
alice = record { sender_name = b'A' ∷ 0xE9 ∷ []; header = 7 ∷ 8 ∷ []; ciphertext = 1 ∷ 2 ∷ 3 ∷ [] }

abbrev alice_packet : Bytes
alice_packet = 0xD0 ∷ 3 ∷ b'A' ∷ 0xC3 ∷ 0xA9 ∷ 0 ∷ 2 ∷ 7 ∷ 8 ∷ 1 ∷ 2 ∷ 3 ∷ []

alice_built : Ratchet.build alice ≡ ok alice_packet
unfolding Ratchet.build encode encode_char pack_be be_bytes
alice_built = refl

parse-build_ratchet_example : Ratchet.parse alice_packet ≡ ok alice
parse-build_ratchet_example =
    parse-build_ratchet alice alice_packet alice_built (λ e. cc e) (λ e. cc e)

alice_parsed : Ratchet.parse alice_packet ≡ ok alice
unfolding Ratchet.parse unpack_be be_value decode decode_char
alice_parsed = refl

alice_packet-IsBytes : IsBytes alice_packet
alice_packet-IsBytes = (
  omega arith,
  (omega arith, (omega arith, (omega arith, (omega arith, (omega arith, (omega arith, rest)))))),
)
  where
    rest : IsBytes (7 ∷ 8 ∷ 1 ∷ 2 ∷ 3 ∷ [])
    rest = (omega arith, (omega arith, (omega arith, (omega arith, (omega arith, tt)))))

build-parse_ratchet_example :
    (Ratchet.build alice ≡ ok alice_packet) × (alice.sender_name ≢ []) × (alice.ciphertext ≢ [])
build-parse_ratchet_example =
    build-parse_ratchet alice_packet alice alice_packet-IsBytes alice_parsed

abbrev hybrid : PqcEnvelope
hybrid = record {
  kem_ciphertext = 5 ∷ 6 ∷ [];
  nonce = replicate 12 9;
  aes_ciphertext = replicate 16 3;
  nonce_length = default_nonce_length;
}

abbrev hybrid_packet : Bytes
hybrid_packet = 0x50 ∷ 0 ∷ 2 ∷ 5 ∷ 6 ∷ (replicate 12 9 ++ replicate 16 3)

hybrid_built : Pqc.build hybrid ≡ ok hybrid_packet
unfolding Pqc.build pack_be be_bytes
hybrid_built = refl

parse-build_pqc_example : Pqc.parse hybrid_packet ≡ ok hybrid
parse-build_pqc_example = parse-build_pqc hybrid hybrid_packet hybrid_built refl (omega arith)

hybrid_parsed : Pqc.parse hybrid_packet ≡ ok hybrid
unfolding Pqc.parse unpack_be be_value
hybrid_parsed = refl

copies : (n b : ℕ) (rest : Bytes) → b < 256 → IsBytes rest → IsBytes (replicate n b ++ rest)
copies zero b rest h p = p
copies (suc n) b rest h p = (h, copies n b rest h p)

build-parse_pqc_example :
    (Pqc.build hybrid ≡ ok hybrid_packet)
    × (hybrid.nonce_length ≡ default_nonce_length)
    × (16 ≤ length hybrid.aes_ciphertext)
build-parse_pqc_example =
    build-parse_pqc hybrid_packet hybrid
      (
        omega arith,
        (
          omega arith,
          (
            omega arith,
            (
              omega arith,
              (
                omega arith,
                copies 12 9 (replicate 16 3) (omega arith) (copies 16 3 [] (omega arith) tt),
              ),
            ),
          ),
        ),
      )
      hybrid_parsed
