-- ===== src/Envelope/Pqc.antt =====
-- models/envelope.py: `PQCEncvelope`, the source's spelling.
pub mod RoundTrip
use ultimate_enigma.Prelude.{
  ℕ, ◌+◌, ◌∷◌, ◌++◌, length, slice, drop, leb, ◌==◌, Result, ok, Error, require, index, ◌>>=◌, ◌>>◌,
}
use ultimate_enigma.Bytes.{Bytes, pack_be, unpack_be}
use ultimate_enigma.Envelope.Wire.{pqc_envelope_magic, as_value_error}

-- The annotated `NONCE_LENGTH` of the dataclass is a field, with 12 for its default.
pub record PqcEnvelope : Type 0 where
  pub kem_ciphertext : Bytes
  pub nonce : Bytes
  pub aes_ciphertext : Bytes
  pub nonce_length : ℕ

abbrev pub default_nonce_length : ℕ
default_nonce_length = 12

unfoldable pub build : PqcEnvelope → Result Bytes
build e = do
  require (length e.nonce == e.nonce_length) (Error.value_error "PQC envelope nonce length")
  kem_len ← pack_be 2 (length e.kem_ciphertext)
  ok (pqc_envelope_magic ∷ (kem_len ++ (e.kem_ciphertext ++ (e.nonce ++ e.aes_ciphertext))))

parse_fields : Bytes → ℕ → Result PqcEnvelope
parse_fields packet kem_ct_len = do
  require (leb (3 + kem_ct_len) (length packet)) (Error.value_error "truncated at KEM ciphertext")
  let offset = 3 + kem_ct_len
  let nonce_end = offset + default_nonce_length
  require (leb nonce_end (length packet)) (Error.value_error "truncated at nonce")
  let aes_ciphertext = drop nonce_end packet
  require (leb 16 (length aes_ciphertext)) (Error.value_error "AES ciphertext too short")
  ok (record {
    kem_ciphertext = slice packet 3 offset;
    nonce = slice packet offset nonce_end;
    aes_ciphertext = aes_ciphertext;
    nonce_length = default_nonce_length;
  })

unfoldable pub parse : Bytes → Result PqcEnvelope
unfolding parse_fields
parse packet = do
  require (leb 3 (length packet)) (Error.value_error "PQC envelope too short")
  magic ← index packet 0
  require (magic == pqc_envelope_magic) (Error.value_error "Invalid PQC envelope magic")
  as_value_error (do kem_ct_len ← unpack_be 2 (slice packet 1 3); parse_fields packet kem_ct_len)
