-- ===== src/Envelope/Ratchet.antt =====
-- models/envelope.py: `RatchetEnvelope`. `parse` reads by absolute offsets, as the source does.
pub mod RoundTrip
use ultimate_enigma.Prelude.{
  ℕ, ◌+◌, ◌∷◌, ◌++◌, length, slice, drop, leb, ◌==◌, Result, ok, Error, require, index, ◌>>=◌, ◌>>◌,
}
use ultimate_enigma.Bytes.{Bytes, pack_be, unpack_be}
use ultimate_enigma.Utf8
use ultimate_enigma.Utf8.{Text}
use ultimate_enigma.Envelope.Wire.{ratchet_envelope_magic, is_nonempty, as_value_error}

pub record RatchetEnvelope : Type 0 where
  pub sender_name : Text
  pub header : Bytes
  pub ciphertext : Bytes

unfoldable pub build : RatchetEnvelope → Result Bytes
build e = do
  name_bytes ← Utf8.encode e.sender_name
  require (leb (length name_bytes) 255)
      (Error.value_error "Sender name too long for ratchet envelope")
  header_len ← pack_be 2 (length e.header)
  ok (
      ratchet_envelope_magic
      ∷ length name_bytes
      ∷ (name_bytes ++ (header_len ++ (e.header ++ e.ciphertext))))

-- The body of the `try`, from the length of the name on.
parse_fields : Bytes → ℕ → Result RatchetEnvelope
parse_fields packet name_len = do
  require (leb (2 + name_len) (length packet)) (Error.value_error "truncated at sender name")
  sender_name ← Utf8.decode (slice packet 2 (2 + name_len))
  require (is_nonempty sender_name) (Error.value_error "empty sender name")
  let offset = 2 + name_len
  require (leb (offset + 2) (length packet)) (Error.value_error "truncated at header length")
  header_len ← unpack_be 2 (slice packet offset (offset + 2))
  let offset' = offset + 2
  require (leb (offset' + header_len) (length packet)) (Error.value_error "truncated at header")
  let ciphertext = drop (offset' + header_len) packet
  require (is_nonempty ciphertext) (Error.value_error "empty ciphertext")
  ok (record {
    sender_name = sender_name;
    header = slice packet offset' (offset' + header_len);
    ciphertext = ciphertext;
  })

unfoldable pub parse : Bytes → Result RatchetEnvelope
unfolding parse_fields
parse packet = do
  require (leb 4 (length packet)) (Error.value_error "Ratchet envelope too short")
  magic ← index packet 0
  require (magic == ratchet_envelope_magic) (Error.value_error "Invalid ratchet envelope magic")
  as_value_error (do name_len ← index packet 1; parse_fields packet name_len)
