-- ===== src/DoubleRatchet/Payload.antt =====
-- services/double_ratchet.py: `_decrypt_with_key`.
use ultimate_enigma.Prelude.{length, take, drop, some, Result, Error, ◌>>=◌, ◌>>◌, require, leb}
use ultimate_enigma.Bytes.{Bytes}
use ultimate_enigma.XChaCha
use ultimate_enigma.XChaCha.{Aead}

unfoldable pub decrypt_with_key : Aead → Bytes → Bytes → Bytes → Result Bytes
decrypt_with_key aead key sealed header = do
  require (leb 24 (length sealed)) (Error.value_error "Ciphertext too short")
  cipher ← XChaCha.new key
  XChaCha.decrypt aead cipher (take 24 sealed) (drop 24 sealed) (some header)
