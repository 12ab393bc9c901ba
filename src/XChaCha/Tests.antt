-- ===== src/XChaCha/Tests.antt =====
-- Witnesses and tests for services/xchacha20_poly1305.py: the vector of the draft for HChaCha20,
-- and an inner cipher that only adds a tag.
use ultimate_enigma.Prelude.{
  ℕ, zero, suc, [], ◌∷◌, ◌++◌, ◌≡◌, refl, ok, ok_injective, none, Option, drop, length, replicate,
  ap, sym, arith,
}
use ultimate_enigma.Bytes.{Bytes, IsBytes, le_bytes, le_value}
use ultimate_enigma.XChaCha.{Aead, XChaCha20Poly1305, encrypt, decrypt, hchacha20_block, rotl32}
use ultimate_enigma.XChaCha.Laws

abbrev test_key : Bytes
test_key =
    0x00 ∷ 0x01 ∷ 0x02 ∷ 0x03 ∷ 0x04 ∷ 0x05 ∷ 0x06 ∷ 0x07 ∷ 0x08 ∷ 0x09 ∷ 0x0A ∷ 0x0B ∷ 0x0C ∷ 0x0D
    ∷ 0x0E ∷ 0x0F ∷ 0x10 ∷ 0x11 ∷ 0x12 ∷ 0x13 ∷ 0x14 ∷ 0x15 ∷ 0x16 ∷ 0x17 ∷ 0x18 ∷ 0x19 ∷ 0x1A
    ∷ 0x1B ∷ 0x1C ∷ 0x1D ∷ 0x1E ∷ 0x1F ∷ []

abbrev test_nonce : Bytes
test_nonce =
    0x00 ∷ 0x00 ∷ 0x00 ∷ 0x09 ∷ 0x00 ∷ 0x00 ∷ 0x00 ∷ 0x4A ∷ 0x00 ∷ 0x00 ∷ 0x00 ∷ 0x00 ∷ 0x31 ∷ 0x41
    ∷ 0x59 ∷ 0x27 ∷ []

abbrev test_subkey : Bytes
test_subkey =
    0x82 ∷ 0x41 ∷ 0x3B ∷ 0x42 ∷ 0x27 ∷ 0xB2 ∷ 0x7B ∷ 0xFE ∷ 0xD3 ∷ 0x0E ∷ 0x42 ∷ 0x50 ∷ 0x8A ∷ 0x87
    ∷ 0x7D ∷ 0x73 ∷ 0xA0 ∷ 0xF9 ∷ 0xE4 ∷ 0xD5 ∷ 0x8A ∷ 0x74 ∷ 0xA8 ∷ 0x53 ∷ 0xC1 ∷ 0x2E ∷ 0xC4
    ∷ 0x13 ∷ 0x26 ∷ 0xD3 ∷ 0xEC ∷ 0xDC ∷ []

hchacha20_vector : hchacha20_block test_key test_nonce ≡ ok test_subkey
unfolding hchacha20_block rotl32 le_bytes le_value
hchacha20_vector = refl

abbrev tag : Bytes
tag = replicate 16 0

abbrev tagging : Aead
tagging = record {
  seal = λ key nonce plaintext associated_data. ok (tag ++ plaintext);
  open_sealed = λ key nonce ciphertext associated_data. ok (drop 16 ciphertext);
}

abbrev long_nonce : Bytes
long_nonce = test_nonce ++ (1 ∷ 2 ∷ 3 ∷ 4 ∷ 5 ∷ 6 ∷ 7 ∷ 8 ∷ [])

abbrev cipher : XChaCha20Poly1305
cipher = record { key = test_key }

encrypted : encrypt tagging cipher long_nonce (b'h' ∷ b'i' ∷ []) none ≡ ok (tag ++ b'h' ∷ b'i' ∷ [])
unfolding encrypt hchacha20_block rotl32 le_bytes le_value
encrypted = refl

tagging-opens :
    (key nonce plaintext ciphertext : Bytes) (associated_data : Option Bytes)
    → ok (tag ++ plaintext) ≡ ok ciphertext
    → ok (drop 16 ciphertext) ≡ ok plaintext
tagging-opens key nonce plaintext ciphertext associated_data h =
    ap (λ c. ok (drop 16 c)) (sym (ok_injective h))

decrypt-encrypt_example :
    decrypt tagging cipher long_nonce (tag ++ b'h' ∷ b'i' ∷ []) none ≡ ok (b'h' ∷ b'i' ∷ [])
decrypt-encrypt_example =
    Laws.decrypt-encrypt tagging tagging-opens cipher long_nonce (b'h' ∷ b'i' ∷ [])
      (tag ++ b'h' ∷ b'i' ∷ []) none encrypted

zeros-IsBytes : (n : ℕ) → IsBytes (replicate n 0)
zeros-IsBytes zero = tt
zeros-IsBytes (suc n) = (omega arith, zeros-IsBytes n)

hchacha20_block-ok_example :
    (subkey : Bytes) × (hchacha20_block (replicate 32 0) (replicate 16 0) ≡ ok subkey)
    × (length subkey ≡ 32)
    × IsBytes subkey
hchacha20_block-ok_example =
    Laws.hchacha20_block-ok (replicate 32 0) (replicate 16 0) (zeros-IsBytes 32) (zeros-IsBytes 16)
      refl refl
