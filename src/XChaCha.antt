-- ===== src/XChaCha.antt =====
-- services/xchacha20_poly1305.py: HChaCha20 on words of 32 bits, and the class
-- `XChaCha20Poly1305`. `ChaCha20Poly1305` of the package `cryptography` is a parameter, `Aead`.
pub mod Words
pub mod Laws
mod Tests
use ultimate_enigma.Prelude.{
  ℕ, zero, suc, ◌+◌, ◌-◌, ◌*◌, ◌/◌, ◌^◌, bit_and, bit_or, bit_xor, List, [], ◌∷◌, ◌++◌, length,
  get_or, set, take, drop, slice, Option, Result, ok, err, Error, require, ◌>>=◌, ◌>>◌, ltb, ◌==◌,
  if◌then◌else◌,
}
use ultimate_enigma.Bytes.{Bytes, le_bytes, le_value}

abbrev pub mask32 : ℕ
mask32 = 0xFFFFFFFF

unfoldable pub rotl32 : ℕ → ℕ → ℕ
rotl32 v n = bit_and (bit_or (v * 2 ^ n) (v / 2 ^ (32 - n))) mask32

-- The two statements of a line `x += y; z ^= x; z <<<= n`.
mix : ℕ → ℕ → ℕ → ℕ → List ℕ → List ℕ
mix x y z n state =
    let added = set state x (bit_and (get_or state x 0 + get_or state y 0) mask32) in
    let mixed = set added z (bit_xor (get_or added z 0) (get_or added x 0)) in
    set mixed z (rotl32 (get_or mixed z 0) n)

-- The state has 16 words and every index below is less, so no look-up fails.
quarter_round : ℕ → ℕ → ℕ → ℕ → List ℕ → List ℕ
unfolding mix
quarter_round a b c d state = mix c d b 7 (mix a b d 8 (mix c d b 12 (mix a b d 16 state)))

pub chacha20_constants : List ℕ
chacha20_constants = 0x61707865 ∷ 0x3320646E ∷ 0x79622D32 ∷ 0x6B206574 ∷ []

double_round : List ℕ → List ℕ
unfolding quarter_round
double_round state =
    let columns =
      quarter_round 3 7 11 15
        (quarter_round 2 6 10 14 (quarter_round 1 5 9 13 (quarter_round 0 4 8 12 state))) in
    quarter_round 3 4 9 14
      (quarter_round 2 7 8 13 (quarter_round 1 6 11 12 (quarter_round 0 5 10 15 columns)))

-- `for _ in range(10)`
pub rounds : ℕ → List ℕ → List ℕ
rounds zero state = state
rounds (suc left) state = rounds left (double_round state)

-- The words of `struct.unpack("<nI", bytes)`, of which there are `n`.
pub unpack_words : ℕ → Bytes → List ℕ
unpack_words zero bytes = []
unpack_words (suc n) bytes = le_value (take 4 bytes) ∷ unpack_words n (drop 4 bytes)

-- `struct.pack("<nI", *words)`, which raises for a word out of range.
pub pack_words : List ℕ → Result Bytes
pack_words [] = ok []
pack_words (word ∷ words) = do
  require (ltb word (2 ^ 32)) Error.struct_error
  rest ← pack_words words
  ok (le_bytes 4 word ++ rest)

unfoldable pub hchacha20_block : Bytes → Bytes → Result Bytes
unfolding chacha20_constants double_round rounds unpack_words pack_words
hchacha20_block key nonce = do
  require (length key == 32) (Error.value_error "HChaCha20 key must be 32 bytes")
  require (length nonce == 16) (Error.value_error "HChaCha20 nonce must be 16 bytes")
  let state = rounds 10 (chacha20_constants ++ (unpack_words 8 key ++ unpack_words 4 nonce))
  pack_words (slice state 0 4 ++ slice state 12 16)

-- `ChaCha20Poly1305(key).encrypt(nonce, data, associated_data)` and `decrypt`.
pub record Aead : Type 0 where
  pub seal : Bytes → Bytes → Bytes → Option Bytes → Result Bytes
  pub open_sealed : Bytes → Bytes → Bytes → Option Bytes → Result Bytes

-- The object holds the key that was written to its guarded buffer.
pub record XChaCha20Poly1305 : Type 0 where
  pub key : Bytes

unfoldable pub new : Bytes → Result XChaCha20Poly1305
new key = do
  require (length key == 32) (Error.value_error "XChaCha20-Poly1305 key must be 32 bytes")
  ok (record { key = key })

abbrev pub ietf_nonce_prefix : Bytes
ietf_nonce_prefix = 0 ∷ 0 ∷ 0 ∷ 0 ∷ []

module _ (aead : Aead) where
  unfoldable pub encrypt : XChaCha20Poly1305 → Bytes → Bytes → Option Bytes → Result Bytes
  encrypt cipher nonce plaintext associated_data = do
    require (length nonce == 24) (Error.value_error "XChaCha20-Poly1305 nonce must be 24 bytes")
    subkey ← hchacha20_block cipher.key (take 16 nonce)
    let inner_nonce = ietf_nonce_prefix ++ slice nonce 16 24
    aead.seal subkey inner_nonce plaintext associated_data

  unfoldable pub decrypt : XChaCha20Poly1305 → Bytes → Bytes → Option Bytes → Result Bytes
  decrypt cipher nonce ciphertext associated_data = do
    require (length nonce == 24) (Error.value_error "XChaCha20-Poly1305 nonce must be 24 bytes")
    subkey ← hchacha20_block cipher.key (take 16 nonce)
    let inner_nonce = ietf_nonce_prefix ++ slice nonce 16 24
    aead.open_sealed subkey inner_nonce ciphertext associated_data
