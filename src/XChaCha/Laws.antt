-- ===== src/XChaCha/Laws.antt =====
-- HChaCha20 gives 32 bytes, and what the cipher encrypts it decrypts.
use ultimate_enigma.Prelude.{
  ◌≡◌, ap, ◌∙◌, ◌++◌, length, take, drop, slice, Option, Result, ok, Error, require, require-ok,
  >>=-ok, ◌>>=◌, ◌>>◌, then, ◌==◌, arith, length-append, length-slice, length-take,
}
use ultimate_enigma.Bytes.{Bytes, IsBytes}
use ultimate_enigma.Bytes.Laws.{IsBytes-take}
use ultimate_enigma.XChaCha.{
  Aead, XChaCha20Poly1305, encrypt, decrypt, hchacha20_block, chacha20_constants, rounds,
  unpack_words, pack_words, ietf_nonce_prefix,
}
use ultimate_enigma.XChaCha.Words.{
  rounds-IsState, AreWords-append, AreWords-take, AreWords-drop, chacha20_constants-AreWords,
  length-unpack_words, unpack_words-AreWords, pack_words-ok, IsState,
}

initial-IsState :
    (key nonce : Bytes)
    → IsBytes key
    → IsBytes nonce
    → IsState (chacha20_constants ++ (unpack_words 8 key ++ unpack_words 4 nonce))
unfolding chacha20_constants
initial-IsState key nonce hk hn = (
  omega (
    arith,
    length-append (unpack_words 8 key) (unpack_words 4 nonce),
    length-unpack_words 8 key,
    length-unpack_words 4 nonce,
  ),
  AreWords-append chacha20_constants (unpack_words 8 key ++ unpack_words 4 nonce)
      chacha20_constants-AreWords
      (AreWords-append (unpack_words 8 key) (unpack_words 4 nonce) (unpack_words-AreWords 8 key hk)
        (unpack_words-AreWords 4 nonce hn)),
)

-- For a key of 32 bytes and a nonce of 16 bytes, HChaCha20 succeeds: no word that it packs is out
-- of range, and the subkey has 32 bytes.
pub hchacha20_block-ok :
    (key nonce : Bytes)
    → IsBytes key
    → IsBytes nonce
    → length key ≡ 32
    → length nonce ≡ 16
    → (subkey : Bytes) × (hchacha20_block key nonce ≡ ok subkey)
      × (length subkey ≡ 32)
      × IsBytes subkey
unfolding hchacha20_block
hchacha20_block-ok key nonce hk hn ek en =
    let initial = chacha20_constants ++ (unpack_words 8 key ++ unpack_words 4 nonce) in
    let state = rounds 10 initial in
    let (size, words) = rounds-IsState 10 initial (initial-IsState key nonce hk hn) in
    let (out, packed, length_out, bytes) = pack_words-ok (slice state 0 4 ++ slice state 12 16) (
      AreWords-append (slice state 0 4) (slice state 12 16)
        (AreWords-take 4 (drop 0 state) (AreWords-drop 0 state words))
        (AreWords-take 4 (drop 12 state) (AreWords-drop 12 state words))) in
    (
      out,
      ap
            (λ n.
              require (n == 32) (Error.value_error "HChaCha20 key must be 32 bytes")
              >> (require (length nonce == 16)
                    (Error.value_error "HChaCha20 nonce must be 16 bytes")
                  >> pack_words (slice state 0 4 ++ slice state 12 16)))
            ek
          ∙ ap
              (λ n.
                require (n == 16) (Error.value_error "HChaCha20 nonce must be 16 bytes")
                >> pack_words (slice state 0 4 ++ slice state 12 16))
              en
          ∙ packed,
      omega (
        arith,
        length-append (slice state 0 4) (slice state 12 16),
        length-slice state 0 4 (omega arith),
        length-slice state 12 16 (omega arith),
      ),
      bytes,
    )

module _ (aead : Aead) where
  -- Where the inner cipher opens what it sealed, the cipher decrypts what it encrypted, under the
  -- same key, nonce and associated data.
  pub decrypt-encrypt :
      ((key nonce plaintext ciphertext : Bytes) (associated_data : Option Bytes)
        → aead.seal key nonce plaintext associated_data ≡ ok ciphertext
        → aead.open_sealed key nonce ciphertext associated_data ≡ ok plaintext)
      → (cipher : XChaCha20Poly1305) (nonce plaintext ciphertext : Bytes)
        (associated_data : Option Bytes)
      → encrypt aead cipher nonce plaintext associated_data ≡ ok ciphertext
      → decrypt aead cipher nonce ciphertext associated_data ≡ ok plaintext
  unfolding encrypt decrypt
  decrypt-encrypt opens cipher nonce plaintext ciphertext associated_data h =
      let inner_nonce = ietf_nonce_prefix ++ slice nonce 16 24 in
      let block = hchacha20_block cipher.key (take 16 nonce) in
      let short = Error.value_error "XChaCha20-Poly1305 nonce must be 24 bytes" in
      let sealing = λ (k : Bytes). aead.seal k inner_nonce plaintext associated_data in
      let opening = λ (k : Bytes). aead.open_sealed k inner_nonce ciphertext associated_data in
      let (size, h1) = require-ok (length nonce == 24) short (block >>= sealing) h in
      let (subkey, e, h2) = >>=-ok block sealing h1 in
      ap (λ t. require t short >> (block >>= opening)) size
      ∙ then opening e
      ∙ opens subkey inner_nonce plaintext ciphertext associated_data h2

  -- With a key of 32 bytes and a nonce of 24 the cipher encrypts whatever the inner cipher does.
  pub encrypt-ok :
      (key nonce plaintext : Bytes) (associated_data : Option Bytes)
      → IsBytes key
      → IsBytes nonce
      → length key ≡ 32
      → length nonce ≡ 24
      → ((subkey inner_nonce : Bytes)
          → length subkey ≡ 32
          → length inner_nonce ≡ 12
          → (ciphertext : Bytes) × (aead.seal subkey inner_nonce plaintext associated_data
              ≡ ok ciphertext))
      → (ciphertext : Bytes) × (encrypt aead (record { key = key }) nonce plaintext associated_data
          ≡ ok ciphertext)
  unfolding encrypt
  encrypt-ok key nonce plaintext associated_data hk hn ek en seals =
      let inner_nonce = ietf_nonce_prefix ++ slice nonce 16 24 in
      let block = hchacha20_block key (take 16 nonce) in
      let short = Error.value_error "XChaCha20-Poly1305 nonce must be 24 bytes" in
      let sealing : Bytes → Result Bytes = λ k. aead.seal k inner_nonce plaintext associated_data in
      let (subkey, e, size, bytes) =
        hchacha20_block-ok key (take 16 nonce) hk (IsBytes-take 16 nonce hn) ek
          (omega (arith, length-take 16 nonce)) in
      let (ciphertext, sealed) =
        seals subkey inner_nonce size (omega (arith, length-slice nonce 16 24 (omega arith))) in
      (
        ciphertext,
        ap (λ n. require (n == 24) short >> (block >>= sealing)) en ∙ then sealing e ∙ sealed,
      )
