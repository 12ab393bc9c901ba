-- ===== src/DoubleRatchet/Sending.antt =====
-- The sender of services/double_ratchet.py: what it relies on, that it encrypts, and that the message
-- key decrypts what it sent.
use ultimate_enigma.Prelude.{
  ℕ, zero, suc, ◌+◌, ◌^◌, ◌<◌, ◌≤◌, ◌≡◌, refl, sym, ap, ◌∙◌, subst, List, [], ◌∷◌, ◌++◌, length,
  take, drop, Option, none, some, Result, ok, Error, require, leb, le→leb, ◌==◌, arith,
  length-append, take-append, drop-append,
}
use ultimate_enigma.Prelude
use ultimate_enigma.Action.{Action, after_lift, lift, put, give, ◌>>=◌, ◌>>◌}
use ultimate_enigma.Bytes.{Bytes, IsBytes, be_bytes, pack_be}
use ultimate_enigma.Bytes.Laws.{pack_be_lem}
use ultimate_enigma.DoubleRatchet.{Primitives, RatchetState}
use ultimate_enigma.DoubleRatchet.Messages.{encrypt, seal_message, open_send_chain}
use ultimate_enigma.DoubleRatchet.Payload.{decrypt_with_key}
use ultimate_enigma.XChaCha
use ultimate_enigma.XChaCha.{XChaCha20Poly1305}
use ultimate_enigma.XChaCha.Laws

-- What the program relies on of the primitives.
pub record Lawful (P : Primitives) : Type 0 where
  pub length-public_key : (priv : Bytes) → length (P.public_key priv) ≡ 32
  pub from_public_bytes-ok : (key : Bytes) → length key ≡ 32 → P.from_public_bytes key ≡ ok key
  pub digest-IsBytes : (key message : Bytes) → IsBytes (P.digest key message)
  pub length-digest : (key message : Bytes) → length (P.digest key message) ≡ 32
  pub opens :
      (key nonce plaintext ciphertext : Bytes) (associated_data : Option Bytes)
      → P.aead.seal key nonce plaintext associated_data ≡ ok ciphertext
      → P.aead.open_sealed key nonce ciphertext associated_data ≡ ok plaintext

-- The inner cipher accepts the plaintext; it refuses one of more than 2 ^ 31 - 1 bytes.
abbrev pub Sealable : Primitives → Bytes → Type 0
Sealable P plaintext =
    (key nonce : Bytes) (associated_data : Option Bytes)
    → length key ≡ 32
    → length nonce ≡ 12
    → (ciphertext : Bytes) × (P.aead.seal key nonce plaintext associated_data ≡ ok ciphertext)

module _ (P : Primitives) (laws : Lawful P) where
  open P use {public_key, digest, aead}

  -- The state of a sender.
  abbrev pub sending : Bytes → Bytes → ℕ → RatchetState → RatchetState
  sending priv ck number s = record s {
    dh_priv = some priv;
    send_chain_key = some ck;
    send_msg_num = number;
  }

  decrypt_with_key-sealed :
      (key nonce ciphertext plaintext header : Bytes)
      → length key ≡ 32
      → length nonce ≡ 24
      → XChaCha.encrypt aead (record { key = key }) nonce plaintext (some header) ≡ ok ciphertext
      → decrypt_with_key aead key (nonce ++ ciphertext) header ≡ ok plaintext
  unfolding decrypt_with_key XChaCha.new
  decrypt_with_key-sealed key nonce ciphertext plaintext header ek en sealed =
      let sealed_text = nonce ++ ciphertext in
      let short = Error.value_error "Ciphertext too short" in
      let bad = Error.value_error "XChaCha20-Poly1305 key must be 32 bytes" in
      let opening : XChaCha20Poly1305 → Result Bytes = λ cipher.
        XChaCha.decrypt aead cipher (take 24 sealed_text) (drop 24 sealed_text) (some header) in
      Prelude.then (λ t. Prelude.◌>>=◌ (XChaCha.new key) opening)
        (ap (λ t. require t short)
          (le→leb 24 (length sealed_text) (omega (arith, length-append nonce ciphertext))))
      ∙ ap
          (λ n.
            Prelude.◌>>=◌ (Prelude.◌>>◌ (require (n == 32) bad) (ok (record { key = key })))
              opening)
          ek
      ∙ ap (λ n. XChaCha.decrypt aead (record { key = key }) n (drop 24 sealed_text) (some header))
          (take-append nonce ciphertext 24 (omega (arith, en)))
      ∙ ap (λ c. XChaCha.decrypt aead (record { key = key }) nonce c (some header))
          (drop-append nonce ciphertext 24 (omega (arith, en)))
      ∙ Laws.decrypt-encrypt aead laws.opens (record { key = key }) nonce plaintext ciphertext
          (some header) sealed

  -- A sender with numbers that fit into the header encrypts.
  pub encrypt-ok :
      (generated nonce plaintext priv ck : Bytes) (n : ℕ) (s : RatchetState)
      → Sealable P plaintext
      → IsBytes nonce
      → length nonce ≡ 24
      → n < 256 ^ 4
      → s.prev_send_chain_len < 256 ^ 4
      → let header = be_bytes 4 n ++ (be_bytes 4 s.prev_send_chain_len ++ public_key priv) in
        (sealed : Bytes) × (encrypt P generated nonce plaintext (sending priv ck n s)
          ≡ (ok (header, sealed), sending priv (digest ck (2 ∷ [])) (n + 1) s))
        × (decrypt_with_key aead (digest ck (1 ∷ [])) sealed header ≡ ok plaintext)
  unfolding encrypt open_send_chain seal_message XChaCha.new
  encrypt-ok generated nonce plaintext priv ck n s sealable bytes size hn hp =
      let number = be_bytes 4 n in
      let previous = be_bytes 4 s.prev_send_chain_len in
      let header = number ++ (previous ++ public_key priv) in
      let mk = digest ck (1 ∷ []) in
      let mk_size = laws.length-digest ck (1 ∷ []) in
      let bad = Error.value_error "XChaCha20-Poly1305 key must be 32 bytes" in
      let state = sending priv (digest ck (2 ∷ [])) n s in
      let (ciphertext, sealed) =
        Laws.encrypt-ok aead mk nonce plaintext (some header) (laws.digest-IsBytes ck (1 ∷ []))
          bytes mk_size size (λ k m. sealable k m (some header)) in
      let fourth : Bytes → Bytes → Action RatchetState (Bytes × Bytes) =
        λ h ct. put (record state { send_msg_num = n + 1 }) >> give (h, nonce ++ ct) in
      let third : Bytes → XChaCha20Poly1305 → Action RatchetState (Bytes × Bytes) =
        λ h cipher. lift (XChaCha.encrypt aead cipher nonce plaintext (some h)) >>= fourth h in
      let second : Bytes → Bytes → Action RatchetState (Bytes × Bytes) =
        λ m p. lift (XChaCha.new mk) >>= third (m ++ (p ++ public_key priv)) in
      let first : Bytes → Action RatchetState (Bytes × Bytes) =
        λ m. lift (pack_be 4 s.prev_send_chain_len) >>= second m in
      (
        nonce ++ ciphertext,
        after_lift first (pack_be_lem 4 n hn)
            ∙ after_lift (second number) (pack_be_lem 4 s.prev_send_chain_len hp)
            ∙ after_lift (third header)
                (ap (λ k. Prelude.◌>>◌ (require (k == 32) bad) (ok (record { key = mk }))) mk_size)
            ∙ after_lift (fourth header) sealed,
        decrypt_with_key-sealed mk nonce ciphertext plaintext header mk_size size sealed,
      )
