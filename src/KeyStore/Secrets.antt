-- ===== src/KeyStore/Secrets.antt =====
-- What database.py encrypts under a password it decrypts under that password.
use ultimate_enigma.Prelude.{
  ◌≡◌, refl, ap, ◌∙◌, sym, Result, ok, err, some, none, >>=-ok, ok_injective,
}
use ultimate_enigma.Prelude
use ultimate_enigma.Bytes.{Bytes}
use ultimate_enigma.KeyStore.{Packages, EncDict, encrypt_secret, decrypt_secret}

-- What the packages document.
pub record Lawful (K : Packages) : Type 0 where
  pub b64decode-b64encode : (content : Bytes) → K.b64decode (K.b64encode content) ≡ ok content
  pub loads-dumps : (enc_dict : EncDict) → K.loads (K.dumps enc_dict) ≡ ok enc_dict
  pub open_sealed-seal :
      (key nonce content ciphertext : Bytes)
      → K.aesgcm.seal key nonce content none ≡ ok ciphertext
      → K.aesgcm.open_sealed key nonce ciphertext none ≡ ok content

module _ (K : Packages) (laws : Lawful K) where
  pub decrypt_secret-encrypt_secret :
      (draw : Bytes × Bytes) (plain password : Bytes) (enc_dict : EncDict)
      → encrypt_secret K draw plain password ≡ ok enc_dict
      → decrypt_secret K enc_dict password ≡ ok plain
  unfolding encrypt_secret decrypt_secret
  decrypt_secret-encrypt_secret (salt, nonce) plain password enc_dict h =
      let (key, derived, rest) = >>=-ok (K.hash_secret_raw password salt) _ h in
      let (ct, sealed, built) = >>=-ok (K.aesgcm.seal key nonce plain none) _ rest in
      ap (λ d. decrypt_secret K d password) (sym (ok_injective built))
      ∙ Prelude.then _ (laws.b64decode-b64encode salt)
      ∙ Prelude.then _ (laws.b64decode-b64encode nonce)
      ∙ Prelude.then _ (laws.b64decode-b64encode ct)
      ∙ Prelude.then _ derived
      ∙ laws.open_sealed-seal key nonce plain ct sealed
