-- ===== src/Crypto/RoundTrip.antt =====
-- A message that `encrypt_message` of crypto.py builds under the shared secret is decrypted.
use ultimate_enigma.Prelude.{
  ℕ, ◌+◌, ◌-◌, ◌*◌, ◌/◌, ◌^◌, ◌<◌, ◌≤◌, ◌≡◌, refl, ap, ◌∙◌, List, [], ◌∷◌, ◌++◌, length, take, drop,
  slice, Bool, true, false, leb, le→leb, ◌||◌, Option, none, some, Result, ok, err, Error, require,
  ◌>>=◌, ◌>>◌, take-append, drop-append, sym, subst, length-append, length-take, length-slice,
  arith, append_assoc, append_nil,
}
use ultimate_enigma.Prelude
use ultimate_enigma.Utf8.{Text}
use ultimate_enigma.Bytes.{Bytes, be_bytes}
use ultimate_enigma.Bytes.Laws.{length-be_bytes, pack_be_lem}
use ultimate_enigma.Crypto.{Primitives, nonce_size, has_flag, aes_gcm_encrypt, aes_gcm_decrypt}
use ultimate_enigma.Crypto.Build.{
  EncryptOptions, Signing, unsigned, hybrid_keys, rsa_key, signing_of, duration_of, signature_of,
  signature_field, key_hint_of, build, encrypt_message,
}
use ultimate_enigma.Crypto.Header.{
  flags_of, flags_of-has_flag, is_rsa, announced, field, shown, end_of, pack_bytes_lem,
  read_outer-built,
}
use ultimate_enigma.Crypto.Inner.{
  DurationFits, duration_bytes, inner_of, pack_duration_lem, verdict_on, read_inner-inner_of,
}
use ultimate_enigma.Crypto.Parse.{pack_if, open_inner, decrypt_message}
use ultimate_enigma.Crypto.Verify.{is_readable, text_of}
use ultimate_enigma.Crypto.Window.{
  Lawful, time_key, derive_time_key_lem, aes_gcm_encrypt-decrypt, decrypt_with_window-outer,
}

-- Both sides write the same field for the signature.
signature_field_lem :
    (P : Primitives) (signing : Signing) (signature : Bytes)
    → length signature < 256 ^ 2
    → signature_field P signing signature ≡ ok (field (announced signing) signature)
signature_field_lem P unsigned signature small = refl
signature_field_lem P (hybrid_keys ed dil) signature small = pack_bytes_lem signature small
signature_field_lem P (rsa_key priv) signature small = pack_bytes_lem signature small

pack_if-shown :
    (signed : Bool) (signature : Bytes)
    → length signature < 256 ^ 2
    → pack_if signed (shown signed signature) ≡ ok (field signed signature)
pack_if-shown true signature small = pack_bytes_lem signature small
pack_if-shown false signature small = refl

length-field :
    (signed : Bool) (signature : Bytes) → length (field signed signature) ≤ 2 + length signature
length-field true signature = omega (
  arith,
  length-append (be_bytes 2 (length signature)) signature,
  length-be_bytes 2 (length signature),
)
length-field false signature = omega arith

-- A packet under the shared secret, with the key hint and the ciphertext given.
abbrev pub packet_of : Signing → Option ℕ → ℕ → Bytes → Bytes → Bytes → Bytes
packet_of signing duration timestamp hint signature ciphertext =
    flags_of signing duration
    ∷ (be_bytes 8 timestamp ++ (hint ++ (field (announced signing) signature ++ ciphertext)))

module _ (P : Primitives) (laws : Lawful P) where
  -- A packet that was built for the shared secret is decrypted to the same message whatever two
  -- bytes stand in the place of its key hint, at every time at which it is readable.
  pub build-any_hint :
      (nonce random_key key plaintext signature : Bytes) (signing : Signing) (duration : Option ℕ)
      (timestamp now : ℕ) (my_priv : Option Bytes) (friends : List (Text × Bytes))
      (friends_hybrid : List (Text × (Bytes × Bytes))) (hint : Bytes)
      → length hint ≡ 2
      → length nonce ≡ nonce_size
      → length plaintext < 2 ^ 30
      → timestamp < 256 ^ 8
      → DurationFits duration
      → signature_of P signing (inner_of timestamp duration plaintext) ≡ ok signature
      → length signature < 256 ^ 2
      → 60 ≤ now
      → now + 60 < 256 ^ 8
      → is_readable duration timestamp now ≡ true
      → (ciphertext : Bytes) × (build P nonce random_key signing none duration plaintext key
            timestamp
          ≡ ok (packet_of signing duration timestamp (key_hint_of P none key) signature ciphertext))
        × (decrypt_message P
              (packet_of signing duration timestamp hint signature ciphertext)
              key
              my_priv
              friends
              now
              friends_hybrid
            ≡ (verdict_on P signing
                  (inner_of timestamp duration plaintext)
                  signature
                  friends
                  friends_hybrid
                >>= λ verdict. ok (verdict, text_of plaintext)))
  unfolding build decrypt_message
  build-any_hint nonce random_key key plaintext signature signing duration timestamp now my_priv
        friends friends_hybrid hint two twelve small fits duration_fits signed small_sig early late
        readable =
      let ts = be_bytes 8 timestamp in
      let inner = inner_of timestamp duration plaintext in
      let flags = flags_of signing duration in
      let sig_field = field (announced signing) signature in
      let aad = flags ∷ (ts ++ sig_field) in
      let (rsa, friend, destructs, hybrid, hinted) = flags_of-has_flag signing duration in
      let (packed, repacked, size) = pack_duration_lem duration duration_fits in
      let eight = length-be_bytes 8 timestamp in
      let (ct, sealed, opened) =
        aes_gcm_encrypt-decrypt P laws nonce (time_key P laws key timestamp) inner aad twelve
          (omega (
            arith,
            eight,
            size,
            length-append ts (duration_bytes duration ++ plaintext),
            length-append (duration_bytes duration) plaintext,
          ))
          (omega (
            arith,
            eight,
            length-append ts sig_field,
            length-field (announced signing) signature,
          )) in
      let packet = flags ∷ (ts ++ (hint ++ (sig_field ++ ct))) in
      let (read, body) =
        read_outer-built signing duration timestamp hint signature ct fits two small_sig in
      let outer_idx = end_of (announced signing) signature in
      (
        ct,
        Prelude.then _ (derive_time_key_lem P laws key timestamp fits)
            ∙ Prelude.then _ (pack_be_lem 8 timestamp fits)
            ∙ Prelude.then _ packed
            ∙ Prelude.then _ signed
            ∙ Prelude.then _ (signature_field_lem P signing signature small_sig)
            ∙ Prelude.then _ (
                ap
                  (λ f.
                    aes_gcm_encrypt P nonce (time_key P laws key timestamp) inner
                      (flags ∷ (ts ++ f)))
                  (append_nil sig_field)
                ∙ sealed),
        Prelude.then _ read
            ∙ Prelude.then _ (pack_be_lem 8 timestamp fits)
            ∙ Prelude.then _ (
                ap (λ t. pack_if (t || has_flag flags 8) (shown (announced signing) signature)) rsa
                ∙ ap (λ t. pack_if (is_rsa signing || t) (shown (announced signing) signature))
                    hybrid
                ∙ pack_if-shown (announced signing) signature small_sig)
            ∙ Prelude.then _ (
                ap
                  (λ f.
                    open_inner P f packet key my_priv now
                      (record {
                        flags = flags;
                        outer_ts = timestamp;
                        signature = shown (announced signing) signature;
                        idx = outer_idx;
                      })
                      aad)
                  friend
                ∙ decrypt_with_window-outer P laws key (drop outer_idx packet) aad inner timestamp
                    now fits early late
                    (ap (λ c. aes_gcm_decrypt P (time_key P laws key timestamp) c aad) body
                      ∙ opened))
            ∙ read_inner-inner_of P signing duration timestamp now plaintext signature friends
                friends_hybrid fits duration_fits readable,
      )

  key_hint-length : (key : Bytes) → length (key_hint_of P none key) ≡ 2
  key_hint-length key = omega (arith, laws.length-sha256 key, length-take 2 (P.sha256 key))

  abbrev pub signing_with : EncryptOptions → Signing
  signing_with o = signing_of P.hybrid_available o.sign o

  -- What `encrypt_message` builds for the shared secret, at any options, is decrypted at every time
  -- at which the message is readable: what is read is its text, and the verdict on the signature
  -- that was put on the inner packet.
  pub encrypt_message-decrypt_message :
      (nonce random_key key plaintext signature : Bytes) (o : EncryptOptions) (timestamp now : ℕ)
      (my_priv : Option Bytes) (friends : List (Text × Bytes))
      (friends_hybrid : List (Text × (Bytes × Bytes)))
      → o.encrypt_for_friend_pub ≡ none
      → length nonce ≡ nonce_size
      → length plaintext < 2 ^ 30
      → timestamp < 256 ^ 8
      → DurationFits (duration_of o.self_destruct_seconds)
      → signature_of P
          (signing_with o)
          (inner_of timestamp (duration_of o.self_destruct_seconds) plaintext)
        ≡ ok signature
      → length signature < 256 ^ 2
      → 60 ≤ now
      → now + 60 < 256 ^ 8
      → is_readable (duration_of o.self_destruct_seconds) timestamp now ≡ true
      → (packet : Bytes) × (encrypt_message P nonce random_key plaintext key timestamp o
          ≡ ok (packet, timestamp))
        × (decrypt_message P packet key my_priv friends now friends_hybrid ≡ (
            verdict_on P
              (signing_with o)
              (inner_of timestamp (duration_of o.self_destruct_seconds) plaintext)
              signature
              friends
              friends_hybrid
            >>= λ verdict. ok (verdict, text_of plaintext)))
  unfolding encrypt_message
  encrypt_message-decrypt_message nonce random_key key plaintext signature o timestamp now my_priv
        friends friends_hybrid shared twelve small fits duration_fits signed small_sig early late
        readable =
      let duration = duration_of o.self_destruct_seconds in
      let (ct, built, opened) =
        build-any_hint nonce random_key key plaintext signature (signing_with o) duration timestamp
          now my_priv friends friends_hybrid (key_hint_of P none key) (key_hint-length key) twelve
          small fits duration_fits signed small_sig early late readable in
      (
        packet_of (signing_with o) duration timestamp (key_hint_of P none key) signature ct,
        Prelude.then _ (
            ap (λ f. build P nonce random_key (signing_with o) f duration plaintext key timestamp)
              shared
            ∙ built),
        opened,
      )
