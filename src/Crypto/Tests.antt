-- ===== src/Crypto/Tests.antt =====
-- Witnesses and tests for crypto.py, with a cipher that only adds a tag of its key.
use ultimate_enigma.Prelude.{
  ◌+◌, ◌≡◌, refl, ap, ◌∙◌, List, [], ◌∷◌, ◌++◌, length, take, drop, replicate, Bool, true, false,
  none, some, Result, ok, err, Error, require, ◌>>◌, sym, take-append, drop-append, length-append,
  length-take, arith,
}
use ultimate_enigma.Bytes.{
  Bytes, le_bytes, le_value, be_bytes, be_value, pack_be, unpack_be, same_bytes, same_bytes_refl,
}
use ultimate_enigma.Bytes.Laws.{length-le_bytes}
use ultimate_enigma.Utf8.{Text}
use ultimate_enigma.Crypto.{
  Primitives, time_key_info, derive_msg_key, derive_time_key, aes_gcm_decrypt, unpack_bytes,
}
use ultimate_enigma.Crypto.Build.{
  EncryptOptions, Signing, encrypt_message, build, rsa_key, key_hint_of,
}
use ultimate_enigma.Crypto.Verify.{
  Verdict, read_inner, rsa_verify, verified, unsigned, sha256_fingerprint, text_of,
}
use ultimate_enigma.Crypto.Parse.{
  try_all, decrypt_with_window, read_outer, decrypt_message, is_refusal,
}
use ultimate_enigma.Crypto.Window.{Lawful}
use ultimate_enigma.Crypto.RoundTrip
use ultimate_enigma.Crypto.RoundTrip.{packet_of}
use ultimate_enigma.Crypto.Readable

abbrev open_tagged : Bytes → Bytes → Result Bytes
open_tagged key ciphertext =
    require (same_bytes (take 16 ciphertext) (take 16 key)) Error.invalid_tag
    >> ok (drop 16 ciphertext)

abbrev sample : Primitives
sample = record {
  derive = λ info key. le_bytes 32 (le_value key + le_value info);
  sha256 = λ content. le_bytes 32 (le_value content);
  aesgcm = record {
    seal = λ key nonce content aad. ok (take 16 key ++ content);
    open_sealed = λ key nonce ciphertext aad. open_tagged key ciphertext;
  };
  rsa_encrypt = λ key content. ok content;
  rsa_decrypt = λ key content. ok content;
  rsa_sign = λ key content. ok key;
  rsa_check = λ key content signature. require (same_bytes key signature) Error.invalid_signature;
  hybrid_available = true;
  hybrid_sign = λ content ed dil. ok (ed ++ dil);
  hybrid_check = λ content signature ed dil. ok (same_bytes signature (ed ++ dil));
  pem = λ key. key;
}

abbrev refused : Result Bytes → Bool
refused (ok content) = true
refused (err e) = is_refusal e

open_if-refused :
    (same : Bool) (content : Bytes) → refused (require same Error.invalid_tag >> ok content) ≡ true
open_if-refused true content = refl
open_if-refused false content = refl

open_tagged-seal :
    (key content : Bytes) → length key ≡ 32 → open_tagged key (take 16 key ++ content) ≡ ok content
open_tagged-seal key content size =
    let sixteen : 16 ≡ length (take 16 key) = omega (arith, length-take 16 key) in
    ap
      (λ t.
        require (same_bytes t (take 16 key)) Error.invalid_tag
        >> ok (drop 16 (take 16 key ++ content)))
      (take-append (take 16 key) content 16 sixteen)
    ∙ ap (λ b. require b Error.invalid_tag >> ok (drop 16 (take 16 key ++ content)))
        (same_bytes_refl (take 16 key))
    ∙ ap ok (drop-append (take 16 key) content 16 sixteen)

sample-Lawful : Lawful sample
sample-Lawful = record {
  length-sha256 = λ content. length-le_bytes 32 (le_value content);
  length-derive = λ info key. length-le_bytes 32 (le_value key + le_value info);
  seal-open_sealed = λ key nonce content aad size twelve small small_aad. (
    take 16 key ++ content,
    refl,
    omega (arith, length-append (take 16 key) content, length-take 16 key),
    open_tagged-seal key content size,
  );
  open_sealed-refusal = λ key nonce ciphertext aad e h.
      sym (ap refused h)
      ∙ open_if-refused (same_bytes (take 16 ciphertext) (take 16 key)) (drop 16 ciphertext);
}

abbrev hello : Bytes
hello = b'h' ∷ b'i' ∷ []

abbrev key : Bytes
key = 5 ∷ 6 ∷ []

abbrev nonce : Bytes
nonce = replicate 12 0

abbrev friends : List (Text × Bytes)
friends = (b'B' ∷ b'o' ∷ b'b' ∷ [], 8 ∷ []) ∷ (b'A' ∷ b'n' ∷ b'n' ∷ [], 7 ∷ []) ∷ []

-- Signed by Ann's key, to be read for two minutes.
abbrev options : EncryptOptions
options = record {
  sign = true;
  my_priv = some (7 ∷ []);
  encrypt_for_friend_pub = none;
  self_destruct_seconds = some 120;
  hybrid = none;
}

abbrev signed_by_ann : Verdict
signed_by_ann = verified (b'A' ∷ b'n' ∷ b'n' ∷ []) (sha256_fingerprint sample (7 ∷ []))

encrypt_message-decrypt_message_example :
    (packet : Bytes) × (encrypt_message sample nonce [] hello key 1700000000 options
      ≡ ok (packet, 1700000000))
    × (decrypt_message sample packet key none friends 1700000100 []
        ≡ ok (signed_by_ann, text_of hello))
unfolding rsa_verify
encrypt_message-decrypt_message_example =
    RoundTrip.encrypt_message-decrypt_message sample sample-Lawful nonce [] key hello (7 ∷ [])
      options 1700000000 1700000100 none friends [] refl refl (omega arith) (omega arith)
      (omega arith) refl (omega arith) (omega arith) (omega arith) refl

-- Another key hint than that of the key.
build-any_hint_example :
    (ciphertext : Bytes) × (build sample nonce []
        (rsa_key (some (7 ∷ [])))
        none
        (some 120)
        hello
        key
        1700000000
      ≡ ok (
          packet_of
            (rsa_key (some (7 ∷ [])))
            (some 120)
            1700000000
            (key_hint_of sample none key)
            (7 ∷ [])
            ciphertext))
    × (decrypt_message sample
          (packet_of
            (rsa_key (some (7 ∷ [])))
            (some 120)
            1700000000
            (0 ∷ 0 ∷ [])
            (7 ∷ [])
            ciphertext)
          key
          none
          friends
          1700000100
          []
        ≡ ok (signed_by_ann, text_of hello))
unfolding rsa_verify
build-any_hint_example =
    RoundTrip.build-any_hint sample sample-Lawful nonce [] key hello (7 ∷ [])
      (rsa_key (some (7 ∷ []))) (some 120) 1700000000 1700000100 none friends [] (0 ∷ 0 ∷ []) refl
      refl (omega arith) (omega arith) (omega arith) refl (omega arith) (omega arith) (omega arith)
      refl

abbrev sent_inner : Bytes
sent_inner = be_bytes 8 1700000000 ++ (be_bytes 4 120 ++ hello)

-- A packet without a signature, sealed under the key of its time.
abbrev time_key_of : Bytes
time_key_of = le_bytes 32 (le_value key + le_value (time_key_info ++ be_bytes 8 1699999980))

abbrev sent_packet : Bytes
sent_packet =
    packet_of Signing.unsigned (some 120) 1700000000 (5 ∷ 6 ∷ []) []
      (nonce ++ (take 16 (derive_msg_key sample time_key_of nonce) ++ sent_inner))

decrypted :
    decrypt_message sample sent_packet key none friends 1700000100 [] ≡ ok (unsigned, text_of hello)
unfolding decrypt_message read_outer unpack_bytes decrypt_with_window try_all derive_time_key
    aes_gcm_decrypt read_inner unpack_be pack_be le_bytes le_value be_bytes be_value
decrypted = refl
