-- ===== src/Crypto/Header.antt =====
-- The outer part of a packet that `encrypt_message` builds under the shared secret.
use ultimate_enigma.Prelude.{
  ℕ, suc, ◌+◌, ◌^◌, ◌<◌, ◌≤◌, ◌≡◌, refl, sym, ap, ◌∙◌, List, [], ◌∷◌, ◌++◌, length, take, drop,
  slice, Bool, true, false, ◌||◌, bit_or, leb, le→leb, if◌then◌else◌, Option, none, some, Result,
  ok, err, Error, require, index, ◌>>=◌, ◌>>◌, length-append, take-append, drop-append, drop-drop,
  slice_between, append_assoc, arith,
}
use ultimate_enigma.Prelude
use ultimate_enigma.Bytes.{Bytes, be_bytes, unpack_be}
use ultimate_enigma.Bytes.Laws.{length-be_bytes, pack_be_lem, unpack_be-be_bytes}
use ultimate_enigma.Crypto.{has_flag, pack_bytes, unpack_bytes}
use ultimate_enigma.Crypto.Build.{
  Signing, unsigned, hybrid_keys, rsa_key, signing_flags, friend_flags, duration_flags, is_given,
}
use ultimate_enigma.Crypto.Parse.{unpack_if, read_outer}
use ultimate_enigma.Crypto.Verify.{bad_format}

abbrev pub is_hybrid : Signing → Bool
is_hybrid unsigned = false
is_hybrid (hybrid_keys ed dil) = true
is_hybrid (rsa_key my_priv) = false

abbrev pub is_rsa : Signing → Bool
is_rsa unsigned = false
is_rsa (hybrid_keys ed dil) = false
is_rsa (rsa_key my_priv) = true

-- The flags of a packet under the shared secret.
abbrev pub flags_of : Signing → Option ℕ → ℕ
flags_of signing duration =
    bit_or (bit_or (signing_flags signing) (friend_flags none)) (duration_flags duration)

-- Every flag is read as it was written.
pub flags_of-has_flag :
    (signing : Signing) (duration : Option ℕ)
    → (has_flag (flags_of signing duration) 1 ≡ is_rsa signing)
      × (has_flag (flags_of signing duration) 2 ≡ false)
      × (has_flag (flags_of signing duration) 4 ≡ is_given duration)
      × (has_flag (flags_of signing duration) 8 ≡ is_hybrid signing)
      × (has_flag (flags_of signing duration) 16 ≡ true)
flags_of-has_flag unsigned none = (refl, refl, refl, refl, refl)
flags_of-has_flag unsigned (some d) = (refl, refl, refl, refl, refl)
flags_of-has_flag (hybrid_keys ed dil) none = (refl, refl, refl, refl, refl)
flags_of-has_flag (hybrid_keys ed dil) (some d) = (refl, refl, refl, refl, refl)
flags_of-has_flag (rsa_key priv) none = (refl, refl, refl, refl, refl)
flags_of-has_flag (rsa_key priv) (some d) = (refl, refl, refl, refl, refl)

abbrev pub announced : Signing → Bool
announced signing = is_rsa signing || is_hybrid signing

-- `_pack_bytes(signature)`, if the message is signed.
abbrev pub field : Bool → Bytes → Bytes
field true content = be_bytes 2 (length content) ++ content
field false content = []

pub pack_bytes_lem :
    (content : Bytes) → length content < 256 ^ 2 → pack_bytes content ≡ ok (field true content)
unfolding pack_bytes
pack_bytes_lem content h = Prelude.then _ (pack_be_lem 2 (length content) h)

-- What was packed behind a prefix is unpacked, and the rest begins where the offset says.
pub unpack_bytes-field :
    (before content rest : Bytes) (offset : ℕ)
    → offset ≡ length before
    → length content < 256 ^ 2
    → (unpack_bytes (before ++ (field true content ++ rest)) offset
        ≡ ok (content, offset + 2 + length content))
      × (drop (offset + 2 + length content) (before ++ (field true content ++ rest)) ≡ rest)
unfolding unpack_bytes
unpack_bytes-field before content rest offset at small =
    let size = be_bytes 2 (length content) in
    let two = length-be_bytes 2 (length content) in
    let packet = before ++ (field true content ++ rest) in
    let flat : packet ≡ before ++ (size ++ (content ++ rest)) =
      ap (λ r. before ++ r) (append_assoc size content rest) in
    let regrouped : packet ≡ (before ++ size) ++ (content ++ rest) =
      flat ∙ sym (append_assoc before size (content ++ rest)) in
    let total : length packet ≡ offset + 2 + length content + length rest = omega (
      arith,
      ap length regrouped,
      length-append (before ++ size) (content ++ rest),
      length-append before size,
      length-append content rest,
    ) in
    let head : length (before ++ size) ≡ offset + 2 = omega (arith, length-append before size) in
    (
      Prelude.then _ (
            ap (λ t. require t (Error.value_error "Invalid packet format"))
              (le→leb (offset + 2) (length packet) (omega arith)))
          ∙ Prelude.then _ (
              ap (λ p. unpack_be 2 (slice p offset (offset + 2))) flat
              ∙ ap (unpack_be 2)
                  (slice_between before size (content ++ rest) offset (offset + 2) at (omega arith))
              ∙ unpack_be-be_bytes 2 (length content) small)
          ∙ Prelude.then _ (
              ap (λ t. require t (Error.value_error "Invalid packet format"))
                (le→leb (offset + 2 + length content) (length packet) (omega arith)))
          ∙ ap
              (λ p.
                ok
                  (slice p (offset + 2) (offset + 2 + length content), offset + 2 + length content))
              regrouped
          ∙ ap (λ c. ok (c, offset + 2 + length content))
              (slice_between (before ++ size) content rest (offset + 2)
                (offset + 2 + length content) (sym head) (omega arith)),
      ap (drop (offset + 2 + length content))
            (regrouped ∙ sym (append_assoc (before ++ size) content rest))
          ∙ drop-append ((before ++ size) ++ content) rest (offset + 2 + length content)
              (omega (arith, length-append (before ++ size) content)),
    )

-- Where the ciphertext begins.
abbrev pub end_of : Bool → Bytes → ℕ
end_of true signature = 13 + length signature
end_of false signature = 11

abbrev pub shown : Bool → Bytes → Bytes
shown true signature = signature
shown false signature = []

unpack_if-field :
    (signed : Bool) (before signature rest : Bytes)
    → length before ≡ 11
    → length signature < 256 ^ 2
    → (unpack_if signed (before ++ (field signed signature ++ rest)) 11
        ≡ ok (shown signed signature, end_of signed signature))
      × (drop (end_of signed signature) (before ++ (field signed signature ++ rest)) ≡ rest)
unpack_if-field true before signature rest eleven small =
    unpack_bytes-field before signature rest 11 (sym eleven) small
unpack_if-field false before signature rest eleven small =
    (refl, drop-append before rest 11 (sym eleven))

-- The header is read as it was written.
pub read_outer-built :
    (signing : Signing) (duration : Option ℕ) (timestamp : ℕ) (hint signature ciphertext : Bytes)
    → timestamp < 256 ^ 8
    → length hint ≡ 2
    → length signature < 256 ^ 2
    → let flags = flags_of signing duration in
      let signed = announced signing in
      let packet =
        flags ∷ (be_bytes 8 timestamp ++ (hint ++ (field signed signature ++ ciphertext))) in
      (read_outer packet
        ≡ ok (record {
          flags = flags;
          outer_ts = timestamp;
          signature = shown signed signature;
          idx = end_of signed signature;
        }))
      × (drop (end_of signed signature) packet ≡ ciphertext)
unfolding read_outer
read_outer-built signing duration timestamp hint signature ciphertext fits two small =
    let flags = flags_of signing duration in
    let signed = announced signing in
    let rest = field signed signature ++ ciphertext in
    let ts = be_bytes 8 timestamp in
    let packet = flags ∷ (ts ++ (hint ++ rest)) in
    let (rsa, friend, destructs, hybrid, hinted) = flags_of-has_flag signing duration in
    let eight = length-be_bytes 8 timestamp in
    let size : length packet ≡ 9 + length (hint ++ rest) =
      omega (arith, length-append ts (hint ++ rest)) in
    let regrouped : packet ≡ (flags ∷ (ts ++ hint)) ++ rest =
      ap (◌∷◌ flags) (sym (append_assoc ts hint rest)) in
    let eleven : length (flags ∷ (ts ++ hint)) ≡ 11 = omega (arith, length-append ts hint) in
    let (unpacked, dropped) =
      unpack_if-field signed (flags ∷ (ts ++ hint)) signature ciphertext eleven small in
    (
      Prelude.then _ (ap (λ t. require t bad_format) (le→leb 1 (length packet) (omega arith)))
          ∙ Prelude.then _ (ap (λ t. require t bad_format) (le→leb 9 (length packet) (omega arith)))
          ∙ Prelude.then _ (
              ap (unpack_be 8) (slice_between (flags ∷ []) ts (hint ++ rest) 1 9 refl (omega arith))
              ∙ unpack_be-be_bytes 8 timestamp fits)
          ∙ Prelude.then _ (
              ap
                (λ t.
                  unpack_if (t || has_flag flags 8) packet (if has_flag flags 16 then 11 else 9))
                rsa
              ∙ ap
                  (λ t.
                    unpack_if (is_rsa signing || t) packet (if has_flag flags 16 then 11 else 9))
                  hybrid
              ∙ ap (λ t. unpack_if signed packet (if t then 11 else 9)) hinted
              ∙ ap (λ p. unpack_if signed p 11) regrouped
              ∙ unpacked),
      ap (drop (end_of signed signature)) regrouped ∙ dropped,
    )
