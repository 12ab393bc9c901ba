-- ===== src/Crypto/Verify.antt =====
-- crypto.py: what `decrypt_message` does with the inner packet: its time, the duration until it
-- destructs, and the signature.
use ultimate_enigma.Prelude.{
  ℕ, ◌+◌, ◌-◌, ◌*◌, List, [], ◌∷◌, ◌++◌, length, take, drop, slice, Bool, true, false, leb, Option,
  none, some, Result, ok, err, Error, require, ◌>>=◌, ◌>>◌,
}
use ultimate_enigma.Bytes.{Bytes, pack_be, unpack_be}
use ultimate_enigma.Hex.{hex}
use ultimate_enigma.Utf8
use ultimate_enigma.Utf8.{Text}
use ultimate_enigma.Crypto.{Primitives, has_flag, time_step, window_size}

abbrev pub bad_format : Error
bad_format = Error.value_error "Invalid message format"

-- The body of the packet: its time, the duration until it destructs, and the plaintext.
abbrev pub duration_if : Bool → Bytes → Result (Option ℕ × Bytes)
duration_if false inner = ok (none, drop 8 inner)
duration_if true inner = do
  require (leb 12 (length inner)) (Error.value_error "Invalid inner packet for self-destruct")
  seconds ← unpack_be 4 (slice inner 8 12)
  ok (some seconds, drop 12 inner)

-- A message that destructs is refused after its time, any other one outside the window.
abbrev pub is_readable : Option ℕ → ℕ → ℕ → Bool
is_readable none inner_ts now = leb ((now - inner_ts) + (inner_ts - now)) (time_step * window_size)
is_readable (some seconds) inner_ts now = leb now (inner_ts + seconds)

abbrev pub refusal : Option ℕ → Error
refusal none = Error.value_error "Message timestamp outside acceptable window"
refusal (some seconds) = Error.value_error "Message has self-destructed and is no longer readable"

-- The line that the source puts in front of the text of the message.
pub data Verdict : Type 0 where
  unsigned hybrid_invalid invalid : Verdict
  hybrid_verified : Text → Verdict
  -- With the signer's name and the fingerprint of the key.
  verified : Text → Text → Verdict

-- `except (ValueError, InvalidSignature): return False`
abbrev pub is_bad_signature : Error → Bool
is_bad_signature (Error.value_error text) = true
is_bad_signature Error.unicode_error = true
is_bad_signature Error.json_decode_error = true
is_bad_signature Error.invalid_signature = true
is_bad_signature e = false

abbrev pub false_if : Bool → Error → Result Bool
false_if true e = ok false
false_if false e = err e

abbrev pub checked : Result Bool → Result Bool
checked (ok valid) = ok valid
checked (err e) = false_if (is_bad_signature e) e

-- The first friend whose key fits, by the test of one.
abbrev pub first_fit : {A : Type 0} → (A → Result Bool) → List A → Result (Option A)
first_fit fits [] = ok none
first_fit fits (friend ∷ friends) = elim (fits friend) [
  | err e ↦ err e
  | ok true ↦ ok (some friend)
  | ok false ↦ first_fit fits friends
]

abbrev pub pack_seconds : Option ℕ → Result Bytes
pack_seconds none = ok []
pack_seconds (some seconds) = pack_be 4 seconds

-- The text, by latin-1 where it is not UTF-8.
abbrev pub utf8_or_latin1 : Result Text → Bytes → Text
utf8_or_latin1 (ok text) plaintext = text
utf8_or_latin1 (err e) plaintext = plaintext

unfoldable pub text_of : Bytes → Text
text_of plaintext = utf8_or_latin1 (Utf8.decode plaintext) plaintext

module _ (P : Primitives) where
  open P use {rsa_check, hybrid_check, hybrid_available, sha256, pem}

  unfoldable pub rsa_verify : Bytes → Bytes → Bytes → Result Bool
  rsa_verify content signature pub_key =
      checked (rsa_check pub_key content signature >>= λ done. ok true)

  abbrev pub hybrid_if : Bool → Result Bool → Result Bool
  hybrid_if true result = checked result
  hybrid_if false result = ok false

  unfoldable pub hybrid_verify : Bytes → Bytes → Bytes → Bytes → Result Bool
  hybrid_verify message signature ed_pub dil_pub =
      hybrid_if hybrid_available (hybrid_check message signature ed_pub dil_pub)

  -- `sha256_fingerprint`
  unfoldable pub sha256_fingerprint : Bytes → Text
  sha256_fingerprint content = take 16 (hex (sha256 content))

  abbrev pub hybrid_verdict : Option (Text × (Bytes × Bytes)) → Verdict
  hybrid_verdict none = hybrid_invalid
  hybrid_verdict (some friend) = hybrid_verified friend.0

  abbrev pub rsa_verdict : Option (Text × Bytes) → Verdict
  rsa_verdict none = invalid
  rsa_verdict (some friend) = verified friend.0 (sha256_fingerprint (pem friend.1))

  -- A hybrid signature goes before one of RSA.
  abbrev pub verdict_of :
      Bool
      → Bool
      → Bytes
      → Bytes
      → List (Text × Bytes)
      → List (Text × (Bytes × Bytes))
      → Result Verdict
  verdict_of true sign signed_data signature friends friends_hybrid =
      first_fit (λ f. hybrid_verify signed_data signature f.1.0 f.1.1) friends_hybrid >>= λ signer.
      ok (hybrid_verdict signer)
  verdict_of false true signed_data signature friends friends_hybrid =
      first_fit (λ f. rsa_verify signed_data signature f.1) friends >>= λ signer.
      ok (rsa_verdict signer)
  verdict_of false false signed_data signature friends friends_hybrid = ok unsigned

  unfoldable pub read_inner :
      ℕ
      → Bytes
      → List (Text × Bytes)
      → List (Text × (Bytes × Bytes))
      → ℕ
      → Bytes
      → Result (Verdict × Text)
  read_inner flags signature friends friends_hybrid now inner = do
    require (leb 8 (length inner)) bad_format
    inner_ts ← unpack_be 8 (take 8 inner)
    (duration, plaintext) ← duration_if (has_flag flags 4) inner
    require (is_readable duration inner_ts now) (refusal duration)
    ts ← pack_be 8 inner_ts
    seconds ← pack_seconds duration
    verdict ←
        verdict_of (has_flag flags 8) (has_flag flags 1) (ts ++ (seconds ++ plaintext)) signature
          friends friends_hybrid
    ok (verdict, text_of plaintext)
