-- ===== src/Crypto/Inner.antt =====
-- The inner packet of crypto.py is read as it was written.
use ultimate_enigma.Prelude.{
  ℕ, ◌+◌, ◌-◌, ◌*◌, ◌/◌, ◌^◌, ◌<◌, ◌≤◌, ◌≡◌, refl, ap, ◌∙◌, List, [], ◌∷◌, ◌++◌, length, take, drop,
  slice, Bool, true, false, leb, le→leb, Option, none, some, Result, ok, err, Error, require, ◌>>=◌,
  ◌>>◌, take-append, drop-append, sym, subst, length-append, length-take, length-slice, arith,
  append_assoc, slice_between,
}
use ultimate_enigma.Prelude
use ultimate_enigma.Utf8.{Text}
use ultimate_enigma.Bytes.{Bytes, be_bytes, unpack_be}
use ultimate_enigma.Bytes.Laws.{length-be_bytes, pack_be_lem, unpack_be-be_bytes}
use ultimate_enigma.Crypto.{Primitives, has_flag}
use ultimate_enigma.Crypto.Build.{Signing, pack_duration, is_given}
use ultimate_enigma.Crypto.Header.{flags_of, flags_of-has_flag, is_hybrid, is_rsa, announced, shown}
use ultimate_enigma.Crypto.Verify.{
  Verdict, bad_format, duration_if, is_readable, refusal, pack_seconds, verdict_of, read_inner,
  text_of,
}

-- The duration in four bytes.
abbrev pub DurationFits : Option ℕ → Type 0
DurationFits none = Unit
DurationFits (some seconds) = seconds < 256 ^ 4

abbrev pub duration_bytes : Option ℕ → Bytes
duration_bytes none = []
duration_bytes (some seconds) = be_bytes 4 seconds

-- What is sealed, and what is signed.
abbrev pub inner_of : ℕ → Option ℕ → Bytes → Bytes
inner_of timestamp duration plaintext =
    be_bytes 8 timestamp ++ (duration_bytes duration ++ plaintext)

pub pack_duration_lem :
    (duration : Option ℕ)
    → DurationFits duration
    → (pack_duration duration ≡ ok (duration_bytes duration))
      × (pack_seconds duration ≡ ok (duration_bytes duration))
      × (length (duration_bytes duration) ≤ 4)
pack_duration_lem none fits = (refl, refl, omega arith)
pack_duration_lem (some seconds) fits = (
  pack_be_lem 4 seconds fits,
  pack_be_lem 4 seconds fits,
  omega (arith, length-be_bytes 4 seconds),
)

-- The duration and the plaintext are read as they were written.
duration_if-inner_of :
    (timestamp : ℕ) (duration : Option ℕ) (plaintext : Bytes)
    → DurationFits duration
    → duration_if (is_given duration) (inner_of timestamp duration plaintext)
      ≡ ok (duration, plaintext)
duration_if-inner_of timestamp none plaintext fits =
    ap (λ p. ok (none, p))
      (drop-append (be_bytes 8 timestamp) plaintext 8 (sym (length-be_bytes 8 timestamp)))
duration_if-inner_of timestamp (some seconds) plaintext fits =
    let ts = be_bytes 8 timestamp in
    let s = be_bytes 4 seconds in
    let inner = ts ++ (s ++ plaintext) in
    let eight = length-be_bytes 8 timestamp in
    let four = length-be_bytes 4 seconds in
    Prelude.then _ (
      ap (λ t. require t (Error.value_error "Invalid inner packet for self-destruct"))
        (le→leb 12 (length inner)
          (omega (arith, length-append ts (s ++ plaintext), length-append s plaintext))))
    ∙ Prelude.then _ (
        ap (unpack_be 4) (slice_between ts s plaintext 8 12 (sym eight) (omega arith))
        ∙ unpack_be-be_bytes 4 seconds fits)
    ∙ ap (λ p. ok (some seconds, p))
        (ap (drop 12) (sym (append_assoc ts s plaintext))
          ∙ drop-append (ts ++ s) plaintext 12 (omega (arith, length-append ts s)))

module _ (P : Primitives) where
  -- What the reader says of the signature.
  abbrev pub verdict_on :
      Signing → Bytes → Bytes → List (Text × Bytes) → List (Text × (Bytes × Bytes)) → Result Verdict
  verdict_on signing inner signature friends friends_hybrid =
      verdict_of P (is_hybrid signing) (is_rsa signing) inner (shown (announced signing) signature)
        friends friends_hybrid

  -- The inner packet is read as it was written, if its time is readable.
  pub read_inner-inner_of :
      (signing : Signing) (duration : Option ℕ) (timestamp now : ℕ) (plaintext signature : Bytes)
      (friends : List (Text × Bytes)) (friends_hybrid : List (Text × (Bytes × Bytes)))
      → timestamp < 256 ^ 8
      → DurationFits duration
      → is_readable duration timestamp now ≡ true
      → read_inner P
          (flags_of signing duration)
          (shown (announced signing) signature)
          friends
          friends_hybrid
          now
          (inner_of timestamp duration plaintext)
        ≡ (verdict_on signing
              (inner_of timestamp duration plaintext)
              signature
              friends
              friends_hybrid
            >>= λ verdict. ok (verdict, text_of plaintext))
  unfolding read_inner
  read_inner-inner_of signing duration timestamp now plaintext signature friends friends_hybrid fits
        duration_fits readable =
      let ts = be_bytes 8 timestamp in
      let rest = duration_bytes duration ++ plaintext in
      let inner = inner_of timestamp duration plaintext in
      let flags = flags_of signing duration in
      let eight = length-be_bytes 8 timestamp in
      let (rsa, friend, destructs, hybrid, hinted) = flags_of-has_flag signing duration in
      let (packed, repacked, size) = pack_duration_lem duration duration_fits in
      Prelude.then _ (
        ap (λ t. require t bad_format)
          (le→leb 8 (length inner) (omega (arith, length-append ts rest))))
      ∙ Prelude.then _ (
          ap (unpack_be 8) (take-append ts rest 8 (sym eight))
          ∙ unpack_be-be_bytes 8 timestamp fits)
      ∙ Prelude.then _ (
          ap (λ t. duration_if t inner) destructs
          ∙ duration_if-inner_of timestamp duration plaintext duration_fits)
      ∙ Prelude.then _ (ap (λ t. require t (refusal duration)) readable)
      ∙ Prelude.then _ (pack_be_lem 8 timestamp fits)
      ∙ Prelude.then _ repacked
      ∙ ap (λ v. v >>= λ verdict. ok (verdict, text_of plaintext))
          (ap
              (λ h.
                verdict_of P h (has_flag flags 1) inner (shown (announced signing) signature)
                  friends friends_hybrid)
              hybrid
            ∙ ap
                (λ r.
                  verdict_of P (is_hybrid signing) r inner (shown (announced signing) signature)
                    friends friends_hybrid)
                rsa)
