-- ===== src/Utf8/Laws.antt =====
-- Encoding and decoding are inverse to one another, and decoding is canonical.
use ultimate_enigma.Prelude.{
  ℕ, zero, suc, ◌+◌, ◌-◌, sym, subst, ◌≤◌, ◌<◌, ◌≡◌, inl, inr, refl, ap, ◌∙◌, [], ◌∷◌, ◌++◌, length,
  length-append, arith, ok, ok_injective, Bool-cases, ltb, >>=-ok,
}
use ultimate_enigma.Bytes.{Bytes}
use ultimate_enigma.Utf8.{
  Text, encode_char, encode, decode_two, decode_three, decode_four, decode_char, decode_within,
  decode,
}

pub decode_char-encode_char :
    (c : ℕ) (bs rest : Bytes) → encode_char c ≡ ok bs → decode_char (bs ++ rest) ≡ ok (c, rest)
unfolding encode_char decode_char
decode_char-encode_char c bs rest h = ground arith

encode_char_nonempty : (c : ℕ) (bs : Bytes) → encode_char c ≡ ok bs → 1 ≤ length bs
unfolding encode_char
encode_char_nonempty c bs h = ground arith

abbrev FirstChar : ℕ → Bytes → ℕ → Bytes → Type 0
FirstChar a bs c rest = (first : Bytes) × (encode_char c ≡ ok first) × (a ∷ bs ≡ first ++ rest)

reads_two :
    (a : ℕ) (bs : Bytes) (c : ℕ) (rest : Bytes)
    → a < 0xE0
    → decode_two a bs ≡ ok (c, rest)
    → FirstChar a bs c rest
unfolding encode_char decode_two
reads_two a (b ∷ bs) c rest small h = (a ∷ b ∷ [], ground arith, ground arith)
reads_two a [] c rest small h = cc

reads_three :
    (a : ℕ) (bs : Bytes) (c : ℕ) (rest : Bytes)
    → 0xE0 ≤ a
    → a < 0xF0
    → decode_three a bs ≡ ok (c, rest)
    → FirstChar a bs c rest
unfolding encode_char decode_three
reads_three a (x ∷ y ∷ bs) c rest low high h = (a ∷ x ∷ y ∷ [], ground arith, ground arith)
reads_three a (x ∷ []) c rest low high h = cc
reads_three a [] c rest low high h = cc

reads_four :
    (a : ℕ) (bs : Bytes) (c : ℕ) (rest : Bytes)
    → 0xF0 ≤ a
    → decode_four a bs ≡ ok (c, rest)
    → FirstChar a bs c rest
unfolding encode_char decode_four
reads_four a (x ∷ y ∷ z ∷ bs) c rest low h = (a ∷ x ∷ y ∷ z ∷ [], ground arith, ground arith)
reads_four a (x ∷ y ∷ []) c rest low h = cc
reads_four a (x ∷ []) c rest low h = cc
reads_four a [] c rest low h = cc

pub encode_char-decode_char :
    (a : ℕ) (bs : Bytes) (c : ℕ) (rest : Bytes)
    → decode_char (a ∷ bs) ≡ ok (c, rest)
    → FirstChar a bs c rest
unfolding decode_char
encode_char-decode_char a bs c rest h = elim (Bool-cases (ltb a 0x80)) [
  | inl one ↦ (a ∷ [], unfold encode_char in ground arith, ground arith)
  | inr t ↦ elim (Bool-cases (ltb a 0xE0)) [
    | inl two ↦ reads_two a bs c rest (ground arith) (ground arith)
    | inr u ↦ elim (Bool-cases (ltb a 0xF0)) [
      | inl three ↦ reads_three a bs c rest (ground arith) (ground arith) (ground arith)
      | inr four ↦ reads_four a bs c rest (ground arith) (ground arith)
    ]
  ]
]

decode_within_step :
    (fuel c : ℕ) (cs : Text) (first rest : Bytes)
    → encode_char c ≡ ok first
    → decode_within fuel rest ≡ ok cs
    → decode_within (suc fuel) (first ++ rest) ≡ ok (c ∷ cs)
unfolding decode_within
decode_within_step fuel c cs [] rest h k = absurd (omega (arith, encode_char_nonempty c [] h))
decode_within_step fuel c cs (x ∷ xs) rest h k =
    ground (arith, decode_char-encode_char c (x ∷ xs) rest h)

decode_within-encode :
    (fuel : ℕ) (cs : Text) (bs : Bytes)
    → encode cs ≡ ok bs
    → length bs ≤ fuel
    → decode_within fuel bs ≡ ok cs
unfolding encode
decode_within-encode fuel [] bs h enough =
    subst (λ b. decode_within fuel b ≡ ok []) (ok_injective h) (unfold decode_within in refl)
decode_within-encode fuel (c ∷ cs) bs h enough =
    let (first, first_ok, h1) = >>=-ok (encode_char c) _ h in
    let (rest, rest_ok, h2) = >>=-ok (encode cs) _ h1 in
    let whole : first ++ rest ≡ bs = ok_injective h2 in
    let sizes : length first + length rest ≡ length bs =
      sym (length-append first rest) ∙ ap length whole in
    let positive = encode_char_nonempty c first first_ok in
    let some_fuel : fuel ≡ suc (fuel - 1) = omega arith in
    subst (λ b. decode_within fuel b ≡ ok (c ∷ cs)) whole
      (rw some_fuel (
        decode_within_step (fuel - 1) c cs first rest first_ok
          (decode_within-encode (fuel - 1) cs rest rest_ok (omega arith))))

encode-decode_within :
    (fuel : ℕ) (bs : Bytes) (cs : Text) → decode_within fuel bs ≡ ok cs → encode cs ≡ ok bs
unfolding decode_within encode
encode-decode_within fuel [] cs h = rw (← ok_injective h)
encode-decode_within zero (b ∷ bs) cs h = cc
encode-decode_within (suc fuel) (b ∷ bs) cs h =
    let ((c, rest), char_ok, h1) = >>=-ok (decode_char (b ∷ bs)) _ h in
    let (tail, tail_ok, h2) = >>=-ok (decode_within fuel rest) _ h1 in
    let (first, first_ok, whole) = encode_char-decode_char b bs c rest char_ok in
    rw (← ok_injective h2, whole, first_ok, encode-decode_within fuel rest tail tail_ok)

-- What was encoded decodes to itself.
pub decode-encode : (cs : Text) (bs : Bytes) → encode cs ≡ ok bs → decode bs ≡ ok cs
unfolding decode
decode-encode cs bs h = decode_within-encode (length bs) cs bs h (omega arith)

-- Only the encoding of a text decodes to it.
pub encode-decode : (bs : Bytes) (cs : Text) → decode bs ≡ ok cs → encode cs ≡ ok bs
unfolding decode
encode-decode bs cs h = encode-decode_within (length bs) bs cs h
