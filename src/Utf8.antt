-- ===== src/Utf8.antt =====
-- What models/envelope.py uses of Python's text: `str.encode("utf-8")` and the strict
-- `bytes.decode("utf-8")`. A text is the list of its code points.
pub mod Laws
use ultimate_enigma.Prelude.{
  ℕ, zero, suc, ◌+◌, ◌-◌, ◌*◌, ◌/◌, ◌%◌, List, [], ◌∷◌, ◌++◌, length, Bool, not, ◌&&◌, leb, ltb,
  if◌then◌else◌, Result, ok, err, Error, ◌>>=◌,
}
use ultimate_enigma.Bytes.{Bytes}

abbrev pub Text : Type 0
Text = List ℕ

is_surrogate : ℕ → Bool
is_surrogate c = leb 0xD800 c && ltb c 0xE000

-- A lone surrogate cannot be encoded.
unfoldable pub encode_char : ℕ → Result Bytes
unfolding is_surrogate
encode_char c =
    if ltb c 0x80
    then ok (c ∷ [])
    else if ltb c 0x800
    then ok ((0xC0 + c / 64) ∷ (0x80 + c % 64) ∷ [])
    else if is_surrogate c
    then err Error.unicode_error
    else if ltb c 0x10000
    then ok ((0xE0 + c / 4096) ∷ (0x80 + c / 64 % 64) ∷ (0x80 + c % 64) ∷ [])
    else if ltb c 0x110000
    then ok
        ((0xF0 + c / 262144) ∷ (0x80 + c / 4096 % 64) ∷ (0x80 + c / 64 % 64) ∷ (0x80 + c % 64) ∷ [])
    else err Error.unicode_error

unfoldable pub encode : Text → Result Bytes
encode [] = ok []
encode (c ∷ cs) = do first ← encode_char c; rest ← encode cs; ok (first ++ rest)

is_continuation : ℕ → Bool
is_continuation b = leb 0x80 b && ltb b 0xC0

decode_two : ℕ → Bytes → Result (ℕ × Bytes)
unfolding is_continuation
decode_two a (b ∷ rest) =
    if leb 0xC2 a && is_continuation b
    then ok ((a - 0xC0) * 64 + (b - 0x80), rest)
    else err Error.unicode_error
decode_two a _ = err Error.unicode_error

-- No overlong form and no surrogate.
decode_three : ℕ → Bytes → Result (ℕ × Bytes)
unfolding is_continuation is_surrogate
decode_three a (b ∷ c ∷ rest) =
    let code = (a - 0xE0) * 4096 + (b - 0x80) * 64 + (c - 0x80) in
    if is_continuation b && is_continuation c && leb 0x800 code && not (is_surrogate code)
    then ok (code, rest)
    else err Error.unicode_error
decode_three a _ = err Error.unicode_error

decode_four : ℕ → Bytes → Result (ℕ × Bytes)
unfolding is_continuation
decode_four a (b ∷ c ∷ d ∷ rest) =
    let code = (a - 0xF0) * 262144 + (b - 0x80) * 4096 + (c - 0x80) * 64 + (d - 0x80) in
    if is_continuation b
      && is_continuation c
      && is_continuation d
      && leb 0x10000 code
      && ltb code 0x110000
    then ok (code, rest)
    else err Error.unicode_error
decode_four a _ = err Error.unicode_error

-- The first character, and the bytes behind it.
unfoldable pub decode_char : Bytes → Result (ℕ × Bytes)
unfolding decode_two decode_three decode_four
decode_char [] = err Error.unicode_error
decode_char (a ∷ rest) =
    if ltb a 0x80
    then ok (a, rest)
    else if ltb a 0xE0
    then decode_two a rest
    else if ltb a 0xF0
    then decode_three a rest
    else decode_four a rest

-- Each character takes a byte at least, so the number of bytes is fuel enough.
decode_within : ℕ → Bytes → Result Text
decode_within fuel [] = ok []
decode_within zero (b ∷ bs) = err Error.unicode_error
decode_within (suc fuel) (b ∷ bs) = do
  (c, rest) ← decode_char (b ∷ bs)
  cs ← decode_within fuel rest
  ok (c ∷ cs)

unfoldable pub decode : Bytes → Result Text
unfolding decode_within
decode bs = decode_within (length bs) bs
