-- ===== src/Hex.antt =====
-- Python's `bytes.hex()` and `bytes.fromhex`, which services/double_ratchet.py stores keys with.
use ultimate_enigma.Prelude.{
  ℕ, ◌+◌, ◌-◌, ◌*◌, ◌/◌, ◌%◌, ◌<◌, ◌≡◌, refl, ap, ◌∙◌, [], ◌∷◌, Bool, true, false, ◌&&◌, ◌||◌, leb,
  ltb, ◌==◌, if◌then◌else◌, Option, none, some, Result, ok, err, Error, ◌>>=◌, All, arith,
}
use ultimate_enigma.Bytes.{Bytes, IsBytes}
use ultimate_enigma.Utf8.{Text}

hex_digit : ℕ → ℕ
hex_digit n = if ltb n 10 then b'0' + n else b'W' + n

unfoldable pub hex : Bytes → Text
unfolding hex_digit
hex [] = []
hex (b ∷ bs) = hex_digit (b / 16) ∷ hex_digit (b % 16) ∷ hex bs

digit_value : ℕ → Option ℕ
digit_value c =
    if leb b'0' c && leb c b'9'
    then some (c - b'0')
    else if leb b'a' c && leb c b'f'
    then some (c - b'W')
    else if leb b'A' c && leb c b'F'
    then some (c - b'7')
    else none

-- Space, and the control characters from the tab to the carriage return.
is_space : ℕ → Bool
is_space c = c == 32 || (leb 9 c && leb c 13)

abbrev not_hex : Error
not_hex = Error.value_error "non-hexadecimal number found in fromhex() arg"

abbrev pair_value : Option ℕ → Option ℕ → Result ℕ
pair_value (some high) (some low) = ok (high * 16 + low)
pair_value (some high) none = err not_hex
pair_value none low = err not_hex

-- Spaces are passed over between two bytes.
unfoldable pub fromhex : Text → Result Bytes
unfolding is_space digit_value
fromhex [] = ok []
fromhex (c ∷ []) = if is_space c then ok [] else err not_hex
fromhex (c ∷ d ∷ text) =
    let skip = fromhex (d ∷ text) in
    let rest = fromhex text in
    elim (is_space c) [
      | true ↦ skip
      | false ↦ pair_value (digit_value c) (digit_value d) >>= λ b. rest >>= λ bs. ok (b ∷ bs)
    ]

hex_digit-space : (n : ℕ) → n < 16 → is_space (hex_digit n) ≡ false
unfolding is_space hex_digit
hex_digit-space n h = ground arith

digit_value-hex_digit : (n : ℕ) → n < 16 → digit_value (hex_digit n) ≡ some n
unfolding digit_value hex_digit
digit_value-hex_digit n h = ground arith

fromhex_pair :
    (c d x y : ℕ) (text : Text) (bs : Bytes)
    → is_space c ≡ false
    → digit_value c ≡ some x
    → digit_value d ≡ some y
    → fromhex text ≡ ok bs
    → fromhex (c ∷ d ∷ text) ≡ ok ((x * 16 + y) ∷ bs)
unfolding fromhex
fromhex_pair c d x y text bs space high low rest = ground arith

pub fromhex-hex : (bs : Bytes) → IsBytes bs → fromhex (hex bs) ≡ ok bs
unfolding hex
fromhex-hex [] h = unfold fromhex in refl
fromhex-hex (b ∷ bs) (hb, hbs) =
    fromhex_pair (hex_digit (b / 16)) (hex_digit (b % 16)) (b / 16) (b % 16) (hex bs) bs
      (hex_digit-space (b / 16) (omega arith)) (digit_value-hex_digit (b / 16) (omega arith))
      (digit_value-hex_digit (b % 16) (omega arith)) (fromhex-hex bs hbs)
    ∙ ap (λ n. ok (n ∷ bs)) (omega arith)

-- No character of a hexadecimal text is a colon.
pub hex-no_colon : (bs : Bytes) → IsBytes bs → All (λ c. (c == b':') ≡ false) (hex bs)
unfolding hex hex_digit
hex-no_colon [] h = tt
hex-no_colon (b ∷ bs) (hb, hbs) = (ground arith, (ground arith, hex-no_colon bs hbs))
