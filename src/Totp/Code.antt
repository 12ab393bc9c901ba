-- ===== src/Totp/Code.antt =====
-- services/totp_service.py: the code of a counter, and what it is compared with.
use ultimate_enigma.Prelude.{
  ℕ, zero, suc, ◌+◌, ◌/◌, ◌%◌, bit_and, [], ◌∷◌, ◌++◌, slice, Bool, true, ◌&&◌, ltb, Option, none,
  some, Result, ok, err, Error, require, ◌>>=◌, ◌>>◌,
}
use ultimate_enigma.Bytes.{Bytes, pack_be, unpack_be, same_bytes}
use ultimate_enigma.Utf8.{Text}

-- `h[-1]`
abbrev pub last_byte : Bytes → Result ℕ
last_byte [] = err Error.index_error
last_byte (b ∷ []) = ok b
last_byte (b ∷ c ∷ bs) = last_byte (c ∷ bs)

-- `hmac.new(secret, msg, hashlib.sha1).digest()` is `digest secret msg`.
unfoldable pub hotp : (Bytes → Bytes → Bytes) → Bytes → ℕ → Result ℕ
hotp digest secret counter = do
  msg ← pack_be 8 counter
  let h = digest secret msg
  last ← last_byte h
  let offset = bit_and last 0x0F
  word ← unpack_be 4 (slice h offset (offset + 4))
  ok (bit_and word 0x7FFFFFFF % 1000000)

-- The last `width` decimal digits; the code has six at most.
unfoldable pub decimal : ℕ → ℕ → Text
decimal zero n = []
decimal (suc width) n = decimal width (n / 10) ++ (b'0' + n % 10) ∷ []

abbrev pub is_ascii : Text → Bool
is_ascii [] = true
is_ascii (c ∷ cs) = ltb c 128 && is_ascii cs

-- `hmac.compare_digest` of two strings, which raises unless both are ASCII.
unfoldable pub compare_digest : Text → Text → Result Bool
compare_digest code expected = do
  require (is_ascii code && is_ascii expected) Error.type_error
  ok (same_bytes code expected)

-- `f"{self._hotp(secret, counter):06d}"`
unfoldable pub code_at : (Bytes → Bytes → Bytes) → Bytes → ℕ → Result Text
code_at digest secret counter = do code ← hotp digest secret counter; ok (decimal 6 code)

abbrev pub secret_of : Option Bytes → Result Bytes
secret_of none = err (Error.totp_validation_error "TOTP secret not set")
secret_of (some secret) = ok secret

unfoldable pub code_now : (Bytes → Bytes → Bytes) → Option Bytes → ℕ → Result Text
code_now digest secret_or_none counter = do
  secret ← secret_of secret_or_none
  code_at digest secret counter

-- Whether the code is that of the counter.
unfoldable pub fits : (Bytes → Bytes → Bytes) → Bytes → Text → ℕ → Result Bool
fits digest secret code counter = do
  expected ← code_at digest secret counter
  compare_digest code expected
