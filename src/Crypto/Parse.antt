-- ===== src/Crypto/Parse.antt =====
-- crypto.py: `decrypt_message`. `now` is the time that is given or read from the clock.
use ultimate_enigma.Prelude.{
  ℕ, ◌+◌, ◌-◌, ◌*◌, List, [], ◌∷◌, ◌++◌, length, drop, slice, Bool, true, false, ◌||◌, leb, Option,
  none, some, Result, ok, err, Error, require, index, ◌>>=◌, ◌>>◌, if◌then◌else◌,
}
use ultimate_enigma.Bytes.{Bytes, pack_be, unpack_be}
use ultimate_enigma.Utf8.{Text}
use ultimate_enigma.Crypto.Verify.{Verdict, bad_format, read_inner}
use ultimate_enigma.Crypto.{
  Primitives, pack_bytes, unpack_bytes, has_flag, derive_time_key, aes_gcm_decrypt, time_step,
}

-- The flags, the outer timestamp, the signature and where the rest of the packet begins.
pub record Outer : Type 0 where
  pub flags : ℕ
  pub outer_ts : ℕ
  pub signature : Bytes
  pub idx : ℕ

abbrev pub is_signed : ℕ → Bool
is_signed flags = has_flag flags 1 || has_flag flags 8

abbrev pub unpack_if : Bool → Bytes → ℕ → Result (Bytes × ℕ)
unpack_if true packet idx = unpack_bytes packet idx
unpack_if false packet idx = ok ([], idx)

abbrev pub pack_if : Bool → Bytes → Result Bytes
pack_if true content = pack_bytes content
pack_if false content = ok []

unfoldable pub read_outer : Bytes → Result Outer
read_outer packet = do
  require (leb 1 (length packet)) bad_format
  flags ← index packet 0
  require (leb 9 (length packet)) bad_format
  outer_ts ← unpack_be 8 (slice packet 1 9)
  (signature, idx) ← unpack_if (is_signed flags) packet (if has_flag flags 16 then 11 else 9)
  ok (record { flags = flags; outer_ts = outer_ts; signature = signature; idx = idx })

-- A candidate before the year 1970 is no number that `struct` packs.
abbrev pub before : ℕ → ℕ → Option ℕ
before now seconds = if leb seconds now then some (now - seconds) else none

-- `now + step_offset * TIME_STEP` for the offsets of the window, behind the outer timestamp.
abbrev pub timestamps : ℕ → ℕ → List (Option ℕ)
timestamps outer_ts now =
    some outer_ts
    ∷ before now (2 * time_step)
    ∷ before now time_step
    ∷ some now
    ∷ some (now + time_step)
    ∷ some (now + 2 * time_step)
    ∷ []

-- What `except (ValueError, InvalidTag)` catches.
abbrev pub is_refusal : Error → Bool
is_refusal (Error.value_error text) = true
is_refusal Error.unicode_error = true
is_refusal Error.json_decode_error = true
is_refusal Error.invalid_tag = true
is_refusal e = false

-- The first success is kept.
abbrev pub keep_first : Option Bytes → Bytes → Option Bytes
keep_first none inner = some inner
keep_first (some first) inner = some first

abbrev pub found_or_refuse : Option Bytes → Result Bytes
found_or_refuse none = err (Error.value_error "Decryption failed")
found_or_refuse (some inner) = ok inner

-- What the loop does after a candidate.
abbrev pub next_if : Bool → Error → Result (Option Bytes) → Result (Option Bytes)
next_if true e rest = rest
next_if false e rest = err e

abbrev pub after :
    Result Bytes → Option Bytes → (Option Bytes → Result (Option Bytes)) → Result (Option Bytes)
after (ok inner) result_inner next = next (keep_first result_inner inner)
after (err e) result_inner next = next_if (is_refusal e) e (next result_inner)

module _ (P : Primitives) where
  open P use {rsa_decrypt}

  abbrev pub key_at : Bytes → Option ℕ → Result Bytes
  key_at const_key none = err Error.struct_error
  key_at const_key (some timestamp) = derive_time_key P const_key timestamp

  abbrev pub try_candidate : Bytes → Bytes → Bytes → Option ℕ → Result Bytes
  try_candidate const_key ciphertext aad candidate =
      key_at const_key candidate >>= λ key. aes_gcm_decrypt P key ciphertext aad

  -- The loop over all candidates, with no early return.
  unfoldable pub try_all :
      Bytes → Bytes → Bytes → List (Option ℕ) → Option Bytes → Result (Option Bytes)
  try_all const_key ciphertext aad [] result_inner = ok result_inner
  try_all const_key ciphertext aad (candidate ∷ candidates) result_inner =
      after (try_candidate const_key ciphertext aad candidate) result_inner
        (λ result. try_all const_key ciphertext aad candidates result)

  unfoldable pub decrypt_with_window : Bytes → Bytes → ℕ → ℕ → Bytes → Result Bytes
  decrypt_with_window const_key ciphertext outer_ts now aad = do
    result_inner ← try_all const_key ciphertext aad (timestamps outer_ts now) none
    found_or_refuse result_inner

  abbrev pub private_key : Option Bytes → Result Bytes
  private_key none = err (Error.value_error "Private key required for friend-encrypted message")
  private_key (some my_priv) = ok my_priv

  -- The inner packet, under the key of the friend or of the shared secret.
  unfoldable pub open_friend : Bytes → Option Bytes → Outer → Bytes → Result Bytes
  open_friend packet my_priv outer aad = do
    priv ← private_key my_priv
    (encrypted_key, idx) ← unpack_bytes packet outer.idx
    key_part ← pack_bytes encrypted_key
    aes_key ← rsa_decrypt priv encrypted_key
    aes_gcm_decrypt P aes_key (drop idx packet) (aad ++ key_part)

  abbrev pub open_inner : Bool → Bytes → Bytes → Option Bytes → ℕ → Outer → Bytes → Result Bytes
  open_inner true packet const_key my_priv now outer aad = open_friend packet my_priv outer aad
  open_inner false packet const_key my_priv now outer aad =
      decrypt_with_window const_key (drop outer.idx packet) outer.outer_ts now aad

  -- `decrypt_message`, with the friends that a signature may be of.
  unfoldable pub decrypt_message :
      Bytes
      → Bytes
      → Option Bytes
      → List (Text × Bytes)
      → ℕ
      → List (Text × (Bytes × Bytes))
      → Result (Verdict × Text)
  decrypt_message packet const_key my_priv friends now friends_hybrid = do
    outer ← read_outer packet
    ts ← pack_be 8 outer.outer_ts
    sig_field ← pack_if (is_signed outer.flags) outer.signature
    inner ←
        open_inner (has_flag outer.flags 2) packet const_key my_priv now outer
          (outer.flags ∷ (ts ++ sig_field))
    read_inner P outer.flags outer.signature friends friends_hybrid now inner
