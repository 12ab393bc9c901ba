-- ===== src/Crypto.antt =====
-- crypto.py: the packets of the legacy strategy. A key is what stands for it in `Primitives`, the
-- calls of the package `cryptography`; `nonce` and `random_key` are what `secrets.token_bytes`
-- returns. Times are natural numbers of seconds.
pub mod Build
pub mod Verify
pub mod Parse
pub mod Header
pub mod Inner
pub mod RoundTrip
pub mod Readable
pub mod Window
mod Tests
use ultimate_enigma.Prelude.{
  ℕ, ◌+◌, ◌-◌, ◌*◌, ◌/◌, List, [], ◌∷◌, ◌++◌, length, take, drop, slice, Bool, true, false, not,
  bit_and, leb, ◌==◌, Option, none, some, Result, ok, err, Error, require, ◌>>=◌, ◌>>◌,
}
use ultimate_enigma.Bytes.{Bytes, pack_be, unpack_be}
use ultimate_enigma.XChaCha.{Aead}

pub record Primitives : Type 0 where
  -- `HKDF(SHA256, length=32, salt=None, info).derive(key)` of info and key.
  pub derive : Bytes → Bytes → Bytes
  pub sha256 : Bytes → Bytes
  pub aesgcm : Aead
  -- RSA, of a public or a private key.
  pub rsa_encrypt : Bytes → Bytes → Result Bytes
  pub rsa_decrypt : Bytes → Bytes → Result Bytes
  pub rsa_sign : Bytes → Bytes → Result Bytes
  -- `pub_key.verify(signature, data)` of key, data and signature, which raises or returns nothing.
  pub rsa_check : Bytes → Bytes → Bytes → Result (Unit {0})
  -- `HybridSigner`, and whether it could be imported.
  pub hybrid_available : Bool
  pub hybrid_sign : Bytes → Bytes → Bytes → Result Bytes
  -- `load_ed_public_key` and `verify` of data, signature and the two keys.
  pub hybrid_check : Bytes → Bytes → Bytes → Bytes → Result Bool
  -- `pubkey_to_pem`, encoded.
  pub pem : Bytes → Bytes

abbrev pub nonce_size : ℕ
nonce_size = 12

abbrev pub time_step : ℕ
time_step = 30

abbrev pub window_size : ℕ
window_size = 2

-- `_pack_bytes`
unfoldable pub pack_bytes : Bytes → Result Bytes
pack_bytes content = do size ← pack_be 2 (length content); ok (size ++ content)

-- `_unpack_bytes`
unfoldable pub unpack_bytes : Bytes → ℕ → Result (Bytes × ℕ)
unpack_bytes packet offset = do
  require (leb (offset + 2) (length packet)) (Error.value_error "Invalid packet format")
  size ← unpack_be 2 (slice packet offset (offset + 2))
  require (leb (offset + 2 + size) (length packet)) (Error.value_error "Invalid packet format")
  ok (slice packet (offset + 2) (offset + 2 + size), offset + 2 + size)

-- `bool(flags & bit)`
abbrev pub has_flag : ℕ → ℕ → Bool
has_flag flags bit = not (bit_and flags bit == 0)

-- `b"enigma-time-key:"`
abbrev pub time_key_info : Bytes
time_key_info =
    b'e' ∷ b'n' ∷ b'i' ∷ b'g' ∷ b'm' ∷ b'a' ∷ b'-' ∷ b't' ∷ b'i' ∷ b'm' ∷ b'e' ∷ b'-' ∷ b'k' ∷ b'e'
    ∷ b'y' ∷ b':' ∷ []

-- `b"enigma-aes-gcm-msg-key-v1:"`
abbrev pub msg_key_info : Bytes
msg_key_info =
    b'e' ∷ b'n' ∷ b'i' ∷ b'g' ∷ b'm' ∷ b'a' ∷ b'-' ∷ b'a' ∷ b'e' ∷ b's' ∷ b'-' ∷ b'g' ∷ b'c' ∷ b'm'
    ∷ b'-' ∷ b'm' ∷ b's' ∷ b'g' ∷ b'-' ∷ b'k' ∷ b'e' ∷ b'y' ∷ b'-' ∷ b'v' ∷ b'1' ∷ b':' ∷ []

module _ (P : Primitives) where
  open P use {derive, aesgcm}

  unfoldable pub derive_time_key : Bytes → ℕ → Result Bytes
  derive_time_key shared_secret timestamp = do
    t ← pack_be 8 (timestamp / time_step * time_step)
    ok (derive (time_key_info ++ t) shared_secret)

  abbrev pub derive_msg_key : Bytes → Bytes → Bytes
  derive_msg_key base_key nonce = derive (msg_key_info ++ nonce) base_key

  -- The first cipher object of the source is not used.
  unfoldable pub aes_gcm_encrypt : Bytes → Bytes → Bytes → Bytes → Result Bytes
  aes_gcm_encrypt nonce key plaintext aad = do
    ct ← aesgcm.seal (derive_msg_key key nonce) nonce plaintext (some aad)
    ok (nonce ++ ct)

  unfoldable pub aes_gcm_decrypt : Bytes → Bytes → Bytes → Result Bytes
  aes_gcm_decrypt key sealed aad = do
    require (leb (nonce_size + 16) (length sealed)) (Error.value_error "Ciphertext too short")
    let nonce = take nonce_size sealed
    aesgcm.open_sealed (derive_msg_key key nonce) nonce (drop nonce_size sealed) (some aad)

  unfoldable pub peek_flags : Bytes → Result ℕ
  peek_flags [] = err (Error.value_error "Packet too short")
  peek_flags (flags ∷ rest) = ok flags

  -- The second test is of the length of the packet.
  abbrev pub hint_at : Bool → Bytes → Option Bytes
  hint_at true packet = some (slice packet 9 11)
  hint_at false packet = none

  abbrev pub hint_if : Bool → Bytes → Option Bytes
  hint_if true packet = hint_at (leb 11 (length packet)) packet
  hint_if false packet = none

  unfoldable pub extract_key_hint : Bytes → Option Bytes
  extract_key_hint [] = none
  extract_key_hint (flags ∷ rest) = hint_if (has_flag flags 16) (flags ∷ rest)
