-- ===== src/Crypto/Build.antt =====
-- crypto.py: `encrypt_message`.
use ultimate_enigma.Prelude.{
  ℕ, [], ◌∷◌, ◌++◌, take, Bool, true, false, ltb, bit_or, Option, none, some, Result, ok, ◌>>=◌,
}
use ultimate_enigma.Bytes.{Bytes, pack_be}
use ultimate_enigma.Crypto.{Primitives, pack_bytes, derive_time_key, aes_gcm_encrypt}

-- The keyword arguments; `hybrid` is the two private keys if both are given.
pub record EncryptOptions : Type 0 where
  pub sign : Bool
  pub my_priv : Option Bytes
  pub encrypt_for_friend_pub : Option Bytes
  pub self_destruct_seconds : Option ℕ
  pub hybrid : Option (Bytes × Bytes)

abbrev pub is_given {ℓ} : {A : Type ℓ} → Option A → Bool
is_given none = false
is_given (some value) = true

-- What the message is signed with.
pub data Signing : Type 0 where
  unsigned : Signing
  hybrid_keys : Bytes → Bytes → Signing
  -- A signature is announced and, without a key, left empty.
  rsa_key : Option Bytes → Signing

-- `use_hybrid_sig`
abbrev pub hybrid_or_rsa : Bool → Option (Bytes × Bytes) → Option Bytes → Signing
hybrid_or_rsa true (some keys) my_priv = hybrid_keys keys.0 keys.1
hybrid_or_rsa true none my_priv = rsa_key my_priv
hybrid_or_rsa false keys my_priv = rsa_key my_priv

abbrev pub signing_of : Bool → Bool → EncryptOptions → Signing
signing_of available true o = hybrid_or_rsa available o.hybrid o.my_priv
signing_of available false o = unsigned

abbrev pub signing_flags : Signing → ℕ
signing_flags unsigned = 0
signing_flags (hybrid_keys ed dil) = 8
signing_flags (rsa_key my_priv) = 1

abbrev pub friend_flags : Option Bytes → ℕ
friend_flags none = 16
friend_flags (some friend_pub) = 2

-- `self_destruct_seconds is not None and self_destruct_seconds > 0`
abbrev pub duration_of : Option ℕ → Option ℕ
duration_of none = none
duration_of (some seconds) = elim (ltb 0 seconds) [ true ↦ some seconds | false ↦ none ]

abbrev pub duration_flags : Option ℕ → ℕ
duration_flags none = 0
duration_flags (some seconds) = 4

abbrev pub pack_duration : Option ℕ → Result Bytes
pack_duration none = ok []
pack_duration (some seconds) = pack_be 4 seconds

module _ (P : Primitives) where
  open P use {sha256, rsa_encrypt, rsa_sign, hybrid_sign, hybrid_available}

  abbrev pub signature_of : Signing → Bytes → Result Bytes
  signature_of unsigned inner = ok []
  signature_of (hybrid_keys ed dil) inner = hybrid_sign inner ed dil
  signature_of (rsa_key none) inner = ok []
  signature_of (rsa_key (some my_priv)) inner = rsa_sign my_priv inner

  -- `_pack_bytes(signature)` where the message is signed.
  abbrev pub signature_field : Signing → Bytes → Result Bytes
  signature_field unsigned signature = ok []
  signature_field (hybrid_keys ed dil) signature = pack_bytes signature
  signature_field (rsa_key my_priv) signature = pack_bytes signature

  abbrev pub aes_key_of : Option Bytes → Bytes → Bytes → ℕ → Result Bytes
  aes_key_of none random_key const_key timestamp = derive_time_key P const_key timestamp
  aes_key_of (some friend_pub) random_key const_key timestamp = ok random_key

  abbrev pub key_hint_of : Option Bytes → Bytes → Bytes
  key_hint_of none const_key = take 2 (sha256 const_key)
  key_hint_of (some friend_pub) const_key = []

  -- `_pack_bytes(encrypted_key)` for a friend.
  abbrev pub key_field : Option Bytes → Bytes → Result Bytes
  key_field none aes_key = ok []
  key_field (some friend_pub) aes_key = rsa_encrypt friend_pub aes_key >>= pack_bytes

  -- The parts of the packet in their order, with `nonce` and `random_key` drawn.
  unfoldable pub build :
      Bytes → Bytes → Signing → Option Bytes → Option ℕ → Bytes → Bytes → ℕ → Result Bytes
  build nonce random_key signing friend duration plaintext const_key timestamp = do
    let flags =
        bit_or (bit_or (signing_flags signing) (friend_flags friend)) (duration_flags duration)
    aes_key ← aes_key_of friend random_key const_key timestamp
    ts ← pack_be 8 timestamp
    seconds ← pack_duration duration
    let inner = ts ++ (seconds ++ plaintext)
    signature ← signature_of signing inner
    sig_field ← signature_field signing signature
    key_part ← key_field friend aes_key
    let aad = flags ∷ (ts ++ (sig_field ++ key_part))
    ciphertext ← aes_gcm_encrypt P nonce aes_key inner aad
    ok (flags ∷ (ts ++ (key_hint_of friend const_key ++ (sig_field ++ (key_part ++ ciphertext)))))

  unfoldable pub encrypt_message :
      Bytes → Bytes → Bytes → Bytes → ℕ → EncryptOptions → Result (Bytes × ℕ)
  encrypt_message nonce random_key plaintext const_key timestamp o = do
    packet ←
        build nonce random_key (signing_of hybrid_available o.sign o) o.encrypt_for_friend_pub
          (duration_of o.self_destruct_seconds) plaintext const_key timestamp
    ok (packet, timestamp)
