-- ===== src/DoubleRatchet.antt =====
-- services/double_ratchet.py: `RatchetState`, one side of a conversation. A key of the package
-- `cryptography` stands for its raw bytes and a guarded buffer for what was written to it. The
-- primitives are parameters: `Primitives`, and what the calls of `X25519PrivateKey.generate` and
-- of the nonce generator return.
pub mod Handshake
pub mod Payload
pub mod Messages
pub mod Store
pub mod Deliver
pub mod Header
pub mod Sending
pub mod Agree
pub mod Refuse
pub mod Skipped
pub mod OutOfOrder
pub mod Rewind
pub mod Serialize
pub mod Restore
mod Tests
use ultimate_enigma.Prelude.{
  ℕ, zero, suc, ◌+◌, ◌-◌, List, [], ◌∷◌, ◌++◌, map, length, take, drop, slice, Bool, true, false,
  ◌&&◌, Option, none, some, Result, ok, err, Error, require, leb, leb→le, ◌==◌, ==_iff, ==_refl,
  ◌≡◌, refl, ap, ◌∙◌, and_true,
}
use ultimate_enigma.Action.{Action, lift, give, get, put, ◌>>=◌, ◌>>◌}
use ultimate_enigma.Bytes.{Bytes, same_bytes, same_bytes_refl, same_bytes_sound}
use ultimate_enigma.Dict.{Equality, lookup, insert, remove}
use ultimate_enigma.XChaCha.{Aead}

pub record Primitives : Type 0 where
  pub public_key : Bytes → Bytes
  -- `private.exchange(public)`, which raises where the shared secret is all zeros.
  pub exchange : Bytes → Bytes → Result Bytes
  -- `X25519PublicKey.from_public_bytes`
  pub from_public_bytes : Bytes → Result Bytes
  -- `HKDF(SHA256, length=64, salt, info).derive(key_material)` of salt and key material.
  pub derive : Bytes → Bytes → Bytes
  -- `hmac.new(key, message, sha256).digest()`
  pub digest : Bytes → Bytes → Bytes
  pub aead : Aead

-- The name of a skipped key: the sender's public key and the number of the message.
abbrev pub KeyName : Type 0
KeyName = Bytes × ℕ

abbrev pub same_name : KeyName → KeyName → Bool
same_name a b = same_bytes a.0 b.0 && a.1 == b.1

pub key_names : Equality KeyName
key_names = record {
  same = same_name;
  same_sound = λ a b h.
      let (keys, numbers) = and_true (same_bytes a.0 b.0) (a.1 == b.1) h in
      ap (λ k. (k, a.1)) (same_bytes_sound a.0 b.0 keys)
      ∙ ap (λ n. (b.0, n)) ((==_iff a.1 b.1).0 numbers);
  same_refl = λ a. ap (λ t. t && a.1 == a.1) (same_bytes_refl a.0) ∙ ==_refl a.1;
}

pub record RatchetState : Type 0 where
  pub dh_priv : Option Bytes
  pub dh_pub_remote : Option Bytes
  pub root_key : Option Bytes
  pub send_chain_key : Option Bytes
  pub recv_chain_key : Option Bytes
  pub send_msg_num : ℕ
  pub recv_msg_num : ℕ
  pub prev_send_chain_len : ℕ
  pub skipped_keys : List (KeyName × Bytes)
  pub skipped_key_order : List KeyName

abbrev pub max_skipped_keys : ℕ
max_skipped_keys = 1000

abbrev pub max_skip_distance : ℕ
max_skip_distance = 1000

abbrev pub initial : RatchetState
initial = record {
  dh_priv = none;
  dh_pub_remote = none;
  root_key = none;
  send_chain_key = none;
  recv_chain_key = none;
  send_msg_num = 0;
  recv_msg_num = 0;
  prev_send_chain_len = 0;
  skipped_keys = [];
  skipped_key_order = [];
}

-- A method of an attribute that may be `None`.
abbrev pub attribute : Option Bytes → Result Bytes
attribute none = err Error.attribute_error
attribute (some value) = ok value

-- `_store_skipped_key`
unfoldable pub evict : Action RatchetState (Unit {0})
evict state = elim state.skipped_key_order [
  | [] ↦ (err Error.index_error, state)
  | oldest ∷ order ↦ (
    ok tt,
    record state {
      skipped_keys = remove key_names oldest state.skipped_keys;
      skipped_key_order = order;
    },
  )
]

-- `if len(self.skipped_keys) >= self.MAX_SKIPPED_KEYS`
abbrev pub make_room : Bool → Action RatchetState (Unit {0})
make_room true = evict
make_room false = give tt

unfoldable pub store_skipped_key : KeyName → Bytes → Action RatchetState (Unit {0})
store_skipped_key key mk = do
  before ← get
  make_room (leb max_skipped_keys (length before.skipped_keys))
  state ← get
  put (record state {
    skipped_keys = insert key_names key mk state.skipped_keys;
    skipped_key_order = state.skipped_key_order ++ key ∷ [];
  })

-- `self.skipped_keys.pop(key, None)`
unfoldable pub pop_skipped : KeyName → Action RatchetState (Option Bytes)
pop_skipped key = do
  state ← get
  let found = lookup key_names key state.skipped_keys
  put (record state { skipped_keys = remove key_names key state.skipped_keys })
  give found

unfoldable pub wipe : Action RatchetState (Unit {0})
wipe = do
  state ← get
  put (record state {
    root_key = none;
    send_chain_key = none;
    recv_chain_key = none;
    skipped_keys = [];
  })
