-- ===== src/DoubleRatchet/Serialize.antt =====
-- services/double_ratchet.py: `serialize` and `deserialize`. The dictionary that is stored is a
-- record, as its keys are fixed. Reading a private key from raw bytes is a parameter.
use ultimate_enigma.Prelude.{
  ℕ, ◌-◌, List, [], ◌∷◌, ◌++◌, length, replicate, leb, Option, none, some, Result, ok, Error,
  require, index, ◌>>=◌, ◌>>◌,
}
use ultimate_enigma.Bytes.{Bytes}
use ultimate_enigma.Utf8.{Text}
use ultimate_enigma.Dict.{insert}
use ultimate_enigma.Hex.{hex, fromhex}
use ultimate_enigma.Decimal.{str, int, split}
use ultimate_enigma.DoubleRatchet.{Primitives, RatchetState, KeyName, key_names}

pub record Serialized : Type 0 where
  pub root_key : Option Text
  pub send_chain_key : Option Text
  pub recv_chain_key : Option Text
  pub send_msg_num : ℕ
  pub recv_msg_num : ℕ
  pub prev_send_chain_len : ℕ
  pub dh_priv_bytes : Option Text
  pub dh_pub_remote_bytes : Option Text
  pub skipped_keys : List (Text × Text)

abbrev pub hex_of : Option Bytes → Option Text
hex_of none = none
hex_of (some key) = some (hex key)

-- `f"{k[0].hex()}:{k[1]}"`
abbrev pub skipped_name : KeyName → Text
skipped_name name = hex name.0 ++ b':' ∷ str name.1

unfoldable pub serialize_skipped : List (KeyName × Bytes) → List (Text × Text)
serialize_skipped [] = []
serialize_skipped ((name, mk) ∷ keys) = (skipped_name name, hex mk) ∷ serialize_skipped keys

unfoldable pub serialize : RatchetState → Serialized
serialize state = record {
  root_key = hex_of state.root_key;
  send_chain_key = hex_of state.send_chain_key;
  recv_chain_key = hex_of state.recv_chain_key;
  send_msg_num = state.send_msg_num;
  recv_msg_num = state.recv_msg_num;
  prev_send_chain_len = state.prev_send_chain_len;
  dh_priv_bytes = hex_of state.dh_priv;
  dh_pub_remote_bytes = hex_of state.dh_pub_remote;
  skipped_keys = serialize_skipped state.skipped_keys;
}

-- What a guarded buffer of `size` bytes holds after a write, the rest of it zeros.
unfoldable pub guarded : ℕ → Bytes → Result Bytes
guarded size content = do
  require (leb (length content) size) (Error.value_error "Data length exceeds buffer size")
  ok (content ++ replicate (size - length content) 0)

-- `if data.get(key)`: a text that is missing or empty leaves the attribute at `None`.
abbrev pub load {ℓ} : {A : Type ℓ} → (Bytes → Result A) → Option Text → Result (Option A)
load read none = ok none
load read (some []) = ok none
load read (some (c ∷ text)) = do raw ← fromhex (c ∷ text); value ← read raw; ok (some value)

unfoldable pub load_skipped :
    List (Text × Text) → List (KeyName × Bytes) → Result (List (KeyName × Bytes))
load_skipped [] keys = ok keys
load_skipped ((name, v_hex) ∷ stored) keys = do
  pub_hex ← index (split name) 0
  remote_pub ← fromhex pub_hex
  number_text ← index (split name) 1
  number ← int number_text
  mk ← fromhex v_hex
  content ← guarded (length mk) mk
  load_skipped stored (insert key_names (remote_pub, number) content keys)

module _ (P : Primitives) (from_private_bytes : Bytes → Result Bytes) where
  open P use {from_public_bytes}

  unfoldable pub deserialize : Serialized → Result RatchetState
  deserialize stored = do
    root_key ← load (guarded 32) stored.root_key
    send_chain_key ← load (guarded 32) stored.send_chain_key
    recv_chain_key ← load (guarded 32) stored.recv_chain_key
    dh_priv ← load from_private_bytes stored.dh_priv_bytes
    dh_pub_remote ← load from_public_bytes stored.dh_pub_remote_bytes
    skipped_keys ← load_skipped stored.skipped_keys []
    ok (record {
      dh_priv = dh_priv;
      dh_pub_remote = dh_pub_remote;
      root_key = root_key;
      send_chain_key = send_chain_key;
      recv_chain_key = recv_chain_key;
      send_msg_num = stored.send_msg_num;
      recv_msg_num = stored.recv_msg_num;
      prev_send_chain_len = stored.prev_send_chain_len;
      skipped_keys = skipped_keys;
      skipped_key_order = [];
    })
