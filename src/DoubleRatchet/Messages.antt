-- ===== src/DoubleRatchet/Messages.antt =====
-- services/double_ratchet.py: `encrypt` and `decrypt`. `generated` is what
-- `X25519PrivateKey.generate()` returns if it is called, and `nonce` what the nonce generator does.
use ultimate_enigma.Prelude.{
  ℕ, zero, suc, ◌+◌, ◌-◌, [], ◌∷◌, ◌++◌, length, take, slice, true, false, Option, none, some,
  Result, ok, err, Error, require, leb,
}
use ultimate_enigma.Action.{Action, lift, give, get, put, ◌>>=◌, ◌>>◌}
use ultimate_enigma.Bytes.{Bytes, same_bytes, pack_be, unpack_be}
use ultimate_enigma.DoubleRatchet.{
  Primitives, RatchetState, attribute, store_skipped_key, pop_skipped, max_skip_distance,
}
use ultimate_enigma.DoubleRatchet.Handshake.{hkdf_rk, hkdf_ck, dh_ratchet_step}
use ultimate_enigma.DoubleRatchet.Payload.{decrypt_with_key}
use ultimate_enigma.XChaCha

module _ (P : Primitives) where
  open P use {public_key, exchange, from_public_bytes, aead}

  -- The first message of a side that has only received opens its sending chain.
  unfoldable pub open_send_chain : Bytes → Action RatchetState (Unit {0})
  open_send_chain generated = do
    before ← get
    elim before.send_chain_key [
      | some ck ↦ give tt
      | none ↦ elim before.dh_pub_remote [
        | none ↦ lift (err (Error.value_error "Send chain not initialized."))
        | some remote ↦ do
          put (record before { dh_priv = some generated })
          dh_out ← lift (exchange generated remote)
          root ← lift (attribute before.root_key)
          let (rk, ck) = hkdf_rk P root dh_out
          state ← get
          put (record state {
            root_key = some rk;
            send_chain_key = some ck;
            prev_send_chain_len = state.send_msg_num;
            send_msg_num = 0;
          })
      ]
    ]

  -- The header and the ciphertext under one message key.
  unfoldable pub seal_message : Bytes → Bytes → Bytes → Action RatchetState (Bytes × Bytes)
  seal_message nonce message_key plaintext = do
    state ← get
    priv ← lift (attribute state.dh_priv)
    msg_num ← lift (pack_be 4 state.send_msg_num)
    prev_chain_len ← lift (pack_be 4 state.prev_send_chain_len)
    let header = msg_num ++ (prev_chain_len ++ public_key priv)
    cipher ← lift (XChaCha.new message_key)
    ct ← lift (XChaCha.encrypt aead cipher nonce plaintext (some header))
    put (record state { send_msg_num = state.send_msg_num + 1 })
    give (header, nonce ++ ct)

  unfoldable pub encrypt : Bytes → Bytes → Bytes → Action RatchetState (Bytes × Bytes)
  encrypt generated nonce plaintext = do
    open_send_chain generated
    state ← get
    ck ← lift (attribute state.send_chain_key)
    let (new_ck, message_key) = hkdf_ck P ck
    put (record state { send_chain_key = some new_ck })
    seal_message nonce message_key plaintext

  -- `while self.recv_msg_num < until`, with the turns that are left.
  unfoldable pub skip_loop : Bytes → ℕ → Action RatchetState (Unit {0})
  skip_loop remote_pub zero = give tt
  skip_loop remote_pub (suc left) = do
    before ← get
    ck ← lift (attribute before.recv_chain_key)
    let (new_ck, mk) = hkdf_ck P ck
    put (record before { recv_chain_key = some new_ck })
    store_skipped_key (remote_pub, before.recv_msg_num) mk
    state ← get
    put (record state { recv_msg_num = state.recv_msg_num + 1 })
    skip_loop remote_pub left

  unfoldable pub skip_recv_chain : Bytes → ℕ → Action RatchetState (Unit {0})
  skip_recv_chain [] until = give tt
  skip_recv_chain (b ∷ remote_pub) until = do
    state ← get
    elim state.recv_chain_key [
      | none ↦ give tt
      | some ck ↦ do
        lift (
            require (leb (until - state.recv_msg_num) max_skip_distance)
              (Error.value_error "prev_chain_len skip distance exceeds maximum"))
        skip_loop (b ∷ remote_pub) (until - state.recv_msg_num)
    ]

  -- What follows where no skipped key fits.
  unfoldable pub decrypt_current : Bytes → ℕ → Bytes → Bytes → Action RatchetState Bytes
  decrypt_current remote_pub msg_num header ciphertext = do
    before ← get
    lift (
        require (leb (msg_num - before.recv_msg_num) max_skip_distance)
          (Error.value_error "Skip distance exceeds maximum"))
    skip_loop remote_pub (msg_num - before.recv_msg_num)
    state ← get
    ck ← lift (attribute state.recv_chain_key)
    let (new_ck, message_key) = hkdf_ck P ck
    put (record state { recv_chain_key = some new_ck; recv_msg_num = state.recv_msg_num + 1 })
    lift (decrypt_with_key aead message_key ciphertext header)

  -- `public_bytes` of the remote key, or `b''`.
  abbrev pub public_bytes : Option Bytes → Bytes
  public_bytes none = []
  public_bytes (some key) = key

  unfoldable pub decrypt_numbered :
      Bytes → Bytes → ℕ → ℕ → Bytes → Bytes → Action RatchetState Bytes
  decrypt_numbered generated remote_bytes msg_num prev_chain_len header ciphertext = do
    remote_pub ← lift (from_public_bytes remote_bytes)
    before ← get
    let current = public_bytes before.dh_pub_remote
    elim (same_bytes remote_bytes current) [
      | true ↦ give tt
      | false ↦ do skip_recv_chain current prev_chain_len; dh_ratchet_step P generated remote_pub
    ]
    skip_key ← pop_skipped (remote_bytes, msg_num)
    elim skip_key [
      | some key ↦ lift (decrypt_with_key aead key ciphertext header)
      | none ↦ decrypt_current remote_bytes msg_num header ciphertext
    ]

  unfoldable pub decrypt : Bytes → Bytes → Bytes → Action RatchetState Bytes
  decrypt generated header ciphertext = do
    lift (require (leb 40 (length header)) (Error.value_error "Header too short"))
    msg_num ← lift (unpack_be 4 (take 4 header))
    prev_chain_len ← lift (unpack_be 4 (slice header 4 8))
    decrypt_numbered generated (slice header 8 40) msg_num prev_chain_len header ciphertext

  unfoldable pub get_local_dh_public_key : RatchetState → Result Bytes
  get_local_dh_public_key state = elim state.dh_priv [
    | none ↦ err (Error.value_error "DH key pair not initialized")
    | some priv ↦ ok (public_key priv)
  ]
