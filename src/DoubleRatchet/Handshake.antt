-- ===== src/DoubleRatchet/Handshake.antt =====
-- services/double_ratchet.py: the key derivations, the two ways to start a session, and the step of
-- the Diffie-Hellman ratchet. `generated` is what `X25519PrivateKey.generate()` returns.
use ultimate_enigma.Prelude.{[], ◌∷◌, take, drop, Option, none, some}
use ultimate_enigma.Action.{Action, lift, get, put, ◌>>=◌, ◌>>◌}
use ultimate_enigma.Bytes.{Bytes}
use ultimate_enigma.DoubleRatchet.{Primitives, RatchetState, attribute}

module _ (P : Primitives) where
  open P use {public_key, exchange, from_public_bytes, derive, digest, aead}

  abbrev pub hkdf_rk : Bytes → Bytes → Bytes × Bytes
  hkdf_rk rk dh_out = let output = derive rk dh_out in (take 32 output, drop 32 output)

  abbrev pub hkdf_ck : Bytes → Bytes × Bytes
  hkdf_ck ck = (digest ck (2 ∷ []), digest ck (1 ∷ []))

  -- `local_dh_priv`, or else the generated key.
  abbrev pub own_key : Option Bytes → Bytes → Bytes
  own_key none generated = generated
  own_key (some local_dh_priv) generated = local_dh_priv

  unfoldable pub initialize_as_alice :
      Bytes → Bytes → Bytes → Option Bytes → Action RatchetState (Unit {0})
  initialize_as_alice generated bob_dh_pub shared_secret local_dh_priv = do
    before ← get
    let priv = own_key local_dh_priv generated
    put (record before { dh_priv = some priv; dh_pub_remote = some bob_dh_pub })
    dh_out ← lift (exchange priv bob_dh_pub)
    let (rk, sk) = hkdf_rk shared_secret dh_out
    state ← get
    put (record state {
      root_key = some rk;
      send_chain_key = some sk;
      recv_chain_key = none;
      send_msg_num = 0;
      recv_msg_num = 0;
      prev_send_chain_len = 0;
    })

  unfoldable pub initialize_as_bob :
      Bytes → Bytes → Bytes → Option Bytes → Action RatchetState (Unit {0})
  initialize_as_bob generated alice_dh_pub shared_secret local_dh_priv = do
    before ← get
    let priv = own_key local_dh_priv generated
    put (record before { dh_priv = some priv; dh_pub_remote = some alice_dh_pub })
    dh_out ← lift (exchange priv alice_dh_pub)
    let (rk, ck) = hkdf_rk shared_secret dh_out
    state ← get
    put (record state {
      root_key = some rk;
      recv_chain_key = some ck;
      send_chain_key = none;
      send_msg_num = 0;
      recv_msg_num = 0;
      prev_send_chain_len = 0;
    })

  unfoldable pub dh_ratchet_step : Bytes → Bytes → Action RatchetState (Unit {0})
  dh_ratchet_step generated remote_pub = do
    before ← get
    priv ← lift (attribute before.dh_priv)
    dh_out ← lift (exchange priv remote_pub)
    root ← lift (attribute before.root_key)
    let (rk, ck) = hkdf_rk root dh_out
    put (record before {
      root_key = some rk;
      recv_chain_key = some ck;
      prev_send_chain_len = before.send_msg_num;
      send_msg_num = 0;
      recv_msg_num = 0;
      dh_priv = some generated;
      dh_pub_remote = some remote_pub;
    })
    dh_out2 ← lift (exchange generated remote_pub)
    state ← get
    let (rk2, ck2) = hkdf_rk rk dh_out2
    put (record state { root_key = some rk2; send_chain_key = some ck2 })
