-- ===== src/DoubleRatchet/Rewind.antt =====
-- `decrypt` of services/double_ratchet.py on a late message of an earlier chain, whose key was kept.
use ultimate_enigma.Prelude.{some}
use ultimate_enigma.Action.{Action}
use ultimate_enigma.Bytes.{Bytes}
use ultimate_enigma.DoubleRatchet.{Primitives, RatchetState}
use ultimate_enigma.DoubleRatchet.Handshake.{hkdf_rk}

module _ (P : Primitives) where
  open P use {exchange, from_public_bytes, aead}

  -- A receiver with both chains under way.
  abbrev under_way : Bytes → Bytes → Bytes → Bytes → RatchetState → RatchetState
  under_way current priv root ck s = record s {
    dh_pub_remote = some current;
    dh_priv = some priv;
    root_key = some root;
    recv_chain_key = some ck;
  }

  -- The state after a ratchet step.
  stepped : Bytes → Bytes → Bytes → Bytes → Bytes → RatchetState → RatchetState
  stepped generated remote root d1 d2 s =
      let first = hkdf_rk P root d1 in
      let second = hkdf_rk P first.0 d2 in
      record s {
        dh_priv = some generated;
        dh_pub_remote = some remote;
        root_key = some second.0;
        send_chain_key = some second.1;
        recv_chain_key = some first.1;
        prev_send_chain_len = s.send_msg_num;
        send_msg_num = 0;
        recv_msg_num = 0;
      }
