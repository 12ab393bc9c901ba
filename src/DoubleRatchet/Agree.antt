-- ===== src/DoubleRatchet/Agree.antt =====
-- The two sides of a conversation: a message that one encrypts the other decrypts, and two sides
-- that start from the same secret are in step.
use ultimate_enigma.Prelude.{
  ℕ, suc, ◌+◌, ◌^◌, ◌<◌, ◌≤◌, ◌≡◌, refl, ap, ◌∙◌, sym, subst, ◌⊎◌, inl, inr, List, ◌++◌, length,
  none, some, ok, arith,
}
use ultimate_enigma.Action.{after_lift}
use ultimate_enigma.Bytes.{Bytes, IsBytes, be_bytes}
use ultimate_enigma.Dict.{lookup}
use ultimate_enigma.DoubleRatchet.{
  Primitives, RatchetState, KeyName, key_names, max_skip_distance, max_skipped_keys,
}
use ultimate_enigma.DoubleRatchet.Handshake.{hkdf_rk, initialize_as_alice, initialize_as_bob}
use ultimate_enigma.DoubleRatchet.Messages.{encrypt, decrypt}
use ultimate_enigma.DoubleRatchet.Header.{decrypt-header}
use ultimate_enigma.DoubleRatchet.Deliver.{
  advance, moved, from_remote, skip_loop-ok, Skips, decrypt_numbered-after,
}
use ultimate_enigma.DoubleRatchet.Skipped.{filled, skip_loop-filled}
use ultimate_enigma.DoubleRatchet.Store.{Tracked, AreQueued}
use ultimate_enigma.DoubleRatchet.Sending.{Lawful, Sealable, sending, encrypt-ok}

module _ (P : Primitives) (laws : Lawful P) where
  open P use {public_key}

  -- The two sides of one chain: the sender is `k` messages further on than the receiver.
  abbrev pub Follows : Bytes → ℕ → RatchetState → RatchetState → Type 0
  Follows ck k a b =
      (a.send_chain_key ≡ some (advance P k ck))
      × (b.recv_chain_key ≡ some ck)
      × (a.send_msg_num ≡ b.recv_msg_num + k)

  -- The keys of the `k` messages in between can be stored: every key that is kept is queued for
  -- eviction, or the store has room for them.
  abbrev pub CanSkip : ℕ → RatchetState → Type 0
  CanSkip k b = Tracked b ⊎ (length b.skipped_keys + k ≤ max_skipped_keys)

  skip_loop-runs :
      (remote ck : Bytes) (k m : ℕ) (b receiver : RatchetState)
      → CanSkip k b
      → (keys' : List (KeyName × Bytes)) × (order' : List KeyName) × Skips P remote m k ck
          b.skipped_keys b.skipped_key_order keys' order' receiver
        × (Tracked b → AreQueued keys' order')
  skip_loop-runs remote ck k m b receiver (inl tracked) =
      let (keys', order', looped, queued) =
        skip_loop-ok P remote k m ck b.skipped_keys b.skipped_key_order receiver tracked in
      (keys', order', looped, λ h. queued)
  skip_loop-runs remote ck k m b receiver (inr room) =
      let (order', looped) =
        skip_loop-filled P remote k m ck b.skipped_keys b.skipped_key_order receiver room in
      (
        filled P remote k m ck b.skipped_keys,
        order',
        looped,
        λ tracked.
            let (keys'', order'', looped'', queued) =
              skip_loop-ok P remote k m ck b.skipped_keys b.skipped_key_order receiver tracked in
            let same = sym looped'' ∙ looped in
            subst (λ (q : List (KeyName × Bytes) × List KeyName). AreQueued q.0 q.1)
              (ap (λ o. (o.1.skipped_keys, o.1.skipped_key_order)) same) queued,
      )

  deliver_settled :
      (generated generated' nonce plaintext priv ck : Bytes) (m k : ℕ) (a b : RatchetState)
      → Sealable P plaintext
      → IsBytes nonce
      → length nonce ≡ 24
      → m + k < 256 ^ 4
      → a.prev_send_chain_len < 256 ^ 4
      → lookup key_names (public_key priv, m + k) b.skipped_keys ≡ none
      → CanSkip k b
      → k ≤ max_skip_distance
      → (header sealed : Bytes) × (a' b' : RatchetState) × (encrypt P generated nonce plaintext
            (sending P laws priv (advance P k ck) (m + k) a)
          ≡ (ok (header, sealed), a'))
        × (decrypt P generated' header sealed
              (from_remote P (public_key priv) (moved P ck m b.skipped_keys b.skipped_key_order b))
            ≡ (ok plaintext, b'))
        × Follows (advance P (suc k) ck) 0 a' b'
        × (Tracked b → Tracked b')
  deliver_settled generated generated' nonce plaintext priv ck m k a b sealable bytes size hn hp
        absent can_skip near =
      let remote = public_key priv in
      let header = be_bytes 4 (m + k) ++ (be_bytes 4 a.prev_send_chain_len ++ remote) in
      let (sealed, encrypted, opened) =
        encrypt-ok P laws generated nonce plaintext priv (advance P k ck) (m + k) a sealable bytes
          size hn hp in
      let receiver = from_remote P remote b in
      let (keys', order', looped, queued') = skip_loop-runs remote ck k m b receiver can_skip in
      let decrypted =
        decrypt_numbered-after P generated' remote header sealed ck m k a.prev_send_chain_len
          b.skipped_keys b.skipped_key_order keys' order' b
          (laws.from_public_bytes-ok remote (laws.length-public_key priv)) absent looped near in
      let b' = from_remote P remote (moved P (advance P (suc k) ck) (m + k + 1) keys' order' b) in
      (
        header,
        sealed,
        sending P laws priv (advance P (suc k) ck) (m + k + 1) a,
        b',
        encrypted,
        decrypt-header P generated' remote sealed (m + k) a.prev_send_chain_len
              (from_remote P remote (moved P ck m b.skipped_keys b.skipped_key_order b)) hn hp
              (laws.length-public_key priv)
            ∙ decrypted
            ∙ ap (λ result. (result, b')) opened,
        (refl, refl, omega arith),
        queued',
      )

  -- A message that one side encrypts the other decrypts, under these conditions: the receiver knows
  -- the sender's public key, its receiving chain is the sending chain k ≤ 1000 messages back, and it
  -- keeps no skipped key under the message's number; the message's number and the length of the
  -- sender's earlier chain are below 2^32; the cipher seals the plaintext, and the nonce has 24
  -- bytes; and either every key that the receiver keeps is queued for eviction or its store has
  -- room for k more, which need not hold of a state that was restored with skipped keys. Then both
  -- calls succeed, the plaintext is the same, the two chains are in step, and if all keys were
  -- queued, they still are.
  pub deliver :
      (generated generated' nonce plaintext priv ck : Bytes) (k : ℕ) (a b : RatchetState)
      → Sealable P plaintext
      → IsBytes nonce
      → length nonce ≡ 24
      → a.dh_priv ≡ some priv
      → b.dh_pub_remote ≡ some (public_key priv)
      → Follows ck k a b
      → a.send_msg_num < 256 ^ 4
      → a.prev_send_chain_len < 256 ^ 4
      → lookup key_names (public_key priv, a.send_msg_num) b.skipped_keys ≡ none
      → CanSkip k b
      → k ≤ max_skip_distance
      → (header sealed : Bytes) × (a' b' : RatchetState) × (encrypt P generated nonce plaintext a
          ≡ (ok (header, sealed), a'))
        × (decrypt P generated' header sealed b ≡ (ok plaintext, b'))
        × Follows (advance P (suc k) ck) 0 a' b'
        × (Tracked b → Tracked b')
  deliver generated generated' nonce plaintext priv ck k a b sealable bytes size own known
        (sends, receives, number) hn hp absent can_skip near =
      let m = b.recv_msg_num in
      let settled_a : a ≡ sending P laws priv (advance P k ck) (m + k) a =
        ap (λ d. record a { dh_priv = d }) own
        ∙ ap (λ c. record a { dh_priv = some priv; send_chain_key = c }) sends
        ∙ ap (λ n. sending P laws priv (advance P k ck) n a) number in
      let settled_b : b
          ≡ from_remote P (public_key priv) (moved P ck m b.skipped_keys b.skipped_key_order b) =
        ap (λ d. record b { dh_pub_remote = d }) known
        ∙ ap (λ c. record b { dh_pub_remote = some (public_key priv); recv_chain_key = c })
            receives in
      let (header, sealed, a', b', encrypted, decrypted, in_step, tracked') =
        deliver_settled generated generated' nonce plaintext priv ck m k a b sealable bytes size
          (subst (λ n. n < 256 ^ 4) number hn) hp
          (subst (λ n. lookup key_names (public_key priv, n) b.skipped_keys ≡ none) number absent)
          can_skip near in
      (
        header,
        sealed,
        a',
        b',
        ap (encrypt P generated nonce plaintext) settled_a ∙ encrypted,
        ap (decrypt P generated' header sealed) settled_b ∙ decrypted,
        in_step,
        tracked',
      )

  -- Two sides that start from the same secret, each with the public key of the other, are in step
  -- and can send and receive the first message, where both exchanges give the same secret.
  pub initialize_in_step :
      (generated generated' secret alice bob dh_out : Bytes) (a b : RatchetState)
      → P.exchange alice (public_key bob) ≡ ok dh_out
      → P.exchange bob (public_key alice) ≡ ok dh_out
      → (a' b' : RatchetState) × (initialize_as_alice P generated
            (public_key bob)
            secret
            (some alice)
            a
          ≡ (ok tt, a'))
        × (initialize_as_bob P generated' (public_key alice) secret (some bob) b ≡ (ok tt, b'))
        × (a'.dh_priv ≡ some alice)
        × (b'.dh_pub_remote ≡ some (public_key alice))
        × (a'.root_key ≡ b'.root_key)
        × Follows (hkdf_rk P secret dh_out).1 0 a' b'
  unfolding initialize_as_alice initialize_as_bob
  initialize_in_step generated generated' secret alice bob dh_out a b alice_bob bob_alice =
      (_, _, after_lift _ alice_bob, after_lift _ bob_alice, refl, refl, refl, (refl, refl, refl))
