-- ===== src/DoubleRatchet/OutOfOrder.antt =====
-- Messages of one chain that arrive in another order: the keys of those that are skipped are kept,
-- and each of them is decrypted when it comes.
use ultimate_enigma.Prelude.{
  ℕ, suc, ◌+◌, ◌^◌, ◌≤◌, ◌<◌, ◌≡◌, refl, sym, ap, ◌∙◌, [], ◌∷◌, ◌++◌, length, none, some, ok, arith,
}
use ultimate_enigma.Bytes.{Bytes, IsBytes, be_bytes}
use ultimate_enigma.DoubleRatchet.Sending.{Lawful, Sealable, sending, encrypt-ok}
use ultimate_enigma.Dict.{lookup, remove}
use ultimate_enigma.DoubleRatchet.{
  Primitives, RatchetState, key_names, max_skipped_keys, max_skip_distance,
}
use ultimate_enigma.DoubleRatchet.Header.{decrypt-header}
use ultimate_enigma.DoubleRatchet.Deliver.{
  advance, moved, from_remote, after_pop, decrypt_numbered-known, decrypt_numbered-after,
}
use ultimate_enigma.DoubleRatchet.Messages.{decrypt_numbered, encrypt, decrypt}
use ultimate_enigma.DoubleRatchet.Payload.{decrypt_with_key}
use ultimate_enigma.DoubleRatchet.Skipped.{filled, skip_loop-filled, lookup-filled}

module _ (P : Primitives) (laws : Lawful P) where
  open P use {public_key, digest, aead}

  late_settled :
      (generated remote header header' sealed sealed' plaintext plaintext' ck : Bytes)
      (m j k prev : ℕ) (b : RatchetState)
      → length remote ≡ 32
      → m + k < 256 ^ 4
      → prev < 256 ^ 4
      → header ≡ be_bytes 4 (m + j) ++ (be_bytes 4 prev ++ remote)
      → header' ≡ be_bytes 4 (m + k) ++ (be_bytes 4 prev ++ remote)
      → decrypt_with_key aead (digest (advance P j ck) (1 ∷ [])) sealed header ≡ ok plaintext
      → decrypt_with_key aead (digest (advance P k ck) (1 ∷ [])) sealed' header' ≡ ok plaintext'
      → j < k
      → k ≤ max_skip_distance
      → length b.skipped_keys + k ≤ max_skipped_keys
      → lookup key_names (remote, m + k) b.skipped_keys ≡ none
      → (b' b'' : RatchetState) × (decrypt P generated header' sealed'
            (from_remote P remote (moved P ck m b.skipped_keys b.skipped_key_order b))
          ≡ (ok plaintext', b'))
        × (decrypt P generated header sealed b' ≡ (ok plaintext, b''))
  late_settled generated remote header header' sealed sealed' plaintext plaintext' ck m j k prev b
        size hk hp eh eh' opened opened' before near room absent =
      let loads = laws.from_public_bytes-ok remote size in
      let start = from_remote P remote (moved P ck m b.skipped_keys b.skipped_key_order b) in
      let keys = filled P remote k m ck b.skipped_keys in
      let (order', looped) =
        skip_loop-filled P remote k m ck b.skipped_keys b.skipped_key_order (from_remote P remote b)
          room in
      let moved_on = moved P (advance P (suc k) ck) (m + k + 1) keys order' b in
      let b' = from_remote P remote moved_on in
      let popped =
        from_remote P remote
          (record moved_on { skipped_keys = remove key_names (remote, m + j) keys }) in
      (
        b',
        popped,
        ap (λ h. decrypt P generated h sealed' start) eh'
            ∙ decrypt-header P generated remote sealed' (m + k) prev start hk hp size
            ∙ ap (λ h. decrypt_numbered P generated remote (m + k) prev h sealed' start) (sym eh')
            ∙ decrypt_numbered-after P generated remote header' sealed' ck m k prev b.skipped_keys
                b.skipped_key_order keys order' b loads absent looped near
            ∙ ap (λ r. (r, b')) opened',
        ap (λ h. decrypt P generated h sealed b') eh
            ∙ decrypt-header P generated remote sealed (m + j) prev b' (omega arith) hp size
            ∙ ap (λ h. decrypt_numbered P generated remote (m + j) prev h sealed b') (sym eh)
            ∙ decrypt_numbered-known P generated remote header sealed (m + j) prev moved_on loads
            ∙ ap (λ found. after_pop P remote (m + j) header sealed found popped)
                (lookup-filled P remote k m j ck b.skipped_keys before)
            ∙ ap (λ r. (r, popped)) opened,
      )

  -- Two messages of one chain, of which the later one arrives first: `j` and `k` are their
  -- distances from the receiver, `j < k ≤ 1000`, and the store has room for the keys in between.
  -- Both encryptions succeed, the later message is decrypted, and then the earlier one.
  pub deliver_out_of_order :
      (generated nonce nonce' plaintext plaintext' priv ck : Bytes) (j k : ℕ) (a b : RatchetState)
      → Sealable P plaintext
      → Sealable P plaintext'
      → IsBytes nonce
      → IsBytes nonce'
      → length nonce ≡ 24
      → length nonce' ≡ 24
      → b.dh_pub_remote ≡ some (public_key priv)
      → b.recv_chain_key ≡ some ck
      → b.recv_msg_num + k < 256 ^ 4
      → a.prev_send_chain_len < 256 ^ 4
      → j < k
      → k ≤ max_skip_distance
      → length b.skipped_keys + k ≤ max_skipped_keys
      → lookup key_names (public_key priv, b.recv_msg_num + k) b.skipped_keys ≡ none
      → (header sealed header' sealed' : Bytes) × (a' a'' b' b'' : RatchetState) × (encrypt P
            generated nonce plaintext
            (sending P laws priv (advance P j ck) (b.recv_msg_num + j) a)
          ≡ (ok (header, sealed), a'))
        × (encrypt P generated nonce' plaintext'
              (sending P laws priv (advance P k ck) (b.recv_msg_num + k) a)
            ≡ (ok (header', sealed'), a''))
        × (decrypt P generated header' sealed' b ≡ (ok plaintext', b'))
        × (decrypt P generated header sealed b' ≡ (ok plaintext, b''))
  deliver_out_of_order generated nonce nonce' plaintext plaintext' priv ck j k a b can can' bytes
        bytes' size size' known receives hk hp before near room absent =
      let remote = public_key priv in
      let m = b.recv_msg_num in
      let prev = a.prev_send_chain_len in
      let header = be_bytes 4 (m + j) ++ (be_bytes 4 prev ++ remote) in
      let header' = be_bytes 4 (m + k) ++ (be_bytes 4 prev ++ remote) in
      let (sealed, encrypted, opened) =
        encrypt-ok P laws generated nonce plaintext priv (advance P j ck) (m + j) a can bytes size
          (omega arith) hp in
      let (sealed', encrypted', opened') =
        encrypt-ok P laws generated nonce' plaintext' priv (advance P k ck) (m + k) a can' bytes'
          size' hk hp in
      let settled : b ≡ from_remote P remote (moved P ck m b.skipped_keys b.skipped_key_order b) =
        ap (λ d. record b { dh_pub_remote = d }) known
        ∙ ap (λ c. record b { dh_pub_remote = some remote; recv_chain_key = c }) receives in
      let (b', b'', late, early) =
        late_settled generated remote header header' sealed sealed' plaintext plaintext' ck m j k
          prev b (laws.length-public_key priv) hk hp refl refl opened opened' before near room
          absent in
      (
        header,
        sealed,
        header',
        sealed',
        sending P laws priv (advance P (suc j) ck) (m + j + 1) a,
        sending P laws priv (advance P (suc k) ck) (m + k + 1) a,
        b',
        b'',
        encrypted,
        encrypted',
        ap (decrypt P generated header' sealed') settled ∙ late,
        early,
      )
