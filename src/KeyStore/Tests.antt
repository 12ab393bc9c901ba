-- ===== src/KeyStore/Tests.antt =====
-- Witnesses and tests for the change of the password, with a cipher that puts its key in front.
use ultimate_enigma.Prelude.{
  ◌≡◌, refl, ap, ◌∙◌, sym, [], ◌∷◌, ◌++◌, length, take, drop, Bool, true, false, none, some, Result,
  ok, err, Error, require, ◌>>◌, take-append, drop-append, ok_injective,
}
use ultimate_enigma.Bytes.{Bytes, same_bytes, same_bytes_refl}
use ultimate_enigma.Utf8.{Text}
use ultimate_enigma.Lockout.{Json, Document, get_delay, reset}
use ultimate_enigma.Lockout.Restart.{answered}
use ultimate_enigma.RatchetService.Sample.{write_option, read_option, read_option-write_option}
use ultimate_enigma.KeyStore.{
  Packages, EncDict, Rows, KeyStoreState, argon2id, encrypt_secret, decrypt_secret,
}
use ultimate_enigma.KeyStore.Secrets.{Lawful}
use ultimate_enigma.KeyStore.Friends.{Secret, change_friends, change_shared, decrypted, encrypted}
use ultimate_enigma.KeyStore.Change.{
  change_password, prepare, open_keys, write_all, write_global_secret, write_private_key,
  write_totp_secret, write_ratchet_key, conn_commit, finish,
}
use ultimate_enigma.KeyStore.Password.{Login, verify_password, opens}
use ultimate_enigma.KeyStore.Atomic
use ultimate_enigma.KeyStore.Renewed
use ultimate_enigma.KeyStore.Renewed.{other_keys, saving}

abbrev open_prefixed : Bytes → Bytes → Result Bytes
open_prefixed key ciphertext =
    require (same_bytes (take (length key) ciphertext) key) Error.invalid_tag
    >> ok (drop (length key) ciphertext)

open_prefixed-append : (key content : Bytes) → open_prefixed key (key ++ content) ≡ ok content
open_prefixed-append key content =
    ap
      (λ t. require (same_bytes t key) Error.invalid_tag >> ok (drop (length key) (key ++ content)))
      (take-append key content (length key) refl)
    ∙ ap (λ b. require b Error.invalid_tag >> ok (drop (length key) (key ++ content)))
        (same_bytes_refl key)
    ∙ ap ok (drop-append key content (length key) refl)

abbrev write_dict : EncDict → Text
write_dict d =
    write_option d.kdf (write_option d.salt (write_option d.nonce (write_option d.ct [])))

abbrev read_dict : Text → EncDict
read_dict text =
    let (kdf, text1) = read_option text in
    let (salt, text2) = read_option text1 in
    let (nonce, text3) = read_option text2 in
    let (ct, text4) = read_option text3 in record { kdf = kdf; salt = salt; nonce = nonce; ct = ct }

read_dict-write_dict : (d : EncDict) → read_dict (write_dict d) ≡ d
read_dict-write_dict d =
    let t3 = write_option d.ct [] in
    let t2 = write_option d.nonce t3 in
    let t1 = write_option d.salt t2 in
    ap
      (λ r.
        let (salt, text2) = read_option r.1 in
        let (nonce, text3) = read_option text2 in
        let (ct, text4) = read_option text3 in
        record d { kdf = r.0; salt = salt; nonce = nonce; ct = ct })
      (read_option-write_option d.kdf t1)
    ∙ ap
        (λ r.
          let (nonce, text3) = read_option r.1 in
          let (ct, text4) = read_option text3 in record d { salt = r.0; nonce = nonce; ct = ct })
        (read_option-write_option d.salt t2)
    ∙ ap (λ r. let (ct, text4) = read_option r.1 in record d { nonce = r.0; ct = ct })
        (read_option-write_option d.nonce t3)
    ∙ ap (λ r. record d { ct = r.0 }) (read_option-write_option d.ct [])

abbrev sample : Packages
sample = record {
  hash_secret_raw = λ password salt. ok (password ++ salt);
  pbkdf2 = λ password salt. ok (salt ++ password);
  aesgcm = record {
    seal = λ key nonce content aad. ok (key ++ content);
    open_sealed = λ key nonce ciphertext aad. open_prefixed key ciphertext;
  };
  b64encode = λ content. content;
  b64decode = λ text. ok text;
  dumps = write_dict;
  loads = λ text. ok (read_dict text);
  pem_to_privkey = λ pem password. open_prefixed password pem;
  privkey_to_encrypted_pem = λ key password. ok (password ++ key);
  guard = λ content. ok tt;
}

sample-Lawful : Lawful sample
sample-Lawful = record {
  b64decode-b64encode = λ content. refl;
  loads-dumps = λ d. ap ok (read_dict-write_dict d);
  open_sealed-seal = λ key nonce content ciphertext h.
      ap (open_prefixed key) (sym (ok_injective h)) ∙ open_prefixed-append key content;
}

abbrev old_password : Bytes
old_password = b'o' ∷ b'l' ∷ b'd' ∷ []

abbrev new_password : Bytes
new_password = b'n' ∷ b'e' ∷ b'w' ∷ []

abbrev draws : Secret → Bytes × Bytes
draws secret = (1 ∷ 2 ∷ [], 3 ∷ [])

-- A secret under the old password.
abbrev sealed : Bytes → Text
sealed plain = write_dict (record {
  kdf = some argon2id;
  salt = some (9 ∷ []);
  nonce = some (8 ∷ []);
  ct = some (old_password ++ 9 ∷ plain);
})

abbrev rows : Rows
rows = record {
  settings = record {
    global_secret = some (sealed (5 ∷ 6 ∷ []));
    duress_verifier = none;
    private_key_encrypted = some (old_password ++ 7 ∷ []);
    totp_secret_encrypted = some (sealed (4 ∷ []));
    ratchet_storage_key = none;
    kyber_priv_encrypted = some (sealed (3 ∷ []));
    ed25519_priv_encrypted = none;
    dilithium_priv_encrypted = none;
  };
  friends =
      record {
        name = b'A' ∷ b'n' ∷ b'n' ∷ [];
        has_shared_secret = true;
        shared_secret_encrypted = some (sealed (2 ∷ []));
        ecdh_priv_encrypted = none;
      }
      ∷ [];
}

abbrev store : KeyStoreState
store = record {
  committed = rows;
  pending = rows;
  memory = record {
    global_secret = some (5 ∷ 6 ∷ []);
    my_priv = some (7 ∷ []);
    friends = (b'A' ∷ b'n' ∷ b'n' ∷ [], (0 ∷ [], some (2 ∷ []))) ∷ [];
    ratchet_storage_key = some (1 ∷ []);
  };
}

abbrev accepts : Secret → Bool
accepts secret = true

-- The database takes every statement but the commit.
abbrev locked : Secret → Bool
locked Secret.commit = false
locked secret = true

abbrev changed : KeyStoreState
changed = (change_password sample draws accepts old_password new_password store).1

change_password-taken :
    change_password sample draws accepts old_password new_password store ≡ (ok true, changed)
unfolding change_password prepare open_keys decrypt_secret change_friends change_shared decrypted
    encrypted encrypt_secret write_all write_global_secret write_private_key write_totp_secret
    write_ratchet_key conn_commit finish
change_password-taken = refl

change_password-refused :
    change_password sample draws locked old_password new_password store
    ≡ (err Error.key_store_error, store)
unfolding change_password prepare open_keys decrypt_secret change_friends change_shared decrypted
    encrypted encrypt_secret write_all write_global_secret write_private_key write_totp_secret
    write_ratchet_key conn_commit finish
change_password-refused = refl

change_password-atomic_example : (store.committed ≡ rows) × (store.memory ≡ store.memory)
change_password-atomic_example =
    Atomic.change_password-atomic sample draws locked (λ plain. refl) old_password new_password
      store store Error.key_store_error change_password-refused

change_password-ok_example :
    (plain : Bytes) × (row row' : Text) × (some (sealed (5 ∷ 6 ∷ [])) ≡ some row)
    × (decrypted sample draws accepts row old_password ≡ ok plain)
    × (changed.committed.settings.global_secret ≡ some row')
    × (decrypted sample draws accepts row' new_password ≡ ok plain)
    × (changed.memory.global_secret ≡ some plain)
    × (other_keys changed.committed.settings ≡ other_keys rows.settings)
change_password-ok_example =
    Renewed.change_password-ok sample draws accepts sample-Lawful old_password new_password store
      changed true change_password-taken

-- JSON is not read here.
abbrev numbers : Json
numbers = record {
  dumps = λ written. written.failures ∷ written.locked_until ∷ [];
  loads = λ text. ok Document.no_object;
  float = λ text. err (Error.value_error "could not convert string to float");
}

abbrev login : Login
login = record {
  settings = changed.committed.settings;
  lockout = record { failed_attempts = 3; locked_until = 0; row = none };
  duress_mode = true;
}

verify_password-change_password_example :
    verify_password sample numbers answered (saving true) 1000 1000 new_password login ≡ (
      ok true,
      record login { lockout = (reset numbers (saving true) login.lockout).1; duress_mode = false },
    )
unfolding get_delay opens change_password prepare open_keys decrypt_secret change_friends
    change_shared decrypted encrypted encrypt_secret write_all write_global_secret write_private_key
    write_totp_secret write_ratchet_key conn_commit finish
verify_password-change_password_example =
    Renewed.verify_password-change_password sample draws accepts numbers sample-Lawful old_password
      new_password store changed true true false 1000 1000 login none change_password-taken refl
      refl refl refl
