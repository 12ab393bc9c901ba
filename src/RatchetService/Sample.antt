-- ===== src/RatchetService/Sample.antt =====
-- A storage for the tests: numbers and texts one after the other, each text behind its length.
use ultimate_enigma.Prelude.{
  ℕ, zero, suc, ◌≡◌, refl, sym, ap, ◌∙◌, List, [], ◌∷◌, ◌++◌, length, take, drop, replicate, Option,
  none, some, Result, ok, err, Error, ok_injective, take-append, drop-append, arith,
}
use ultimate_enigma.Bytes.{Bytes}
use ultimate_enigma.Utf8.{Text}
use ultimate_enigma.DoubleRatchet.{Primitives}
use ultimate_enigma.DoubleRatchet.Serialize.{Serialized}
use ultimate_enigma.RatchetService.{Storage}
use ultimate_enigma.RatchetService.Stored.{Lawful}

abbrev write_text : Text → Text → Text
write_text text rest = length text ∷ (text ++ rest)

abbrev read_text : Text → Text × Text
read_text [] = ([], [])
read_text (n ∷ text) = (take n text, drop n text)

read_text-write_text : (text rest : Text) → read_text (write_text text rest) ≡ (text, rest)
read_text-write_text text rest =
    ap (λ t. (t, drop (length text) (text ++ rest))) (take-append text rest (length text) refl)
    ∙ ap (λ r. (text, r)) (drop-append text rest (length text) refl)

abbrev pub write_option : Option Text → Text → Text
write_option none rest = 0 ∷ rest
write_option (some text) rest = 1 ∷ write_text text rest

abbrev some_text : Text × Text → Option Text × Text
some_text read = (some read.0, read.1)

abbrev pub read_option : Text → Option Text × Text
read_option [] = (none, [])
read_option (zero ∷ rest) = (none, rest)
read_option (suc n ∷ rest) = some_text (read_text rest)

pub read_option-write_option :
    (o : Option Text) (rest : Text) → read_option (write_option o rest) ≡ (o, rest)
read_option-write_option none rest = refl
read_option-write_option (some text) rest = ap some_text (read_text-write_text text rest)

abbrev write_pairs : List (Text × Text) → Text
write_pairs [] = []
write_pairs ((a, b) ∷ pairs) = write_text a (write_text b (write_pairs pairs))

abbrev read_pairs : ℕ → Text → List (Text × Text)
read_pairs zero text = []
read_pairs (suc n) text =
    let (a, text1) = read_text text in
    let (b, text2) = read_text text1 in (a, b) ∷ read_pairs n text2

read_pairs-write_pairs :
    (pairs : List (Text × Text)) → read_pairs (length pairs) (write_pairs pairs) ≡ pairs
read_pairs-write_pairs [] = refl
read_pairs-write_pairs ((a, b) ∷ pairs) =
    let text1 = write_text b (write_pairs pairs) in
    ap (λ r. let (b', text2) = read_text r.1 in (r.0, b') ∷ read_pairs (length pairs) text2)
      (read_text-write_text a text1)
    ∙ ap (λ r. (a, r.0) ∷ read_pairs (length pairs) r.1)
        (read_text-write_text b (write_pairs pairs))
    ∙ ap (◌∷◌ (a, b)) (read_pairs-write_pairs pairs)

abbrev write_numbers : Serialized → Text → Text
write_numbers d rest =
    d.send_msg_num ∷ d.recv_msg_num ∷ d.prev_send_chain_len ∷ length d.skipped_keys ∷ rest

abbrev pub dumps : Serialized → Text
dumps d = write_option d.root_key (
    write_option d.send_chain_key (
      write_option d.recv_chain_key (
        write_option d.dh_priv_bytes
          (write_option d.dh_pub_remote_bytes (write_numbers d (write_pairs d.skipped_keys))))))

abbrev Keys : Type 0
Keys = Option Text × Option Text × Option Text × Option Text × Option Text

abbrev with_numbers : Keys → Text → Result Serialized
with_numbers keys (a ∷ b ∷ c ∷ n ∷ text) = ok (record {
  root_key = keys.0;
  send_chain_key = keys.1;
  recv_chain_key = keys.2;
  dh_priv_bytes = keys.3;
  dh_pub_remote_bytes = keys.4;
  send_msg_num = a;
  recv_msg_num = b;
  prev_send_chain_len = c;
  skipped_keys = read_pairs n text;
})
with_numbers keys text = err Error.json_decode_error

-- The five keys one after the other.
abbrev reading : {A : Type 0} → (Option Text → Text → A) → Text → A
reading next text = next (read_option text).0 (read_option text).1

reading_option :
    {A : Type 0} (next : Option Text → Text → A) (o : Option Text) (rest : Text)
    → reading next (write_option o rest) ≡ next o rest
reading_option next o rest = ap (λ r. next r.0 r.1) (read_option-write_option o rest)

abbrev load5 : Option Text → Option Text → Option Text → Option Text → Text → Result Serialized
load5 a b c d = reading λ e. with_numbers (a, b, c, d, e)

abbrev load4 : Option Text → Option Text → Option Text → Text → Result Serialized
load4 a b c = reading λ d. load5 a b c d

abbrev load3 : Option Text → Option Text → Text → Result Serialized
load3 a b = reading λ c. load4 a b c

abbrev load2 : Option Text → Text → Result Serialized
load2 a = reading λ b. load3 a b

abbrev pub loads : Text → Result Serialized
loads = reading λ a. load2 a

loads-dumps : (d : Serialized) → loads (dumps d) ≡ ok d
loads-dumps d =
    let t5 = write_numbers d (write_pairs d.skipped_keys) in
    let t4 = write_option d.dh_pub_remote_bytes t5 in
    let t3 = write_option d.dh_priv_bytes t4 in
    let t2 = write_option d.recv_chain_key t3 in
    let t1 = write_option d.send_chain_key t2 in
    reading_option load2 d.root_key t1
    ∙ reading_option (load3 d.root_key) d.send_chain_key t2
    ∙ reading_option (load4 d.root_key d.send_chain_key) d.recv_chain_key t3
    ∙ reading_option (load5 d.root_key d.send_chain_key d.recv_chain_key) d.dh_priv_bytes t4
    ∙ reading_option
        (λ e. with_numbers (d.root_key, d.send_chain_key, d.recv_chain_key, d.dh_priv_bytes, e))
        d.dh_pub_remote_bytes t5
    ∙ ap (λ pairs. ok (record d { skipped_keys = pairs })) (read_pairs-write_pairs d.skipped_keys)

abbrev pub sample : Storage
sample = record {
  dumps = dumps;
  loads = loads;
  b64encode = λ bytes. 0 ∷ bytes;
  b64decode = λ text. ok (drop 1 text);
  aesgcm = record {
    seal = λ key nonce plaintext associated_data. ok (replicate 16 0 ++ plaintext);
    open_sealed = λ key nonce ciphertext associated_data. ok (drop 16 ciphertext);
  };
  from_private_bytes = λ key. ok key;
}

pub sample-Lawful :
    (P : Primitives)
    → ((key : Bytes) → length key ≡ 32 → P.from_public_bytes key ≡ ok key)
    → Lawful P sample
sample-Lawful P public_keys = record {
  loads-dumps = loads-dumps;
  b64decode-b64encode = λ bytes. refl;
  b64encode_alphabet = λ bytes. refl;
  opens = λ key nonce plaintext ciphertext h.
      (ap (λ c. ok (drop 16 c)) (sym (ok_injective h)), omega (arith, ap length (ok_injective h)));
  public_keys = public_keys;
  private_keys = λ key h. refl;
}
