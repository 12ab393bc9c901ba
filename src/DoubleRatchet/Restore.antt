-- ===== src/DoubleRatchet/Restore.antt =====
-- A state that is stored and loaded again.
use ultimate_enigma.Prelude.{
  ℕ, ◌-◌, ◌<◌, ◌≡◌, refl, sym, ap, ◌∙◌, List, [], ◌∷◌, ◌++◌, length, replicate, false, Bool-cases,
  inl, inr, le→leb, Option, none, some, Result, ok, Error, require, index, ◌>>=◌, then, All,
  append_nil, append_assoc, arith,
}
use ultimate_enigma.Bytes.{Bytes, IsBytes}
use ultimate_enigma.Utf8.{Text}
use ultimate_enigma.Dict.{Equality, lookup, insert}
use ultimate_enigma.Hex.{hex, fromhex, fromhex-hex, hex-no_colon}
use ultimate_enigma.Decimal.{int-str, split-str}
use ultimate_enigma.DoubleRatchet.{Primitives, RatchetState, KeyName, key_names}
use ultimate_enigma.DoubleRatchet.Serialize.{
  hex_of, serialize_skipped, serialize, guarded, load, load_skipped, deserialize,
}

module _ {ℓ κ} {K : Type ℓ} {V : Type κ} (E : Equality K) where
  open E use {same}

  -- No two entries have the same key.
  abbrev pub Distinct : List (K × V) → Type 0
  Distinct [] = Unit
  Distinct ((k, v) ∷ entries) = All (λ e. same k e.0 ≡ false) entries × Distinct entries

  abbrev pub Absent : List (K × V) → List (K × V) → Type κ
  Absent entries = All (λ e. lookup E e.0 entries ≡ none)

  insert_new :
      (k : K) (v : V) (entries : List (K × V))
      → lookup E k entries ≡ none
      → insert E k v entries ≡ entries ++ (k, v) ∷ []
  insert_new k v [] h = refl
  insert_new k v ((j, w) ∷ entries) h = elim (Bool-cases (same j k)) [
    | inl hit ↦ absurd (found (rw (hit, lookup) at h))
    | inr miss ↦
        rw (miss, insert) (ap (◌∷◌ (j, w)) (insert_new k v entries (rw (miss, lookup) at h)))
  ]
    where
      found : some w ≡ none → ⊥
      found e = cc

  lookup-snoc :
      (j k : K) (v : V) (entries : List (K × V))
      → lookup E j entries ≡ none
      → same k j ≡ false
      → lookup E j (entries ++ (k, v) ∷ []) ≡ none
  lookup-snoc j k v [] h other = rw (other, lookup)
  lookup-snoc j k v ((i, w) ∷ entries) h other = elim (Bool-cases (same i j)) [
    | inl hit ↦ absurd (found (rw (hit, lookup) at h))
    | inr miss ↦ rw (miss, lookup) (lookup-snoc j k v entries (rw (miss, lookup) at h) other)
  ]
    where
      found : some w ≡ none → ⊥
      found e = cc

  Absent-snoc :
      (k : K) (v : V) (entries rest : List (K × V))
      → Absent entries rest
      → All (λ e. same k e.0 ≡ false) rest
      → Absent (entries ++ (k, v) ∷ []) rest
  Absent-snoc k v entries [] h other = tt
  Absent-snoc k v entries ((j, w) ∷ rest) h other =
      (lookup-snoc j k v entries h.0 other.0, Absent-snoc k v entries rest h.1 other.1)

guarded_whole :
    (size : ℕ) (content : Bytes) → length content ≡ size → guarded size content ≡ ok content
unfolding guarded
guarded_whole size content h =
    let none_left : size - length content ≡ 0 = omega arith in
    then (λ done. ok (content ++ replicate (size - length content) 0))
      (ap (λ t. require t (Error.value_error "Data length exceeds buffer size"))
        (le→leb (length content) size (omega arith)))
    ∙ ap (λ n. ok (content ++ replicate n 0)) none_left
    ∙ ap ok (append_nil content)

-- The bytes of a key that is not empty.
abbrev pub Key : ℕ → Option Bytes → Type 0
Key size none = Unit
Key size (some key) = IsBytes key × (length key ≡ size)

load-hex :
    {A : Type 0} (read : Bytes → Result A) (key : Bytes) (value : A)
    → IsBytes key
    → 0 < length key
    → read key ≡ ok value
    → load read (some (hex key)) ≡ ok (some value)
load-hex read [] value bytes full h = absurd (omega arith)
load-hex read (b ∷ key) value bytes full h =
    at_text (hex (b ∷ key)) (fromhex-hex (b ∷ key) bytes) filled
  where
    filled : (c : ℕ) × (text : Text) × (hex (b ∷ key) ≡ c ∷ text)
    filled = unfold hex in (_, _, refl)

    at_text :
        (text : Text)
        → fromhex text ≡ ok (b ∷ key)
        → (c : ℕ) × (rest : Text) × (text ≡ c ∷ rest)
        → load read (some text) ≡ ok (some value)
    at_text [] e f = absurd (let (c, rest, k) = f in let no : [] ≡ c ∷ rest = k in cc)
    at_text (c ∷ text) e f =
        then (λ raw. read raw >>= λ v. ok (some v)) e ∙ then (λ v. ok (some v)) h

load-hex_of :
    (read : Bytes → Result Bytes) (size : ℕ) (key : Option Bytes)
    → Key size key
    → 0 < size
    → ((k : Bytes) → length k ≡ size → read k ≡ ok k)
    → load read (hex_of key) ≡ ok key
load-hex_of read size none h pos whole = refl
load-hex_of read size (some key) (bytes, sized) pos whole =
    load-hex read key key bytes (omega arith) (whole key sized)

-- The names and keys of the store are bytes.
abbrev pub AreBytes : List (KeyName × Bytes) → Type 0
AreBytes = All (λ e. IsBytes e.0.0 × IsBytes e.1)

load_skipped-serialize :
    (keys before : List (KeyName × Bytes))
    → AreBytes keys
    → Distinct key_names keys
    → Absent key_names before keys
    → load_skipped (serialize_skipped keys) before ≡ ok (before ++ keys)
unfolding load_skipped serialize_skipped
load_skipped-serialize [] before bytes distinct absent = ap ok (sym (append_nil before))
load_skipped-serialize (((remote, number), mk) ∷ keys) before bytes distinct absent =
    let parts = split-str (hex remote) number (hex-no_colon remote bytes.0.0) in
    then _ (ap (λ p. index p 0) parts)
    ∙ then _ (fromhex-hex remote bytes.0.0)
    ∙ then _ (ap (λ p. index p 1) parts)
    ∙ then _ (int-str number)
    ∙ then _ (fromhex-hex mk bytes.0.1)
    ∙ then _ (guarded_whole (length mk) mk refl)
    ∙ ap (load_skipped (serialize_skipped keys))
        (insert_new key_names (remote, number) mk before absent.0)
    ∙ load_skipped-serialize keys (before ++ ((remote, number), mk) ∷ []) bytes.1 distinct.1
        (Absent-snoc key_names (remote, number) mk before keys absent.1 distinct.0)
    ∙ ap ok (append_assoc before (((remote, number), mk) ∷ []) keys)

-- What a state has that a session makes: keys of 32 bytes and different skipped keys.
pub record Storable (s : RatchetState) : Type 0 where
  pub root_key : Key 32 s.root_key
  pub send_chain_key : Key 32 s.send_chain_key
  pub recv_chain_key : Key 32 s.recv_chain_key
  pub dh_priv : Key 32 s.dh_priv
  pub dh_pub_remote : Key 32 s.dh_pub_remote
  pub skipped_bytes : AreBytes s.skipped_keys
  pub skipped_distinct : Distinct key_names s.skipped_keys

Absent-nil : (keys : List (KeyName × Bytes)) → Absent key_names [] keys
Absent-nil [] = tt
Absent-nil (e ∷ keys) = (refl, Absent-nil keys)

module _ (P : Primitives) (from_private_bytes : Bytes → Result Bytes) where
  open P use {from_public_bytes}

  -- A state with keys of 32 bytes and different skipped keys is restored from what it is stored
  -- as, but for the order in which skipped keys are evicted, which is lost.
  pub deserialize-serialize :
      (s : RatchetState)
      → Storable s
      → (public_keys : (key : Bytes) → length key ≡ 32 → from_public_bytes key ≡ ok key)
      → (private_keys : (key : Bytes) → length key ≡ 32 → from_private_bytes key ≡ ok key)
      → deserialize P from_private_bytes (serialize s) ≡ ok (record s { skipped_key_order = [] })
  unfolding deserialize serialize
  deserialize-serialize s h public_keys private_keys =
      then _ (load_hex_32 (guarded 32) s.root_key h.root_key (guarded_whole 32))
      ∙ then _ (load_hex_32 (guarded 32) s.send_chain_key h.send_chain_key (guarded_whole 32))
      ∙ then _ (load_hex_32 (guarded 32) s.recv_chain_key h.recv_chain_key (guarded_whole 32))
      ∙ then _ (load_hex_32 from_private_bytes s.dh_priv h.dh_priv private_keys)
      ∙ then _ (load_hex_32 from_public_bytes s.dh_pub_remote h.dh_pub_remote public_keys)
      ∙ then _ (
          load_skipped-serialize s.skipped_keys [] h.skipped_bytes h.skipped_distinct
            (Absent-nil s.skipped_keys))
    where
      load_hex_32 :
          (read : Bytes → Result Bytes) (key : Option Bytes)
          → Key 32 key
          → ((k : Bytes) → length k ≡ 32 → read k ≡ ok k)
          → load read (hex_of key) ≡ ok key
      load_hex_32 read key sized whole = load-hex_of read 32 key sized (omega arith) whole
