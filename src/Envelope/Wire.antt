-- ===== src/Envelope/Wire.antt =====
-- models/envelope.py: the magic bytes, and what the two parsers share.
use ultimate_enigma.Prelude.{
  ℕ, List, [], ◌∷◌, Bool, true, false, Result, ok, err, Error, ◌≡◌, ◌≢◌, refl,
}

abbrev pub ratchet_envelope_magic : ℕ
ratchet_envelope_magic = 0xD0

abbrev pub pqc_envelope_magic : ℕ
pqc_envelope_magic = 0x50

-- Python's truth of a list, bytes or text: not empty.
abbrev pub is_nonempty {ℓ} : {A : Type ℓ} → List A → Bool
is_nonempty [] = false
is_nonempty (x ∷ xs) = true

-- The two `except` clauses of the parsers turn these into a `ValueError`.
abbrev pub as_value_error {ℓ} : {A : Type ℓ} → Result A → Result A
as_value_error (ok a) = ok a
as_value_error (err Error.unicode_error) = err (Error.value_error "invalid UTF-8 sender name")
as_value_error (err Error.struct_error) = err (Error.value_error "corrupted length fields")
as_value_error (err e) = err e

pub as_value_error_ok {ℓ} : {A : Type ℓ} (m : Result A) (a : A) → as_value_error m ≡ ok a → m ≡ ok a
as_value_error_ok (ok b) a h = h
as_value_error_ok (err Error.unicode_error) a h = cc
as_value_error_ok (err Error.struct_error) a h = cc
as_value_error_ok (err e) a h = cc

pub is_nonempty_of_ne : (bs : List ℕ) → bs ≢ [] → is_nonempty bs ≡ true
is_nonempty_of_ne [] h = absurd (h refl)
is_nonempty_of_ne (b ∷ bs) h = refl

pub ne_of_is_nonempty : (bs : List ℕ) → is_nonempty bs ≡ true → bs ≢ []
ne_of_is_nonempty [] h e = cc
ne_of_is_nonempty (b ∷ bs) h e = cc
