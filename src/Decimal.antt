-- ===== src/Decimal.antt =====
-- The text of a number, `int` of such a text, and `split(':')`, for the names that
-- services/double_ratchet.py gives to skipped keys.
use ultimate_enigma.Prelude.{
  ℕ, zero, suc, ◌+◌, ◌-◌, ◌*◌, ◌/◌, ◌%◌, ◌<◌, ◌≤◌, ◌≡◌, refl, sym, ap, ◌∙◌, List, [], ◌∷◌, ◌++◌,
  false, ◌&&◌, leb, ltb, ltb→lt, ◌==◌, if◌then◌else◌, Bool-cases, inl, inr, Result, ok, err, Error,
  All, arith,
}
use ultimate_enigma.Utf8.{Text}

digits : ℕ → ℕ → Text
digits zero n = []
digits (suc fuel) n =
    let rest = digits fuel (n / 10) in
    if ltb n 10 then (b'0' + n) ∷ [] else rest ++ (b'0' + n % 10) ∷ []

-- `str(n)`; a number has fewer digits than its value and one.
unfoldable pub str : ℕ → Text
unfolding digits
str n = digits (suc n) n

abbrev not_int : Error
not_int = Error.value_error "invalid literal for int() with base 10"

unfoldable pub int_loop : ℕ → Text → Result ℕ
int_loop value [] = ok value
int_loop value (c ∷ text) =
    let rest = int_loop (value * 10 + (c - b'0')) text in
    if leb b'0' c && leb c b'9' then rest else err not_int

-- `int(text)` of ASCII digits. Python also takes a sign, spaces at the ends, an underscore between
-- digits and the digits of other scripts, none of which `str(n)` writes.
unfoldable pub int : Text → Result ℕ
int [] = err not_int
int (c ∷ text) = int_loop 0 (c ∷ text)

add_first : ℕ → List Text → List Text
add_first c [] = (c ∷ []) ∷ []
add_first c (part ∷ parts) = (c ∷ part) ∷ parts

-- `text.split(':')`
unfoldable pub split : Text → List Text
unfolding add_first
split [] = [] ∷ []
split (c ∷ text) = let parts = split text in if c == b':' then [] ∷ parts else add_first c parts

int_loop-snoc :
    (text : Text) (value v d : ℕ)
    → d < 10
    → int_loop value text ≡ ok v
    → int_loop value (text ++ (b'0' + d) ∷ []) ≡ ok (v * 10 + d)
unfolding int_loop
int_loop-snoc [] value v d h e = ground arith
int_loop-snoc (c ∷ text) value v d h e = elim (Bool-cases (leb b'0' c && leb c b'9')) [
  | inl digit ↦
      ap
        (λ t.
          if t then int_loop (value * 10 + (c - b'0')) (text ++ (b'0' + d) ∷ []) else err not_int)
        digit
      ∙ int_loop-snoc text (value * 10 + (c - b'0')) v d h (
          sym (ap (λ t. if t then int_loop (value * 10 + (c - b'0')) text else err not_int) digit)
          ∙ e)
  | inr other ↦ absurd (
      refused (
        sym (ap (λ t. if t then int_loop (value * 10 + (c - b'0')) text else err not_int) other)
        ∙ e))
]
  where
    refused : err not_int ≡ ok v → ⊥
    refused k = cc

int_loop-digits : (fuel n : ℕ) → n < fuel → int_loop 0 (digits fuel n) ≡ ok n
unfolding digits
int_loop-digits zero n h = absurd (omega arith)
int_loop-digits (suc fuel) n h = elim (Bool-cases (ltb n 10)) [
  | inl small ↦ let few : n < 10 = ltb→lt n 10 small in rw small (unfold int_loop in ground arith)
  | inr large ↦
      let many : 10 ≤ n = ground arith in
      rw large (
        int_loop-snoc (digits fuel (n / 10)) 0 (n / 10) (n % 10) (omega arith)
          (int_loop-digits fuel (n / 10) (omega arith))
        ∙ ap ok (omega arith))
]

digits-filled : (fuel n : ℕ) → n < fuel → (c : ℕ) × (text : Text) × (digits fuel n ≡ c ∷ text)
unfolding digits
digits-filled zero n h = absurd (omega arith)
digits-filled (suc fuel) n h = elim (Bool-cases (ltb n 10)) [
  | inl small ↦ (b'0' + n, [], rw small)
  | inr large ↦
      let many : 10 ≤ n = ground arith in
      let (c, text, e) = digits-filled fuel (n / 10) (omega arith) in
      (c, text ++ (b'0' + n % 10) ∷ [], rw (large, e))
]

pub int-str : (n : ℕ) → int (str n) ≡ ok n
unfolding int str
int-str n =
    let (c, text, e) = digits-filled (suc n) n (omega arith) in
    ap int e ∙ sym (ap (int_loop 0) e) ∙ int_loop-digits (suc n) n (omega arith)

abbrev pub NoColon : Text → Type 0
NoColon = All (λ c. (c == b':') ≡ false)

NoColon-snoc : (text : Text) (d : ℕ) → d < 10 → NoColon text → NoColon (text ++ (b'0' + d) ∷ [])
NoColon-snoc [] d h k = (ground arith, tt)
NoColon-snoc (c ∷ text) d h (k, ks) = (k, NoColon-snoc text d h ks)

digits-NoColon : (fuel n : ℕ) → NoColon (digits fuel n)
unfolding digits
digits-NoColon zero n = tt
digits-NoColon (suc fuel) n = elim (Bool-cases (ltb n 10)) [
  | inl small ↦ let few : n < 10 = ltb→lt n 10 small in rw small (ground arith, tt)
  | inr large ↦
      rw large
        (NoColon-snoc (digits fuel (n / 10)) (n % 10) (omega arith) (digits-NoColon fuel (n / 10)))
]

split_whole : (text : Text) → NoColon text → split text ≡ text ∷ []
unfolding split
split_whole [] h = refl
split_whole (c ∷ text) (h, hs) = rw (h, split_whole text hs, add_first)

split_first :
    (first text : Text) → NoColon first → split (first ++ b':' ∷ text) ≡ first ∷ split text
unfolding split
split_first [] text h = refl
split_first (c ∷ first) text (h, hs) = rw (h, split_first first text hs, add_first)

-- The two parts of a text and a number around a colon.
pub split-str :
    (first : Text) (n : ℕ) → NoColon first → split (first ++ b':' ∷ str n) ≡ first ∷ str n ∷ []
unfolding str
split-str first n h =
    split_first first (str n) h ∙ ap (◌∷◌ first) (split_whole (str n) (digits-NoColon (suc n) n))
