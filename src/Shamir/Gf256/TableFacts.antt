-- ===== src/Shamir/Gf256/TableFacts.antt =====
-- What the tables hold, by evaluation: the powers of 2 and their logarithms.
use ultimate_enigma.Prelude.{
  ℕ, zero, suc, ◌+◌, ◌<◌, ◌≡◌, refl, List, [], ◌∷◌, length, get_or, index, ok, Bool, true, ◌&&◌,
  ltb, ltb→lt, ◌==◌, ==_iff, and_true, every, every_sound, arith,
}
use ultimate_enigma.Shamir.Gf256.{gf_exp, gf_log, double}

-- Entry `i` of the first table, and entry `a` of the second.
pub power : ℕ → ℕ
power i = get_or gf_exp i 0

pub logarithm : ℕ → ℕ
logarithm a = get_or gf_log a 0

abbrev doubles : List ℕ → ℕ → Bool
doubles exp i = let p = get_or exp i 0 in get_or exp (i + 1) 0 == double p && (ltb 0 p && ltb p 256)

abbrev repeats : List ℕ → List ℕ → ℕ → Bool
repeats exp log i = let p = get_or exp i 0 in get_or log p 0 == i && get_or exp (i + 255) 0 == p

abbrev inverts : List ℕ → List ℕ → ℕ → Bool
inverts exp log i = let l = get_or log (i + 1) 0 in ltb l 255 && get_or exp l 0 == i + 1

tables_test : List ℕ → List ℕ → Bool
unfolding every double
tables_test exp log =
    every (doubles exp) 510 && (every (repeats exp log) 255 && every (inverts exp log) 255)

tables_pass : tables_test gf_exp gf_log ≡ true
unfolding tables_test gf_exp gf_log
tables_pass = refl

pub length-gf_exp : length gf_exp ≡ 512
unfolding gf_exp
length-gf_exp = refl

pub length-gf_log : length gf_log ≡ 256
unfolding gf_log
length-gf_log = refl

all_tests :
    (every (doubles gf_exp) 510 ≡ true)
    × (every (repeats gf_exp gf_log) 255 ≡ true)
    × (every (inverts gf_exp gf_log) 255 ≡ true)
unfolding tables_test
all_tests = let (a, rest) = and_true _ _ tables_pass in let (b, c) = and_true _ _ rest in (a, b, c)

pub power_facts :
    (i : ℕ) → i < 510 → (power (i + 1) ≡ double (power i)) × (0 < power i) × (power i < 256)
unfolding power
power_facts i h =
    let (step, range) = and_true _ _ (every_sound (doubles gf_exp) 510 i all_tests.0 h) in
    let (low, high) = and_true _ _ range in ((==_iff _ _).0 step, ltb→lt _ _ low, ltb→lt _ _ high)

pub logarithm-power : (i : ℕ) → i < 255 → logarithm (power i) ≡ i
unfolding power logarithm
logarithm-power i h =
    (==_iff _ _).0 (and_true _ _ (every_sound (repeats gf_exp gf_log) 255 i all_tests.1 h)).0

pub power_period : (i : ℕ) → i < 255 → power (i + 255) ≡ power i
unfolding power
power_period i h =
    (==_iff _ _).0 (and_true _ _ (every_sound (repeats gf_exp gf_log) 255 i all_tests.1 h)).1

pub logarithm_facts : (a : ℕ) → 0 < a → a < 256 → (logarithm a < 255) × (power (logarithm a) ≡ a)
unfolding power logarithm
logarithm_facts zero p q = absurd (omega arith)
logarithm_facts (suc a) p q =
    let e : a + 1 ≡ suc a = omega arith in
    let found = every_sound (inverts gf_exp gf_log) 255 a all_tests.2 (omega arith) in
    let (small, same) = and_true _ _ (rw e at found) in (ltb→lt _ _ small, (==_iff _ _).0 same)

pub index-get_or : (xs : List ℕ) (i : ℕ) → i < length xs → index xs i ≡ ok (get_or xs i 0)
index-get_or [] i h = absurd (omega arith)
index-get_or (x ∷ xs) zero h = refl
index-get_or (x ∷ xs) (suc i) h = index-get_or xs i (omega arith)

pub index-gf_exp : (i : ℕ) → i < 512 → index gf_exp i ≡ ok (power i)
unfolding power
index-gf_exp i h = index-get_or gf_exp i (omega (arith, length-gf_exp))

pub index-gf_log : (a : ℕ) → a < 256 → index gf_log a ≡ ok (logarithm a)
unfolding logarithm
index-gf_log a h = index-get_or gf_log a (omega (arith, length-gf_log))

pub power-zero : power 0 ≡ 1
unfolding power gf_exp
power-zero = refl
