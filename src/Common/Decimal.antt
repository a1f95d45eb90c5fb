-- ===== src/Common/Decimal.antt =====
-- A 64-bit number as decimal text: what `format!("{}")` writes and `str::parse::<u64>` reads.
use Prim.Native.Nat.{ℕ, zero, suc, ◌+◌, ◌-◌, ◌*◌, ◌/◌, ◌%◌, ◌^◌, ◌<◌}
use Prim.Native.Char.{Char, code}
use Prim.Native.String.{String, [] as ε, ◌∷◌ as ◌∷ˢ◌}
use mathlib.Core.Path.{◌≡◌, refl, ap, ◌∙◌}
use mathlib.Core.List.{[], ◌∷◌}
use native.Mathlib.Numerals.{unary_clauses}
use vai.Common.Lists.{get_or}
use mathlib.Core.Logic.{inl, inr}
use mathlib.Core.Bool.{Bool, ◌&&◌}
use mathlib.Core.Option.{Option, some, none}
use native.Mathlib.Omega.{arith}
use vai.Common.Tests.{ltb, leb, nat_eq, if◌then◌else◌, Bool-cases, ltb→lt}

abbrev pub u64_size : ℕ
u64_size = 18446744073709551616

-- The digit of a number below ten.
unfoldable pub digit : ℕ → Char
digit d = get_or ("0" ∷ "1" ∷ "2" ∷ "3" ∷ "4" ∷ "5" ∷ "6" ∷ "7" ∷ "8" ∷ "9" ∷ []) d "0"

-- The digits of a number before a text; the first argument bounds how many there are.
unfoldable pub show_before : ℕ → ℕ → String → String
unfolding digit
show_before zero n rest = rest
show_before (suc f) n rest =
    let more = show_before f (n / 10) (digit (n % 10) ∷ˢ rest) in
    if ltb n 10 then digit n ∷ˢ rest else more

-- A 64-bit number has twenty digits at most.
unfoldable pub show_u64 : ℕ → String
unfolding show_before
show_u64 n = show_before 20 n ε

abbrev is_digit : Char → Bool
is_digit c = leb b'0' (code c) && leb (code c) b'9'

unfoldable pub parse_digits : ℕ → String → Option ℕ
parse_digits acc ε = some acc
parse_digits acc (c ∷ˢ s) =
    let next = acc * 10 + (code c - 48) in
    let rest = parse_digits next s in if is_digit c && ltb next u64_size then rest else none

-- No digits at all are no number.
abbrev parse_some : String → Option ℕ
parse_some ε = none
parse_some (c ∷ˢ s) = parse_digits 0 (c ∷ˢ s)

-- A sign may stand before the digits.
unfoldable pub parse_u64 : String → Option ℕ
unfolding parse_digits
parse_u64 ε = none
parse_u64 (c ∷ˢ s) = if nat_eq (code c) b'+' then parse_some s else parse_digits 0 (c ∷ˢ s)

code-digit : (d : ℕ) → d < 10 → code (digit d) ≡ d + 48
unfolding digit
code-digit zero h = refl
code-digit (suc zero) h = refl
code-digit (suc (suc zero)) h = refl
code-digit (suc (suc (suc zero))) h = refl
code-digit (suc (suc (suc (suc zero)))) h = refl
code-digit (suc (suc (suc (suc (suc zero))))) h = refl
code-digit (suc (suc (suc (suc (suc (suc zero)))))) h = refl
code-digit (suc (suc (suc (suc (suc (suc (suc zero))))))) h = refl
code-digit (suc (suc (suc (suc (suc (suc (suc (suc zero)))))))) h = refl
code-digit (suc (suc (suc (suc (suc (suc (suc (suc (suc zero))))))))) h = refl
code-digit (suc (suc (suc (suc (suc (suc (suc (suc (suc (suc n)))))))))) h = absurd (omega arith)

parse_digits-digit :
    (acc d : ℕ) (rest : String)
    → d < 10
    → acc * 10 + d < u64_size
    → parse_digits acc (digit d ∷ˢ rest) ≡ parse_digits (acc * 10 + d) rest
unfolding parse_digits
parse_digits-digit acc d rest h k = ground (arith, code-digit d h)

div_below : (f n : ℕ) → n < 10 ^ suc f → n / 10 < 10 ^ f
div_below f n h =
    let e : 10 ^ suc f ≡ 10 * 10 ^ f = simp unary_clauses (omega arith) in omega (arith, e)

parse_digits-show_before :
    (f n : ℕ) (rest : String)
    → n < 10 ^ f
    → n < u64_size
    → parse_digits 0 (show_before f n rest) ≡ parse_digits n rest
unfolding show_before
parse_digits-show_before zero n rest h k = let e : n ≡ 0 = omega arith in rw e refl
parse_digits-show_before (suc f) n rest h k = elim (Bool-cases (ltb n 10)) [
  | inl b ↦ rw b (
      parse_digits-digit 0 n rest (ltb→lt n 10 b) (omega arith)
      ∙ ap (λ (m : ℕ). parse_digits m rest) (omega arith))
  | inr b ↦ rw b (
      parse_digits-show_before f (n / 10) (digit (n % 10) ∷ˢ rest) (div_below f n h) (omega arith)
      ∙ parse_digits-digit (n / 10) (n % 10) rest (omega arith) (omega arith)
      ∙ ap (λ (m : ℕ). parse_digits m rest) (omega arith))
]

-- What is written begins with a digit.
abbrev BeginsWithDigit : String → Type 0
BeginsWithDigit s = (d : ℕ) × (t : String) × (d < 10) × (s ≡ digit d ∷ˢ t)

show_before-BeginsWithDigit :
    (f n d : ℕ) (rest : String) → d < 10 → BeginsWithDigit (show_before f n (digit d ∷ˢ rest))
unfolding show_before
show_before-BeginsWithDigit zero n d rest h = (d, rest, h, refl)
show_before-BeginsWithDigit (suc f) n d rest h = elim (Bool-cases (ltb n 10)) [
  | inl b ↦ rw b (n, digit d ∷ˢ rest, ltb→lt n 10 b, refl)
  | inr b ↦ rw b (show_before-BeginsWithDigit f (n / 10) (n % 10) (digit d ∷ˢ rest) (omega arith))
]

show_u64-BeginsWithDigit : (n : ℕ) → BeginsWithDigit (show_before 20 n ε)
unfolding show_before
show_u64-BeginsWithDigit n = elim (Bool-cases (ltb n 10)) [
  | inl b ↦ rw b (n, ε, ltb→lt n 10 b, refl)
  | inr b ↦ rw b (show_before-BeginsWithDigit 19 (n / 10) (n % 10) ε (omega arith))
]

parse_u64-digits : (s : String) → BeginsWithDigit s → parse_u64 s ≡ parse_digits 0 s
unfolding parse_u64
parse_u64-digits s (d, t, h, e) = rw e (ground (arith, code-digit d h))

-- A number of 64 bits is read back as it was written.
pub parse_u64-show_u64 : (n : ℕ) → n < u64_size → parse_u64 (show_u64 n) ≡ some n
unfolding show_u64 parse_digits
parse_u64-show_u64 n h =
    parse_u64-digits (show_before 20 n ε) (show_u64-BeginsWithDigit n)
    ∙ parse_digits-show_before 20 n ε (omega arith) h
