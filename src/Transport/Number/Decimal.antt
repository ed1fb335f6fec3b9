-- ===== src/Transport/Number/Decimal.antt =====
-- The round trip of strconv.ParseInt and the verb %d.
use mathlib.Core.WellFounded.{Acc}
use mathlib.Core.Logic.{dite}
use native.Mathlib.Decide.{dec_lt}
use distributed_configs_fs.Base.{
  ℕ, ◌+◌, ◌-◌, ◌*◌, ◌/◌, ◌%◌, ◌^◌, ◌<◌, ◌≡◌, refl, ◌∙◌, ◌≢◌, true, false, ltb, pos, Text, [], ◌∷◌,
  ◌++◌, All, All-append, Option, none, some, ◌==◌, nat_eq, arith, lt_wf, if◌then◌else◌,
}
use distributed_configs_fs.Core.Paths.{digits, decimal}
use distributed_configs_fs.Transport.Number.{is_digit, parse_digits, parse_uint, parse_int}

abbrev next_digit : ℕ → Option ℕ → Option ℕ
next_digit c none = none
next_digit c (some v) = if is_digit c then some (v * 10 + (c - b'0')) else none

parse_digits-append :
    (n c : ℕ) (s : Text) → parse_digits n (s ++ (c ∷ [])) ≡ next_digit c (parse_digits n s)
unfolding parse_digits
parse_digits-append n c [] = ground arith
parse_digits-append n c (d ∷ s) = ground (arith, parse_digits-append (n * 10 + (d - b'0')) c s)

-- A property of both branches of a decision.
either_branch :
    {A : Type 0} {C : Type 0} (P : C → Type 0) (d : Dec A) (f : A → C) (g : (A → ⊥) → C)
    → ((h : A) → P (f h))
    → ((h : A → ⊥) → P (g h))
    → P (dite d f g)
either_branch P (yes h) f g k l = k h
either_branch P (no h) f g k l = l h

-- Some digits that read back as the number.
abbrev IsDecimal : ℕ → Text → Type 0
IsDecimal n s = (s ≢ []) × All (λ c. is_digit c ≡ true) s × (parse_digits 0 s ≡ some n)

append_filled : (s : Text) (c : ℕ) → s ++ (c ∷ []) ≢ []
append_filled [] c e = cc
append_filled (d ∷ s) c e = cc

one_digit : (n : ℕ) → n < 10 → IsDecimal n ((b'0' + n) ∷ [])
unfolding parse_digits
one_digit n h = (λ e. cc, (ground arith, tt), ground arith)

last_digit : (n : ℕ) (s : Text) → IsDecimal (n / 10) s → IsDecimal n (s ++ ((b'0' + n % 10) ∷ []))
last_digit n s (filled, all, reads) =
    let digit : is_digit (b'0' + n % 10) ≡ true = ground arith in
    let whole : n / 10 * 10 + (b'0' + n % 10 - b'0') ≡ n = omega arith in
    (
      append_filled s (b'0' + n % 10),
      All-append (λ c. is_digit c ≡ true) s _ all digit,
      parse_digits-append 0 (b'0' + n % 10) s ∙ rw (reads, digit, whole) refl,
    )

digits-IsDecimal : (n : ℕ) (a : Acc ◌<◌ n) → IsDecimal n (digits n a)
unfolding digits
digits-IsDecimal n (Acc.intro _ below) =
    either_branch (IsDecimal n) (dec_lt n 10) _ _ (λ h. one_digit n h)
      (λ h. last_digit n _ (digits-IsDecimal (n / 10) (below (n / 10) (omega arith))))

-- The digits of a number, and that ParseInt reads the number back.
pub decimal_digits : (n : ℕ) → All (λ c. is_digit c ≡ true) (decimal n)
unfolding decimal
decimal_digits n = (digits-IsDecimal n (lt_wf.apply n)).1

read_back : (n : ℕ) (s : Text) → IsDecimal n s → n < 2 ^ 63 → parse_int s ≡ some (pos n)
unfolding parse_int parse_uint
read_back n [] (filled, all, reads) h = absurd (filled refl)
read_back n (c ∷ s) (filled, all, reads) h =
    let not_minus : c == b'-' ≡ false = ground (arith, all.0) in
    let not_plus : c == b'+' ≡ false = ground (arith, all.0) in
    let fits : ltb n (2 ^ 63) ≡ true = ground (arith, h) in
    rw (not_minus, not_plus, reads) (rw fits refl)

pub parse_int-decimal : (n : ℕ) → n < 2 ^ 63 → parse_int (decimal n) ≡ some (pos n)
unfolding decimal
parse_int-decimal n h = read_back n _ (digits-IsDecimal n (lt_wf.apply n)) h
