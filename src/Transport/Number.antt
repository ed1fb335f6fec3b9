-- ===== src/Transport/Number.antt =====
-- strconv.ParseInt(raw, 10, 64), and parseSeq of internal/transport/status.go.
pub mod Decimal
use native.Mathlib.Decide.{ℕ_discrete}
use distributed_configs_fs.Base.{
  ℕ, ◌+◌, ◌-◌, ◌*◌, ◌^◌, Bool, true, false, ◌&&◌, ltb, leb, ℤ, pos, negsuc, ltz, Text, [], ◌∷◌,
  Option, none, some, ◌==◌, nat_eq, if◌then◌else◌, codes, ◌≡◌, refl,
}

abbrev pub is_digit : ℕ → Bool
is_digit c = leb b'0' c && leb c b'9'

-- The value of a run of digits.
unfoldable pub parse_digits : ℕ → Text → Option ℕ
parse_digits n [] = some n
parse_digits n (c ∷ s) = elim (is_digit c) [
  | true ↦ parse_digits (n * 10 + (c - b'0')) s
  | false ↦ none
]

-- At least one digit has to be there.
unfoldable pub parse_uint : Text → Option ℕ
unfolding parse_digits
parse_uint [] = none
parse_uint (c ∷ s) = parse_digits 0 (c ∷ s)

abbrev pub positive : Option ℕ → Option ℤ
positive none = none
positive (some n) = if ltb n (2 ^ 63) then some (pos n) else none

abbrev pub negative : Option ℕ → Option ℤ
negative none = none
negative (some n) =
    if n == 0 then some (pos 0) else if leb n (2 ^ 63) then some (negsuc (n - 1)) else none

unfoldable pub parse_int : Text → Option ℤ
unfolding parse_uint
parse_int [] = none
parse_int (c ∷ s) =
    if c == b'-'
    then negative (parse_uint s)
    else if c == b'+'
    then positive (parse_uint s)
    else positive (parse_uint (c ∷ s))

abbrev seq_or_zero : Option ℤ → ℤ
seq_or_zero none = pos 0
seq_or_zero (some n) = if ltz n (pos 0) then pos 0 else n

unfoldable pub parse_seq : Text → ℤ
unfolding parse_int
parse_seq raw = seq_or_zero (parse_int raw)

test_parse :
    (parse_int (codes "-9223372036854775808") ≡ some (negsuc (2 ^ 63 - 1)))
    × (parse_int (codes "9223372036854775808") ≡ none)
    × (parse_seq (codes "42") ≡ pos 42)
    × (parse_seq (codes "-1") ≡ pos 0)
unfolding parse_seq ℕ_discrete
test_parse = (refl, refl, refl, refl)
