-- ===== src/TokenAuth/Decimal.antt =====
-- What token/token_auth.go uses of `fmt` and `strconv`: decimal texts of numbers.
use rubixgoplatform.Prelude.{
  ℕ, zero, suc, ◌+◌, ◌*◌, ◌-◌, ◌/◌, ◌%◌, ◌^◌, List, [], ◌∷◌, ◌++◌, Option, none, some, ltb, leb,
  ◌==◌, if◌then◌else◌, length, ◌&&◌,
}

-- `int`: the range of its 64 bits is tested where a text is read.
pub data ℤ : Type 0 where
  pos negsuc : ℕ → ℤ

-- The digits of a number, before those that are written already. There is fuel for each digit.
unfoldable pub decimal_from : ℕ → ℕ → List ℕ → List ℕ
decimal_from zero n acc = acc
decimal_from (suc fuel) n acc =
    let longer = (48 + n % 10) ∷ acc in
    let rest = decimal_from fuel (n / 10) longer in if n / 10 == 0 then longer else rest

-- `%d` for a number that is not negative.
unfoldable pub decimal : ℕ → List ℕ
unfolding decimal_from
decimal n = decimal_from (suc n) n []

unfoldable pub zeros : ℕ → List ℕ
zeros zero = []
zeros (suc n) = 48 ∷ zeros n

-- `%02d` and `%03d` fill with zeros on the left.
unfoldable pub pad : ℕ → List ℕ → List ℕ
unfolding zeros
pad width digits = zeros (width - length digits) ++ digits

unfoldable pub read_digits : ℕ → List ℕ → Option ℕ
read_digits v [] = some v
read_digits v (c ∷ cs) =
    let rest = read_digits (10 * v + (c - 48)) cs in if leb 48 c && leb c 57 then rest else none

-- At least one digit, and a value within the bound.
unfoldable pub read_number : ℕ → List ℕ → Option ℕ
unfolding read_digits
read_number bound [] = none
read_number bound (c ∷ cs) = elim (read_digits 0 (c ∷ cs)) [
  | none ↦ none
  | some v ↦ if ltb v bound then some v else none
]

unfoldable pub negated : ℕ → ℤ
negated zero = pos 0
negated (suc n) = negsuc n

-- `strconv.Atoi`: a sign is allowed; the rest is a number in the range of 64 bits.
unfoldable pub atoi : List ℕ → Option ℤ
unfolding read_number negated
atoi [] = none
atoi (c ∷ cs) =
    if c == 45
    then elim (read_number (2 ^ 63 + 1) cs) [ none ↦ none | some v ↦ some (negated v) ]
    else elim (read_number (2 ^ 63) (if c == 43 then cs else c ∷ cs)) [
      | none ↦ none
      | some v ↦ some (pos v)
    ]
