-- ===== src/Examples/TokenTexts.antt =====
-- token/token_auth.go: the theorems at a function with 64 hexadecimal digits, of which the first six
-- are those of the number: below 16 ^ 6 it has no collision.
use rubixgoplatform.Prelude.{
  ℕ, ◌+◌, ◌/◌, ◌%◌, ◌<◌, ◌≤◌, zero, suc, List, [], ◌∷◌, ◌++◌, ◌≡◌, refl, arith, All, length, true,
  false, ltb, if◌then◌else◌, get_or, ap,
}
use rubixgoplatform.TokenAuth.Levels.{token_map}
use rubixgoplatform.TokenAuth.Decimal.{
  pos, atoi, decimal, decimal_from, pad, zeros, read_digits, read_number,
}
use rubixgoplatform.TokenAuth.Text.{
  IsVisible, trim_space, trim_left, trim_right, is_space, is_empty, same_text, commas,
}
use rubixgoplatform.TokenAuth.Search.{NoCollision}
use rubixgoplatform.TokenAuth.Validates.{
  IsHexText, validate_whole_token-get_token_string, validate_whole_token-get_level_one_token_string,
}
use rubixgoplatform.TokenAuth.Accepts.{validate_whole_token-inv}
use rubixgoplatform.Prelude.Outcome.{done}
use rubixgoplatform.TokenAuth.{
  max_token_from_level, validate_token_detials, level_of, is_level_one, split_text,
  get_whole_token_value, check_whole_token, calc_from, calc_sha256, validate_whole_token,
  get_token_string, get_level_one_token_string,
}

-- A digit of base 16 as a byte: 0 to 9, and a to f.
abbrev digit : ℕ → ℕ
digit d = if ltb d 10 then 48 + d else 87 + d

abbrev hex : ℕ → List ℕ
hex n =
    digit (n % 16)
    ∷ digit (n / 16 % 16)
    ∷ digit (n / 16 / 16 % 16)
    ∷ digit (n / 16 / 16 / 16 % 16)
    ∷ digit (n / 16 / 16 / 16 / 16 % 16)
    ∷ digit (n / 16 / 16 / 16 / 16 / 16 % 16)
    ∷ zeros 58

digit-IsVisible : (d : ℕ) → IsVisible (digit d)
digit-IsVisible d = ground arith

digit-inj : (d e : ℕ) → d < 16 → e < 16 → digit d ≡ digit e → d ≡ e
digit-inj d e hd he h = ground arith

length-hex : (n : ℕ) → length (hex n) ≡ 64
unfolding zeros
length-hex n = refl

zeros-IsVisible : (n : ℕ) → All IsVisible (zeros n)
unfolding zeros
zeros-IsVisible zero = tt
zeros-IsVisible (suc n) = (omega arith, zeros-IsVisible n)

hex-IsHexText : (n : ℕ) → IsHexText (hex n)
hex-IsHexText n = (
  length-hex n,
  (
    digit-IsVisible (n % 16),
    (
      digit-IsVisible (n / 16 % 16),
      (
        digit-IsVisible (n / 16 / 16 % 16),
        (
          digit-IsVisible (n / 16 / 16 / 16 % 16),
          (
            digit-IsVisible (n / 16 / 16 / 16 / 16 % 16),
            (digit-IsVisible (n / 16 / 16 / 16 / 16 / 16 % 16), zeros-IsVisible 58),
          ),
        ),
      ),
    ),
  ),
)

same_digit : (k i j : ℕ) → hex i ≡ hex j → get_or (hex i) k 0 ≡ get_or (hex j) k 0
same_digit k i j h = ap (λ text. get_or text k 0) h

digits-inj : (m n : ℕ) → digit (m % 16) ≡ digit (n % 16) → m % 16 ≡ n % 16
digits-inj m n h = digit-inj (m % 16) (n % 16) (omega arith) (omega arith) h

hex-NoCollision : (max : ℕ) → max ≤ 5000000 → NoCollision hex max
hex-NoCollision max small i j hi hj h =
    let d0 = digits-inj i j (same_digit 0 i j h) in
    let d1 = digits-inj (i / 16) (j / 16) (same_digit 1 i j h) in
    let d2 = digits-inj (i / 16 / 16) (j / 16 / 16) (same_digit 2 i j h) in
    let d3 = digits-inj (i / 16 / 16 / 16) (j / 16 / 16 / 16) (same_digit 3 i j h) in
    let d4 = digits-inj (i / 16 / 16 / 16 / 16) (j / 16 / 16 / 16 / 16) (same_digit 4 i j h) in
    let d5 =
      digits-inj (i / 16 / 16 / 16 / 16 / 16) (j / 16 / 16 / 16 / 16 / 16) (same_digit 5 i j h) in
    let e5 : i / 16 / 16 / 16 / 16 / 16 ≡ j / 16 / 16 / 16 / 16 / 16 = omega (arith, d5) in
    let e4 : i / 16 / 16 / 16 / 16 ≡ j / 16 / 16 / 16 / 16 = omega (arith, e5, d4) in
    let e3 : i / 16 / 16 / 16 ≡ j / 16 / 16 / 16 = omega (arith, e4, d3) in
    let e2 : i / 16 / 16 ≡ j / 16 / 16 = omega (arith, e3, d2) in
    let e1 : i / 16 ≡ j / 16 = omega (arith, e2, d1) in omega (arith, e1, d0)

max_of_two : max_token_from_level (pos 2) ≡ 2425000
unfolding max_token_from_level token_map
max_of_two = refl

max_of_one : max_token_from_level (pos 1) ≡ 5000000
unfolding max_token_from_level token_map
max_of_one = refl

validate_whole_token-get_token_string_example :
    validate_whole_token hex (get_token_string hex 2 1234567) ≡ done (pos 2, pos 1234567, false)
validate_whole_token-get_token_string_example =
    validate_whole_token-get_token_string hex hex-IsHexText 2 1234567
      (hex-NoCollision (max_token_from_level (pos 2)) (omega (arith, max_of_two)))
      (omega (arith, max_of_two))

validate_whole_token-get_level_one_token_string_example :
    validate_whole_token hex (get_level_one_token_string hex 1 42) ≡ done (pos 1, pos 42, true)
validate_whole_token-get_level_one_token_string_example =
    validate_whole_token-get_level_one_token_string hex hex-IsHexText 1 42
      (hex-NoCollision (max_token_from_level (pos 1)) (omega (arith, max_of_one)))
      (omega (arith, max_of_one))

read_three : validate_whole_token hex (get_token_string hex 2 3) ≡ done (pos 2, pos 3, false)
unfolding validate_whole_token get_token_string get_whole_token_value calc_sha256 calc_from
    max_token_from_level token_map level_of is_level_one split_text pad zeros decimal decimal_from
    atoi read_number read_digits trim_space trim_left trim_right is_space is_empty same_text
read_three = refl

validate_whole_token-inv_example :
    (level : List ℕ) × (tn : ℕ) × (trim_space (get_token_string hex 2 3) ≡ level ++ hex tn)
    × (level_of level ≡ done (pos 2, false))
    × (pos 3 ≡ pos tn)
    × (validate_token_detials (pos 2) (pos 3) ≡ true)
validate_whole_token-inv_example =
    validate_whole_token-inv hex (get_token_string hex 2 3) read_three

-- Part tokens of the test network are not whole: their text has three parts.
check_whole_token-part : check_whole_token (49 ∷ 44 ∷ 50 ∷ 44 ∷ 51 ∷ []) true ≡ done false
unfolding check_whole_token trim_space trim_left trim_right is_space is_empty commas
check_whole_token-part = refl
