-- ===== src/TokenAuth.antt =====
-- token/token_auth.go: the text of an RBT token, its level and the SHA-256 of its number. Texts are
-- lists of ASCII bytes. `hex` is a parameter, the hexadecimal SHA-256 of a number's decimal text.
pub mod Levels
pub mod Decimal
pub mod Text
pub mod Search
pub mod Validates
pub mod Accepts
use rubixgoplatform.Prelude.{
  ℕ, zero, suc, ◌-◌, List, [], ◌∷◌, ◌++◌, Option, none, some, ltb, leb, ◌==◌, if◌then◌else◌, length,
  get_or, take, drop, Bool, true, false, ◌&&◌,
}
use rubixgoplatform.Prelude.Outcome.{Outcome, done, failed, panicked}
use Levels.{token_map}
use Decimal.{ℤ, pos, negsuc, atoi, decimal, pad}
use Text.{trim_space, same_text, before_comma, commas}

-- A missing level has the map's zero value.
unfoldable pub max_token_from_level : ℤ → ℕ
max_token_from_level (pos l) = get_or token_map l 0
max_token_from_level (negsuc l) = 0

unfoldable pub validate_token_detials : ℤ → ℤ → Bool
unfolding max_token_from_level
validate_token_detials tl (negsuc n) = false
validate_token_detials tl (pos n) = ltb n (max_token_from_level tl)

unfoldable pub is_level_one : ℤ → Bool
is_level_one (pos l) = l == 1
is_level_one (negsuc l) = false

-- The tests of `GetWholeTokenValue` on the text of the level.
unfoldable pub level_of : List ℕ → Outcome (ℤ × Bool)
unfolding is_level_one
level_of level = elim (atoi level) [
  | none ↦ failed
  | some l ↦
      if ltb (length level) 3
      then if is_level_one l then done (l, true) else failed
      else done (l, false)
]

-- `text[:len(text)-64]` and `text[len(text)-64:]`, which panic on a shorter text.
unfoldable pub split_text : List ℕ → Option (List ℕ × List ℕ)
split_text t =
    if ltb (length t) 64 then none else some (take (length t - 64) t, drop (length t - 64) t)

unfoldable pub get_whole_token_value : List ℕ → Outcome (ℤ × List ℕ × Bool)
unfolding level_of split_text
get_whole_token_value details = elim (split_text (trim_space details)) [
  | none ↦ panicked
  | some (level, hash) ↦ elim (level_of level) [
    | done (l, migrate) ↦ done (l, hash, migrate)
    | failed ↦ failed
    | panicked ↦ panicked
  ]
]

-- `CheckWholeToken`: whether the token is whole. The text it also returns is always empty.
unfoldable pub check_whole_token : List ℕ → Bool → Outcome Bool
unfolding level_of split_text
check_whole_token details test_net =
    let trimmed = trim_space details in
    if test_net && commas trimmed == 2
    then done false
    else elim (split_text (before_comma trimmed)) [
      | none ↦ panicked
      | some (level, hash) ↦ elim (level_of level) [
        | done _ ↦ done true
        | failed ↦ failed
        | panicked ↦ panicked
      ]
    ]

module _ (hex : ℕ → List ℕ) where
  -- The loop of `calcSHA256` from `i` on, in `n` rounds.
  unfoldable pub calc_from : ℕ → ℕ → List ℕ → ℤ
  calc_from zero i target = negsuc 0
  calc_from (suc n) i target =
      let rest = calc_from n (suc i) target in if same_text (hex i) target then pos i else rest

  unfoldable pub calc_sha256 : List ℕ → ℕ → ℤ
  unfolding calc_from
  calc_sha256 target max = calc_from max 0 target

  unfoldable pub validate_whole_token : List ℕ → Outcome (ℤ × ℤ × Bool)
  unfolding get_whole_token_value calc_sha256 max_token_from_level
  validate_whole_token details = elim (get_whole_token_value details) [
    | failed ↦ failed
    | panicked ↦ panicked
    | done (l, hash, migrate) ↦ elim (calc_sha256 hash (max_token_from_level l)) [
      | pos n ↦ done (l, pos n, migrate)
      | negsuc n ↦ failed
    ]
  ]

  unfoldable pub get_token_string : ℕ → ℕ → List ℕ
  get_token_string tl tn = pad 3 (decimal tl) ++ hex tn

  unfoldable pub get_level_one_token_string : ℕ → ℕ → List ℕ
  get_level_one_token_string tl tn =
      (if tl == 1 then pad 2 (decimal tl) else pad 3 (decimal tl)) ++ hex tn
