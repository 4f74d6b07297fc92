-- ===== src/TokenAuth/Validates.antt =====
-- token/token_auth.go: `ValidateWholeToken` on the texts that the module makes of tokens.
use rubixgoplatform.Prelude.{
  ℕ, zero, suc, ◌-◌, ◌<◌, List, [], ◌∷◌, ◌++◌, some, ltb, leb, ◌==◌, length, length-append, get_or,
  take, drop, Bool, true, false, ◌&&◌, All, ◌≡◌, refl, arith, sym, ap, subst, Bool-cases, inl, inr,
  ==_iff, le→ltb_false, leb→le, holds_below, holds_below-at,
}
use rubixgoplatform.TokenAuth.Levels.{token_map}
use rubixgoplatform.TokenAuth.Decimal.{
  ℤ, pos, negsuc, atoi, decimal, decimal_from, pad, zeros, read_digits, read_number,
}
use rubixgoplatform.TokenAuth.Text.{IsVisible, trim_space-IsVisible}
use rubixgoplatform.TokenAuth.Search.{NoCollision, calc_sha256-finds}
use rubixgoplatform.Prelude.Outcome.{Outcome, done, failed, panicked}
use rubixgoplatform.TokenAuth.{
  max_token_from_level, level_of, is_level_one, split_text, get_whole_token_value,
  validate_whole_token, get_token_string, get_level_one_token_string,
}

-- What the code relies on of a hash: 64 digits, of 0 to 9 and a to f.
abbrev pub IsHexText : List ℕ → Type 0
IsHexText text = (length text ≡ 64) × All IsVisible text

take-of-append : (a b : List ℕ) → take (length a) (a ++ b) ≡ a
take-of-append [] b = refl
take-of-append (x ∷ a) b = ap (λ z. x ∷ z) (take-of-append a b)

drop-of-append : (a b : List ℕ) → drop (length a) (a ++ b) ≡ b
drop-of-append [] b = refl
drop-of-append (x ∷ a) b = drop-of-append a b

All-append : (a b : List ℕ) → All IsVisible a → All IsVisible b → All IsVisible (a ++ b)
All-append [] b h k = k
All-append (x ∷ a) b (v, h) k = (v, All-append a b h k)

split_text-append : (a b : List ℕ) → length b ≡ 64 → split_text (a ++ b) ≡ some (a, b)
unfolding split_text
split_text-append a b h =
    let n = length-append a b in
    let cut : length (a ++ b) - 64 ≡ length a = omega (arith, n, h) in
    let long : ltb (length (a ++ b)) 64 ≡ false =
      le→ltb_false (length (a ++ b)) 64 (omega (arith, n, h)) in
    rw (long, cut, take-of-append a b, drop-of-append a b) refl

get_whole_token_value-append :
    (level hash : List ℕ) (l : ℤ) (migrate : Bool)
    → All IsVisible level
    → IsHexText hash
    → level_of level ≡ done (l, migrate)
    → get_whole_token_value (level ++ hash) ≡ done (l, hash, migrate)
unfolding get_whole_token_value
get_whole_token_value-append level hash l migrate v (h, vh) at =
    rw
      (
        trim_space-IsVisible (level ++ hash) (All-append level hash v vh),
        split_text-append level hash h,
        at,
        get_whole_token_value,
      )
      refl

-- The test that the text of a level is visible and read back.
reads_back : ℕ → Outcome (ℤ × Bool) → Bool
reads_back l (done (pos n, false)) = n == l
reads_back l _ = false

visible : List ℕ → Bool
visible [] = true
visible (c ∷ cs) = leb 48 c && visible cs

visible-IsVisible : (text : List ℕ) → visible text ≡ true → All IsVisible text
unfolding visible
visible-IsVisible [] h = tt
visible-IsVisible (c ∷ cs) h = elim (Bool-cases (leb 48 c)) [
  | inl e ↦ (leb→le 48 c e, visible-IsVisible cs (rw e at h))
  | inr e ↦ absurd (hidden e)
]
  where
    hidden : leb 48 c ≡ false → ⊥
    hidden e = ground arith

reads_back-eq : (l : ℕ) (o : Outcome (ℤ × Bool)) → reads_back l o ≡ true → o ≡ done (pos l, false)
unfolding reads_back
reads_back-eq l (done (pos n, false)) h = ap (λ z. done (pos z, false)) ((==_iff n l).0 h)
reads_back-eq l (done (pos n, true)) h = cc
reads_back-eq l (done (negsuc n, b)) h = cc
reads_back-eq l failed h = cc
reads_back-eq l panicked h = cc

level_table :
    holds_below 79 (λ l. reads_back l (level_of (pad 3 (decimal l))) && visible (pad 3 (decimal l)))
    ≡ true
unfolding holds_below reads_back visible level_of is_level_one pad zeros decimal decimal_from atoi
    read_number read_digits
level_table = refl

level_of-pad :
    (l : ℕ)
    → l < 79
    → (level_of (pad 3 (decimal l)) ≡ done (pos l, false)) × All IsVisible (pad 3 (decimal l))
level_of-pad l small =
    let both = parts (reads_back l (level_of (pad 3 (decimal l)))) (visible (pad 3 (decimal l))) (
      holds_below-at 79
        (λ l. reads_back l (level_of (pad 3 (decimal l))) && visible (pad 3 (decimal l))) l small
        level_table) in
    (
      reads_back-eq l (level_of (pad 3 (decimal l))) both.0,
      visible-IsVisible (pad 3 (decimal l)) both.1,
    )
  where
    parts : (a b : Bool) → (a && b) ≡ true → (a ≡ true) × (b ≡ true)
    parts a b h = ground arith

get_or-in : (xs : List ℕ) (i n : ℕ) → n < get_or xs i 0 → i < length xs
get_or-in [] i n h = absurd (omega arith)
get_or-in (x ∷ xs) zero n h = omega arith
get_or-in (x ∷ xs) (suc i) n h = let lt = get_or-in xs i n h in omega arith

length-token_map : length token_map ≡ 79
unfolding token_map
length-token_map = refl

token_level-lt : (tl tn : ℕ) → tn < max_token_from_level (pos tl) → tl < 79
unfolding max_token_from_level
token_level-lt tl tn h = subst (λ n. tl < n) length-token_map (get_or-in token_map tl tn h)

level_one : (level_of (pad 2 (decimal 1)) ≡ done (pos 1, true)) × All IsVisible (pad 2 (decimal 1))
unfolding level_of is_level_one pad zeros decimal decimal_from atoi read_number read_digits
level_one = (refl, (omega arith, (omega arith, tt)))

module _ (hex : ℕ → List ℕ) (hashes : (n : ℕ) → IsHexText (hex n)) where
  -- What `ValidateWholeToken` makes of a level's text and a number's hash.
  validate-append :
      (level : List ℕ) (tl tn : ℕ) (migrate : Bool)
      → NoCollision hex (max_token_from_level (pos tl))
      → tn < max_token_from_level (pos tl)
      → All IsVisible level
      → level_of level ≡ done (pos tl, migrate)
      → validate_whole_token hex (level ++ hex tn) ≡ done (pos tl, pos tn, migrate)
  unfolding validate_whole_token
  validate-append level tl tn migrate free lt v at =
      rw
        (
          get_whole_token_value-append level (hex tn) (pos tl) migrate v (hashes tn) at,
          calc_sha256-finds hex (max_token_from_level (pos tl)) tn free lt,
          validate_whole_token,
        )
        refl

  -- `ValidateWholeToken` reads back the text that `GetTokenString` makes of a level and a number
  -- below the level's bound, if no two numbers below the bound have the same hash.
  pub validate_whole_token-get_token_string :
      (tl tn : ℕ)
      → NoCollision hex (max_token_from_level (pos tl))
      → tn < max_token_from_level (pos tl)
      → validate_whole_token hex (get_token_string hex tl tn) ≡ done (pos tl, pos tn, false)
  unfolding get_token_string
  validate_whole_token-get_token_string tl tn free lt =
      let level = level_of-pad tl (token_level-lt tl tn lt) in
      validate-append (pad 3 (decimal tl)) tl tn false free lt level.1 level.0

  -- The text that `GetLevelOneTokenString` makes is read back too, and only that of level 1 is said
  -- to need migration.
  pub validate_whole_token-get_level_one_token_string :
      (tl tn : ℕ)
      → NoCollision hex (max_token_from_level (pos tl))
      → tn < max_token_from_level (pos tl)
      → validate_whole_token hex (get_level_one_token_string hex tl tn)
        ≡ done (pos tl, pos tn, tl == 1)
  unfolding get_level_one_token_string get_token_string
  validate_whole_token-get_level_one_token_string tl tn free lt = elim (Bool-cases (tl == 1)) [
    | inr other ↦ rw other (validate_whole_token-get_token_string tl tn free lt)
    | inl one ↦
        let same = (==_iff tl 1).0 one in
        rw one (
          validate-append (pad 2 (decimal tl)) tl tn true free lt
            (subst (λ n. All IsVisible (pad 2 (decimal n))) (sym same) level_one.1)
            (subst (λ n. level_of (pad 2 (decimal n)) ≡ done (pos n, true)) (sym same) level_one.0))
  ]
