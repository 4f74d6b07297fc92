-- ===== src/TokenAuth/Text.antt =====
-- What token/token_auth.go uses of `strings`, on ASCII texts.
use rubixgoplatform.Prelude.{
  ℕ, suc, ◌≤◌, List, [], ◌∷◌, leb, ◌==◌, if◌then◌else◌, Bool, true, false, ◌&&◌, ◌||◌, All, ◌≡◌,
  refl, arith, ap, ◌∙◌, Bool-cases, inl, inr, ==_iff, ==_refl,
}

-- Tab to carriage return, and the space.
unfoldable pub is_space : ℕ → Bool
is_space c = c == 32 || leb 9 c && leb c 13

unfoldable pub trim_left : List ℕ → List ℕ
unfolding is_space
trim_left [] = []
trim_left (c ∷ cs) = let rest = trim_left cs in if is_space c then rest else c ∷ cs

unfoldable pub is_empty : List ℕ → Bool
is_empty [] = true
is_empty (c ∷ cs) = false

unfoldable pub trim_right : List ℕ → List ℕ
unfolding is_space is_empty
trim_right [] = []
trim_right (c ∷ cs) =
    let rest = trim_right cs in if is_space c && is_empty rest then [] else c ∷ rest

-- `strings.TrimSpace`.
unfoldable pub trim_space : List ℕ → List ℕ
unfolding trim_left trim_right
trim_space text = trim_right (trim_left text)

-- `strings.Compare(a, b) == 0`.
unfoldable pub same_text : List ℕ → List ℕ → Bool
same_text [] [] = true
same_text [] (c ∷ cs) = false
same_text (b ∷ bs) [] = false
same_text (b ∷ bs) (c ∷ cs) = b == c && same_text bs cs

-- Of `strings.Split(text, ",")`: the first piece, and one less than the number of pieces.
unfoldable pub before_comma : List ℕ → List ℕ
before_comma [] = []
before_comma (c ∷ cs) = let rest = before_comma cs in if c == 44 then [] else c ∷ rest

unfoldable pub commas : List ℕ → ℕ
commas [] = 0
commas (c ∷ cs) = if c == 44 then suc (commas cs) else commas cs

-- A byte that is printed, and so no space, and no comma.
abbrev pub IsVisible : ℕ → Type 0
IsVisible c = 48 ≤ c

is_space-IsVisible : (c : ℕ) → IsVisible c → is_space c ≡ false
unfolding is_space
is_space-IsVisible c h = ground arith

trim_left-IsVisible : (text : List ℕ) → All IsVisible text → trim_left text ≡ text
unfolding trim_left
trim_left-IsVisible [] h = refl
trim_left-IsVisible (c ∷ cs) (v, h) = rw (is_space-IsVisible c v) refl

trim_right-IsVisible : (text : List ℕ) → All IsVisible text → trim_right text ≡ text
unfolding trim_right
trim_right-IsVisible [] h = refl
trim_right-IsVisible (c ∷ cs) (v, h) =
    rw (is_space-IsVisible c v) (ap (λ z. c ∷ z) (trim_right-IsVisible cs h))

pub trim_space-IsVisible : (text : List ℕ) → All IsVisible text → trim_space text ≡ text
unfolding trim_space
trim_space-IsVisible text h =
    ap trim_right (trim_left-IsVisible text h) ∙ trim_right-IsVisible text h

pub same_text_refl : (text : List ℕ) → same_text text text ≡ true
unfolding same_text
same_text_refl [] = refl
same_text_refl (c ∷ cs) = rw (==_refl c, same_text_refl cs) refl

pub same_text-eq : (a b : List ℕ) → same_text a b ≡ true → a ≡ b
unfolding same_text
same_text-eq [] [] h = refl
same_text-eq [] (c ∷ cs) h = cc
same_text-eq (b ∷ bs) [] h = cc
same_text-eq (b ∷ bs) (c ∷ cs) h = elim (Bool-cases (b == c)) [
  | inl e ↦
      let rest : same_text bs cs ≡ true = rw e at h in
      let head = (==_iff b c).0 e in
      ap (λ z. z ∷ bs) head ∙ ap (λ z. c ∷ z) (same_text-eq bs cs rest)
  | inr e ↦ absurd (no_head h e)
]
  where
    no_head : ((b == c) && same_text bs cs) ≡ true → (b == c) ≡ false → ⊥
    no_head h e = ground arith
