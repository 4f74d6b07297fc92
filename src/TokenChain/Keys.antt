-- ===== src/TokenChain/Keys.antt =====
-- core/wallet/token_chain.go: the order of the keys is the order of the block numbers.
use rubixgoplatform.Prelude.{
  ℕ, zero, suc, ◌+◌, ◌*◌, ◌-◌, ◌/◌, ◌%◌, ◌^◌, ◌<◌, ◌≡◌, ◌≢◌, ◌⊎◌, inl, inr, refl, List, [], ◌∷◌,
  ◌++◌, some, none, true, ltb, leb, if◌then◌else◌, ltb→lt, some_eq, length, length-append, All,
  arith, sym, subst, Bool-cases, ne→==_false, Option-cases, ◌&&◌,
}
use mathlib.Core.List.{append_assoc}
use rubixgoplatform.TokenAuth.Decimal.{read_number, read_digits}
use rubixgoplatform.Blocks.{parse_uint64}
use rubixgoplatform.TokenChain.Order.{LexLt}
use rubixgoplatform.TokenChain.{
  tcs_prefix, push_char, split_dash, hex_digit, hex_text, key_of_pieces, tcs_key,
}

pub LexLt-asym : (xs ys : List ℕ) → LexLt xs ys → LexLt ys xs → ⊥
LexLt-asym [] [] h k = h
LexLt-asym [] (y ∷ ys) h k = k
LexLt-asym (x ∷ xs) [] h k = h
LexLt-asym (x ∷ xs) (y ∷ ys) (inl h) (inl k) = omega arith
LexLt-asym (x ∷ xs) (y ∷ ys) (inl h) (inr (e, k)) = omega arith
LexLt-asym (x ∷ xs) (y ∷ ys) (inr (e, h)) (inl k) = omega arith
LexLt-asym (x ∷ xs) (y ∷ ys) (inr (e, h)) (inr (_, k)) = LexLt-asym xs ys h k

-- A common beginning makes no difference.
pub LexLt-append : (p xs ys : List ℕ) → LexLt xs ys → LexLt (p ++ xs) (p ++ ys)
LexLt-append [] xs ys h = h
LexLt-append (c ∷ p) xs ys h = inr (refl, LexLt-append p xs ys h)

hex_digit_lt : (d e : ℕ) → d < e → hex_digit d < hex_digit e
hex_digit_lt d e h = ground arith

smaller : (w n : ℕ) → n < 16 ^ suc w → n / 16 < 16 ^ w
smaller w n h = omega arith

halves : (m n : ℕ) → m < n → (m / 16 < n / 16) ⊎ ((n / 16 ≡ m / 16) × (m % 16 < n % 16))
halves m n h = elim (Bool-cases (ltb (m / 16) (n / 16))) [
  | inl e ↦ inl (ground arith)
  | inr e ↦ inr (ground arith)
]

-- Hexadecimal texts of one width are in the order of the numbers.
pub LexLt-hex_text :
    (w m n : ℕ) (a b : List ℕ) → n < 16 ^ w → m < n → LexLt (hex_text w m ++ a) (hex_text w n ++ b)
unfolding hex_text
LexLt-hex_text zero m n a b small h = absurd (omega arith)
LexLt-hex_text (suc w) m n a b small h = elim (halves m n h) [
  | inl above ↦
      subst (λ z. LexLt z (hex_text (suc w) n ++ b))
        (sym (append_assoc (hex_text w (m / 16)) (hex_digit (m % 16) ∷ []) a))
        (subst (LexLt (hex_text w (m / 16) ++ hex_digit (m % 16) ∷ a))
          (sym (append_assoc (hex_text w (n / 16)) (hex_digit (n % 16) ∷ []) b))
          (LexLt-hex_text w (m / 16) (n / 16) (hex_digit (m % 16) ∷ a) (hex_digit (n % 16) ∷ b)
            (smaller w n small) above))
  | inr (same, digits) ↦
      subst (λ z. LexLt z (hex_text (suc w) n ++ b))
        (sym (append_assoc (hex_text w (m / 16)) (hex_digit (m % 16) ∷ []) a))
        (subst (LexLt (hex_text w (m / 16) ++ hex_digit (m % 16) ∷ a))
          (sym (append_assoc (hex_text w (n / 16)) (hex_digit (n % 16) ∷ []) b))
          (subst
            (λ k.
              LexLt (hex_text w (m / 16) ++ hex_digit (m % 16) ∷ a)
                (hex_text w k ++ hex_digit (n % 16) ∷ b))
            (sym same)
            (LexLt-append (hex_text w (m / 16)) (hex_digit (m % 16) ∷ a) (hex_digit (n % 16) ∷ b)
              (inl (hex_digit_lt (m % 16) (n % 16) digits)))))
]

-- Texts without a dash.
abbrev pub NoDash : List ℕ → Type 0
NoDash text = All (λ c. c ≢ 45) text

split_dash-NoDash : (text : List ℕ) → NoDash text → split_dash text ≡ text ∷ []
unfolding split_dash push_char
split_dash-NoDash [] h = refl
split_dash-NoDash (c ∷ cs) (hc, h) = rw (ne→==_false c 45 hc, split_dash-NoDash cs h) refl

split_dash-two : (a b : List ℕ) → NoDash a → NoDash b → split_dash (a ++ 45 ∷ b) ≡ a ∷ b ∷ []
unfolding split_dash push_char
split_dash-two [] b h k = rw (split_dash-NoDash b k) refl
split_dash-two (c ∷ a) b (hc, h) k = rw (ne→==_false c 45 hc, split_dash-two a b h k) refl

no_value : {A : Type 0} {a : A} → none ≡ some a → ⊥
no_value e = cc

read_digits-NoDash : (v : ℕ) (text : List ℕ) {n : ℕ} → read_digits v text ≡ some n → NoDash text
unfolding read_digits
read_digits-NoDash v [] h = tt
read_digits-NoDash v (c ∷ cs) {n} h = elim (Bool-cases (leb 48 c && leb c 57)) [
  | inl digit ↦ (not_dash c digit, read_digits-NoDash (10 * v + (c - 48)) cs (rw digit at h))
  | inr other ↦ absurd (no_value (rw other at h))
]
  where
    not_dash : (c : ℕ) → (leb 48 c && leb c 57) ≡ true → c ≡ 45 → ⊥
    not_dash c h e = ground arith

bounded : (v : ℕ) {n : ℕ} → (if ltb v (2 ^ 64) then some v else none) ≡ some n → n < 2 ^ 64
bounded v {n} h = elim (Bool-cases (ltb v (2 ^ 64))) [
  | inl small ↦ subst (λ k. k < 2 ^ 64) (some_eq (rw small at h)) (ltb→lt v (2 ^ 64) small)
  | inr large ↦ absurd (no_value (rw large at h))
]

pub parse_uint64-NoDash :
    (text : List ℕ) {n : ℕ} → parse_uint64 text ≡ some n → NoDash text × (n < 2 ^ 64)
unfolding parse_uint64 read_number
parse_uint64-NoDash [] h = absurd (no_value h)
parse_uint64-NoDash (c ∷ cs) {n} h = elim (Option-cases (read_digits 0 (c ∷ cs))) [
  | inl bad ↦ absurd (no_value (rw (bad, parse_uint64, read_number) at h))
  | inr (v, good) ↦
      (read_digits-NoDash 0 (c ∷ cs) good, bounded v (rw (good, parse_uint64, read_number) at h))
]

-- The key of a block identifier.
pub tcs_key-eq :
    (token_type : ℕ) (token bns h : List ℕ) {n : ℕ}
    → parse_uint64 bns ≡ some n
    → NoDash h
    → tcs_key token_type token (bns ++ 45 ∷ h)
      ≡ tcs_prefix token_type token ++ (hex_text 16 n ++ 45 ∷ h)
unfolding tcs_key key_of_pieces
tcs_key-eq token_type token bns h parsed dashes =
    rw (split_dash-two bns h (parse_uint64-NoDash bns parsed).0 dashes, parsed, key_of_pieces) refl

pub length-hex_text : (w n : ℕ) → length (hex_text w n) ≡ w
unfolding hex_text
length-hex_text zero n = refl
length-hex_text (suc w) n = omega (
  arith,
  length-append (hex_text w (n / 16)) (hex_digit (n % 16) ∷ []),
  length-hex_text w (n / 16),
)
