-- ===== src/Nlss/Share/Complies.antt =====
-- nlss/secretshare.go: a share that is returned encodes its secret, and both of its rows are
-- eight bits long.
use rubixgoplatform.Prelude.{
  ℕ, zero, suc, ◌%◌, ◌<◌, List, [], ◌∷◌, some, leb, ltb, ◌==◌, length, get_elem?, Bool, true, ◌&&◌,
  ◌≡◌, refl, All, arith, if-inv, >>=-eq-some, inl, inr, ==_iff, subst, ap, ◌∙◌, sym, some_eq,
}
use rubixgoplatform.Nlss.Tables.{v4, v8, la, generator}
use rubixgoplatform.Nlss.Share.{
  SecretShare, gen_array, dot, check_comply, starts, add_mod2, secret_row, mult_matrix,
  mult_columns,
}

abbrev pub IsBit : ℕ → Type 0
IsBit x = x < 2

abbrev pub IsBitRow : List ℕ → Type 0
IsBitRow r = (length r ≡ 8) × All IsBit r

all_bits : List ℕ → Bool
all_bits [] = true
all_bits (x ∷ xs) = ltb x 2 && all_bits xs

all_bit_rows : List (List ℕ) → Bool
unfolding all_bits
all_bit_rows [] = true
all_bit_rows (r ∷ rs) = length r == 8 && all_bits r && all_bit_rows rs

all_bits-All : (xs : List ℕ) → all_bits xs ≡ true → All IsBit xs
unfolding all_bits
all_bits-All [] h = tt
all_bits-All (x ∷ xs) h = (ground arith, all_bits-All xs (ground arith))

get_elem?-IsBitRow :
    (rs : List (List ℕ)) (i : ℕ) {r : List ℕ}
    → all_bit_rows rs ≡ true
    → get_elem? rs i ≡ some r
    → IsBitRow r
unfolding all_bit_rows
get_elem?-IsBitRow [] i h e = cc
get_elem?-IsBitRow (x ∷ rs) zero {r} h e =
    subst IsBitRow (some_eq e) (ground arith, all_bits-All x (ground arith))
get_elem?-IsBitRow (x ∷ rs) (suc i) h e = get_elem?-IsBitRow rs i (ground arith) e

-- What a draw from a table returns stands in the table.
pub gen_array-inv :
    (arr : List (List ℕ)) (draws : List ℕ) {row rest : List ℕ}
    → gen_array arr draws ≡ some (row, rest)
    → (i : ℕ) × (get_elem? arr i ≡ some row)
unfolding gen_array
gen_array-inv arr [] h = cc
gen_array-inv arr (d ∷ ds) h = (d % length arr, ground arith)

v8_rows : all_bit_rows v8 ≡ true
unfolding v8 all_bit_rows
v8_rows = refl

la_rows : all_bit_rows la ≡ true
unfolding la all_bit_rows
la_rows = refl

pub la-IsBitRow : (i : ℕ) {r : List ℕ} → get_elem? la i ≡ some r → IsBitRow r
la-IsBitRow i e = get_elem?-IsBitRow la i la_rows e

gen_v8-IsBitRow :
    (draws : List ℕ) {row rest : List ℕ} → gen_array v8 draws ≡ some (row, rest) → IsBitRow row
gen_v8-IsBitRow draws h = let (i, e) = gen_array-inv v8 draws h in get_elem?-IsBitRow v8 i v8_rows e

-- What the search for a candidate ends with.
abbrev Complying : ℕ → List ℕ → List ℕ → Type 0
Complying s s0 y = (dot y s0 % 2 ≡ s) × IsBitRow y

check_comply-Complying :
    (fuel s : ℕ) (cand s0 draws : List ℕ) {y rest : List ℕ}
    → IsBitRow cand
    → check_comply fuel s cand s0 draws ≡ some (y, rest)
    → Complying s s0 y
unfolding check_comply
check_comply-Complying zero s cand s0 draws c h = cc
check_comply-Complying (suc fuel) s cand s0 draws {y} {rest} c h = elim (if-inv (sum == s) h) [
  | inl (e, h1) ↦ elim (if-inv (leb sum s) h1) [
    | inl (_, kept) ↦ subst (λ z. Complying s s0 z.0) (some_eq kept) ((==_iff sum s).0 e, c)
    | inr (_, h2) ↦ check_comply-Complying fuel s cand s0 draws c h2
  ]
  | inr (_, h1) ↦
      let (r, drawn, h2) = >>=-eq-some (gen_array v8 draws) _ h1 in
      let (r', found, h3) = >>=-eq-some (check_comply fuel s r.0 s0 r.1) _ h2 in
      let good = check_comply-Complying fuel s r.0 s0 r.1 (gen_v8-IsBitRow draws drawn) found in
      elim (if-inv (leb sum s) h3) [
        | inl (_, kept) ↦ subst (λ z. Complying s s0 z.0) (some_eq kept) good
        | inr (_, h4) ↦ check_comply-Complying fuel s r'.0 s0 r'.1 good.1 h4
      ]
]
  where
    sum : ℕ
    sum = dot cand s0 % 2

length-mult_columns :
    (n i : ℕ) (first : List ℕ) (second : List (List ℕ)) (c1 : ℕ)
    → length (mult_columns n i first second c1) ≡ n
unfolding mult_columns
length-mult_columns zero i first second c1 = refl
length-mult_columns (suc n) i first second c1 =
    ap suc (length-mult_columns n (suc i) first second c1)

add_mod2-bits :
    (temp alpha : List ℕ)
    → length temp ≡ length alpha
    → (length (add_mod2 temp alpha) ≡ length alpha) × All IsBit (add_mod2 temp alpha)
unfolding add_mod2
add_mod2-bits temp [] h = (refl, tt)
add_mod2-bits [] (a ∷ alpha) h = absurd (omega arith)
add_mod2-bits (t ∷ temp) (a ∷ alpha) h =
    let ih = add_mod2-bits temp alpha (omega arith) in (omega (arith, ih.0), (omega arith, ih.1))

pub secret_row-IsBitRow : (x1 alpha1 : List ℕ) → length alpha1 ≡ 8 → IsBitRow (secret_row x1 alpha1)
unfolding secret_row mult_matrix
secret_row-IsBitRow x1 alpha1 h =
    let r =
      add_mod2-bits (mult_columns 8 0 x1 generator 4) alpha1
        (length-mult_columns 8 0 x1 generator 4 ∙ sym h) in
    (r.0 ∙ h, r.1)

-- What `Starts` returns for the secret `s`.
pub record Encodes (s : ℕ) (share : SecretShare) : Type 0 where
  pub parity : dot share.y1 share.s0 % 2 ≡ s
  pub y1_row : IsBitRow share.y1
  pub s0_row : IsBitRow share.s0

-- Whatever is drawn, a share that `Starts` returns encodes the secret bit as the parity of the
-- product of its two rows, and both rows are eight bits.
pub starts-Encodes :
    (s : ℕ) (draws : List ℕ) {share : SecretShare} {rest : List ℕ}
    → starts s draws ≡ some (share, rest)
    → Encodes s share
unfolding starts
starts-Encodes s draws {share} h =
    let (r1, _, h1) = >>=-eq-some (gen_array v4 draws) _ h in
    let (r2, drawn2, h2) = >>=-eq-some (gen_array la r1.1) _ h1 in
    let (r3, drawn3, h3) = >>=-eq-some (gen_array v8 r2.1) _ h2 in
    let s0 = secret_row r1.0 r2.0 in
    let (r4, found, h4) = >>=-eq-some (check_comply (suc (length r3.1)) s r3.0 s0 r3.1) _ h3 in
    let good =
      check_comply-Complying (suc (length r3.1)) s r3.0 s0 r3.1 (gen_v8-IsBitRow r2.1 drawn3)
        found in
    let (i, at) = gen_array-inv la r1.1 drawn2 in
    let alpha = la-IsBitRow i at in
    subst (Encodes s) (ap (λ r. r.0) (some_eq h4))
      (record { parity = good.0; y1_row = good.1; s0_row = secret_row-IsBitRow r1.0 r2.0 alpha.0 })
