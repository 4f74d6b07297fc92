-- ===== src/Nlss/Share.antt =====
-- nlss/secretshare.go: one secret bit shared as two rows of eight bits. A value of `crypto/rand`
-- is an argument: the draws that are still to come, each reduced to the range that is asked for.
-- Running off the end of the draws, or of the fuel, is `none`.
pub mod Complies
pub mod Termination
use rubixgoplatform.Prelude.{
  ℕ, zero, suc, ◌+◌, ◌*◌, ◌%◌, List, [], ◌∷◌, Option, none, some, leb, ◌==◌, if◌then◌else◌, length,
  get_elem?, get_or, ◌>>=◌, Bool, true, false,
}
use rubixgoplatform.Nlss.Tables.{v4, v8, la, generator}

-- `GetRandNumber`.
unfoldable pub get_rand_number : ℕ → List ℕ → Option (ℕ × List ℕ)
get_rand_number max [] = none
get_rand_number max (d ∷ ds) = some (d % max, ds)

-- `GenArray`: its argument `size` is not read.
unfoldable pub gen_array : List (List ℕ) → List ℕ → Option (List ℕ × List ℕ)
unfolding get_rand_number
gen_array arr draws = do
  (r, rest) ← get_rand_number (length arr) draws
  row ← get_elem? arr r
  some (row, rest)

-- The sum of `f i` for i from `i` on, in `n` rounds.
unfoldable pub sum_from : ℕ → ℕ → (ℕ → ℕ) → ℕ
sum_from zero i f = 0
sum_from (suc n) i f = f i + sum_from n (suc i) f

abbrev entry : List (List ℕ) → ℕ → ℕ → ℕ
entry m j i = get_or (get_or m j []) i 0

-- The columns of `MultMatrix` from `i` on, in `n` rounds.
unfoldable pub mult_columns : ℕ → ℕ → List ℕ → List (List ℕ) → ℕ → List ℕ
unfolding sum_from
mult_columns zero i first second c1 = []
mult_columns (suc n) i first second c1 =
    sum_from c1 0 (λ j. entry second j i * get_or first j 0)
    ∷ mult_columns n (suc i) first second c1

-- `MultMatrix`. Its calls stay within the matrices.
unfoldable pub mult_matrix : List ℕ → List (List ℕ) → ℕ → ℕ → List ℕ
unfolding mult_columns
mult_matrix first second c1 c2 = mult_columns c2 0 first second c1

-- The sum of products that `CheckComply` and `CheckShare` form. Both rows have eight entries.
unfoldable pub dot : List ℕ → List ℕ → ℕ
dot [] ys = 0
dot (x ∷ xs) [] = 0
dot (x ∷ xs) (y ∷ ys) = x * y + dot xs ys

-- `CheckComply`: on a candidate of the wrong parity a new one is drawn and checked by a recursive
-- call, and the loop goes round again unless the old sum was at most the secret.
unfoldable pub check_comply : ℕ → ℕ → List ℕ → List ℕ → List ℕ → Option (List ℕ × List ℕ)
check_comply zero s cand s0 draws = none
check_comply (suc fuel) s cand s0 draws =
    let sum = dot cand s0 % 2 in
    let redrawn = λ (r : List ℕ × List ℕ). check_comply fuel s r.0 s0 r.1 in
    let again = check_comply fuel s cand s0 draws in
    if sum == s
    then if leb sum s then some (cand, draws) else again
    else (gen_array v8 draws >>= λ r. redrawn r >>= λ r'. if leb sum s then some r' else redrawn r')

pub record SecretShare : Type 0 where
  pub s : ℕ
  pub x1 : List ℕ
  pub alpha1 : List ℕ
  pub y1 : List ℕ
  pub s0 : List ℕ

-- `s0[i] = (tempMat[i] + ss.alpha1[i]) % 2`.
unfoldable pub add_mod2 : List ℕ → List ℕ → List ℕ
add_mod2 temp [] = []
add_mod2 [] (a ∷ alpha) = []
add_mod2 (t ∷ temp) (a ∷ alpha) = (t + a) % 2 ∷ add_mod2 temp alpha

-- The secret row of `Starts`.
unfoldable pub secret_row : List ℕ → List ℕ → List ℕ
unfolding mult_matrix add_mod2 generator
secret_row x1 alpha1 = add_mod2 (mult_matrix x1 generator 4 8) alpha1

-- `NewSecretShare(s)` and then `Starts`. The fuel is one round more than there are draws left.
unfoldable pub starts : ℕ → List ℕ → Option (SecretShare × List ℕ)
starts s draws = do
  (x1, draws1) ← gen_array v4 draws
  (alpha1, draws2) ← gen_array la draws1
  (cand, draws3) ← gen_array v8 draws2
  let s0 = secret_row x1 alpha1
  (y1, draws4) ← check_comply (suc (length draws3)) s cand s0 draws3
  some (record { s = s; x1 = x1; alpha1 = alpha1; y1 = y1; s0 = s0 }, draws4)
