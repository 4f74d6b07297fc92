-- ===== src/Nlss/Share/Termination.antt =====
-- nlss/secretshare.go: the search of `CheckComply` ends, and for every row that `Starts` can form
-- there is a draw that ends it.
use rubixgoplatform.Prelude.{
  ℕ, zero, suc, ◌%◌, ◌<◌, List, [], ◌∷◌, ◌++◌, some, leb, ◌==◌, length, get_elem?, get_or, Bool,
  true, false, ◌≡◌, refl, arith, Bool-cases, if_same, ◌&&◌, ◌||◌, some_eq, ◌⊎◌, inl, inr, ==_iff,
  subst, sym,
}
use native.Mathlib.Nat.{mod-lt}
use rubixgoplatform.Nlss.Tables.{v4, v8, la, generator}
use rubixgoplatform.Nlss.Share.Complies.{la-IsBitRow, secret_row-IsBitRow}
use rubixgoplatform.Nlss.Share.{
  add_mod2, mult_matrix, mult_columns, sum_from, SecretShare, gen_array, dot, check_comply, starts,
  secret_row,
}

abbrev Parity : ℕ → List ℕ → List ℕ → Type 0
Parity s s0 row = dot row s0 % 2 ≡ s

-- One of the draws picks a row of the right parity.
abbrev Finds : ℕ → List ℕ → List ℕ → Type 0
Finds s s0 [] = ⊥
Finds s s0 (d ∷ ds) = Parity s s0 (get_or v8 (d % 256) []) ⊎ Finds s s0 ds

length-v8 : length v8 ≡ 256
unfolding v8
length-v8 = refl

get_or-of-get_elem? :
    (xs : List (List ℕ)) (i : ℕ) → i < length xs → get_elem? xs i ≡ some (get_or xs i [])
get_or-of-get_elem? [] i h = elim h [ ]
get_or-of-get_elem? (x ∷ xs) zero h = refl
get_or-of-get_elem? (x ∷ xs) (suc i) h = get_or-of-get_elem? xs i (omega arith)

gen_array-cons :
    (arr : List (List ℕ)) (n d : ℕ) (ds : List ℕ)
    → length arr ≡ n
    → 0 < n
    → (get_elem? arr (d % n) ≡ some (get_or arr (d % n) []))
      × (gen_array arr (d ∷ ds) ≡ some (get_or arr (d % n) [], ds))
unfolding gen_array
gen_array-cons arr n d ds l h =
    let at : get_elem? arr (d % n) ≡ some (get_or arr (d % n) []) =
      get_or-of-get_elem? arr (d % n) (subst (λ m. d % n < m) (sym l) (mod-lt d h)) in
    (at, rw (l, at))

gen_v8 : (d : ℕ) (ds : List ℕ) → gen_array v8 (d ∷ ds) ≡ some (get_or v8 (d % 256) [], ds)
gen_v8 d ds = (gen_array-cons v8 256 d ds length-v8 (omega arith)).1

check_comply_hit :
    (f s : ℕ) (cand s0 draws : List ℕ)
    → Parity s s0 cand
    → check_comply (suc f) s cand s0 draws ≡ some (cand, draws)
unfolding check_comply
check_comply_hit f s cand s0 draws h = ground arith

-- After a miss the recursive call's row is kept, at once or after one more round.
check_comply_miss :
    (g s : ℕ) (cand s0 : List ℕ) (d : ℕ) (ds : List ℕ) (r : List ℕ × List ℕ)
    → (dot cand s0 % 2 == s) ≡ false
    → check_comply g s (get_or v8 (d % 256) []) s0 ds ≡ some r
    → check_comply g s r.0 s0 r.1 ≡ some r
    → check_comply (suc g) s cand s0 (d ∷ ds) ≡ some r
unfolding check_comply
check_comply_miss g s cand s0 d ds r miss found again =
    rw (miss, gen_v8 d ds, found, again) (if_same (leb (dot cand s0 % 2) s) (some r))

-- With a round for each draw and one more, the search returns a row of the right parity.
check_comply_total :
    (fuel s : ℕ) (cand s0 draws : List ℕ)
    → length draws < fuel
    → Parity s s0 cand ⊎ Finds s s0 draws
    → (r : List ℕ × List ℕ) × (check_comply fuel s cand s0 draws ≡ some r) × Parity s s0 r.0
check_comply_total zero s cand s0 draws h e = elim h [ ]
check_comply_total (suc f) s cand s0 draws h (inl hit) =
    ((cand, draws), check_comply_hit f s cand s0 draws hit, hit)
check_comply_total (suc f) s cand s0 [] h (inr bad) = absurd bad
check_comply_total (suc zero) s cand s0 (d ∷ ds) h (inr e) = absurd (omega arith)
check_comply_total (suc (suc f)) s cand s0 (d ∷ ds) h (inr e) =
    elim (Bool-cases (dot cand s0 % 2 == s)) [
      | inl hit ↦
          let p = (==_iff (dot cand s0 % 2) s).0 hit in
          ((cand, d ∷ ds), check_comply_hit (suc f) s cand s0 (d ∷ ds) p, p)
      | inr miss ↦
          let (r, found, p) =
            check_comply_total (suc f) s (get_or v8 (d % 256) []) s0 ds (omega arith) e in
          let again = check_comply_hit f s r.0 s0 r.1 p in
          (r, check_comply_miss (suc f) s cand s0 d ds r miss found again, p)
    ]

has_one : List ℕ → Bool
has_one [] = false
has_one (x ∷ xs) = x == 1 || has_one xs

all_rows : (List ℕ → Bool) → List (List ℕ) → Bool
all_rows p [] = true
all_rows p (r ∷ rs) = p r && all_rows p rs

all_rows_sound :
    (p : List ℕ → Bool) (rs : List (List ℕ)) (i : ℕ) {r : List ℕ}
    → all_rows p rs ≡ true
    → get_elem? rs i ≡ some r
    → p r ≡ true
unfolding all_rows
all_rows_sound p [] i h e = cc
all_rows_sound p (x ∷ rs) zero h e = rw (← some_eq e) (ground arith)
all_rows_sound p (x ∷ rs) (suc i) h e = all_rows_sound p rs i (ground arith) e

shifted : List ℕ → Bool
shifted temp = all_rows (λ a. has_one (add_mod2 temp a)) la

-- No row of `LA` is a sum of rows of `G`.
never_zero : all_rows (λ x. shifted (mult_matrix x generator 4 8)) v4 ≡ true
unfolding all_rows shifted has_one add_mod2 mult_matrix mult_columns sum_from generator v4 la
never_zero = refl

secret_row-has_one :
    (i j : ℕ) {x a : List ℕ}
    → get_elem? v4 i ≡ some x
    → get_elem? la j ≡ some a
    → has_one (secret_row x a) ≡ true
unfolding secret_row all_rows shifted
secret_row-has_one i j {x} {a} hx ha =
    all_rows_sound (λ r. has_one (add_mod2 (mult_matrix x generator 4 8) r)) la j (inner x hx) ha
  where
    inner : (y : List ℕ) → get_elem? v4 i ≡ some y → shifted (mult_matrix y generator 4 8) ≡ true
    inner y h = all_rows_sound (λ r. shifted (mult_matrix r generator 4 8)) v4 i never_zero h

one_at : (xs : List ℕ) → has_one xs ≡ true → (k : ℕ) × (k < length xs) × (get_or xs k 0 ≡ 1)
unfolding has_one
one_at [] h = cc
one_at (x ∷ xs) h = elim (Bool-cases (x == 1)) [
  | inl e ↦ (0, omega arith, (==_iff x 1).0 e)
  | inr e ↦ let (k, lt, at) = one_at xs (ground arith) in (suc k, omega arith, at)
]

-- Where `V8` has the row whose only one stands at `k`.
abbrev unit : ℕ → ℕ
unit k = get_or (128 ∷ 64 ∷ 32 ∷ 16 ∷ 8 ∷ 4 ∷ 2 ∷ 1 ∷ []) k 0

dot-unit :
    (k a b c d e f g h : ℕ)
    → k < 8
    → dot (get_or v8 (unit k % 256) []) (a ∷ b ∷ c ∷ d ∷ e ∷ f ∷ g ∷ h ∷ [])
      ≡ get_or (a ∷ b ∷ c ∷ d ∷ e ∷ f ∷ g ∷ h ∷ []) k 0
unfolding v8 dot
dot-unit zero a b c d e f g h lt = omega arith
dot-unit (suc zero) a b c d e f g h lt = omega arith
dot-unit (suc (suc zero)) a b c d e f g h lt = omega arith
dot-unit (suc (suc (suc zero))) a b c d e f g h lt = omega arith
dot-unit (suc (suc (suc (suc zero)))) a b c d e f g h lt = omega arith
dot-unit (suc (suc (suc (suc (suc zero))))) a b c d e f g h lt = omega arith
dot-unit (suc (suc (suc (suc (suc (suc zero)))))) a b c d e f g h lt = omega arith
dot-unit (suc (suc (suc (suc (suc (suc (suc zero))))))) a b c d e f g h lt = omega arith
dot-unit (suc (suc (suc (suc (suc (suc (suc (suc k)))))))) a b c d e f g h lt = absurd (omega arith)

dot-unit_row :
    (k : ℕ) (s0 : List ℕ)
    → k < 8
    → length s0 ≡ 8
    → dot (get_or v8 (unit k % 256) []) s0 ≡ get_or s0 k 0
dot-unit_row k (a ∷ b ∷ c ∷ d ∷ e ∷ f ∷ g ∷ h ∷ []) lt l = dot-unit k a b c d e f g h lt
dot-unit_row k _ lt l = absurd (omega arith)

zero_dot : (s0 : List ℕ) → length s0 ≡ 8 → dot (get_or v8 0 []) s0 ≡ 0
unfolding v8 dot
zero_dot (a ∷ b ∷ c ∷ d ∷ e ∷ f ∷ g ∷ h ∷ []) l = omega arith
zero_dot _ l = absurd (omega arith)

-- A row that has a one is completed to either parity by some draw.
finding_draw :
    (s : ℕ) (s0 : List ℕ)
    → s < 2
    → length s0 ≡ 8
    → has_one s0 ≡ true
    → (d : ℕ) × Parity s s0 (get_or v8 (d % 256) [])
finding_draw zero s0 lt l h = (0, omega (arith, zero_dot s0 l))
finding_draw (suc zero) s0 lt l h =
    let (k, klt, at) = one_at s0 h in (unit k, omega (arith, dot-unit_row k s0 (omega arith) l, at))
finding_draw (suc (suc s)) s0 lt l h = absurd (omega arith)

length-v4 : length v4 ≡ 16
unfolding v4
length-v4 = refl

length-la : length la ≡ 240
unfolding la
length-la = refl

Finds-append :
    (s : ℕ) (s0 before after : List ℕ) (d : ℕ)
    → Parity s s0 (get_or v8 (d % 256) [])
    → Finds s s0 (before ++ d ∷ after)
Finds-append s s0 [] after d p = inl p
Finds-append s s0 (x ∷ before) after d p = inr (Finds-append s s0 before after d p)

-- For every secret bit and every choice of the first two rows there is a draw that, however many
-- others come before it, makes `Starts` return a share.
pub starts_total :
    (s i j : ℕ)
    → s < 2
    → (d : ℕ) × ((k : ℕ) (before after : List ℕ)
        → (r : SecretShare × List ℕ) × (starts s (i ∷ j ∷ k ∷ before ++ d ∷ after) ≡ some r))
unfolding starts
starts_total s i j lt =
    let x1 = get_or v4 (i % 16) [] in
    let alpha1 = get_or la (j % 240) [] in
    let g1 = λ (ds : List ℕ). gen_array-cons v4 16 i ds length-v4 (omega arith) in
    let g2 = λ (ds : List ℕ). gen_array-cons la 240 j ds length-la (omega arith) in
    let alpha = la-IsBitRow (j % 240) (g2 []).0 in
    let row = (secret_row-IsBitRow x1 alpha1 alpha.0).0 in
    let nonzero = secret_row-has_one (i % 16) (j % 240) (g1 []).0 (g2 []).0 in
    let (d, p) = finding_draw s (secret_row x1 alpha1) lt row nonzero in
    (
      d,
      λ k before after.
          let rest = before ++ d ∷ after in
          let cand = get_or v8 (k % 256) [] in
          let (y, found, _) =
            check_comply_total (suc (length rest)) s cand (secret_row x1 alpha1) rest (omega arith)
              (inr (Finds-append s (secret_row x1 alpha1) before after d p)) in
          (
            (record { s = s; x1 = x1; alpha1 = alpha1; y1 = y.0; s0 = secret_row x1 alpha1 }, y.1),
            rw ((g1 (j ∷ k ∷ rest)).1, (g2 (k ∷ rest)).1, gen_v8 k rest, found) refl,
          ),
    )

-- Three draws that make `Starts` return at once, and leave the draws behind them.
pub starts-some :
    (s : ℕ)
    → s < 2
    → (d : ℕ) × (share : SecretShare) × ((after : List ℕ)
        → starts s (0 ∷ 0 ∷ d ∷ after) ≡ some (share, after))
unfolding starts
starts-some s lt =
    let x1 = get_or v4 (0 % 16) [] in
    let alpha1 = get_or la (0 % 240) [] in
    let g1 = λ (ds : List ℕ). gen_array-cons v4 16 0 ds length-v4 (omega arith) in
    let g2 = λ (ds : List ℕ). gen_array-cons la 240 0 ds length-la (omega arith) in
    let s0 = secret_row x1 alpha1 in
    let row = (secret_row-IsBitRow x1 alpha1 (la-IsBitRow (0 % 240) (g2 []).0).0).0 in
    let (d, p) = finding_draw s s0 lt row (secret_row-has_one 0 0 (g1 []).0 (g2 []).0) in
    let cand = get_or v8 (d % 256) [] in
    (
      d,
      record { s = s; x1 = x1; alpha1 = alpha1; y1 = cand; s0 = s0 },
      λ after.
          rw
            (
              (g1 (0 ∷ d ∷ after)).1,
              (g2 (d ∷ after)).1,
              gen_v8 d after,
              check_comply_hit (length after) s cand s0 after p,
            )
            refl,
    )
