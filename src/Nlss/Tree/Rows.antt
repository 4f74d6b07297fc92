-- ===== src/Nlss/Tree/Rows.antt =====
-- nlss/interact4tree.go: rows of bits as text.
use rubixgoplatform.Prelude.{
  ℕ, zero, suc, ◌-◌, ◌%◌, ◌<◌, List, [], ◌∷◌, ◌++◌, ◌==◌, if◌then◌else◌, length, take, drop, ◌≡◌,
  refl, sym, ap, ◌∙◌, arith, All, true, subst, some,
}
use mathlib.Core.List.{append_assoc, append-nil}
use rubixgoplatform.Nlss.Bits.{IsBitChar, convert_bit_string}
use rubixgoplatform.Nlss.Bits.RoundTrip.{
  Rows, IsRow, row_values, convert_bit_string-Rows, Rows-length,
}
use rubixgoplatform.Nlss.Share.{dot}
use rubixgoplatform.Nlss.Share.Complies.{IsBitRow}
use rubixgoplatform.Nlss.Tree.{convert_string, convert_row, check_rows, share_bytes}

abbrev pub row_text : List ℕ → List ℕ
row_text [] = []
row_text (x ∷ xs) = (if x == 1 then 49 else 48) ∷ row_text xs

abbrev pub text : List (List ℕ) → List ℕ
text [] = []
text (r ∷ rs) = row_text r ++ text rs

pub convert_string-eq : (str : List ℕ) (x : ℕ) → convert_string str x ≡ str ++ row_text (x ∷ [])
unfolding convert_string
convert_string-eq str x = ground arith

pub convert_row-eq : (str xs : List ℕ) → convert_row str xs ≡ str ++ row_text xs
unfolding convert_row
convert_row-eq str [] = sym (append-nil str)
convert_row-eq str (x ∷ xs) =
    convert_row-eq (convert_string str x) xs
    ∙ ap (λ t. t ++ row_text xs) (convert_string-eq str x)
    ∙ append_assoc str (row_text (x ∷ [])) (row_text xs)

pub length-row_text : (xs : List ℕ) → length (row_text xs) ≡ length xs
length-row_text [] = refl
length-row_text (x ∷ xs) = ap suc (length-row_text xs)

pub row_text-IsBitChar : (xs : List ℕ) → All IsBitChar (row_text xs)
row_text-IsBitChar [] = tt
row_text-IsBitChar (x ∷ xs) = (ground arith, row_text-IsBitChar xs)

take-row :
    (r : List ℕ) (rest : List ℕ)
    → length r ≡ 8
    → (take 8 (r ++ rest) ≡ r) × (drop 8 (r ++ rest) ≡ rest)
take-row (a ∷ b ∷ c ∷ d ∷ e ∷ f ∷ g ∷ h ∷ []) rest l = (refl, refl)
take-row _ rest l = absurd (omega arith)

pub take-row_text :
    (r : List ℕ) (rest : List ℕ)
    → length r ≡ 8
    → (take 8 (row_text r ++ rest) ≡ row_text r) × (drop 8 (row_text r ++ rest) ≡ rest)
take-row_text r rest l = take-row (row_text r) rest (length-row_text r ∙ l)

pub text-Rows : (rs : List (List ℕ)) → All IsBitRow rs → Rows (length rs) (text rs)
text-Rows [] h = refl
text-Rows (r ∷ rs) (hr, h) =
    let (front, back) = take-row_text r (text rs) hr.0 in
    (
      subst IsRow (sym front) (length-row_text r ∙ hr.0, row_text-IsBitChar r),
      subst (Rows (length rs)) (sym back) (text-Rows rs h),
    )

share_bytes_whole :
    (str : List ℕ) → 0 < length str → length str % 8 ≡ 0 → share_bytes str ≡ convert_bit_string str
unfolding share_bytes
share_bytes_whole str h l = ground arith

-- The test before the conversion lets every text of whole bytes through.
pub share_bytes-Rows :
    (n : ℕ) (str : List ℕ) → Rows n str → share_bytes str ≡ some (row_values n str)
unfolding share_bytes
share_bytes-Rows zero str r = rw r refl
share_bytes-Rows (suc n) str r =
    let l = Rows-length (suc n) str r in
    share_bytes_whole str (omega arith) (omega arith) ∙ convert_bit_string-Rows (suc n) str r

pub dot_comm : (xs ys : List ℕ) → dot xs ys ≡ dot ys xs
unfolding dot
dot_comm [] [] = refl
dot_comm [] (y ∷ ys) = refl
dot_comm (x ∷ xs) [] = refl
dot_comm (x ∷ xs) (y ∷ ys) = omega (arith, dot_comm xs ys)

-- Rows that encode the bits of a text, as `CheckShare` tests it.
abbrev pub Encoded : List ℕ → List (List ℕ) → List (List ℕ) → Type 0
Encoded [] [] [] = Unit
Encoded (b ∷ bs) (s ∷ ss) (c ∷ cs) = (dot s c % 2 ≡ b - 48) × Encoded bs ss cs
Encoded _ _ _ = ⊥

pub check_rows-Encoded :
    (bs : List ℕ) (ss cs : List (List ℕ)) → Encoded bs ss cs → check_rows ss cs bs ≡ true
unfolding check_rows
check_rows-Encoded [] [] [] h = refl
check_rows-Encoded (b ∷ bs) (s ∷ ss) (c ∷ cs) h = ground (arith, check_rows-Encoded bs ss cs h.1)
check_rows-Encoded _ _ _ h = absurd h
