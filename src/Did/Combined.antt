-- ===== src/Did/Combined.antt =====
-- did/basic.go: rows at chosen positions are combined.
use rubixgoplatform.Prelude.{
  ℕ, suc, List, [], ◌∷◌, ◌++◌, some, refl, ◌≡◌, length, All, true, ==_refl, ap, ◌∙◌, sym, subst,
}
use rubixgoplatform.Nlss.Bits.{convert_bit_string}
use rubixgoplatform.Nlss.Bits.RoundTrip.{Rows, row_values, convert_bit_string-Rows}
use rubixgoplatform.Nlss.Share.Complies.{IsBit, IsBitRow}
use rubixgoplatform.Nlss.Tree.Rows.{
  row_text, text, Encoded, text-Rows, row_text-IsBitChar, length-row_text,
}
use rubixgoplatform.Nlss.Combine.{combine2_shares, combine_loop}
use rubixgoplatform.Nlss.Combine.Recovers.{combine2-Rows, combine_loop-Encoded, Encoded-length}
use rubixgoplatform.Util.Streams.{flat}
use rubixgoplatform.Util.Blocks.{picks}
use rubixgoplatform.Did.{bytes_equal}
use rubixgoplatform.Did.Picked.{whole-Rows}

pub bytes_equal_refl : (bs : List ℕ) → bytes_equal bs bs ≡ true
unfolding bytes_equal
bytes_equal_refl [] = refl
bytes_equal_refl (b ∷ bs) = rw (==_refl b) (bytes_equal_refl bs)

pub length-picks : (qs : List ℕ) (rows : List (List ℕ)) → length (picks qs rows) ≡ length qs
length-picks [] rows = refl
length-picks (q ∷ qs) rows = ap suc (length-picks qs rows)

All-append : (P : ℕ → Type 0) (xs ys : List ℕ) → All P xs → All P ys → All P (xs ++ ys)
All-append P [] ys h k = k
All-append P (x ∷ xs) ys (hx, h) k = (hx, All-append P xs ys h k)

pub flat-IsBit : (rows : List (List ℕ)) → All IsBitRow rows → All IsBit (flat rows)
flat-IsBit [] h = tt
flat-IsBit (r ∷ rows) (hr, h) = All-append IsBit r (flat rows) hr.1 (flat-IsBit rows h)

pub Encoded-count : (bs : List ℕ) (ss cs : List (List ℕ)) → Encoded bs ss cs → length ss ≡ length bs
Encoded-count [] [] [] e = refl
Encoded-count (b ∷ bs) (s ∷ ss) (c ∷ cs) e = ap suc (Encoded-count bs ss cs e.1)
Encoded-count _ _ _ e = absurd e

pub bits_of :
    (n : ℕ) (rows : List (List ℕ)) → All IsBitRow rows → length rows ≡ n → Rows n (text rows)
bits_of n rows h l = subst (λ k. Rows k (text rows)) l (text-Rows rows h)

-- The rows at the chosen positions combine to the bits that stand there.
pub combined :
    (found : List ℕ) (ss cs : List (List ℕ))
    → length found ≡ 32
    → All IsBitRow ss
    → All IsBitRow cs
    → Encoded (row_text found) ss cs
    → combine2_shares (row_values 32 (text ss)) (row_values 32 (text cs))
      ≡ some (row_values 4 (row_text found))
combined found ss cs l hs hc e =
    let ls = Encoded-count (row_text found) ss cs e ∙ length-row_text found ∙ l in
    let lc = Encoded-length (row_text found) ss cs e ∙ ls in
    combine2-Rows 32 (text ss) (text cs) (bits_of 32 ss hs ls) (bits_of 32 cs hc lc)
    ∙ ap convert_bit_string (
        ap (λ n. combine_loop n (text ss) (text cs) []) (sym ls)
        ∙ combine_loop-Encoded (row_text found) ss cs [] (row_text-IsBitChar found) hs hc e)
    ∙ convert_bit_string-Rows 4 (row_text found)
        (whole-Rows 4 (row_text found) (length-row_text found ∙ l) (row_text-IsBitChar found))
