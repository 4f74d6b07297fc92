-- ===== src/Nlss/Combine/Recovers.antt =====
-- nlss/interact4tree.go: combining what was generated gives the bytes back.
use rubixgoplatform.Prelude.{
  ℕ, zero, suc, ◌+◌, ◌*◌, ◌-◌, ◌/◌, ◌%◌, ◌<◌, List, [], ◌∷◌, ◌++◌, ◌==◌, if◌then◌else◌, length, ◌≡◌,
  refl, sym, ap, ◌∙◌, arith, All, subst, some, >>=-eq-some, some_eq, if-true, ==_refl, ◌>>=◌,
}
use mathlib.Core.Path.{ap₂}
use mathlib.Core.List.{append_assoc, append-nil}
use rubixgoplatform.Nlss.Bits.{IsBitChar, IsByte, convert_to_bit_string, convert_bit_string}
use rubixgoplatform.Nlss.Bits.RoundTrip.{
  Rows, row_values, Rows-length, row_values-IsByte, convert_to_bit_string-eq, to_bits-row_values,
  convert_bit_string-convert_to_bit_string, convert_to_bit_string-IsBitChar,
}
use rubixgoplatform.Nlss.Share.{dot}
use rubixgoplatform.Nlss.Share.Complies.{IsBit, IsBitRow}
use rubixgoplatform.Nlss.Tree.{
  Interact4Tree, new_interact4tree, share_create, share_bytes, get_pvt_share, get_public_share1,
  gen2_shares, convert_string,
}
use rubixgoplatform.Nlss.Tree.Rows.{
  text, row_text, Encoded, text-Rows, share_bytes-Rows, take-row_text, convert_string-eq,
}
use rubixgoplatform.Nlss.Tree.Created.{Adds, share_create_checks}
use rubixgoplatform.Nlss.Combine.{char_dot, combine_loop, combine2_shares}

char_dot-row_text :
    (xs ys : List ℕ)
    → All IsBit xs
    → All IsBit ys
    → char_dot (row_text xs) (row_text ys) ≡ dot xs ys
unfolding char_dot dot
char_dot-row_text [] ys h k = refl
char_dot-row_text (x ∷ xs) [] h k = refl
char_dot-row_text (x ∷ xs) (y ∷ ys) (hx, h) (hy, k) =
    ap₂ ◌+◌ (product x y hx hy) (char_dot-row_text xs ys h k)
  where
    product :
        (x y : ℕ)
        → x < 2
        → y < 2
        → ((if x == 1 then 49 else 48) + 256 - 48)
            % 256
            * (((if y == 1 then 49 else 48) + 256 - 48) % 256)
          ≡ x * y
    product zero y hx hy = ground arith
    product (suc zero) zero hx hy = refl
    product (suc zero) (suc zero) hx hy = refl
    product (suc zero) (suc (suc y)) hx hy = absurd (omega arith)
    product (suc (suc x)) y hx hy = absurd (omega arith)

bit_text : (bit n : ℕ) → IsBitChar bit → n ≡ bit - 48 → row_text (n ∷ []) ≡ bit ∷ []
bit_text bit n h e = ground arith

written :
    (b : ℕ) (s c temp : List ℕ)
    → IsBitChar b
    → All IsBit s
    → All IsBit c
    → dot s c % 2 ≡ b - 48
    → convert_string temp (char_dot (row_text s) (row_text c) % 2) ≡ temp ++ b ∷ []
written b s c temp hb hs hc p =
    convert_string-eq temp _
    ∙ ap (◌++◌ temp) (bit_text b _ hb (ap (λ n. n % 2) (char_dot-row_text s c hs hc) ∙ p))

combine_row :
    (b : ℕ) (s c : List ℕ) (n : ℕ) (ps qs temp : List ℕ)
    → IsBitChar b
    → IsBitRow s
    → IsBitRow c
    → dot s c % 2 ≡ b - 48
    → combine_loop (suc n) (row_text s ++ ps) (row_text c ++ qs) temp
      ≡ combine_loop n ps qs (temp ++ b ∷ [])
unfolding combine_loop
combine_row b s c n ps qs temp hb hs hc p =
    let s_parts = take-row_text s ps hs.0 in
    let c_parts = take-row_text c qs hc.0 in
    (λ i.
      combine_loop n (s_parts.1 i) (c_parts.1 i)
        (convert_string temp (char_dot (s_parts.0 i) (c_parts.0 i) % 2)))
    ∙ ap (combine_loop n ps qs) (written b s c temp hb hs.1 hc.1 p)

-- The rounds over the texts of encoded rows write the bits.
pub combine_loop-Encoded :
    (bs : List ℕ) (ss cs : List (List ℕ)) (temp : List ℕ)
    → All IsBitChar bs
    → All IsBitRow ss
    → All IsBitRow cs
    → Encoded bs ss cs
    → combine_loop (length ss) (text ss) (text cs) temp ≡ temp ++ bs
unfolding combine_loop
combine_loop-Encoded [] [] [] temp hb hs hc e = sym (append-nil temp)
combine_loop-Encoded (b ∷ bs) (s ∷ ss) (c ∷ cs) temp (hb, hbs) (hs, hss) (hc, hcs) (p, e) =
    combine_row b s c (length ss) (text ss) (text cs) temp hb hs hc p
    ∙ combine_loop-Encoded bs ss cs (temp ++ b ∷ []) hbs hss hcs e
    ∙ append_assoc temp (b ∷ []) bs
combine_loop-Encoded _ _ _ temp hb hs hc e = absurd e

-- Two byte slices that stand for texts of the same number of whole bytes.
pub combine2-Rows :
    (n : ℕ) (ps qs : List ℕ)
    → Rows n ps
    → Rows n qs
    → combine2_shares (row_values n ps) (row_values n qs)
      ≡ convert_bit_string (combine_loop n ps qs [])
unfolding combine2_shares
combine2-Rows n ps qs hp hq =
    let p = convert_to_bit_string-eq (row_values n ps) ∙ to_bits-row_values n ps hp in
    let q = convert_to_bit_string-eq (row_values n qs) ∙ to_bits-row_values n qs hq in
    rw (p, q, Rows-length n ps hp, Rows-length n qs hq, ==_refl (8 * n), eighth n) refl
  where
    eighth : (n : ℕ) → 8 * n / 8 ≡ n
    eighth n = omega arith

pub Encoded-length :
    (bs : List ℕ) (ss cs : List (List ℕ)) → Encoded bs ss cs → length cs ≡ length ss
Encoded-length [] [] [] e = refl
Encoded-length (b ∷ bs) (s ∷ ss) (c ∷ cs) e = ap suc (Encoded-length bs ss cs e.1)
Encoded-length _ _ _ e = absurd e

-- What the two shares of a created tree are, and what they combine to.
module _ (bytes : List ℕ) (it : Interact4Tree)
    (a : Adds (convert_to_bit_string bytes) (new_interact4tree bytes) it) where
  pub rounds : ℕ
  rounds = length a.secrets

  pub secrets-Rows : Rows rounds (text a.secrets)
  unfolding rounds
  secrets-Rows = text-Rows a.secrets a.secret_rows

  pub cands-Rows : Rows rounds (text a.cands)
  unfolding rounds
  cands-Rows =
      subst (λ n. Rows n (text a.cands))
        (Encoded-length (convert_to_bit_string bytes) a.secrets a.cands a.encoded)
        (text-Rows a.cands a.cand_rows)

  pub pvt_share : get_pvt_share it ≡ some (row_values rounds (text a.secrets))
  unfolding get_pvt_share new_interact4tree
  pvt_share = ap share_bytes a.secret_text ∙ share_bytes-Rows rounds (text a.secrets) secrets-Rows

  pub public_share1 : get_public_share1 it ≡ some (row_values rounds (text a.cands))
  unfolding get_public_share1 new_interact4tree
  public_share1 = ap share_bytes a.y1_text ∙ share_bytes-Rows rounds (text a.cands) cands-Rows

  combined :
      All IsByte bytes
      → combine2_shares (row_values rounds (text a.secrets)) (row_values rounds (text a.cands))
        ≡ some bytes
  unfolding rounds
  combined hb =
      combine2-Rows rounds (text a.secrets) (text a.cands) secrets-Rows cands-Rows
      ∙ ap convert_bit_string (
          combine_loop-Encoded (convert_to_bit_string bytes) a.secrets a.cands []
            (convert_to_bit_string-IsBitChar bytes) a.secret_rows a.cand_rows a.encoded)
      ∙ convert_bit_string-convert_to_bit_string bytes hb

  shares-IsByte :
      All IsByte (row_values rounds (text a.secrets))
      × All IsByte (row_values rounds (text a.cands))
  shares-IsByte = (
    row_values-IsByte rounds (text a.secrets) secrets-Rows,
    row_values-IsByte rounds (text a.cands) cands-Rows,
  )

-- Two shares that are bytes and combine to `bytes`.
abbrev pub SharesOf : List ℕ → List ℕ × List ℕ → Type 0
SharesOf bytes z =
    (All IsByte bytes → combine2_shares z.0 z.1 ≡ some bytes) × All IsByte z.0 × All IsByte z.1

pub gen2_shares-SharesOf :
    (bytes draws : List ℕ) {z : List ℕ × List ℕ}
    → gen2_shares bytes draws ≡ some z
    → SharesOf bytes z
unfolding gen2_shares
gen2_shares-SharesOf bytes draws {z} h =
    let (r, created, h1) = >>=-eq-some (share_create (new_interact4tree bytes) draws) _ h in
    let (good, a) = share_create_checks bytes draws created in
    let kept : (get_pvt_share r.1 >>= λ p. get_public_share1 r.1 >>= λ q. some (p, q)) ≡ some z =
      if-true _ _ _ good h1 in
    let same : some (
      row_values (rounds bytes r.1 a) (text a.secrets),
      row_values (rounds bytes r.1 a) (text a.cands),
    )
        ≡ some z =
      rw (pvt_share bytes r.1 a, public_share1 bytes r.1 a) at kept in
    let both = shares-IsByte bytes r.1 a in
    subst (SharesOf bytes) (some_eq same) (combined bytes r.1 a, both.0, both.1)

-- For every byte slice and every source of randomness: whenever `Gen2Shares` returns, its two
-- shares combine to the slice.
pub combine2_shares-gen2_shares :
    (bytes draws : List ℕ) {pvt pub1 : List ℕ}
    → All IsByte bytes
    → gen2_shares bytes draws ≡ some (pvt, pub1)
    → combine2_shares pvt pub1 ≡ some bytes
combine2_shares-gen2_shares bytes draws hb h = (gen2_shares-SharesOf bytes draws h).0 hb
