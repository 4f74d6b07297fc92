-- ===== src/Nlss/Combine/Modes.antt =====
-- nlss/interact4tree.go: `CombineShares` in its modes. The maps of four and of nine shares are the
-- ones that the source's commented-out part of `GenShares` builds.
use rubixgoplatform.Prelude.{
  ℕ, List, [], ◌∷◌, ◌≡◌, ◌≤◌, arith, All, some, >>=-eq-some, some_eq, ap, ◌∙◌, subst, length,
  get_elem?,
}
use rubixgoplatform.Nlss.Bits.{IsByte, convert_to_bit_string}
use rubixgoplatform.Nlss.Bits.RoundTrip.{convert_to_bit_string-eq}
use rubixgoplatform.Nlss.Tree.{gen2_shares}
use rubixgoplatform.Nlss.Combine.Recovers.{gen2_shares-SharesOf}
use rubixgoplatform.Nlss.Combine.{
  two1x2, four1x4, four1x9, ShareFormat, Shares, private_share, essential_share, public_share,
  gen_shares, combine_shares, combine2_shares,
}

-- What `GenShares` makes in mode 1x2 is combined to the bytes that it was made from.
pub combine_shares-gen_shares :
    (bytes draws : List ℕ) {s : Shares}
    → All IsByte bytes
    → gen_shares bytes two1x2 draws ≡ some (some s)
    → combine_shares s ≡ some bytes
unfolding gen_shares combine_shares
combine_shares-gen_shares bytes draws hb h =
    let (z, made, h1) = >>=-eq-some (gen2_shares bytes draws) _ h in
    let back = (gen2_shares-SharesOf bytes draws made).0 hb in
    subst (λ s. combine_shares s ≡ some bytes) (some_eq (some_eq h1)) back

abbrev format : ℕ → ℕ → List ℕ → ShareFormat
format id t bytes = record { share_id = id; share_type = t; share_bytes = bytes }

abbrev pub four_shares : List ℕ × List ℕ → List ℕ × List ℕ → Shares
four_shares (a, b) (c, d) = record {
  num_shares = 4;
  mode = four1x4;
  share = get_elem? (
      format 0 private_share a
      ∷ format 0 private_share b
      ∷ format 1 private_share c
      ∷ format 1 private_share d
      ∷ []);
}

-- Bytes that are shared twice, each share of the first sharing by one of the second, come back in
-- mode 1x4.
pub combine_shares-four_shares :
    (bytes draws draws1 draws2 : List ℕ) {t p q : List ℕ × List ℕ}
    → All IsByte bytes
    → gen2_shares bytes draws ≡ some t
    → gen2_shares t.0 draws1 ≡ some p
    → gen2_shares t.1 draws2 ≡ some q
    → combine_shares (four_shares p q) ≡ some bytes
unfolding combine_shares
combine_shares-four_shares bytes draws draws1 draws2 {t} {p} {q} hb h h1 h2 =
    let (back, t0, t1) = gen2_shares-SharesOf bytes draws h in
    let left = (gen2_shares-SharesOf t.0 draws1 h1).0 t0 in
    let right = (gen2_shares-SharesOf t.1 draws2 h2).0 t1 in rw (left, right) (back hb)

abbrev pub nine_shares :
    List ℕ × List ℕ × List ℕ → List ℕ × List ℕ × List ℕ → List ℕ × List ℕ × List ℕ → Shares
nine_shares (pvt, pub11, pub12) (ess1, pub21, pub22) (ess2, pub31, pub32) = record {
  num_shares = 9;
  mode = four1x9;
  share = get_elem? (
      format 0 private_share pvt
      ∷ format 0 public_share pub11
      ∷ format 0 public_share pub12
      ∷ format 1 essential_share ess1
      ∷ format 1 public_share pub21
      ∷ format 1 public_share pub22
      ∷ format 2 essential_share ess2
      ∷ format 2 public_share pub31
      ∷ format 2 public_share pub32
      ∷ []);
}

length-to_bits_pos : (b : ℕ) (bs : List ℕ) → 8 ≤ length (convert_to_bit_string (b ∷ bs))
length-to_bits_pos b bs = rw (convert_to_bit_string-eq (b ∷ bs)) (omega arith)

length-to_bits_nil : length (convert_to_bit_string []) ≡ 0
length-to_bits_nil = ap length (convert_to_bit_string-eq [])

-- A nil share and one that is not nil combine to nil.
combine2_shares_nil :
    (b : ℕ) (bs : List ℕ)
    → (combine2_shares [] (b ∷ bs) ≡ some []) × (combine2_shares (b ∷ bs) [] ≡ some [])
unfolding combine2_shares
combine2_shares_nil b bs =
    let pos = length-to_bits_pos b bs in
    let nil = length-to_bits_nil in (ground arith, ground arith)

-- In mode 1x9 the nine shares never give the secret: with a public share that is not empty and a
-- first pair that combines to a slice that is not empty, the result is nil.
pub combine_shares-nine_shares :
    (p q r : List ℕ × List ℕ × List ℕ) (b c : ℕ) {bs cs : List ℕ}
    → p.1 ≡ b ∷ bs
    → combine2_shares p.0 p.1 ≡ some (c ∷ cs)
    → combine_shares (nine_shares p q r) ≡ some []
unfolding combine_shares
combine_shares-nine_shares p q r b c {bs} {cs} hp h =
    let missing : combine2_shares [] p.1 ≡ some [] =
      ap (combine2_shares []) hp ∙ (combine2_shares_nil b bs).0 in
    rw (h, missing) (combine2_shares_nil c cs).1
