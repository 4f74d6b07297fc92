-- ===== src/Nlss/Combine/EncodedShares.antt =====
-- nlss/interact4tree.go: the bits of the two shares of `Gen2Shares`, row by row.
use rubixgoplatform.Prelude.{ℕ, List, ◌≡◌, some, All, subst, >>=-eq-some, ◌>>=◌, if-true, some_eq}
use rubixgoplatform.Nlss.Bits.RoundTrip.{
  to_bits, row_values, convert_to_bit_string-eq, to_bits-row_values,
}
use rubixgoplatform.Nlss.Share.Complies.{IsBitRow}
use rubixgoplatform.Nlss.Tree.{
  new_interact4tree, share_create, gen2_shares, get_pvt_share, get_public_share1,
}
use rubixgoplatform.Nlss.Tree.Rows.{text, Encoded}
use rubixgoplatform.Nlss.Tree.Created.{share_create_checks}
use rubixgoplatform.Nlss.Combine.Recovers.{
  rounds, secrets-Rows, cands-Rows, pvt_share, public_share1,
}

-- Each bit of `bytes` is encoded by a row of eight bits of either share.
pub record EncodedShares (bytes : List ℕ) (z : List ℕ × List ℕ) : Type 0 where
  pub secrets : List (List ℕ)
  pub cands : List (List ℕ)
  pub encoded : Encoded (to_bits bytes) secrets cands
  pub secret_rows : All IsBitRow secrets
  pub cand_rows : All IsBitRow cands
  pub secret_text : to_bits z.0 ≡ text secrets
  pub cand_text : to_bits z.1 ≡ text cands

pub gen2_shares-EncodedShares :
    (bytes draws : List ℕ) {z : List ℕ × List ℕ}
    → gen2_shares bytes draws ≡ some z
    → EncodedShares bytes z
unfolding gen2_shares
gen2_shares-EncodedShares bytes draws {z} h =
    let (r, created, h1) = >>=-eq-some (share_create (new_interact4tree bytes) draws) _ h in
    let (good, a) = share_create_checks bytes draws created in
    let kept : (get_pvt_share r.1 >>= λ p. get_public_share1 r.1 >>= λ q. some (p, q)) ≡ some z =
      if-true _ _ _ good h1 in
    let n = rounds bytes r.1 a in
    let same : some (row_values n (text a.secrets), row_values n (text a.cands)) ≡ some z =
      rw (pvt_share bytes r.1 a, public_share1 bytes r.1 a) at kept in
    subst (EncodedShares bytes) (some_eq same) (record {
      secrets = a.secrets;
      cands = a.cands;
      encoded = subst (λ t. Encoded t a.secrets a.cands) (convert_to_bit_string-eq bytes) a.encoded;
      secret_rows = a.secret_rows;
      cand_rows = a.cand_rows;
      secret_text = to_bits-row_values n (text a.secrets) (secrets-Rows bytes r.1 a);
      cand_text = to_bits-row_values n (text a.cands) (cands-Rows bytes r.1 a);
    })
