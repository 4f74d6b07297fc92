-- ===== src/Did/Steps.antt =====
-- did/basic.go: the steps of `Sign` and of `NlssVerify`, where they succeed.
use rubixgoplatform.Prelude.{ℕ, List, some, refl, ◌≡◌, true, false, subst}
use rubixgoplatform.Prelude.Outcome.{
  done, or_panic, or_fail, >>=-eq-done, or_panic-eq-done, or_fail-eq-done, done_eq,
}
use rubixgoplatform.Nlss.Bits.{convert_to_bit_string, convert_bit_string}
use rubixgoplatform.Nlss.Combine.{combine2_shares}
use rubixgoplatform.Util.{
  byte_array_to_int_array, string_to_int_array, int_array_to_str, get_private_positions,
  random_positions, bitstream_to_bytes,
}
use rubixgoplatform.Did.{org_positions, Crypto, did_sign, nlss_verify}
use rubixgoplatform.Did.Combined.{bytes_equal_refl}

module _ (c : Crypto) where
  -- What a successful `Sign` has computed.
  pub record Signed (pvt : List ℕ) (key : c.PrivateKey) (random : ℕ) (hash : List ℕ)
      (out : List ℕ × List ℕ) : Type 0 where
    pub pos : List ℕ × List ℕ
    pub pvt_pos : List ℕ
    pub positions : random_positions c.sha3_hex true hash (byte_array_to_int_array pvt) ≡ some pos
    pub reads : get_private_positions pos.1 (byte_array_to_int_array pvt) ≡ some pvt_pos
    pub signature : c.sign key random (c.sha3_hex (int_array_to_str pvt_pos)) ≡ some out.1
    pub stream : bitstream_to_bytes (int_array_to_str pvt_pos) ≡ some out.0

  pub did_sign-Signed :
      (pvt : List ℕ) (key : c.PrivateKey) (random : ℕ) (hash : List ℕ) {out : List ℕ × List ℕ}
      → did_sign c (some pvt) (some key) random hash ≡ done out
      → Signed pvt key random hash out
  unfolding did_sign
  did_sign-Signed pvt key random hash {out} e =
      let ps = byte_array_to_int_array pvt in
      let (pos, e1, h1) = >>=-eq-done (or_panic (random_positions c.sha3_hex true hash ps)) _ e in
      let (pvt_pos, e2, h2) = >>=-eq-done (or_panic (get_private_positions pos.1 ps)) _ h1 in
      let str = int_array_to_str pvt_pos in
      let (sig, e3, h3) = >>=-eq-done (or_fail (c.sign key random (c.sha3_hex str))) _ h2 in
      let (bs, e4, h4) = >>=-eq-done (or_fail (bitstream_to_bytes str)) _ h3 in
      subst (Signed pvt key random hash) (done_eq h4) (record {
        pos = pos;
        pvt_pos = pvt_pos;
        positions = or_panic-eq-done _ e1;
        reads = or_panic-eq-done _ e2;
        signature = or_fail-eq-done _ e3;
        stream = or_fail-eq-done _ e4;
      })

  -- `NlssVerify` where each of its steps succeeds.
  pub accepts :
      (did pub1 hash bs sig p_sig ps pub_pos did_pos left right whole : List ℕ)
      (pos : List ℕ × List ℕ) (k : c.PublicKey)
      → convert_to_bit_string bs ≡ p_sig
      → string_to_int_array p_sig ≡ ps
      → random_positions c.sha3_hex false hash ps ≡ some pos
      → get_private_positions pos.1 (byte_array_to_int_array pub1) ≡ some pub_pos
      → get_private_positions (org_positions pos.0) (byte_array_to_int_array did) ≡ some did_pos
      → convert_bit_string p_sig ≡ some left
      → convert_bit_string (int_array_to_str pub_pos) ≡ some right
      → combine2_shares left right ≡ some whole
      → convert_bit_string (int_array_to_str did_pos) ≡ some whole
      → c.verify k (c.sha3_hex p_sig) sig ≡ true
      → nlss_verify c (some did) (some pub1) (some k) hash bs sig ≡ done true
  unfolding nlss_verify
  accepts did pub1 hash bs sig p_sig ps pub_pos did_pos left right whole pos k h1 h2 h3 h4 h5 h6 h7
        h8 h9 h =
      rw (h1, h2, h3, h4, h5, h6, h7, h8, h9, bytes_equal_refl whole, h) refl
