-- ===== src/Did/Signs.antt =====
-- did/basic.go: `Sign` returns.
use rubixgoplatform.Prelude.{ℕ, ◌≤◌, List, some, true, refl, ◌≡◌, length, ap, ◌∙◌, sym}
use rubixgoplatform.Prelude.Outcome.{done}
use rubixgoplatform.Nlss.Bits.RoundTrip.{row_values}
use rubixgoplatform.Nlss.Tree.{gen2_shares}
use rubixgoplatform.Nlss.Tree.Rows.{text}
use rubixgoplatform.Nlss.Combine.EncodedShares.{gen2_shares-EncodedShares}
use rubixgoplatform.Util.{
  byte_array_to_int_array, int_array_to_str, get_private_positions, random_positions,
  bitstream_to_bytes,
}
use rubixgoplatform.Util.Streams.{flat, text-flat, int_array_to_str-eq, bitstream_to_bytes-Rows}
use rubixgoplatform.Util.Blocks.{picks}
use rubixgoplatform.Util.Signer.{IsHexText, random_positions_total}
use rubixgoplatform.Did.{Crypto, did_sign}
use rubixgoplatform.Did.Verifies.{enough, signer_bits, share_reads, picks-Rows, blocks_agree}

-- `Sign` where each of its steps succeeds.
signs :
    (c : Crypto) (pvt hash pvt_pos bs sig : List ℕ) (pos : List ℕ × List ℕ) (k : c.PrivateKey)
    (random : ℕ)
    → random_positions c.sha3_hex true hash (byte_array_to_int_array pvt) ≡ some pos
    → get_private_positions pos.1 (byte_array_to_int_array pvt) ≡ some pvt_pos
    → c.sign k random (c.sha3_hex (int_array_to_str pvt_pos)) ≡ some sig
    → bitstream_to_bytes (int_array_to_str pvt_pos) ≡ some bs
    → did_sign c (some pvt) (some k) random hash ≡ done (bs, sig)
unfolding did_sign
signs c pvt hash pvt_pos bs sig pos k random h1 h2 h3 h4 = rw (h1, h2, h3, h4) refl

-- With the private share of a DID of at least 32 bytes, a hash of at least 32 hexadecimal digits and
-- a key that signs every text, `Sign` returns a signature, where SHA3-256 is such a text too.
pub did_sign_total :
    (c : Crypto) (did draws hash : List ℕ) (key : c.PrivateKey) (random : ℕ) {pvt pub1 : List ℕ}
    → ((m : List ℕ) → IsHexText (c.sha3_hex m))
    → ((r : ℕ) (m : List ℕ) → (s : List ℕ) × (c.sign key r m ≡ some s))
    → 32 ≤ length did
    → IsHexText hash
    → gen2_shares did draws ≡ some (pvt, pub1)
    → (out : List ℕ × List ℕ) × (did_sign c (some pvt) (some key) random hash ≡ done out)
did_sign_total c did draws hash key random {pvt} {pub1} digits signer long hex made =
    let e = gen2_shares-EncodedShares did draws {z = (pvt, pub1)} made in
    let bits = signer_bits c did hash (pvt, pub1) long e in
    let (pos, found) =
      random_positions_total c.sha3_hex digits e.secrets e.secret_rows
        (enough c did hash (pvt, pub1) long e) hash hex in
    let found' = ap (random_positions c.sha3_hex true hash) bits ∙ found in
    let a = blocks_agree c did hash (pvt, pub1) long e pos found' in
    let p = picks a.blocks e.secrets in
    let (_, rows) = picks-Rows c did hash (pvt, pub1) long e pos a e.secrets e.secret_rows refl in
    let (sig, signed) = signer random (c.sha3_hex (int_array_to_str (flat p))) in
    (
      (row_values 32 (text p), sig),
      signs c pvt hash (flat p) (row_values 32 (text p)) sig pos key random found'
          (share_reads c did hash (pvt, pub1) long e pos a pvt e.secrets e.secret_rows refl bits)
          signed
          (ap bitstream_to_bytes (int_array_to_str-eq (flat p) ∙ sym (text-flat p))
            ∙ bitstream_to_bytes-Rows 31 (text p) rows),
    )
