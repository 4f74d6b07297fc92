-- ===== src/Did.antt =====
-- did/basic.go: signatures of a DID in basic mode. The files of a DID are arguments, an image by the
-- bytes of its pixels, where `none` is a file that cannot be read. ECDSA and SHA3-256 are libraries:
-- `sign` takes the randomness that it draws.
pub mod Picked
pub mod Combined
pub mod Steps
pub mod Verifies
pub mod Signs
use rubixgoplatform.Prelude.{
  ℕ, zero, suc, ◌/◌, List, [], ◌∷◌, Option, none, some, Bool, true, false, if◌then◌else◌, ◌==◌,
}
use rubixgoplatform.Prelude.Outcome.{Outcome, done, failed, panicked, ◌>>=◌, or_panic, or_fail}
use rubixgoplatform.Nlss.Bits.{convert_to_bit_string, convert_bit_string}
use rubixgoplatform.Nlss.Combine.{combine2_shares}
use rubixgoplatform.Util.{
  byte_array_to_int_array, string_to_int_array, int_array_to_str, get_private_positions,
  random_positions, bitstream_to_bytes,
}

-- `bytes.Equal`.
unfoldable pub bytes_equal : List ℕ → List ℕ → Bool
bytes_equal [] [] = true
bytes_equal [] (q ∷ qs) = false
bytes_equal (p ∷ ps) [] = false
bytes_equal (p ∷ ps) (q ∷ qs) = if p == q then bytes_equal ps qs else false

-- `orgPos[i] = pubPos.OriginalPos[i] / 8`.
unfoldable pub org_positions : List ℕ → List ℕ
org_positions [] = []
org_positions (p ∷ ps) = p / 8 ∷ org_positions ps

-- The libraries: SHA3-256 as a hexadecimal text, and the keys of one signature scheme.
pub record Crypto : Type 1 where
  pub PrivateKey : Type 0
  pub PublicKey : Type 0
  pub sha3_hex : List ℕ → List ℕ
  pub sign : PrivateKey → ℕ → List ℕ → Option (List ℕ)
  pub verify : PublicKey → List ℕ → List ℕ → Bool

module _ (c : Crypto) where
  -- `Sign`: the bits of the private share at the positions that the hash selects, and a signature of
  -- their hash. `key` is the private key that was read and decoded.
  unfoldable pub did_sign :
      Option (List ℕ) → Option c.PrivateKey → ℕ → List ℕ → Outcome (List ℕ × List ℕ)
  did_sign pvt_share key random hash = do
    byte_img ← or_fail pvt_share
    let ps = byte_array_to_int_array byte_img
    pos ← or_panic (random_positions c.sha3_hex true hash ps)
    pvt_pos ← or_panic (get_private_positions pos.1 ps)
    let pvt_pos_str = int_array_to_str pvt_pos
    k ← or_fail key
    pvt_key_sign ← or_fail (c.sign k random (c.sha3_hex pvt_pos_str))
    bs ← or_fail (bitstream_to_bytes pvt_pos_str)
    done (bs, pvt_key_sign)

  -- `NlssVerify`.
  unfoldable pub nlss_verify :
      Option (List ℕ)
      → Option (List ℕ)
      → Option c.PublicKey
      → List ℕ
      → List ℕ
      → List ℕ
      → Outcome Bool
  unfolding bytes_equal org_positions
  nlss_verify did_img pub_share key hash pvt_share_sig pvt_key_sig = do
    did ← or_fail did_img
    pub1 ← or_fail pub_share
    let p_sig = convert_to_bit_string pvt_share_sig
    let ps = string_to_int_array p_sig
    pos ← or_panic (random_positions c.sha3_hex false hash ps)
    pub_pos ← or_panic (get_private_positions pos.1 (byte_array_to_int_array pub1))
    did_pos ← or_panic (get_private_positions (org_positions pos.0) (byte_array_to_int_array did))
    left ← or_panic (convert_bit_string p_sig)
    right ← or_panic (convert_bit_string (int_array_to_str pub_pos))
    cb ← or_panic (combine2_shares left right)
    db ← or_panic (convert_bit_string (int_array_to_str did_pos))
    if bytes_equal cb db
        then (do
          k ← or_fail key
          if c.verify k (c.sha3_hex p_sig) pvt_key_sig then done true else failed)
        else failed
