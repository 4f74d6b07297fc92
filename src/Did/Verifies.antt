-- ===== src/Did/Verifies.antt =====
-- did/basic.go: `NlssVerify` accepts what `Sign` signs.
use rubixgoplatform.Prelude.{
  ℕ, ◌≤◌, ◌<◌, List, [], some, refl, ◌≡◌, length, arith, All, All-map, true, false, ap, ◌∙◌, sym,
  subst, some_eq,
}
use rubixgoplatform.Prelude.Outcome.{done}
use rubixgoplatform.Nlss.Bits.{convert_bit_string}
use rubixgoplatform.Nlss.Bits.RoundTrip.{
  Rows, to_bits, row_values, convert_to_bit_string-eq, to_bits-row_values, convert_bit_string-Rows,
  to_bits-Rows, Rows-length,
}
use rubixgoplatform.Nlss.Share.Complies.{IsBitRow}
use rubixgoplatform.Nlss.Tree.{gen2_shares}
use rubixgoplatform.Nlss.Tree.Rows.{row_text, text, Encoded, row_text-IsBitChar, length-row_text}
use rubixgoplatform.Nlss.Combine.Recovers.{Encoded-length}
use rubixgoplatform.Nlss.Combine.EncodedShares.{EncodedShares, gen2_shares-EncodedShares}
use rubixgoplatform.Util.{
  byte_array_to_int_array, string_to_int_array, int_array_to_str, get_private_positions,
  positions_loop, random_positions, bitstream_to_bytes, zeros,
}
use rubixgoplatform.Util.Streams.{
  flat, text-flat, int_array_to_str-eq, string_to_int_array-row_text, byte_array_to_int_array-flat,
  row_text-byte_array_to_int_array, byte_array_to_int_array-IsBit, bitstream_to_bytes-Rows,
}
use rubixgoplatform.Util.Blocks.{picks, picks-IsBitRow, blocks_read}
use rubixgoplatform.Util.Positions.{Agrees, positions_loop-Agrees}
use rubixgoplatform.Did.{org_positions, Crypto, did_sign, nlss_verify}
use rubixgoplatform.Did.Picked.{Picked, picked, org_positions-starts_of, whole-Rows}
use rubixgoplatform.Did.Combined.{length-picks, flat-IsBit, Encoded-count, bits_of, combined}
use rubixgoplatform.Did.Steps.{did_sign-Signed, accepts}

module _ (c : Crypto) where
  -- What the signer's blocks give the verifier.
  module _ (did hash : List ℕ) (z : List ℕ × List ℕ) (long : 32 ≤ length did)
      (e : EncodedShares did z) where
    abbrev ints : List ℕ
    ints = byte_array_to_int_array did

    ints-text : row_text ints ≡ to_bits did
    ints-text = row_text-byte_array_to_int_array did

    pub enough : 256 ≤ length e.secrets
    enough = omega (
      arith,
      Encoded-count (to_bits did) e.secrets e.cands e.encoded,
      Rows-length (length did) (to_bits did) (to_bits-Rows did),
    )

    ints-length : length ints ≡ length e.secrets
    ints-length =
        sym (length-row_text ints)
        ∙ ap length ints-text
        ∙ sym (Encoded-count (to_bits did) e.secrets e.cands e.encoded)

    share_bits :
        (share : List ℕ) (rows : List (List ℕ))
        → All IsBitRow rows
        → to_bits share ≡ text rows
        → byte_array_to_int_array share ≡ flat rows
    share_bits share rows h t =
        byte_array_to_int_array-flat share (flat rows) (flat-IsBit rows h) (t ∙ text-flat rows)

    pub signer_bits : byte_array_to_int_array z.0 ≡ flat e.secrets
    signer_bits = share_bits z.0 e.secrets e.secret_rows e.secret_text

    public_bits : byte_array_to_int_array z.1 ≡ flat e.cands
    public_bits = share_bits z.1 e.cands e.cand_rows e.cand_text

    pub blocks_agree :
        (pos : List ℕ × List ℕ)
        → random_positions c.sha3_hex true hash (byte_array_to_int_array z.0) ≡ some pos
        → Agrees c.sha3_hex e.secrets 32 0 hash [] pos
    unfolding random_positions
    blocks_agree pos h =
        positions_loop-Agrees c.sha3_hex e.secrets e.secret_rows enough 32 0 hash [] refl (
          ap (λ bits. positions_loop c.sha3_hex true 32 0 hash (zeros 32) bits) (sym signer_bits)
          ∙ h)

    module _ (pos : List ℕ × List ℕ) (a : Agrees c.sha3_hex e.secrets 32 0 hash [] pos) where
      below : (n : ℕ) → 256 ≤ n → All (λ q. q < n) a.blocks
      below n le = All-map (λ q. q < 256) (λ q. q < n) a.blocks (λ q lt. omega arith) a.in_range

      cands-length : length e.cands ≡ length e.secrets
      cands-length = Encoded-length (to_bits did) e.secrets e.cands e.encoded

      -- What the positions read of a share.
      pub share_reads :
          (share : List ℕ) (rows : List (List ℕ))
          → All IsBitRow rows
          → length rows ≡ length e.secrets
          → byte_array_to_int_array share ≡ flat rows
          → get_private_positions pos.1 (byte_array_to_int_array share)
            ≡ some (flat (picks a.blocks rows))
      share_reads share rows h l same =
          (λ i. get_private_positions (a.for_sign i) (same i))
          ∙ blocks_read a.blocks rows h (below (length rows) (omega (arith, enough)))

      pub picks-Rows :
          (rows : List (List ℕ))
          → All IsBitRow rows
          → length rows ≡ length e.secrets
          → All IsBitRow (picks a.blocks rows) × Rows 32 (text (picks a.blocks rows))
      picks-Rows rows h l =
          let bits = picks-IsBitRow a.blocks rows h (below (length rows) (omega (arith, enough))) in
          (bits, bits_of 32 (picks a.blocks rows) bits (length-picks a.blocks rows ∙ a.count))

      did_bits : Picked a.blocks ints e.secrets e.cands
      did_bits =
          picked a.blocks ints e.secrets e.cands (byte_array_to_int_array-IsBit did)
            (subst (λ t. Encoded t e.secrets e.cands) (sym ints-text) e.encoded)
            (below (length ints) (omega (arith, enough, ints-length)))

      did_reads : get_private_positions (org_positions pos.0) ints ≡ some did_bits.found
      did_reads =
          ap (λ qs. get_private_positions qs ints)
            (ap org_positions a.original ∙ org_positions-starts_of a.blocks)
          ∙ did_bits.reads

      verifier_positions :
          random_positions c.sha3_hex false hash (flat (picks a.blocks e.secrets)) ≡ some pos
      unfolding random_positions
      verifier_positions = a.verifier [] refl

      -- `NlssVerify` accepts the picked bits.
      picked-accepts :
          (k : c.PublicKey) (sig : List ℕ)
          → c.verify k (c.sha3_hex (text (picks a.blocks e.secrets))) sig ≡ true
          → nlss_verify c
              (some did)
              (some z.1)
              (some k)
              hash
              (row_values 32 (text (picks a.blocks e.secrets)))
              sig
            ≡ done true
      picked-accepts k sig v =
          let (ss, s_rows) = picks-Rows e.secrets e.secret_rows refl in
          let (cs, c_rows) = picks-Rows e.cands e.cand_rows cands-length in
          let p = picks a.blocks e.secrets in
          let q = picks a.blocks e.cands in
          let d = did_bits in
          let l = d.count ∙ a.count in
          accepts c did z.1 hash (row_values 32 (text p)) sig (text p) (flat p) (flat q) d.found
            (row_values 32 (text p)) (row_values 32 (text q)) (row_values 4 (row_text d.found)) pos
            k
            (convert_to_bit_string-eq (row_values 32 (text p))
              ∙ to_bits-row_values 32 (text p) s_rows)
            (ap string_to_int_array (text-flat p)
              ∙ string_to_int_array-row_text (flat p) (flat-IsBit p ss))
            verifier_positions (share_reads z.1 e.cands e.cand_rows cands-length public_bits)
            did_reads (convert_bit_string-Rows 32 (text p) s_rows)
            (ap convert_bit_string (int_array_to_str-eq (flat q) ∙ sym (text-flat q))
              ∙ convert_bit_string-Rows 32 (text q) c_rows)
            (combined d.found p q l ss cs d.encoded)
            (ap convert_bit_string (int_array_to_str-eq d.found)
              ∙ convert_bit_string-Rows 4 (row_text d.found) (
                  whole-Rows 4 (row_text d.found) (length-row_text d.found ∙ l)
                    (row_text-IsBitChar d.found)))
            v

      pub pvt_pos-eq :
          (pvt_pos : List ℕ)
          → get_private_positions pos.1 (byte_array_to_int_array z.0) ≡ some pvt_pos
          → int_array_to_str pvt_pos ≡ text (picks a.blocks e.secrets)
      pvt_pos-eq pvt_pos h =
          let p = picks a.blocks e.secrets in
          ap int_array_to_str
            (some_eq (sym h ∙ share_reads z.0 e.secrets e.secret_rows refl signer_bits))
          ∙ int_array_to_str-eq (flat p)
          ∙ sym (text-flat p)

      streamed :
          (pvt_pos bs : List ℕ)
          → int_array_to_str pvt_pos ≡ text (picks a.blocks e.secrets)
          → bitstream_to_bytes (int_array_to_str pvt_pos) ≡ some bs
          → row_values 32 (text (picks a.blocks e.secrets)) ≡ bs
      streamed pvt_pos bs same h =
          let (_, rows) = picks-Rows e.secrets e.secret_rows refl in
          some_eq (
            sym (
              ap bitstream_to_bytes same
              ∙ bitstream_to_bytes-Rows 31 (text (picks a.blocks e.secrets)) rows)
            ∙ h)

      -- What `Sign` has returned is accepted.
      pub signed-accepts :
          (key : c.PrivateKey) (pubkey : c.PublicKey) (random : ℕ) (out : List ℕ × List ℕ)
          (pvt_pos : List ℕ)
          → ((r : ℕ) (m s : List ℕ) → c.sign key r m ≡ some s → c.verify pubkey m s ≡ true)
          → get_private_positions pos.1 (byte_array_to_int_array z.0) ≡ some pvt_pos
          → c.sign key random (c.sha3_hex (int_array_to_str pvt_pos)) ≡ some out.1
          → bitstream_to_bytes (int_array_to_str pvt_pos) ≡ some out.0
          → nlss_verify c (some did) (some z.1) (some pubkey) hash out.0 out.1 ≡ done true
      signed-accepts key pubkey random out pvt_pos law read signature stream =
          let same = pvt_pos-eq pvt_pos read in
          ap (λ bs. nlss_verify c (some did) (some z.1) (some pubkey) hash bs out.1)
            (sym (streamed pvt_pos out.0 same stream))
          ∙ picked-accepts pubkey out.1 (
              law random (c.sha3_hex (text (picks a.blocks e.secrets))) out.1
                (ap (λ t. c.sign key random (c.sha3_hex t)) (sym same) ∙ signature))

  -- A signature that `Sign` makes with the private share of a DID of at least 32 bytes is accepted by
  -- `NlssVerify` with the public share of the same sharing and the matching key, whatever was drawn.
  pub nlss_verify-did_sign :
      (did draws hash : List ℕ) (key : c.PrivateKey) (pubkey : c.PublicKey) (random : ℕ)
      {pvt pub1 bs sig : List ℕ}
      → ((r : ℕ) (m s : List ℕ) → c.sign key r m ≡ some s → c.verify pubkey m s ≡ true)
      → 32 ≤ length did
      → gen2_shares did draws ≡ some (pvt, pub1)
      → did_sign c (some pvt) (some key) random hash ≡ done (bs, sig)
      → nlss_verify c (some did) (some pub1) (some pubkey) hash bs sig ≡ done true
  nlss_verify-did_sign did draws hash key pubkey random {pvt} {pub1} {bs} {sig} law long made
        signed =
      let e = gen2_shares-EncodedShares did draws {z = (pvt, pub1)} made in
      let s = did_sign-Signed c pvt key random hash signed in
      let a = blocks_agree did hash (pvt, pub1) long e s.pos s.positions in
      signed-accepts did hash (pvt, pub1) long e s.pos a key pubkey random (bs, sig) s.pvt_pos law
        s.reads s.signature s.stream
