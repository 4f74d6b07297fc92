-- ===== src/Util/Signer.antt =====
-- util/util.go: `RandomPositions` returns for the signer of a long enough share.
use rubixgoplatform.Prelude.{
  ℕ, zero, suc, ◌+◌, ◌*◌, ◌≤◌, ◌<◌, List, [], ◌∷◌, ◌++◌, some, refl, ◌≡◌, length, get_elem?, get_or,
  arith, All, true, ap, ◌∙◌, subst, length-append, ◌>>=◌,
}
use rubixgoplatform.Nlss.Share.Complies.{IsBitRow}
use rubixgoplatform.Util.{eight_from, hex_value, set_elem?, positions_loop, zeros, random_positions}
use rubixgoplatform.Util.Streams.{flat}
use rubixgoplatform.Util.Positions.{block_of, hash_after, round, reads, set_elem?-append}

abbrev pub IsHex : ℕ → Type 0
IsHex c = (h : ℕ) × (hex_value c ≡ some h)

-- A text that starts with 32 hexadecimal digits or more.
abbrev pub IsHexText : List ℕ → Type 0
IsHexText t = (32 ≤ length t) × All IsHex t

IsHex-at :
    (t : List ℕ) (k : ℕ) → k < length t → All IsHex t → (c : ℕ) × (get_elem? t k ≡ some c) × IsHex c
IsHex-at [] k lt h = elim lt [ ]
IsHex-at (c ∷ t) zero lt (hc, h) = (c, refl, hc)
IsHex-at (c ∷ t) (suc k) lt (hc, h) = IsHex-at t k (omega arith) h

module _ (sha3_hex : List ℕ → List ℕ) (law : (m : List ℕ) → IsHexText (sha3_hex m))
    (rows : List (List ℕ)) (are_rows : All IsBitRow rows) (enough : 256 ≤ length rows) where
  signer_total :
      (n k : ℕ) (hash written : List ℕ)
      → k + n ≡ 32
      → length written ≡ k
      → IsHexText hash
      → (r : List ℕ × List ℕ) × (positions_loop sha3_hex true n k hash
            (written ++ zeros n)
            (flat rows)
          ≡ some r)
  unfolding positions_loop zeros
  signer_total zero k hash written s l h = ((written ++ [], []), refl)
  signer_total (suc n) k hash written s l h =
      let (c, char, (v, digit)) = IsHex-at hash k (omega (arith, h.0)) h.1 in
      let q = block_of k v in
      let row = get_or rows q [] in
      let next = written ++ 8 * q ∷ [] in
      let set : set_elem? (written ++ zeros (suc n)) k (8 * q) ≡ some (next ++ zeros n) =
        subst (λ m. set_elem? (written ++ zeros (suc n)) m (8 * q) ≡ some (next ++ zeros n)) l
          (set_elem?-append written (zeros n) 0 (8 * q)) in
      let go =
        round sha3_hex true n k hash (written ++ zeros (suc n)) (next ++ zeros n) (flat rows) row c
          v char digit set (reads sha3_hex rows are_rows enough k v) in
      let (r, later) =
        signer_total n (suc k) (hash_after sha3_hex hash (next ++ zeros n) row) next (omega arith)
          (length-append written (8 * q ∷ []) ∙ omega (arith, l)) (law _) in
      (
        (r.0, eight_from (8 * q) ++ r.1),
        go ∙ ap (λ z. z >>= λ (r : List ℕ × List ℕ). some (r.0, eight_from (8 * q) ++ r.1)) later,
      )

  -- With a hash of 32 hexadecimal digits or more, the signer's positions are found.
  pub random_positions_total :
      (hash : List ℕ)
      → IsHexText hash
      → (r : List ℕ × List ℕ) × (random_positions sha3_hex true hash (flat rows) ≡ some r)
  unfolding random_positions
  random_positions_total hash h = signer_total 32 0 hash [] refl refl h
