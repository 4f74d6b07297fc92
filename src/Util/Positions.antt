-- ===== src/Util/Positions.antt =====
-- util/util.go: `RandomPositions` for the signer and for the verifier.
use rubixgoplatform.Prelude.{
  ℕ, zero, suc, ◌+◌, ◌*◌, ◌/◌, ◌%◌, ◌≤◌, ◌<◌, List, [], ◌∷◌, ◌++◌, some, refl, ◌≡◌, length,
  get_elem?, get_or, arith, All, Bool, true, false, if◌then◌else◌, ap, ◌∙◌, sym, subst,
  length-append, ◌>>=◌, >>=-eq-some, some_eq,
}
use mathlib.Core.List.{append_assoc}
use rubixgoplatform.Nlss.Share.Complies.{IsBitRow}
use rubixgoplatform.Util.{
  get_private_positions, eight_from, hex_value, set_elem?, block_start, int_array_to_str,
  positions_loop, zeros, random_positions,
}
use rubixgoplatform.Util.Streams.{flat}
use rubixgoplatform.Util.Blocks.{eight_at, block_reads, row-IsBitRow, picks, starts_of, eights}

-- The block of eight bits that a digit selects in round `k`.
abbrev pub block_of : ℕ → ℕ → ℕ
block_of k h = ((2402 + h) * 2709 + (k + 2709 + h)) % 2048 / 8

block_start-eq : (k h : ℕ) → block_start k h ≡ 8 * block_of k h
unfolding block_start
block_start-eq k h = omega arith

pub block_of-lt : (k h : ℕ) → block_of k h < 256
block_of-lt k h = omega arith

block_start-lt : (k h : ℕ) → block_start k h + 7 < 2048
unfolding block_start
block_start-lt k h = omega arith

pub set_elem?-append :
    (xs ys : List ℕ) (y p : ℕ)
    → set_elem? (xs ++ y ∷ ys) (length xs) p ≡ some ((xs ++ p ∷ []) ++ ys)
unfolding set_elem?
set_elem?-append [] ys y p = refl
set_elem?-append (x ∷ xs) ys y p =
    ap (λ z. z >>= λ rest. some (x ∷ rest)) (set_elem?-append xs ys y p)

module _ (sha3_hex : List ℕ → List ℕ) where
  abbrev pub hash_after : List ℕ → List ℕ → List ℕ → List ℕ
  hash_after hash original p1 = sha3_hex (hash ++ int_array_to_str original ++ int_array_to_str p1)

  -- One round, for either role, where its four reads succeed.
  pub round :
      (signer : Bool) (n k : ℕ) (hash original original' pvt row : List ℕ) (c h : ℕ)
      → get_elem? hash k ≡ some c
      → hex_value c ≡ some h
      → set_elem? original k (8 * block_of k h) ≡ some original'
      → get_private_positions
          (if signer then eight_from (8 * block_of k h) else eight_from (8 * k))
          pvt
        ≡ some row
      → positions_loop sha3_hex signer (suc n) k hash original pvt ≡ (
          positions_loop sha3_hex signer n (suc k) (hash_after hash original' row) original' pvt
          >>= λ r. some (r.0, eight_from (8 * block_of k h) ++ r.1))
  unfolding positions_loop
  round signer n k hash original original' pvt row c h char digit written read =
      rw (char, digit, block_start-eq k h, written, read) refl

  -- The signer's positions: blocks of eight bits of the share. The verifier, who is given the bits
  -- of these blocks one after the other, comes to the same positions.
  pub record Agrees (rows : List (List ℕ)) (n k : ℕ) (hash written : List ℕ) (r : List ℕ × List ℕ)
      : Type 0 where
    pub blocks : List ℕ
    pub count : length blocks ≡ n
    pub in_range : All (λ q. q < 256) blocks
    pub original : r.0 ≡ written ++ starts_of blocks
    pub for_sign : r.1 ≡ eights blocks
    pub verifier :
        (before : List ℕ)
        → length before ≡ 8 * k
        → positions_loop sha3_hex false n k hash
            (written ++ zeros n)
            (before ++ flat (picks blocks rows))
          ≡ some r

  -- What a round of the signer has read.
  module _ (rows : List (List ℕ)) (are_rows : All IsBitRow rows) (enough : 256 ≤ length rows) where
    pub reads :
        (k h : ℕ)
        → get_private_positions (eight_from (8 * block_of k h)) (flat rows)
          ≡ some (get_or rows (block_of k h) [])
    reads k h = block_reads rows (block_of k h) are_rows (omega (arith, block_of-lt k h))

    pub positions_loop-Agrees :
        (n k : ℕ) (hash written : List ℕ) {r : List ℕ × List ℕ}
        → length written ≡ k
        → positions_loop sha3_hex true n k hash (written ++ zeros n) (flat rows) ≡ some r
        → Agrees rows n k hash written r
    unfolding zeros positions_loop
    positions_loop-Agrees zero k hash written {r} l e =
        let same = some_eq e in
        record {
          blocks = [];
          count = refl;
          in_range = tt;
          original = ap (λ z. z.0) (sym same);
          for_sign = ap (λ z. z.1) (sym same);
          verifier = λ before lb. e;
        }
    positions_loop-Agrees (suc n) k hash written {r} l e =
        let (c, char, e1) = >>=-eq-some (get_elem? hash k) _ e in
        let (h, digit, e2) = >>=-eq-some (hex_value c) _ e1 in
        let q = block_of k h in
        let row = get_or rows q [] in
        let next = written ++ 8 * q ∷ [] in
        let hash' = hash_after hash (next ++ zeros n) row in
        let set : set_elem? (written ++ zeros (suc n)) k (8 * q) ≡ some (next ++ zeros n) =
          subst (λ m. set_elem? (written ++ zeros (suc n)) m (8 * q) ≡ some (next ++ zeros n)) l
            (set_elem?-append written (zeros n) 0 (8 * q)) in
        let go =
          round true n k hash (written ++ zeros (suc n)) (next ++ zeros n) (flat rows) row c h char
            digit set (reads k h) in
        let (r', loop, e3) =
          >>=-eq-some (positions_loop sha3_hex true n (suc k) hash' (next ++ zeros n) (flat rows)) _
            (sym go ∙ e) in
        let a =
          positions_loop-Agrees n (suc k) hash' next {r = r'}
            (length-append written (8 * q ∷ []) ∙ omega (arith, l)) loop in
        let same = some_eq e3 in
        let is_row = row-IsBitRow rows q are_rows (omega (arith, block_of-lt k h)) in
        record {
          blocks = q ∷ a.blocks;
          count = ap suc a.count;
          in_range = (block_of-lt k h, a.in_range);
          original =
              ap (λ z. z.0) (sym same)
              ∙ a.original
              ∙ append_assoc written (8 * q ∷ []) (starts_of a.blocks);
          for_sign = ap (λ z. z.1) (sym same) ∙ ap (λ z. eight_from (8 * q) ++ z) a.for_sign;
          verifier = λ before lb.
              round false n k hash (written ++ zeros (suc n)) (next ++ zeros n)
                (before ++ (row ++ flat (picks a.blocks rows))) row c h char digit set
                (ap
                    (λ m.
                      get_private_positions (eight_from m)
                        (before ++ (row ++ flat (picks a.blocks rows))))
                    (sym lb)
                  ∙ eight_at before row (flat (picks a.blocks rows)) is_row.0)
              ∙ ap (λ z. z >>= λ (r : List ℕ × List ℕ). some (r.0, eight_from (8 * q) ++ r.1))
                  (ap (positions_loop sha3_hex false n (suc k) hash' (next ++ zeros n))
                      (sym (append_assoc before row (flat (picks a.blocks rows))))
                    ∙ a.verifier (before ++ row)
                        (length-append before row ∙ omega (arith, lb, is_row.0)))
              ∙ e3;
        }

  -- Whoever runs it, `RandomPositions` selects positions below 2048, eight for each round.
  positions_loop_bounds :
      (signer : Bool) (n k : ℕ) (hash original pvt : List ℕ) {r : List ℕ × List ℕ}
      → positions_loop sha3_hex signer n k hash original pvt ≡ some r
      → (length r.1 ≡ 8 * n) × All (λ p. p < 2048) r.1
  unfolding positions_loop
  positions_loop_bounds signer zero k hash original pvt e =
      subst (λ (r : List ℕ × List ℕ). (length r.1 ≡ 0) × All (λ p. p < 2048) r.1) (some_eq e)
        (refl, tt)
  positions_loop_bounds signer (suc n) k hash original pvt e =
      let (c, char, e1) = >>=-eq-some (get_elem? hash k) _ e in
      let (h, digit, e2) = >>=-eq-some (hex_value c) _ e1 in
      let (o, set, e3) = >>=-eq-some (set_elem? original k (block_start k h)) _ e2 in
      let (p1, read, e4) =
        >>=-eq-some
          (get_private_positions
            (if signer then eight_from (block_start k h) else eight_from (8 * k)) pvt)
          _ e3 in
      let (r', loop, e5) =
        >>=-eq-some (positions_loop sha3_hex signer n (suc k) (hash_after hash o p1) o pvt) _ e4 in
      let (count, below) =
        positions_loop_bounds signer n (suc k) (hash_after hash o p1) o pvt {r = r'} loop in
      let lt = block_start-lt k h in
      subst (λ (r : List ℕ × List ℕ). (length r.1 ≡ 8 * suc n) × All (λ p. p < 2048) r.1)
        (some_eq e5)
        (
          omega (arith, count),
          (
            omega arith,
            (
              omega arith,
              (
                omega arith,
                (omega arith, (omega arith, (omega arith, (omega arith, (omega arith, below))))),
              ),
            ),
          ),
        )

  -- `RandomPositions` gives 256 positions, all of them below 2048.
  pub random_positions_bounds :
      (signer : Bool) (hash pvt : List ℕ) {r : List ℕ × List ℕ}
      → random_positions sha3_hex signer hash pvt ≡ some r
      → (length r.1 ≡ 256) × All (λ p. p < 2048) r.1
  unfolding random_positions
  random_positions_bounds signer hash pvt e =
      positions_loop_bounds signer 32 0 hash (zeros 32) pvt e
