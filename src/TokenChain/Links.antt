-- ===== src/TokenChain/Links.antt =====
-- block/transaction.go and core/wallet/token_chain.go: the entry that `newTransToken` makes for the
-- next block passes the test of `addBlock`.
use rubixgoplatform.Prelude.{
  ℕ, zero, suc, ◌+◌, ◌*◌, ◌-◌, ◌/◌, ◌%◌, ◌^◌, ◌<◌, ◌≡◌, inl, inr, refl, List, [], ◌∷◌, Option, some,
  none, true, ◌==◌, leb, lt→ltb, ◌&&◌, ◌>>=◌, >>=-eq-some, some_eq, sym, ◌∙◌, ap, subst, Bool-cases,
  ==_iff, arith,
}
use rubixgoplatform.TokenAuth.Decimal.{decimal, decimal_from, read_digits, read_number}
use rubixgoplatform.TokenAuth.Text.{is_empty}
use rubixgoplatform.Blocks.{
  Block, TransToken, TransTokens, parse_uint64, get_block_number, get_block_id, new_trans_token,
}
use rubixgoplatform.TokenChain.Adding.{follows}

digit_is :
    (v n : ℕ) (cs : List ℕ) → read_digits v ((48 + n % 10) ∷ cs) ≡ read_digits (10 * v + n % 10) cs
unfolding read_digits
digit_is v n cs = rw (is_digit n) (ap (λ k. read_digits (10 * v + k) cs) (value n))
  where
    is_digit : (n : ℕ) → (leb 48 (48 + n % 10) && leb (48 + n % 10) 57) ≡ true
    is_digit n = ground arith

    value : (n : ℕ) → 48 + n % 10 - 48 ≡ n % 10
    value n = omega arith

read_digits-decimal_from :
    (fuel n : ℕ) (acc : List ℕ)
    → n < fuel
    → read_digits 0 (decimal_from fuel n acc) ≡ read_digits n acc
unfolding decimal_from
read_digits-decimal_from zero n acc h = elim h [ ]
read_digits-decimal_from (suc fuel) n acc h = elim (Bool-cases (n / 10 == 0)) [
  | inl small ↦
      rw (small, decimal_from)
        (digit_is 0 n acc ∙ ap (λ k. read_digits k acc) (last n ((==_iff (n / 10) 0).0 small)))
  | inr large ↦
      rw (large, decimal_from)
        (read_digits-decimal_from fuel (n / 10) ((48 + n % 10) ∷ acc) (ground arith)
          ∙ digit_is (n / 10) n acc
          ∙ ap (λ k. read_digits k acc) (whole n))
]
  where
    last : (n : ℕ) → n / 10 ≡ 0 → 10 * 0 + n % 10 ≡ n
    last n h = omega arith

    whole : (n : ℕ) → 10 * (n / 10) + n % 10 ≡ n
    whole n = omega arith

-- The digits before others are a text that is not empty.
decimal_from_cons :
    (fuel n c : ℕ) (acc : List ℕ)
    → (c' : ℕ) × (acc' : List ℕ) × (decimal_from fuel n (c ∷ acc) ≡ c' ∷ acc')
unfolding decimal_from
decimal_from_cons zero n c acc = (c, acc, refl)
decimal_from_cons (suc fuel) n c acc = elim (Bool-cases (n / 10 == 0)) [
  | inl small ↦ (48 + n % 10, c ∷ acc, rw (small, decimal_from) refl)
  | inr large ↦
      let (c', acc', e) = decimal_from_cons fuel (n / 10) (48 + n % 10) (c ∷ acc) in
      (c', acc', rw (large, decimal_from) e)
]

decimal_cons : (n : ℕ) → (c : ℕ) × (cs : List ℕ) × (decimal n ≡ c ∷ cs)
unfolding decimal decimal_from
decimal_cons n = elim (Bool-cases (n / 10 == 0)) [
  | inl small ↦ (48 + n % 10, [], rw (small, decimal_from) refl)
  | inr large ↦
      let (c, cs, e) = decimal_from_cons n (n / 10) (48 + n % 10) [] in
      (c, cs, rw (large, decimal_from) e)
]

digits : (n : ℕ) → read_digits 0 (decimal n) ≡ some n
unfolding decimal read_digits
digits n = read_digits-decimal_from (suc n) n [] (omega arith)

-- `ParseUint` reads back what `FormatUint` writes.
parse_uint64-decimal : (n : ℕ) → n < 2 ^ 64 → parse_uint64 (decimal n) ≡ some n
unfolding parse_uint64 read_number read_digits
parse_uint64-decimal n small =
    let (c, cs, e) = decimal_cons n in
    let read : read_digits 0 (c ∷ cs) ≡ some n = ap (read_digits 0) (sym e) ∙ digits n in
    ap parse_uint64 e ∙ rw (read, parse_uint64, read_number, lt→ltb n (2 ^ 64) small) refl

no_value : {A : Type 0} {a : A} → none ≡ some a → ⊥
no_value e = cc

-- The number of an entry, as `GetBlockNumber` reads it, passes the test after the block `lb`, and the
-- entry names `lb` as the block before it.
abbrev pub Continues : Option Block → List ℕ → TransToken → Type 0
Continues lb t e =
    (m : ℕ) × ((e.block_number >>= parse_uint64) ≡ some m)
    × (follows m lb t ≡ true)
    × ((b : Block) → lb ≡ some b → e.previous_block_id ≡ get_block_id b t)

Continues-first :
    (t : TransTokens) (e : TransToken) → new_trans_token none t ≡ some e → Continues none t.token e
unfolding new_trans_token follows parse_uint64 read_number read_digits
Continues-first t e h = elim (Bool-cases (is_empty t.token)) [
  | inl empty ↦ absurd (no_value (rw (empty, new_trans_token) at h))
  | inr full ↦
      subst (Continues none t.token) (some_eq (rw (full, new_trans_token) at h))
        (0, refl, refl, λ b same. absurd (no_value same))
]

next_number : (n : ℕ) → suc n < 2 ^ 64 → ((n + 1) % 2 ^ 64 ≡ suc n)
next_number n h = omega arith

Continues-next :
    (b : Block) (t : TransTokens) (n : ℕ) (e : TransToken)
    → get_block_number b t.token ≡ some n
    → suc n < 2 ^ 64
    → new_trans_token (some b) t ≡ some e
    → Continues (some b) t.token e
unfolding new_trans_token follows
Continues-next b t n e number small h = elim (Bool-cases (is_empty t.token)) [
  | inl empty ↦ absurd (no_value (rw (empty, new_trans_token) at h))
  | inr full ↦
      let (bid, id, made) =
        >>=-eq-some (get_block_id b t.token) _ (rw (full, number, new_trans_token) at h) in
      subst (Continues (some b) t.token) (some_eq made) (
        suc n,
        ap (λ k. parse_uint64 (decimal k)) (next_number n small)
            ∙ parse_uint64-decimal (suc n) small,
        rw (number, follows, lt→ltb n (suc n) (omega arith)) refl,
        λ b' same. sym id ∙ ap (λ x. get_block_id x t.token) (some_eq same),
      )
]

-- The entry that `newTransToken` makes for the block after the latest one, or for a first block, has
-- a number that passes the test of `addBlock`, where the numbers stay below 2 ^ 64.
pub new_trans_token-Continues :
    (lb : Option Block) (t : TransTokens) (e : TransToken)
    → ((b : Block) (n : ℕ) → lb ≡ some b → get_block_number b t.token ≡ some n → suc n < 2 ^ 64)
    → new_trans_token lb t ≡ some e
    → Continues lb t.token e
unfolding new_trans_token
new_trans_token-Continues none t e bounded h = Continues-first t e h
new_trans_token-Continues (some b) t e bounded h = elim (Bool-cases (is_empty t.token)) [
  | inl empty ↦ absurd (no_value (rw (empty, new_trans_token) at h))
  | inr full ↦
      let (n, number, _) =
        >>=-eq-some (get_block_number b t.token) _ (rw (full, new_trans_token) at h) in
      Continues-next b t n e number (bounded b n refl number) h
]
