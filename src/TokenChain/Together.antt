-- ===== src/TokenChain/Together.antt =====
-- core/wallet/token_chain.go: a block of several tokens added to their chains.
use rubixgoplatform.Prelude.{ℕ, List, [], ◌∷◌, Option, some, none, Bool, true, false, if◌then◌else◌}
use rubixgoplatform.Blocks.{
  Block, get_block_number, get_block_id, get_token_type, get_hash, get_trans_tokens,
}
use rubixgoplatform.TokenChain.{
  Level, Shelf, get_chain_db, tcs_key, last_entry, get_raw_block, pick_block,
}
use rubixgoplatform.TokenChain.Adding.{
  Stores, same_shelf, follows, write_value, reference_key, add_block,
}

module _ (g : Level) where
  unfoldable pub set_shelf : Shelf → g.Db → Stores g → Stores g
  unfolding same_shelf
  set_shelf shelf d s x = if same_shelf x shelf then d else s x

  -- The last loop of `addBlocks`: a reference for each token, in one database.
  unfoldable pub write_references : List ℕ → Block → List (List ℕ) → g.Db → Bool × g.Db
  unfolding write_value
  write_references refkey b [] d = (true, d)
  write_references refkey b (t ∷ ts) d = elim (get_block_id b t) [
    | none ↦ (false, d)
    | some bid ↦
        let (written, d') = write_value g (tcs_key (get_token_type b t) t bid) refkey d in
        let rest = write_references refkey b ts d' in if written then rest else (false, d')
  ]

  module _ (sha3_hex : List ℕ → List ℕ) (decode : List ℕ → Option Block) where
    -- `getLatestBlock`: a type without a database has no block.
    unfoldable pub latest_in : ℕ → ℕ → List ℕ → Stores g → Option Block × Stores g
    unfolding set_shelf
    latest_in fuel token_type token s = elim (get_chain_db token_type) [
      | none ↦ (none, s)
      | some shelf ↦
          let (lb, d) = pick_block g decode last_entry fuel token_type token (s shelf) in
          (lb, set_shelf shelf d s)
    ]

    -- The first loop of `addBlocks`.
    unfoldable pub check_tokens : ℕ → Block → List (List ℕ) → Stores g → Bool × Stores g
    unfolding latest_in follows
    check_tokens fuel b [] s = (true, s)
    check_tokens fuel b (t ∷ ts) s =
        let (lb, s1) = latest_in fuel (get_token_type b t) t s in
        let rest = check_tokens fuel b ts s1 in
        elim (get_block_number b t) [
          | none ↦ (false, s1)
          | some bn ↦ if follows bn lb t then rest else (false, s1)
        ]

    -- The rest of `addBlocks`: a block that is stored already is an error.
    unfoldable pub store_together : Shelf → Block → List (List ℕ) → Stores g → Bool × Stores g
    unfolding write_references set_shelf
    store_together shelf b tokens s = elim (get_hash b) [
      | none ↦ (false, s)
      | some bs ↦ elim (get_raw_block g 2 (s shelf) (reference_key g sha3_hex b bs)) [
        | some v ↦ (false, s)
        | none ↦ elim (g.put (s shelf) (reference_key g sha3_hex b bs) b.bytes) [
          | none ↦ (false, s)
          | some d ↦
              let (written, d') = write_references (reference_key g sha3_hex b bs) b tokens d in
              (written, set_shelf shelf d' s)
        ]
      ]
    ]

    -- `addBlocks` on two tokens or more.
    unfoldable pub add_together : ℕ → Block → List ℕ → List (List ℕ) → Stores g → Bool × Stores g
    unfolding check_tokens store_together
    add_together fuel b t ts s = elim (get_chain_db (get_token_type b t)) [
      | none ↦ (false, s)
      | some shelf ↦
          let (right, s1) = check_tokens fuel b (t ∷ ts) s in
          if right then store_together shelf b (t ∷ ts) s1 else (false, s1)
    ]

    -- `addBlocks`. A block without tokens is an error or a panic.
    unfoldable pub add_blocks : ℕ → Block → Stores g → Bool × Stores g
    unfolding add_together
    add_blocks fuel b s = elim (get_trans_tokens b) [
      | none ↦ (false, s)
      | some tokens ↦ elim tokens [
        | [] ↦ (false, s)
        | t ∷ [] ↦ add_block g sha3_hex decode fuel t b s
        | t ∷ u ∷ ts ↦ add_together fuel b t (u ∷ ts) s
      ]
    ]
