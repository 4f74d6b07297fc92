-- ===== src/TokenChain/Adding.antt =====
-- core/wallet/token_chain.go: blocks added to the chain of a token.
use rubixgoplatform.Prelude.{
  ℕ, List, [], ◌∷◌, ◌++◌, Option, some, none, Bool, true, false, ◌==◌, ltb, if◌then◌else◌,
}
use rubixgoplatform.Blocks.{
  Block, get_block_number, get_block_id, get_token_type, get_hash, check_multi_token_block,
}
use rubixgoplatform.TokenChain.{
  Level, Shelf, tcs, dtcs, ntcs, smart_contracts, fts, get_chain_db, tcs_key, tcs_prefix, tcs_type,
  last_entry, get_raw_block, pick_block,
}

-- The checks of the block number: the first block has number 0, a later one a larger number than the
-- latest.
unfoldable pub follows : ℕ → Option Block → List ℕ → Bool
follows bn none token = bn == 0
follows bn (some lb) token = elim (get_block_number lb token) [
  | none ↦ false
  | some lbn ↦ ltb lbn bn
]

unfoldable pub same_shelf : Shelf → Shelf → Bool
same_shelf tcs tcs = true
same_shelf dtcs dtcs = true
same_shelf ntcs ntcs = true
same_shelf smart_contracts smart_contracts = true
same_shelf fts fts = true
same_shelf x y = false

module _ (g : Level) where
  unfoldable pub write_value : List ℕ → List ℕ → g.Db → Bool × g.Db
  write_value key v d = elim (g.put d key v) [ none ↦ (false, d) | some d' ↦ (true, d') ]

  -- `removeTokenChainBlockLatest` on the database.
  unfoldable pub remove_latest : ℕ → List ℕ → g.Db → Bool × g.Db
  remove_latest token_type token d = elim (last_entry (g.range d (tcs_prefix token_type token))) [
    | none ↦ (false, d)
    | some e ↦ elim (g.delete d e.0) [ none ↦ (false, d) | some d' ↦ (true, d') ]
  ]

  abbrev pub Stores : Type 0
  Stores = Shelf → g.Db

  -- The loop of `clearBlocks`, which does not look at errors.
  unfoldable pub delete_entries : List (List ℕ × List ℕ) → g.Db → g.Db
  delete_entries [] d = d
  delete_entries (e ∷ es) d = delete_entries es (elim (g.delete d e.0) [ none ↦ d | some d' ↦ d' ])

  -- `clearBlocks` on the database.
  unfoldable pub clear_blocks : ℕ → g.Db → g.Db
  unfolding delete_entries
  clear_blocks token_type d = delete_entries (g.range d (tcs_type token_type)) d

  -- `getBlock`.
  unfoldable pub get_block : ℕ → List ℕ → List ℕ → Stores → Option (List ℕ)
  get_block token_type token block_id s = elim (get_chain_db token_type) [
    | none ↦ none
    | some shelf ↦ get_raw_block g 2 (s shelf) (tcs_key token_type token block_id)
  ]

  module _ (sha3_hex : List ℕ → List ℕ) where
    abbrev pub reference_key : Block → List ℕ → List ℕ
    reference_key b bs = 114 ∷ 102 ∷ 45 ∷ sha3_hex b.bytes ++ 45 ∷ bs

    -- The end of `addBlock`: a block of several tokens is written once, under a key that the chains
    -- refer to.
    unfoldable pub store_block : List ℕ → Block → g.Db → Bool × g.Db
    unfolding write_value
    store_block key b d =
        if check_multi_token_block b
        then elim (get_hash b) [
          | none ↦ (false, d)
          | some bs ↦ elim (get_raw_block g 2 d (reference_key b bs)) [
            | some v ↦ write_value key (reference_key b bs) d
            | none ↦ elim (g.put d (reference_key b bs) b.bytes) [
              | none ↦ (false, d)
              | some d1 ↦ write_value key (reference_key b bs) d1
            ]
          ]
        ]
        else write_value key b.bytes d

    module _ (decode : List ℕ → Option Block) where
      -- `addBlock` on the database of the token's type: whether it succeeds, and what it leaves.
      unfoldable pub add_to_chain : ℕ → ℕ → List ℕ → Block → g.Db → Bool × g.Db
      unfolding store_block follows
      add_to_chain fuel token_type token b d = elim (get_block_id b token) [
        | none ↦ (false, d)
        | some bid ↦
            let (lb, d1) = pick_block g decode last_entry fuel token_type token d in
            elim (get_block_number b token) [
              | none ↦ (false, d1)
              | some bn ↦
                  if follows bn lb token
                  then store_block (tcs_key token_type token bid) b d1
                  else (false, d1)
            ]
      ]

      -- `addBlock`.
      unfoldable pub add_block : ℕ → List ℕ → Block → Stores → Bool × Stores
      unfolding add_to_chain same_shelf
      add_block fuel token b s = elim (get_chain_db (get_token_type b token)) [
        | none ↦ (false, s)
        | some shelf ↦
            let (added, d) = add_to_chain fuel (get_token_type b token) token b (s shelf) in
            (added, λ x. if same_shelf x shelf then d else s x)
      ]
