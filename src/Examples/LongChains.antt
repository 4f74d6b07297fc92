-- ===== src/Examples/LongChains.antt =====
-- core/wallet/token_chain.go: `getAllBlocks` at a chain of more blocks than its limit.
use rubixgoplatform.Prelude.{
  ℕ, zero, suc, ◌≡◌, refl, List, [], ◌∷◌, ◌++◌, Option, some, none, if◌then◌else◌, ◌==◌, Bool-cases,
}
use rubixgoplatform.TokenAuth.Decimal.{decimal, decimal_from, read_digits, read_number}
use rubixgoplatform.TokenAuth.Text.{same_text, is_empty}
use rubixgoplatform.Blocks.{
  Block, find_token, get_tokens_map, parse_uint64, get_block_number, get_block_id, get_hash,
}
use rubixgoplatform.TokenChain.{
  type_text, tcs_prefix, push_char, split_dash, hex_text, key_of_pieces, tcs_key, is_old_key,
  is_reference, get_raw_block,
}
use rubixgoplatform.TokenChain.AllBlocks.{
  add_found, raw_of_value, collect_blocks, after_seek, get_all_blocks, AllOf, get_all_blocks-AllOf,
}
use rubixgoplatform.TokenChain.Memory.{
  memory_level, compare_texts, lookup, insert, Rising-insert, strip, select,
}
use rubixgoplatform.Examples.Chains.{token, digest0, entry}

abbrev block_bytes : ℕ → List ℕ
block_bytes n = 161 ∷ n ∷ []

abbrev numbered : ℕ → Block
numbered n = record {
  bytes = block_bytes n;
  block_hash = some digest0;
  trans = some (entry token (decimal n) [] ∷ []);
}

abbrev decode : List ℕ → Option Block
decode (first ∷ n ∷ []) = if first == 161 then some (numbered n) else none
decode bytes = none

abbrev id_of : ℕ → List ℕ
id_of n = decimal n ++ 45 ∷ digest0

-- The chain with the blocks below `n` added, the last one first.
abbrev filled : ℕ → memory_level.Db → memory_level.Db
filled zero d = d
filled (suc n) d =
    let key = tcs_key 0 token (id_of n) in
    filled n (insert key (block_bytes n) d.0, Rising-insert key (block_bytes n) d.0 d.1)

abbrev long_chain : memory_level.Db
long_chain = filled 101 ([], tt)

-- The bytes of `n` blocks from the number `from` on.
abbrev blocks_from : (from n : ℕ) → List (List ℕ)
blocks_from from zero = []
blocks_from from (suc n) = block_bytes from ∷ blocks_from (suc from) n

long_chain-blocks :
    get_all_blocks memory_level decode 1 0 token [] long_chain
    ≡ (some (blocks_from 0 101, id_of 99), long_chain)
unfolding collect_blocks add_found raw_of_value after_seek get_all_blocks tcs_key key_of_pieces
    split_dash push_char hex_text tcs_prefix type_text is_old_key is_reference get_raw_block
    compare_texts lookup insert strip select find_token get_tokens_map parse_uint64 get_block_number
    get_block_id get_hash same_text is_empty read_digits read_number decimal decimal_from Bool-cases
long_chain-blocks = refl

-- The hundred and first block comes too.
get_all_blocks-AllOf_example :
    AllOf memory_level decode token
      (memory_level.range long_chain (tcs_prefix 0 token))
      long_chain
      (blocks_from 0 101)
      (id_of 99)
get_all_blocks-AllOf_example =
    get_all_blocks-AllOf memory_level decode 1 0 token long_chain long_chain (blocks_from 0 101)
      (id_of 99) long_chain-blocks
