-- ===== src/Blocks.antt =====
-- block/block.go and block/transaction.go: what a block says of each of its tokens. A block is
-- decoded: `trans` is the map of its tokens, absent where the block has none, in the order in which
-- the map is walked; a text is the list of its bytes.
use rubixgoplatform.Prelude.{
  ℕ, ◌+◌, ◌%◌, ◌^◌, List, [], ◌∷◌, ◌++◌, Option, some, none, Bool, false, ltb, if◌then◌else◌,
  length, map, ◌>>=◌,
}
use rubixgoplatform.TokenAuth.Decimal.{decimal, read_number}
use rubixgoplatform.TokenAuth.Text.{same_text, is_empty}

pub record TransToken : Type 0 where
  pub token : List ℕ
  pub token_type : ℕ
  pub block_number : Option (List ℕ)
  pub previous_block_id : Option (List ℕ)
  pub unpledged_id : Option (List ℕ)
  pub commited_did : Option (List ℕ)

-- A token of a transaction, from which its entry is made.
pub record TransTokens : Type 0 where
  pub token : List ℕ
  pub token_type : ℕ
  pub unpleded_id : List ℕ
  pub commited_did : List ℕ

pub record Block : Type 0 where
  pub bytes : List ℕ
  pub block_hash : Option (List ℕ)
  pub trans : Option (List TransToken)

-- An entry of the map of tokens.
unfoldable pub find_token : List ℕ → List TransToken → Option TransToken
find_token t [] = none
find_token t (e ∷ es) = let rest = find_token t es in if same_text e.token t then some e else rest

unfoldable pub get_tokens_map : Block → List ℕ → Option TransToken
unfolding find_token
get_tokens_map b t = do tm ← b.trans; find_token t tm

-- `strconv.ParseUint(text, 10, 64)`.
unfoldable pub parse_uint64 : List ℕ → Option ℕ
parse_uint64 text = read_number (2 ^ 64) text

unfoldable pub get_block_number : Block → List ℕ → Option ℕ
unfolding parse_uint64 get_tokens_map
get_block_number b t = do ttm ← get_tokens_map b t; bni ← ttm.block_number; parse_uint64 bni

unfoldable pub get_block_id : Block → List ℕ → Option (List ℕ)
unfolding get_tokens_map
get_block_id b t = do
  ha ← b.block_hash
  ttm ← get_tokens_map b t
  bns ← ttm.block_number
  if is_empty bns then none else some (bns ++ 45 ∷ ha)

unfoldable pub get_prev_block_id : Block → List ℕ → Option (List ℕ)
unfolding get_tokens_map
get_prev_block_id b t = do ttm ← get_tokens_map b t; ttm.previous_block_id

-- `GetTokenType`: 0 where there is no entry.
unfoldable pub get_token_type : Block → List ℕ → ℕ
unfolding get_tokens_map
get_token_type b t = elim (get_tokens_map b t) [ none ↦ 0 | some e ↦ e.token_type ]

-- `GetHash`: an empty text is an error.
unfoldable pub get_hash : Block → Option (List ℕ)
get_hash b = do h ← b.block_hash; if is_empty h then none else some h

unfoldable pub check_multi_token_block : Block → Bool
check_multi_token_block b = elim b.trans [ none ↦ false | some tm ↦ ltb 1 (length tm) ]

unfoldable pub get_trans_tokens : Block → Option (List (List ℕ))
get_trans_tokens b = do tm ← b.trans; some (map (λ e. e.token) tm)

abbrev pub unless_empty : List ℕ → Option (List ℕ)
unless_empty text = if is_empty text then none else some text

-- `newTransToken`: the entry of a token in the block after `b`. The number is one of 64 bits.
unfoldable pub new_trans_token : Option Block → TransTokens → Option TransToken
unfolding get_block_number get_block_id
new_trans_token none t =
    if is_empty t.token
    then none
    else some (record {
      token = t.token;
      token_type = t.token_type;
      block_number = some (48 ∷ []);
      previous_block_id = some [];
      unpledged_id = unless_empty t.unpleded_id;
      commited_did = unless_empty t.commited_did;
    })
new_trans_token (some b) t =
    if is_empty t.token
    then none
    else (get_block_number b t.token >>= λ bn. get_block_id b t.token >>= λ bid. some (record {
      token = t.token;
      token_type = t.token_type;
      block_number = some (decimal ((bn + 1) % 2 ^ 64));
      previous_block_id = some bid;
      unpledged_id = unless_empty t.unpleded_id;
      commited_did = unless_empty t.commited_did;
    }))

-- The tokens of `newTransInfo`: the latest block of a token is `ctcb` of it.
unfoldable pub new_trans_tokens :
    (List ℕ → Option Block) → List TransTokens → Option (List TransToken)
unfolding new_trans_token
new_trans_tokens ctcb [] = some []
new_trans_tokens ctcb (t ∷ ts) = do
  e ← new_trans_token (ctcb t.token) t
  es ← new_trans_tokens ctcb ts
  some (e ∷ es)
