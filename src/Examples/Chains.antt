-- ===== src/Examples/Chains.antt =====
-- core/wallet/token_chain.go: the theorems at a chain of two blocks, the second one of two tokens.
use rubixgoplatform.Prelude.{
  Bool-cases, drop, inl, ℕ, suc, ◌^◌, ◌<◌, ◌≡◌, ◌≢◌, refl, List, [], ◌∷◌, Option, some, none, true,
  false, if◌then◌else◌, arith, All, ap, ◌∙◌, sym, subst, some_eq,
}
use rubixgoplatform.TokenAuth.Decimal.{decimal, decimal_from, read_digits, read_number}
use rubixgoplatform.TokenAuth.Text.{same_text, is_empty}
use rubixgoplatform.Blocks.{
  Block, TransToken, TransTokens, find_token, get_tokens_map, parse_uint64, get_block_number,
  get_block_id, get_hash, check_multi_token_block, new_trans_token,
}
use rubixgoplatform.TokenChain.{
  type_text, tcs_prefix, push_char, split_dash, hex_text, key_of_pieces, tcs_key, is_old_key,
  is_reference, get_raw_block, block_of_value, pick_block,
}
use rubixgoplatform.TokenChain.Keys.{NoDash}
use rubixgoplatform.TokenChain.Adding.{
  follows, write_value, store_block, add_to_chain, reference_key,
}
use rubixgoplatform.TokenChain.Stored.{IsAddressed}
use rubixgoplatform.TokenChain.Latest.{IsKept}
use rubixgoplatform.TokenChain.Appends.{IsDigest, Appends, add_to_chain-Appends}
use rubixgoplatform.TokenChain.Links.{Continues, new_trans_token-Continues}
use rubixgoplatform.TokenChain.Together.{add_blocks}
use rubixgoplatform.TokenChain.Replays.{InOrder, Replayed, add_blocks-Replayed}
use rubixgoplatform.TokenChain.{Shelf, tcs, dtcs, ntcs, smart_contracts, fts, get_chain_db}
use rubixgoplatform.TokenChain.Adding.{Stores}
use rubixgoplatform.Blocks.{get_trans_tokens, get_token_type}
use rubixgoplatform.TokenChain.Memory.{memory_level, compare_texts, lookup, insert, strip, select}

abbrev pub token : List ℕ
token =
    81 ∷ 109 ∷ 82 ∷ 117 ∷ 98 ∷ 105 ∷ 120 ∷ 84 ∷ 111 ∷ 107 ∷ 101 ∷ 110 ∷ 65 ∷ 98 ∷ 99 ∷ 100 ∷ 101
    ∷ 102 ∷ 103 ∷ 104 ∷ 105 ∷ 106 ∷ 107 ∷ 109 ∷ 110 ∷ 111 ∷ 112 ∷ 113 ∷ 114 ∷ 115 ∷ 116 ∷ 117 ∷ 118
    ∷ 119 ∷ 120 ∷ 121 ∷ 122 ∷ 49 ∷ 50 ∷ 51 ∷ 52 ∷ 53 ∷ 54 ∷ 55 ∷ 56 ∷ 57 ∷ []

abbrev pub digest0 : List ℕ
digest0 =
    48 ∷ 49 ∷ 50 ∷ 51 ∷ 52 ∷ 53 ∷ 54 ∷ 55 ∷ 56 ∷ 57 ∷ 97 ∷ 98 ∷ 99 ∷ 100 ∷ 101 ∷ 102 ∷ 48 ∷ 49 ∷ 50
    ∷ 51 ∷ 52 ∷ 53 ∷ 54 ∷ 55 ∷ 56 ∷ 57 ∷ 97 ∷ 98 ∷ 99 ∷ 100 ∷ 101 ∷ 102 ∷ 48 ∷ 49 ∷ 50 ∷ 51 ∷ 52
    ∷ 53 ∷ 54 ∷ 55 ∷ 56 ∷ 57 ∷ 97 ∷ 98 ∷ 99 ∷ 100 ∷ 101 ∷ 102 ∷ 48 ∷ 49 ∷ 50 ∷ 51 ∷ 52 ∷ 53 ∷ 54
    ∷ 55 ∷ 56 ∷ 57 ∷ 97 ∷ 98 ∷ 99 ∷ 100 ∷ 101 ∷ 102 ∷ []

abbrev digest1 : List ℕ
digest1 =
    102 ∷ 101 ∷ 100 ∷ 99 ∷ 98 ∷ 97 ∷ 57 ∷ 56 ∷ 55 ∷ 54 ∷ 53 ∷ 52 ∷ 51 ∷ 50 ∷ 49 ∷ 48 ∷ 102 ∷ 101
    ∷ 100 ∷ 99 ∷ 98 ∷ 97 ∷ 57 ∷ 56 ∷ 55 ∷ 54 ∷ 53 ∷ 52 ∷ 51 ∷ 50 ∷ 49 ∷ 48 ∷ 102 ∷ 101 ∷ 100 ∷ 99
    ∷ 98 ∷ 97 ∷ 57 ∷ 56 ∷ 55 ∷ 54 ∷ 53 ∷ 52 ∷ 51 ∷ 50 ∷ 49 ∷ 48 ∷ 102 ∷ 101 ∷ 100 ∷ 99 ∷ 98 ∷ 97
    ∷ 57 ∷ 56 ∷ 55 ∷ 54 ∷ 53 ∷ 52 ∷ 51 ∷ 50 ∷ 49 ∷ 48 ∷ []

abbrev pub entry : List ℕ → List ℕ → List ℕ → TransToken
entry t number previous = record {
  token = t;
  token_type = 0;
  block_number = some number;
  previous_block_id = some previous;
  unpledged_id = none;
  commited_did = none;
}

abbrev genesis : Block
genesis = record {
  bytes = 161 ∷ 0 ∷ [];
  block_hash = some digest0;
  trans = some (entry token (48 ∷ []) [] ∷ []);
}

abbrev second : Block
second = record {
  bytes = 161 ∷ 1 ∷ [];
  block_hash = some digest1;
  trans = some (entry token (49 ∷ []) (48 ∷ 45 ∷ digest0) ∷ entry (120 ∷ []) (48 ∷ []) [] ∷ []);
}

abbrev decode : List ℕ → Option Block
decode bytes =
    if same_text bytes (161 ∷ 0 ∷ [])
    then some genesis
    else if same_text bytes (161 ∷ 1 ∷ [])
    then some second
    else none

abbrev sha : List ℕ → List ℕ
sha m = 97 ∷ []

abbrev nothing : memory_level.Db
nothing = ([], tt)

abbrev after_genesis : memory_level.Db
after_genesis = (add_to_chain memory_level sha decode 1 0 token genesis nothing).1

abbrev after_second : memory_level.Db
after_second = (add_to_chain memory_level sha decode 1 0 token second after_genesis).1

genesis_added : (add_to_chain memory_level sha decode 1 0 token genesis nothing).0 ≡ true
unfolding add_to_chain store_block write_value follows tcs_key key_of_pieces split_dash push_char
    hex_text tcs_prefix type_text is_old_key is_reference get_raw_block block_of_value pick_block
    compare_texts lookup insert strip select find_token get_tokens_map parse_uint64 get_block_number
    get_block_id get_hash check_multi_token_block same_text is_empty read_digits read_number
genesis_added = refl

second_added : (add_to_chain memory_level sha decode 1 0 token second after_genesis).0 ≡ true
unfolding add_to_chain store_block write_value follows tcs_key key_of_pieces split_dash push_char
    hex_text tcs_prefix type_text is_old_key is_reference get_raw_block block_of_value pick_block
    compare_texts lookup insert strip select find_token get_tokens_map parse_uint64 get_block_number
    get_block_id get_hash check_multi_token_block same_text is_empty read_digits read_number
second_added = refl

no_value : {A : Type 0} {a : A} → none ≡ some a → ⊥
no_value e = cc

nothing-IsKept : IsKept 0 token memory_level decode nothing
unfolding lookup
nothing-IsKept k v at prefix = absurd (no_value at)

genesis-IsAddressed : IsAddressed memory_level decode sha nothing genesis
unfolding get_raw_block lookup
genesis-IsAddressed bs v hash found = absurd (no_value found)

second_unwritten :
    get_raw_block memory_level 2 after_genesis (reference_key memory_level sha second digest1)
    ≡ none
unfolding add_to_chain store_block write_value follows tcs_key key_of_pieces split_dash push_char
    hex_text tcs_prefix type_text is_old_key is_reference get_raw_block block_of_value pick_block
    compare_texts lookup insert strip select find_token get_tokens_map parse_uint64 get_block_number
    get_block_id get_hash check_multi_token_block same_text is_empty read_digits read_number
second_unwritten = refl

second-IsAddressed : IsAddressed memory_level decode sha after_genesis second
unfolding get_hash is_empty
second-IsAddressed bs v hash found =
    let same : digest1 ≡ bs = some_eq hash in
    absurd (
      no_value (
        sym second_unwritten
        ∙ ap
            (λ z.
              get_raw_block memory_level 2 after_genesis (reference_key memory_level sha second z))
            same
        ∙ found))

-- No byte of a hexadecimal text is a dash.
above_dash : (c : ℕ) → 45 < c → c ≢ 45
above_dash c h e = omega arith

all_above : (l : List ℕ) → All (λ c. 45 < c) l → NoDash l
all_above [] h = tt
all_above (c ∷ l) (hc, h) = (above_dash c hc, all_above l h)

digest0-IsDigest :
    (h : List ℕ) → genesis.block_hash ≡ some h → IsDigest memory_level decode sha 0 token h
digest0-IsDigest h e = subst (IsDigest memory_level decode sha 0 token) (some_eq e) (
  refl,
  all_above digest0 (
    omega arith,
    (
      omega arith,
      (
        omega arith,
        (
          omega arith,
          (
            omega arith,
            (
              omega arith,
              (
                omega arith,
                (
                  omega arith,
                  (
                    omega arith,
                    (
                      omega arith,
                      (
                        omega arith,
                        (
                          omega arith,
                          (
                            omega arith,
                            (
                              omega arith,
                              (
                                omega arith,
                                (
                                  omega arith,
                                  (
                                    omega arith,
                                    (
                                      omega arith,
                                      (
                                        omega arith,
                                        (
                                          omega arith,
                                          (
                                            omega arith,
                                            (
                                              omega arith,
                                              (
                                                omega arith,
                                                (
                                                  omega arith,
                                                  (
                                                    omega arith,
                                                    (
                                                      omega arith,
                                                      (
                                                        omega arith,
                                                        (
                                                          omega arith,
                                                          (
                                                            omega arith,
                                                            (
                                                            omega arith,
                                                            (
                                                            omega arith,
                                                            (
                                                            omega arith,
                                                            (
                                                            omega arith,
                                                            (
                                                            omega arith,
                                                            (
                                                            omega arith,
                                                            (
                                                            omega arith,
                                                            (
                                                            omega arith,
                                                            (
                                                            omega arith,
                                                            (
                                                            omega arith,
                                                            (
                                                            omega arith,
                                                            (
                                                            omega arith,
                                                            (
                                                            omega arith,
                                                            (
                                                            omega arith,
                                                            (
                                                            omega arith,
                                                            (
                                                            omega arith,
                                                            (
                                                            omega arith,
                                                            (
                                                            omega arith,
                                                            (
                                                            omega arith,
                                                            (
                                                            omega arith,
                                                            (
                                                            omega arith,
                                                            (
                                                            omega arith,
                                                            (
                                                            omega arith,
                                                            (
                                                            omega arith,
                                                            (
                                                            omega arith,
                                                            (
                                                            omega arith,
                                                            (
                                                            omega arith,
                                                            (
                                                            omega arith,
                                                            (
                                                            omega arith,
                                                            (
                                                            omega arith,
                                                            (
                                                            omega arith,
                                                            (
                                                            omega arith,
                                                            (
                                                            omega arith,
                                                            (omega arith, (omega arith, tt)),
                                                            ),
                                                            ),
                                                            ),
                                                            ),
                                                            ),
                                                            ),
                                                            ),
                                                            ),
                                                            ),
                                                            ),
                                                            ),
                                                            ),
                                                            ),
                                                            ),
                                                            ),
                                                            ),
                                                            ),
                                                            ),
                                                            ),
                                                            ),
                                                            ),
                                                            ),
                                                            ),
                                                            ),
                                                            ),
                                                            ),
                                                            ),
                                                            ),
                                                            ),
                                                            ),
                                                            ),
                                                            ),
                                                            ),
                                                          ),
                                                        ),
                                                      ),
                                                    ),
                                                  ),
                                                ),
                                              ),
                                            ),
                                          ),
                                        ),
                                      ),
                                    ),
                                  ),
                                ),
                              ),
                            ),
                          ),
                        ),
                      ),
                    ),
                  ),
                ),
              ),
            ),
          ),
        ),
      ),
    ),
  ),
)

digest1-IsDigest :
    (h : List ℕ) → second.block_hash ≡ some h → IsDigest memory_level decode sha 0 token h
digest1-IsDigest h e = subst (IsDigest memory_level decode sha 0 token) (some_eq e) (
  refl,
  all_above digest1 (
    omega arith,
    (
      omega arith,
      (
        omega arith,
        (
          omega arith,
          (
            omega arith,
            (
              omega arith,
              (
                omega arith,
                (
                  omega arith,
                  (
                    omega arith,
                    (
                      omega arith,
                      (
                        omega arith,
                        (
                          omega arith,
                          (
                            omega arith,
                            (
                              omega arith,
                              (
                                omega arith,
                                (
                                  omega arith,
                                  (
                                    omega arith,
                                    (
                                      omega arith,
                                      (
                                        omega arith,
                                        (
                                          omega arith,
                                          (
                                            omega arith,
                                            (
                                              omega arith,
                                              (
                                                omega arith,
                                                (
                                                  omega arith,
                                                  (
                                                    omega arith,
                                                    (
                                                      omega arith,
                                                      (
                                                        omega arith,
                                                        (
                                                          omega arith,
                                                          (
                                                            omega arith,
                                                            (
                                                            omega arith,
                                                            (
                                                            omega arith,
                                                            (
                                                            omega arith,
                                                            (
                                                            omega arith,
                                                            (
                                                            omega arith,
                                                            (
                                                            omega arith,
                                                            (
                                                            omega arith,
                                                            (
                                                            omega arith,
                                                            (
                                                            omega arith,
                                                            (
                                                            omega arith,
                                                            (
                                                            omega arith,
                                                            (
                                                            omega arith,
                                                            (
                                                            omega arith,
                                                            (
                                                            omega arith,
                                                            (
                                                            omega arith,
                                                            (
                                                            omega arith,
                                                            (
                                                            omega arith,
                                                            (
                                                            omega arith,
                                                            (
                                                            omega arith,
                                                            (
                                                            omega arith,
                                                            (
                                                            omega arith,
                                                            (
                                                            omega arith,
                                                            (
                                                            omega arith,
                                                            (
                                                            omega arith,
                                                            (
                                                            omega arith,
                                                            (
                                                            omega arith,
                                                            (
                                                            omega arith,
                                                            (
                                                            omega arith,
                                                            (
                                                            omega arith,
                                                            (
                                                            omega arith,
                                                            (
                                                            omega arith,
                                                            (
                                                            omega arith,
                                                            (
                                                            omega arith,
                                                            (omega arith, (omega arith, tt)),
                                                            ),
                                                            ),
                                                            ),
                                                            ),
                                                            ),
                                                            ),
                                                            ),
                                                            ),
                                                            ),
                                                            ),
                                                            ),
                                                            ),
                                                            ),
                                                            ),
                                                            ),
                                                            ),
                                                            ),
                                                            ),
                                                            ),
                                                            ),
                                                            ),
                                                            ),
                                                            ),
                                                            ),
                                                            ),
                                                            ),
                                                            ),
                                                            ),
                                                            ),
                                                            ),
                                                            ),
                                                            ),
                                                            ),
                                                          ),
                                                        ),
                                                      ),
                                                    ),
                                                  ),
                                                ),
                                              ),
                                            ),
                                          ),
                                        ),
                                      ),
                                    ),
                                  ),
                                ),
                              ),
                            ),
                          ),
                        ),
                      ),
                    ),
                  ),
                ),
              ),
            ),
          ),
        ),
      ),
    ),
  ),
)

plain : (b : ℕ) → is_reference (161 ∷ b ∷ []) ≡ some false
unfolding is_reference
plain b = refl

decoded : (decode genesis.bytes ≡ some genesis) × (decode second.bytes ≡ some second)
unfolding same_text
decoded = (refl, refl)

after_genesis-IsKept : IsKept 0 token memory_level decode after_genesis
after_genesis-IsKept =
    (add_to_chain-Appends memory_level decode sha 0 token 0 genesis nothing after_genesis refl
      digest0-IsDigest (plain 0) decoded.0 genesis-IsAddressed nothing-IsKept
      (λ i. (genesis_added i, after_genesis))).1

after_second-IsKept : IsKept 0 token memory_level decode after_second
after_second-IsKept =
    (add_to_chain-Appends memory_level decode sha 0 token 0 second after_genesis after_second refl
      digest1-IsDigest (plain 1) decoded.1 second-IsAddressed after_genesis-IsKept
      (λ i. (second_added i, after_second))).1

-- An NFT without a chain.
abbrev nft : List ℕ
nft = 78 ∷ drop 1 token

-- A block that repeats the number of the second one.
abbrev again : Block
again = record {
  bytes = 161 ∷ 2 ∷ [];
  block_hash = some digest0;
  trans = some (entry token (49 ∷ []) [] ∷ record (entry nft (48 ∷ []) []) { token_type = 2 } ∷ []);
}

abbrev stores : Stores memory_level
stores x = elim x [
  | tcs ↦ after_second
  | dtcs ↦ nothing
  | ntcs ↦ nothing
  | smart_contracts ↦ nothing
  | fts ↦ nothing
]

again_tokens : get_trans_tokens again ≡ some (token ∷ nft ∷ [])
unfolding get_trans_tokens
again_tokens = refl

nothing_there : (k : List ℕ) {v : List ℕ} → memory_level.get nothing k ≡ some v → ⊥
unfolding lookup
nothing_there k at = no_value at

again-InOrder : All (InOrder memory_level sha decode again stores) (token ∷ nft ∷ [])
unfolding get_chain_db get_token_type get_tokens_map find_token same_text
again-InOrder = (
  (refl, λ shelf e. on_tcs shelf (some_eq e)),
  ((refl, λ shelf e. on_ntcs shelf (some_eq e)), tt),
)
  where
    on_tcs : (shelf : Shelf) → tcs ≡ shelf → IsKept 0 token memory_level decode (stores shelf)
    on_tcs shelf e =
        subst (λ x. IsKept 0 token memory_level decode (stores x)) e after_second-IsKept

    on_ntcs : (shelf : Shelf) → ntcs ≡ shelf → IsKept 2 nft memory_level decode (stores shelf)
    on_ntcs shelf e =
        subst (λ x. IsKept 2 nft memory_level decode (stores x)) e
          (λ k v at prefix. absurd (nothing_there k at))

again-Replayed : Replayed memory_level sha decode again stores token
unfolding add_to_chain store_block write_value follows tcs_key key_of_pieces split_dash push_char
    hex_text tcs_prefix type_text is_old_key is_reference get_raw_block block_of_value pick_block
    compare_texts lookup insert strip select find_token get_tokens_map parse_uint64 get_block_number
    get_block_id get_hash check_multi_token_block same_text is_empty read_digits read_number
    get_chain_db get_token_type Bool-cases
again-Replayed = (
  1,
  1,
  digest1,
  114 ∷ 102 ∷ 45 ∷ 97 ∷ 45 ∷ digest1,
  tcs,
  refl,
  refl,
  refl,
  omega arith,
  omega arith,
)

add_blocks-Replayed_example : add_blocks memory_level sha decode 1 again stores ≡ (false, stores)
add_blocks-Replayed_example =
    add_blocks-Replayed memory_level sha decode 0 again token token nft [] stores again_tokens
      again-InOrder (inl refl) again-Replayed

add_to_chain-Appends_example :
    Appends memory_level decode sha 0 token second after_genesis after_second
add_to_chain-Appends_example =
    add_to_chain-Appends memory_level decode sha 0 token 0 second after_genesis after_second refl
      digest1-IsDigest (plain 1) decoded.1 second-IsAddressed after_genesis-IsKept
      (λ i. (second_added i, after_second))

abbrev third : TransToken
third = entry token (50 ∷ []) (49 ∷ 45 ∷ digest1)

abbrev asked : TransTokens
asked = record { token = token; token_type = 0; unpleded_id = []; commited_did = [] }

third_made : new_trans_token (some second) asked ≡ some third
unfolding new_trans_token decimal decimal_from get_block_number get_block_id get_tokens_map
    find_token same_text is_empty parse_uint64 read_number read_digits
third_made = refl

second_number : get_block_number second token ≡ some 1
unfolding get_block_number get_tokens_map find_token same_text parse_uint64 read_number read_digits
second_number = refl

second_bounded :
    (b : Block) (n : ℕ) → some second ≡ some b → get_block_number b token ≡ some n → suc n < 2 ^ 64
second_bounded b n same number =
    let is_one : 1 ≡ n =
      some_eq (sym second_number ∙ ap (λ x. get_block_number x token) (some_eq same) ∙ number) in
    omega arith

new_trans_token-Continues_example : Continues (some second) token third
new_trans_token-Continues_example =
    new_trans_token-Continues (some second) asked third second_bounded third_made
