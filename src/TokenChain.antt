-- ===== src/TokenChain.antt =====
-- core/wallet/token_chain.go: the blocks of the tokens in a store of bytes under ordered keys. A text
-- is the list of its bytes.
pub mod Order
pub mod Keys
pub mod Entries
pub mod Adding
pub mod Stored
pub mod Latest
pub mod Appends
pub mod Links
pub mod Together
pub mod Replays
pub mod AllBlocks
pub mod Memory
use rubixgoplatform.Prelude.{
  ℕ, zero, suc, ◌+◌, ◌*◌, ◌/◌, ◌%◌, ◌^◌, List, [], ◌∷◌, ◌++◌, Option, some, none, Bool, true, false,
  ◌==◌, ltb, if◌then◌else◌, length, not, ◌&&◌, ◌>>=◌, ◌≡◌, ◌≢◌, All,
}
use rubixgoplatform.Storage.Effects.{Result, ok, err, db_error, Exec}
use rubixgoplatform.Storage.Rows.{Member}
use rubixgoplatform.Blocks.{
  Block, parse_uint64, get_block_number, get_block_id, get_token_type, get_hash,
  check_multi_token_block,
}
use rubixgoplatform.TokenChain.Order.{LexLt, HasPrefix, Rising}

-- The token types of token/token_mapping.go, as the keys spell them.
unfoldable pub type_text : ℕ → List ℕ
type_text token_type =
    if token_type == 1
    then 112 ∷ 116 ∷ []
    else if token_type == 2
    then 110 ∷ 116 ∷ []
    else if token_type == 3
    then 116 ∷ 116 ∷ []
    else if token_type == 4
    then 100 ∷ 116 ∷ []
    else if token_type == 5
    then 116 ∷ 112 ∷ []
    else if token_type == 6
    then 116 ∷ 110 ∷ []
    else if token_type == 8
    then 115 ∷ 116 ∷ []
    else if token_type == 10
    then 102 ∷ 116 ∷ []
    else 119 ∷ 116 ∷ []

unfoldable pub tcs_type : ℕ → List ℕ
unfolding type_text
tcs_type token_type = type_text token_type ++ 45 ∷ []

unfoldable pub tcs_prefix : ℕ → List ℕ → List ℕ
unfolding type_text
tcs_prefix token_type t = type_text token_type ++ (45 ∷ (t ++ 45 ∷ []))

-- `strings.Split(text, "-")`.
unfoldable pub push_char : ℕ → List (List ℕ) → List (List ℕ)
push_char c [] = (c ∷ []) ∷ []
push_char c (p ∷ ps) = (c ∷ p) ∷ ps

unfoldable pub split_dash : List ℕ → List (List ℕ)
unfolding push_char
split_dash [] = [] ∷ []
split_dash (c ∷ cs) = let rest = split_dash cs in if c == 45 then [] ∷ rest else push_char c rest

abbrev pub hex_digit : ℕ → ℕ
hex_digit d = if ltb d 10 then 48 + d else 87 + d

-- `%016x` is `hex_text 16` for a number of 64 bits.
unfoldable pub hex_text : ℕ → ℕ → List ℕ
hex_text zero n = []
hex_text (suc w) n = hex_text w (n / 16) ++ hex_digit (n % 16) ∷ []

-- A block identifier of two pieces, of which the first is a number.
unfoldable pub key_of_pieces : List ℕ → List ℕ → List (List ℕ) → List ℕ
unfolding hex_text parse_uint64
key_of_pieces prefix id (a ∷ b ∷ []) = elim (parse_uint64 a) [
  | none ↦ prefix ++ id
  | some bn ↦ prefix ++ (hex_text 16 bn ++ 45 ∷ b)
]
key_of_pieces prefix id pieces = prefix ++ id

unfoldable pub tcs_key : ℕ → List ℕ → List ℕ → List ℕ
unfolding key_of_pieces split_dash tcs_prefix
tcs_key token_type t id = key_of_pieces (tcs_prefix token_type t) id (split_dash id)

-- A key of four pieces whose third is a decimal number gets the new form.
unfoldable pub new_of_pieces : List ℕ → List (List ℕ) → List ℕ
unfolding hex_text parse_uint64
new_of_pieces key (a ∷ b ∷ c ∷ d ∷ []) = elim (parse_uint64 c) [
  | none ↦ key
  | some bn ↦ a ++ 45 ∷ b ++ 45 ∷ hex_text 16 bn ++ 45 ∷ d
]
new_of_pieces key pieces = key

unfoldable pub old2_new_key : List ℕ → List ℕ
unfolding new_of_pieces split_dash
old2_new_key key = new_of_pieces key (split_dash key)

abbrev pub default_key_length : ℕ
default_key_length = 131

unfoldable pub is_old_key : List ℕ → Bool
is_old_key key = not (length key == default_key_length)

-- The store (LevelDB): an iterator over a prefix walks the keys in the order of their bytes, as they
-- stand when it is made. A write may fail, and then changes nothing.
pub record Level : Type 1 where
  pub Db : Type 0
  pub get : Db → List ℕ → Option (List ℕ)
  pub put : Db → List ℕ → List ℕ → Option Db
  pub delete : Db → List ℕ → Option Db
  pub range : Db → List ℕ → List (List ℕ × List ℕ)
  pub get_put : (d d' : Db) (k v : List ℕ) → put d k v ≡ some d' → get d' k ≡ some v
  pub get_put_other :
      (d d' : Db) (k v k' : List ℕ) → put d k v ≡ some d' → k' ≢ k → get d' k' ≡ get d k'
  pub range_sound :
      (d : Db) (p : List ℕ) → All (λ e. (get d e.0 ≡ some e.1) × HasPrefix p e.0) (range d p)
  pub range_complete :
      (d : Db) (p k v : List ℕ) → get d k ≡ some v → HasPrefix p k → Member (k, v) (range d p)
  pub range_rising : (d : Db) (p : List ℕ) → Rising (range d p)

-- The databases of a node.
pub data Shelf : Type 0 where
  tcs dtcs ntcs smart_contracts fts : Shelf

unfoldable pub get_chain_db : ℕ → Option Shelf
get_chain_db token_type =
    if token_type == 0
    then some tcs
    else if token_type == 1
    then some tcs
    else if token_type == 3
    then some tcs
    else if token_type == 5
    then some tcs
    else if token_type == 4
    then some dtcs
    else if token_type == 7
    then some dtcs
    else if token_type == 2
    then some ntcs
    else if token_type == 6
    then some ntcs
    else if token_type == 8
    then some smart_contracts
    else if token_type == 10
    then some fts
    else none

-- Whether a value is a reference, which starts with "rf". A value of fewer than two bytes is a panic,
-- which is not told apart from an error.
unfoldable pub is_reference : List ℕ → Option Bool
is_reference (a ∷ b ∷ rest) = some (a == 114 && b == 102)
is_reference short = none

abbrev pub last_entry : {A : Type 0} → List A → Option A
last_entry [] = none
last_entry (x ∷ []) = some x
last_entry (x ∷ y ∷ ys) = last_entry (y ∷ ys)

abbrev pub first_entry : {A : Type 0} → List A → Option A
first_entry [] = none
first_entry (x ∷ xs) = some x

module _ (g : Level) where
  -- `getRawBlock` follows references. `none` is an error, a panic, or no fuel.
  unfoldable pub get_raw_block : ℕ → g.Db → List ℕ → Option (List ℕ)
  get_raw_block zero d key = none
  get_raw_block (suc fuel) d key =
      let rest = get_raw_block fuel d in
      g.get d key >>= λ v. is_reference v >>= λ r. if r then rest v else some v

  -- The loop of `updateNewKey`: whether it succeeds.
  unfoldable pub update_entries : List (List ℕ × List ℕ) → g.Db → Bool × g.Db
  unfolding is_old_key old2_new_key
  update_entries [] d = (true, d)
  update_entries ((k, v) ∷ es) d =
      if is_old_key k
      then elim (g.delete d k) [
        | none ↦ (false, d)
        | some d1 ↦ elim (g.put d1 (old2_new_key k) v) [
          | none ↦ (false, d1)
          | some d2 ↦ update_entries es d2
        ]
      ]
      else update_entries es d

  unfoldable pub update_new_key : ℕ → List ℕ → g.Db → Bool × g.Db
  unfolding update_entries tcs_prefix
  update_new_key token_type token d = update_entries (g.range d (tcs_prefix token_type token)) d

  module _ (decode : List ℕ → Option Block) where
    -- The block of a value that an iterator stands at, decoded by `InitBlock`. A reference leads to a
    -- block in one step.
    unfoldable pub block_of_value : g.Db → List ℕ → Option Block
    unfolding get_raw_block is_reference
    block_of_value d v = do
      r ← is_reference v
      blk ← (if r then get_raw_block 2 d v else some v)
      decode blk

    -- `getLatestBlock` on its database, for `pick` the last entry, and `getGenesisBlock`, for the first.
    -- After the keys are renewed, it starts again: the fuel is for that.
    unfoldable pub pick_block :
        (List (List ℕ × List ℕ) → Option (List ℕ × List ℕ))
        → ℕ
        → ℕ
        → List ℕ
        → g.Db
        → Option Block × g.Db
    unfolding update_new_key block_of_value
    pick_block pick zero token_type token d = (none, d)
    pick_block pick (suc fuel) token_type token d =
        let again = pick_block pick fuel token_type token in
        elim (pick (g.range d (tcs_prefix token_type token))) [
          | none ↦ (none, d)
          | some e ↦
              if is_old_key e.0
              then (let (renewed, d') = update_new_key token_type token d in
                  if renewed then again d' else (none, d'))
              else (block_of_value d e.1, d)
        ]

    -- `getLatestBlock` and `getGenesisBlock` on the database of the token's type.
    abbrev pub get_latest_block : ℕ → ℕ → List ℕ → g.Db → Option Block × g.Db
    get_latest_block fuel token_type token d = pick_block last_entry fuel token_type token d

    abbrev pub get_genesis_block : ℕ → ℕ → List ℕ → g.Db → Option Block × g.Db
    get_genesis_block fuel token_type token d = pick_block first_entry fuel token_type token d
