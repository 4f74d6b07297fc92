-- ===== src/Examples/Splits.antt =====
-- core/part_token.go: the theorems at a small token table.
use rubixgoplatform.Prelude.{
  ℕ, ◌≡◌, ◌+◌, refl, some, none, ◌==◌, if◌then◌else◌, true, false, List, [], ◌∷◌,
}
use rubixgoplatform.Storage.Rows.{Table}
use rubixgoplatform.Storage.Effects.{ok}
use rubixgoplatform.Storage.Memory.{
  Cells, memory, keyed, row_at, collect, put, save_cell, create_cell, keep,
}
use rubixgoplatform.Storage.{read_one, read_all, update, write}
use rubixgoplatform.Wallet.Token.{Token, key}
use rubixgoplatform.Wallet.Tokens.{
  create_token, get_closer_token, closer_choice, token_sort, insert_by, get_token, get_whole_tokens,
  lock_loop, get_tokens_by_limit,
}
use rubixgoplatform.Wallet.Release.{release_token, release_tokens, update_token}
use rubixgoplatform.PartTokens.{
  ChainWork, split_sum, make_children, find_exact, fit_loop, create_parts, split_token,
  create_part_token, add_part, split_closer, split_part, split_last, last_closer, fit_parts,
  take_parts, with_parts, core_get_tokens,
}
use rubixgoplatform.PartTokens.Split.{Splits, create_part_token-Splits}
use rubixgoplatform.PartTokens.Gather.{Gathers, core_get_tokens-Gathers}

abbrev coin : ℕ → ℕ → ℕ → ℕ → Token
coin id parent value status = record {
  token_id = id;
  parent_token_id = parent;
  token_value = value;
  did = 7;
  token_status = status;
  token_state_hash = 0;
  transaction_id = 0;
  added = false;
}

abbrev table : Table Token key
table = memory key

-- Coins 1 and 2 are free whole tokens, coin 3 is a free part.
abbrev purse : Cells key
purse k =
    if k == 1
    then some (coin 1 0 1000 0)
    else if k == 2
    then some (coin 2 0 1000 0)
    else if k == 3
    then some (coin 3 9 200 0)
    else none

-- The parts of a token are given the identifiers from 4 on.
abbrev work : ChainWork
work = record { parent = λ b. ok tt; child = λ i p. ok (4 + i); burn = λ b ids. ok tt }

abbrev purse_split : Cells key
purse_split = (create_part_token table true work 7 1 (300 ∷ 700 ∷ []) purse).1

create_part_token-purse :
    create_part_token table true work 7 1 (300 ∷ 700 ∷ []) purse
    ≡ (ok (coin 4 1 300 0 ∷ coin 5 1 700 0 ∷ []), purse_split)
unfolding create_part_token split_token split_sum make_children create_parts create_token get_token
    update_token release_token row_at keyed collect save_cell create_cell keep put read_one update
    write
create_part_token-purse = refl

create_part_token-Splits_example :
    Splits table 1 (300 ∷ 700 ∷ []) purse purse_split (coin 4 1 300 0 ∷ coin 5 1 700 0 ∷ [])
create_part_token-Splits_example =
    create_part_token-Splits table true work 7 1 (300 ∷ 700 ∷ []) purse purse_split
      create_part_token-purse

-- One whole token, the part, and a part of the other whole token.
abbrev purse_taken : Cells key
purse_taken = (core_get_tokens table true work 7 1250 1 purse).1

abbrev taken : List Token
taken = coin 2 0 1000 1 ∷ coin 3 9 200 1 ∷ coin 4 1 50 1 ∷ []

core_get_tokens-purse : core_get_tokens table true work 7 1250 1 purse ≡ (ok taken, purse_taken)
unfolding core_get_tokens with_parts take_parts fit_parts last_closer split_last split_part
    split_closer add_part find_exact fit_loop get_closer_token closer_choice token_sort insert_by
    get_whole_tokens get_tokens_by_limit lock_loop release_tokens create_part_token split_token
    split_sum make_children create_parts create_token get_token update_token release_token row_at
    keyed collect save_cell create_cell keep put read_one read_all update write
core_get_tokens-purse = refl

core_get_tokens-Gathers_example : Gathers table true work 7 1250 taken purse_taken
core_get_tokens-Gathers_example =
    core_get_tokens-Gathers table true work 7 1250 1 purse purse_taken taken core_get_tokens-purse
