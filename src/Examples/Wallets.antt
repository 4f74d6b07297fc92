-- ===== src/Examples/Wallets.antt =====
-- core/wallet/token.go: the theorems at a small token table.
use rubixgoplatform.Prelude.{
  ℕ, ◌≡◌, refl, some, none, ◌==◌, if◌then◌else◌, true, false, List, [], ◌∷◌, arith,
}
use rubixgoplatform.Storage.Rows.{Table}
use rubixgoplatform.Storage.Effects.{ok, err, Error, no_records}
use rubixgoplatform.Storage.Memory.{Cells, memory, keyed, row_at, collect, put, save_cell, keep}
use rubixgoplatform.Storage.{read_one, read_all, update}
use rubixgoplatform.Wallet.Token.{token_is_committed, token_is_transferred, with_status, Token, key}
use rubixgoplatform.Storage.Laws.{Writes}
use rubixgoplatform.Wallet.Tokens.{
  get_closer_token, closer_choice, token_sort, insert_by, get_token, get_whole_tokens, lock_loop,
  pledge_whole_token, unpledge_whole_token,
}
use rubixgoplatform.Wallet.Release.{
  commit_tokens, transfer_loop, tokens_transferred, release_token, release_tokens,
  unlock_locked_tokens,
}
use rubixgoplatform.Wallet.Moves.{Frozen}
use rubixgoplatform.Wallet.Locking.{get_token_exclusive}
use rubixgoplatform.Wallet.Releasing.{ReleasesAll, release_tokens-Frees, release_token-get_token}
use rubixgoplatform.Wallet.Pledging.{
  Pledges, Unpledges, pledge_whole_token-Pledges, unpledge_whole_token-Unpledges,
  unlock_locked_tokens_any,
}
use rubixgoplatform.Wallet.Settling.{
  settled_row, transferred, commit_tokens-settles, tokens_transferred-settles,
}
use rubixgoplatform.Wallet.Closest.{Picks, get_closer_token-Picks}
use rubixgoplatform.Wallet.Calls.{
  Call, take_whole, take_child, pledge, unpledge, commit, unlock, take_one, give_one, give_locked,
  run, run_keeps, run-Frozen,
}

abbrev coin : ℕ → ℕ → Token
coin id status = record {
  token_id = id;
  parent_token_id = 0;
  token_value = 1000;
  did = 7;
  token_status = status;
  token_state_hash = 0;
  transaction_id = 0;
  added = false;
}

abbrev table : Table Token key
table = memory key

-- Coins 1 and 3 are free, coin 2 is pledged.
abbrev purse : Cells key
purse k =
    if k == 1
    then some (coin 1 0)
    else if k == 2
    then some (coin 2 2)
    else if k == 3
    then some (coin 3 0)
    else none

abbrev purse_after : Cells key
purse_after = put key purse (coin 1 1)

get_token-purse : get_token table 1 0 purse ≡ (ok (coin 1 1), purse_after)
unfolding get_token row_at keyed collect save_cell keep put read_one update
get_token-purse = refl

get_token_exclusive_example : (e : Error) × (get_token table 1 0 purse_after ≡ (err e, purse_after))
get_token_exclusive_example =
    get_token_exclusive table 1 0 0 purse purse_after (coin 1 1) (omega arith) get_token-purse

-- Two are wanted of the owner's free whole tokens, the third is pledged.
get_whole_tokens-purse : (get_whole_tokens table 7 2 1 purse).0 ≡ ok (coin 3 1 ∷ coin 1 1 ∷ [], 0)
unfolding get_whole_tokens lock_loop row_at keyed collect save_cell keep put read_all update
get_whole_tokens-purse = refl

abbrev purse_back : Cells key
purse_back = put key purse_after (coin 1 0)

release_token-purse : release_token table 1 purse_after ≡ (ok tt, purse_back)
unfolding release_token row_at keyed collect save_cell keep put read_one update
release_token-purse = refl

release_token-get_token_example : table.row purse_back 1 ≡ table.row purse 1
release_token-get_token_example =
    release_token-get_token table 1 purse purse_after purse_back (coin 1 1) get_token-purse
      release_token-purse 1

-- A locked coin, a pledged one, and one that the table does not have.
abbrev given_back : List Token
given_back = coin 1 1 ∷ coin 2 2 ∷ coin 5 1 ∷ []

release_tokens-Frees_example : ReleasesAll table given_back purse_after
release_tokens-Frees_example = release_tokens-Frees table given_back purse_after

release_tokens-purse : (release_tokens table given_back purse_after).0 ≡ err no_records
unfolding release_tokens release_token row_at keyed collect save_cell keep put read_one update
release_tokens-purse = refl

pledge_whole_token-Pledges_example : Pledges table 7 1 purse_after
pledge_whole_token-Pledges_example = pledge_whole_token-Pledges table 7 1 purse_after

pledge_whole_token-purse : (pledge_whole_token table 7 1 purse_after).0 ≡ ok tt
unfolding pledge_whole_token row_at keyed collect save_cell keep put read_one update
pledge_whole_token-purse = refl

unpledge_whole_token-Unpledges_example : Unpledges table 7 2 (ok true) purse
unpledge_whole_token-Unpledges_example = unpledge_whole_token-Unpledges table 7 2 (ok true) purse

unpledge_whole_token-purse : (unpledge_whole_token table 7 2 (ok true) purse).0 ≡ ok tt
unfolding unpledge_whole_token row_at keyed collect save_cell keep put read_one update
unpledge_whole_token-purse = refl

unlock_locked_tokens-purse :
    unlock_locked_tokens table 7 (2 ∷ []) purse ≡ (ok tt, put key purse (coin 2 0))
unfolding unlock_locked_tokens row_at keyed collect save_cell keep put read_one update
unlock_locked_tokens-purse = refl

purse-pledged : row_at key purse 2 ≡ some (coin 2 2)
unfolding row_at keyed
purse-pledged = refl

unlock_locked_tokens_any_example : Writes table purse (put key purse (coin 2 0)) (coin 2 0)
unlock_locked_tokens_any_example =
    unlock_locked_tokens_any table 7 2 purse (put key purse (coin 2 0)) (coin 2 2) purse-pledged
      unlock_locked_tokens-purse

-- Calls that reach every token of the purse but the pledged one.
abbrev calls : List Call
calls = take_whole 7 3 0 ∷ pledge 7 1 ∷ take_one 2 0 ∷ give_one 2 ∷ give_locked ∷ []

abbrev untested : List Call
untested =
    take_child 7 0
    ∷ unlock 7 (1 ∷ 2 ∷ [])
    ∷ commit 7 (1 ∷ [])
    ∷ unpledge 7 2 (ok true)
    ∷ take_one 1 5
    ∷ calls

run_keeps_example : row_at key (run table calls purse) 2 ≡ some (coin 2 2)
run_keeps_example =
    run_keeps table calls purse 2 (coin 2 2) (tt, (tt, (refl, (tt, (tt, tt))))) (omega arith)
      (omega arith) (omega arith) purse-pledged

run-Frozen_example : Frozen (row_at key purse 1) (row_at key (run table untested purse) 1)
run-Frozen_example = run-Frozen table untested purse 1

abbrev purse_committed : Cells key
purse_committed = put key (put key purse (coin 1 5)) (coin 2 5)

commit_tokens-purse : commit_tokens table 7 (1 ∷ 2 ∷ []) purse ≡ (ok tt, purse_committed)
unfolding commit_tokens row_at keyed collect save_cell keep put read_one update
commit_tokens-purse = refl

commit_tokens-settles_example :
    table.row purse_committed 2
    ≡ settled_row (with_status token_is_committed) (1 ∷ 2 ∷ []) 2 (table.row purse 2)
commit_tokens-settles_example =
    commit_tokens-settles table 7 (1 ∷ 2 ∷ []) purse purse_committed commit_tokens-purse 2

abbrev purse_transferred : Cells key
purse_transferred = put key purse (transferred 4 8 (coin 3 0))

tokens_transferred-purse :
    tokens_transferred table (ok tt) 8 7 (3 ∷ []) false false purse ≡ (ok tt, purse_transferred)
unfolding tokens_transferred transfer_loop row_at keyed collect save_cell keep put read_one update
tokens_transferred-purse = refl

tokens_transferred-settles_example :
    table.row purse_transferred 3
    ≡ settled_row (transferred token_is_transferred 8) (3 ∷ []) 3 (table.row purse 3)
tokens_transferred-settles_example =
    tokens_transferred-settles table 7 (ok tt) 8 (3 ∷ []) false false purse purse_transferred
      tokens_transferred-purse 3

abbrev part : ℕ → ℕ → Token
part id value = record (coin id 0) { token_value = value }

abbrev parts : Cells key
parts k =
    if k == 1
    then some (part 1 700)
    else if k == 2
    then some (part 2 400)
    else if k == 3
    then some (part 3 200)
    else none

-- The smallest part that covers 300 is that of 400.
get_closer_token-parts : get_closer_token table 7 300 parts ≡ (ok (part 2 400), parts)
unfolding get_closer_token closer_choice token_sort insert_by row_at keyed collect keep read_all
get_closer_token-parts = refl

get_closer_token-Picks_example : Picks table 7 300 parts
get_closer_token-Picks_example = get_closer_token-Picks table 7 300 parts
