-- ===== src/Examples/States.antt =====
-- core/wallet/token.go: the theorems at a small table of token state hashes.
use rubixgoplatform.Prelude.{◌≡◌, refl, some, none, ◌==◌, if◌then◌else◌, [], ◌∷◌}
use rubixgoplatform.Storage.Rows.{Table}
use rubixgoplatform.Storage.Effects.{ok}
use rubixgoplatform.Storage.Memory.{
  Cells, memory, keyed, row_at, collect, put, create_cell, delete_cells, keep, keep_unless,
}
use rubixgoplatform.Storage.{read_all, write, delete}
use rubixgoplatform.Storage.Laws.{without}
use rubixgoplatform.Wallet.StateHashes.{
  TokenStateDetails, state_key, of_transaction, of_hash, add_token_state_hash, delete_read,
  remove_token_state_hash, remove_token_state_hash_by_transaction_id,
}
use rubixgoplatform.Wallet.StateHistory.{
  details, added_row, Removes, remove_by_transaction_id-Removes, remove_token_state_hash-Removes,
  add_token_state_hash-adds, remove_by_transaction_id-add_token_state_hash,
}

abbrev states : Table TokenStateDetails state_key
states = memory state_key

-- Hash 1 of transaction 5.
abbrev before : Cells state_key
before k = if k == 1 then some (details 7 [] 5 1) else none

abbrev between : Cells state_key
between = put state_key (put state_key before (details 7 (4 ∷ []) 6 2)) (details 7 (4 ∷ []) 6 3)

abbrev removed : Cells state_key
removed k = keep_unless state_key (of_transaction 6) (row_at state_key between k)

add_token_state_hash-states :
    add_token_state_hash states 7 (2 ∷ 3 ∷ []) (4 ∷ []) 6 before ≡ (ok tt, between)
unfolding add_token_state_hash write create_cell row_at keyed put
add_token_state_hash-states = refl

remove_by_transaction_id-states :
    remove_token_state_hash_by_transaction_id states 6 between ≡ (ok tt, removed)
unfolding remove_token_state_hash_by_transaction_id delete_read read_all delete delete_cells collect
    keep row_at keyed put
remove_by_transaction_id-states = refl

remove_by_transaction_id-Removes_example :
    Removes states (remove_token_state_hash_by_transaction_id states 6) (of_transaction 6) between
remove_by_transaction_id-Removes_example = remove_by_transaction_id-Removes states 6 between

remove_token_state_hash-Removes_example :
    Removes states (remove_token_state_hash states 2) (of_hash 2) between
remove_token_state_hash-Removes_example = remove_token_state_hash-Removes states 2 between

add_token_state_hash-adds_example :
    states.row between 3 ≡ added_row 7 (2 ∷ 3 ∷ []) (4 ∷ []) 6 3 (states.row before 3)
add_token_state_hash-adds_example =
    add_token_state_hash-adds states 7 (4 ∷ []) 6 (2 ∷ 3 ∷ []) before between
      add_token_state_hash-states 3

remove_by_transaction_id-add_token_state_hash_example :
    states.row removed 2 ≡ without states (of_transaction 6) (states.row before 2)
remove_by_transaction_id-add_token_state_hash_example =
    remove_by_transaction_id-add_token_state_hash states 7 (4 ∷ []) 6 (2 ∷ 3 ∷ []) before between
      removed add_token_state_hash-states remove_by_transaction_id-states 2
