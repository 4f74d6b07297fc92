-- ===== src/Wallet/StateHashes.antt =====
-- core/wallet/token.go: the table of token state hashes, with the transaction that each stands for.
-- A joined text of pledged tokens is the list of them.
use rubixgoplatform.Prelude.{ℕ, List, [], ◌∷◌, ◌==◌, Bool, not}
use rubixgoplatform.Storage.Rows.{Table}
use rubixgoplatform.Storage.Effects.{Result, ok, err, no_records, Exec, pure, ◌>>◌}
use rubixgoplatform.Storage.{read_all, read_one, write, delete}

pub record TokenStateDetails : Type 0 where
  pub did : ℕ
  pub token_state_hash : ℕ
  pub pledged_tokens : List ℕ
  pub transaction_id : ℕ

abbrev pub state_key : TokenStateDetails → ℕ
state_key td = td.token_state_hash

abbrev pub of_transaction : ℕ → TokenStateDetails → Bool
of_transaction id td = td.transaction_id == id

abbrev pub of_hash : ℕ → TokenStateDetails → Bool
of_hash hash td = td.token_state_hash == hash

-- An answer without records is the one given, other errors stay.
unfoldable pub or_empty : {A : Type 0} → A → Result A → Result A
or_empty a (ok b) = ok b
or_empty a (err no_records) = ok a
or_empty a (err e) = err e

module _ (g : Table TokenStateDetails state_key) where
  unfoldable pub add_token_state_hash : ℕ → List ℕ → List ℕ → ℕ → Exec g.Db (Unit {0})
  add_token_state_hash did [] pledged id = pure tt
  add_token_state_hash did (hash ∷ hashes) pledged id = do
    write g (record {
      did = did;
      token_state_hash = hash;
      pledged_tokens = pledged;
      transaction_id = id;
    })
    add_token_state_hash did hashes pledged id

  unfoldable pub get_token_state_hash_by_transaction_id : ℕ → Exec g.Db (List TokenStateDetails)
  unfolding or_empty
  get_token_state_hash_by_transaction_id id d =
      let (r, d') = read_all g (of_transaction id) d in (or_empty [] r, d')

  unfoldable pub get_all_token_state_hash : Exec g.Db (List TokenStateDetails)
  get_all_token_state_hash = read_all g (λ td. not (td.did == 0))

  -- What follows the read: nothing to do where there are no records.
  unfoldable pub delete_read :
      {A : Type 0} → (TokenStateDetails → Bool) → Result A → Exec g.Db (Unit {0})
  delete_read q (ok a) d = delete g q d
  delete_read q (err no_records) d = (ok tt, d)
  delete_read q (err e) d = (err e, d)

  unfoldable pub remove_token_state_hash : ℕ → Exec g.Db (Unit {0})
  unfolding delete_read
  remove_token_state_hash hash d =
      let (r, d') = read_one g (of_hash hash) d in delete_read (of_hash hash) r d'

  unfoldable pub remove_token_state_hash_by_transaction_id : ℕ → Exec g.Db (Unit {0})
  unfolding delete_read
  remove_token_state_hash_by_transaction_id id d =
      let (r, d') = read_all g (of_transaction id) d in delete_read (of_transaction id) r d'
