-- ===== src/Wallet/Release.antt =====
-- core/wallet/token.go: giving tokens back, committing, transferring and removing them.
use rubixgoplatform.Prelude.{ℕ, List, [], ◌∷◌, ◌==◌, if◌then◌else◌, Bool}
use rubixgoplatform.Storage.Rows.{Table}
use rubixgoplatform.Storage.Effects.{Result, ok, err, no_records, Exec, pure, ◌>>=◌, ◌>>◌}
use rubixgoplatform.Storage.{read_all, read_one, update, delete}
use rubixgoplatform.Wallet.Token.{
  Token, key, with_status, token_is_free, token_is_locked, token_is_transferred, token_is_committed,
  token_is_pinned_as_service,
}
use rubixgoplatform.Wallet.Tokens.{has_id, owned_id, owned_by, in_status}

module _ (g : Table Token key) where
  unfoldable pub release_token : ℕ → Exec g.Db (Unit {0})
  release_token token = do
    t ← read_one g (has_id token)
    if t.token_status == token_is_locked
        then update g (has_id t.token_id) (with_status token_is_free t)
        else pure tt

  -- The body of the loop is that of `ReleaseToken`.
  unfoldable pub release_tokens : List Token → Exec g.Db (Unit {0})
  release_tokens [] = pure tt
  release_tokens (t ∷ ts) = release_token t.token_id >> release_tokens ts

  unfoldable pub remove_tokens : List Token → Exec g.Db (Unit {0})
  remove_tokens [] = pure tt
  remove_tokens (t ∷ ts) = delete g (owned_id t.did t.token_id) >> remove_tokens ts

  unfoldable pub clear_tokens : ℕ → Exec g.Db (Unit {0})
  clear_tokens did = delete g (owned_by did)

  unfoldable pub update_token : Token → Exec g.Db (Unit {0})
  update_token t = update g (has_id t.token_id) t

  unfoldable pub commit_tokens : ℕ → List ℕ → Exec g.Db (Unit {0})
  commit_tokens did [] = pure tt
  commit_tokens did (id ∷ ids) = do
    t ← read_one g (owned_id did id)
    update g (owned_id did id) (with_status token_is_committed t)
    commit_tokens did ids

  unfoldable pub transfer_loop : ℕ → ℕ → ℕ → List ℕ → Exec g.Db (Unit {0})
  transfer_loop did status tid [] = pure tt
  transfer_loop did status tid (id ∷ ids) = do
    t ← read_one g (owned_id did id)
    update g (owned_id did id) (record t { token_status = status; transaction_id = tid })
    transfer_loop did status tid ids

  -- `created` is what `CreateTokenBlock` returns, `tid` the transaction of the block. A transfer to
  -- a DID of the same node changes nothing here.
  unfoldable pub tokens_transferred :
      Result (Unit {0}) → ℕ → ℕ → List ℕ → Bool → Bool → Exec g.Db (Unit {0})
  unfolding transfer_loop
  tokens_transferred created tid did ti local pinning = if local then pure tt else (do
    (λ d. (created, d))
    transfer_loop did (if pinning then token_is_pinned_as_service else token_is_transferred) tid ti)

  -- An empty answer is no error here.
  unfoldable pub locked_or_empty : Result (List Token) → Result (List Token)
  locked_or_empty (ok l) = ok l
  locked_or_empty (err no_records) = ok []
  locked_or_empty (err e) = err e

  unfoldable pub get_all_locked_tokens : Exec g.Db (List Token)
  unfolding locked_or_empty
  get_all_locked_tokens d =
      let (r, d') = read_all g (in_status token_is_locked) d in (locked_or_empty r, d')

  unfoldable pub free_loop : List Token → Exec g.Db (Unit {0})
  free_loop [] = pure tt
  free_loop (t ∷ ts) = update g (has_id t.token_id) (with_status token_is_free t) >> free_loop ts

  unfoldable pub release_all_locked_tokens : Exec g.Db (Unit {0})
  unfolding get_all_locked_tokens free_loop
  release_all_locked_tokens = do lockeds ← get_all_locked_tokens; free_loop lockeds

  -- The status that the row had is not tested.
  unfoldable pub unlock_locked_tokens : ℕ → List ℕ → Exec g.Db (Unit {0})
  unlock_locked_tokens did [] = pure tt
  unlock_locked_tokens did (id ∷ ids) = do
    t ← read_one g (owned_id did id)
    update g (owned_id did id) (with_status token_is_free t)
    unlock_locked_tokens did ids
