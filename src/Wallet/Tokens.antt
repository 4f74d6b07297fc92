-- ===== src/Wallet/Tokens.antt =====
-- core/wallet/token.go: reading, locking and pledging the tokens of the table. A call is one step:
-- the methods that lock tokens hold the mutex of the wallet. A message in the log is left out.
use rubixgoplatform.Prelude.{
  ℕ, ◌-◌, ◌/◌, List, [], ◌∷◌, ◌==◌, ltb, leb, if◌then◌else◌, length, take, Bool, true, false, ◌&&◌,
  ◌||◌,
}
use rubixgoplatform.Storage.Rows.{Table}
use rubixgoplatform.Storage.Effects.{
  Result, ok, err, Exec, pure, raise, ◌>>=◌, ◌>>◌, not_locked, not_pledged, not_unpledged,
  insufficient, too_large, no_token,
}
use rubixgoplatform.Storage.{read_all, read_one, update, write}
use rubixgoplatform.Wallet.Token.{
  Token, key, with_status, token_is_free, token_is_locked, token_is_pledged,
  token_is_pinned_as_service, whole_value,
}

-- The conditions of the queries.
abbrev pub owned_by : ℕ → Token → Bool
owned_by did r = r.did == did

abbrev pub has_id : ℕ → Token → Bool
has_id id r = r.token_id == id

abbrev pub owned_id : ℕ → ℕ → Token → Bool
owned_id did id r = r.did == did && r.token_id == id

abbrev pub in_status : ℕ → Token → Bool
in_status s r = r.token_status == s

-- `TokenSort`. How the library's sort orders equal values is not documented.
unfoldable pub insert_by : (Token → Token → Bool) → Token → List Token → List Token
insert_by before t [] = t ∷ []
insert_by before t (u ∷ us) = if before u t then u ∷ insert_by before t us else t ∷ u ∷ us

unfoldable pub token_sort : Bool → List Token → List Token
unfolding insert_by
token_sort dsc [] = []
token_sort dsc (t ∷ ts) =
    insert_by
      (λ u v. if dsc then ltb v.token_value u.token_value else ltb u.token_value v.token_value) t
      (token_sort dsc ts)

-- The condition of `GetWholeTokens`; mode 0 also takes tokens that are pinned as a service.
abbrev pub whole_free : ℕ → ℕ → Token → Bool
whole_free did mode r =
    r.did == did
    && (if mode == 0
        then in_status token_is_free r || in_status token_is_pinned_as_service r
        else in_status token_is_free r)
    && r.token_value == whole_value

module _ (g : Table Token key) where
  unfoldable pub create_token : Token → Exec g.Db (Unit {0})
  create_token t = write g t

  unfoldable pub pledge_whole_token : ℕ → ℕ → Exec g.Db (Unit {0})
  pledge_whole_token did token = do
    t ← read_one g (owned_id did token)
    if t.token_status == token_is_locked
        then update g (owned_id did token) (with_status token_is_pledged t)
        else raise not_locked

  -- `unpledged` is what `GetLatestTokenBlock` and `GetTransType` come to: whether the type of the
  -- token's latest block is `TokenUnpledgedType`; the panic where there is no block, whose pointer is
  -- nil, is an error here.
  unfoldable pub unpledge_whole_token : ℕ → ℕ → Result Bool → Exec g.Db (Unit {0})
  unpledge_whole_token did token unpledged = do
    t ← read_one g (owned_id did token)
    if t.token_status == token_is_pledged
        then (do
          u ← (λ d. (unpledged, d))
          if u
              then update g (owned_id did token) (with_status token_is_free t)
              else raise not_unpledged)
        else raise not_pledged

  unfoldable pub get_all_tokens : ℕ → Exec g.Db (List Token)
  get_all_tokens did = read_all g (owned_by did)

  unfoldable pub get_all_pledged_tokens : Exec g.Db (List Token)
  get_all_pledged_tokens = read_all g (in_status token_is_pledged)

  unfoldable pub read_token : ℕ → Exec g.Db Token
  read_token token = read_one g (has_id token)

  -- The loop that locks the rows that were read, until an update fails.
  unfoldable pub lock_loop : ℕ → List Token → Exec g.Db (List Token)
  lock_loop did [] = pure []
  lock_loop did (t ∷ ts) = do
    update g (owned_id did t.token_id) (with_status token_is_locked t)
    locked ← lock_loop did ts
    pure (with_status token_is_locked t ∷ locked)

  -- The tokens, locked, and how many are still wanted. The number wanted is not negative.
  unfoldable pub get_whole_tokens : ℕ → ℕ → ℕ → Exec g.Db (List Token × ℕ)
  get_whole_tokens did num mode = do
    t ← read_all g (whole_free did mode)
    let tl = if ltb num (length t) then num else length t
    wt ← lock_loop did (take tl t)
    pure (wt, num - tl)

  unfoldable pub get_tokens_by_limit : ℕ → ℕ → Exec g.Db (List Token)
  get_tokens_by_limit did limit = do
    t ← read_all g (λ r. r.did == did && in_status token_is_free r && leb r.token_value limit)
    locked ← lock_loop did t
    pure (token_sort true locked)

  -- `int(amt)` cuts the decimals off.
  unfoldable pub get_tokens : ℕ → ℕ → Exec g.Db (List Token)
  get_tokens did amt = do
    t ← read_all g (λ r. r.did == did && in_status token_is_free r)
    if ltb (length t) (amt / whole_value)
        then raise insufficient
        else lock_loop did (take (amt / whole_value) t)

  unfoldable pub get_token : ℕ → ℕ → Exec g.Db Token
  get_token token status = do
    t ← read_one g (λ r. has_id token r && in_status status r)
    update g (has_id t.token_id) (with_status token_is_locked t)
    pure (with_status token_is_locked t)

  -- `GetAllFreeToken`, `GetAllPartTokens`, `GetAllWholeTokens`, `GetChildToken` and
  -- `GetAllPinnedTokens`: every row that passes a test is locked.
  unfoldable pub lock_all : ℕ → (Token → Bool) → Exec g.Db (List Token)
  lock_all did q = do t ← read_all g q; lock_loop did t

  unfoldable pub get_all_free_token : ℕ → Exec g.Db (List Token)
  unfolding lock_all
  get_all_free_token did = lock_all did (λ r. r.did == did && in_status token_is_free r)

  -- The source asks for the rows in the order of falling values; here they come in any order.
  unfoldable pub get_all_part_tokens : ℕ → Exec g.Db (List Token)
  unfolding lock_all
  get_all_part_tokens did = lock_all did (λ r.
      r.did == did
      && in_status token_is_free r
      && ltb 0 r.token_value
      && ltb r.token_value whole_value)

  unfoldable pub get_all_whole_tokens : ℕ → Exec g.Db (List Token)
  unfolding lock_all
  get_all_whole_tokens did =
      lock_all did (λ r. r.did == did && in_status token_is_free r && r.token_value == whole_value)

  unfoldable pub get_child_token : ℕ → ℕ → Exec g.Db (List Token)
  unfolding lock_all
  get_child_token did parent = lock_all did (λ r. r.did == did && r.parent_token_id == parent)

  unfoldable pub get_all_pinned_tokens : ℕ → Exec g.Db (List Token)
  unfolding lock_all
  get_all_pinned_tokens did =
      lock_all did (λ r. r.did == did && in_status token_is_pinned_as_service r)

  unfoldable pub lock_token : Token → Exec g.Db (Unit {0})
  lock_token wt = update g (owned_id wt.did wt.token_id) (with_status token_is_locked wt)

  -- The first row in the order of values, or the first whole token where no part is large enough.
  abbrev pub first_of_list : List Token → Exec g.Db Token
  first_of_list [] = raise no_token
  first_of_list (t ∷ ts) = pure t

  unfoldable pub closer_choice : ℕ → Result (List Token) → Exec g.Db Token
  closer_choice did (ok tks) = first_of_list (token_sort false tks)
  closer_choice did (err e) = do
    tks ←
        read_all g (λ r. r.did == did && in_status token_is_free r && r.token_value == whole_value)
    first_of_list tks

  unfoldable pub get_closer_token : ℕ → ℕ → Exec g.Db Token
  unfolding closer_choice
  get_closer_token did rem d =
      if ltb whole_value rem
      then (err too_large, d)
      else (let (r, d') =
            read_all g
              (λ r.
                r.did == did
                && in_status token_is_free r
                && leb rem r.token_value
                && ltb r.token_value whole_value)
              d in
          closer_choice did r d')
