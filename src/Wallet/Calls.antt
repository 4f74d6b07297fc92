-- ===== src/Wallet/Calls.antt =====
-- core/wallet/token.go: any sequence of the calls that change the status of tokens.
pub mod Moving
pub mod Marking
use rubixgoplatform.Prelude.{
  subst, sym, ℕ, ◌≡◌, ◌≢◌, ◌⊎◌, inl, inr, List, [], ◌∷◌, Option, some, arith, ap, All, Bool,
}
use rubixgoplatform.Storage.Rows.{Table}
use rubixgoplatform.Storage.Effects.{Result, Exec, pure, ◌>>=◌, ◌>>◌}
use rubixgoplatform.Wallet.Token.{
  Token, key, token_is_free, token_is_locked, token_is_pledged, token_is_pinned_as_service,
}
use rubixgoplatform.Wallet.Tokens.{
  get_whole_tokens, get_tokens, get_tokens_by_limit, get_all_free_token, get_all_part_tokens,
  get_all_whole_tokens, get_all_pinned_tokens, get_child_token, get_token, pledge_whole_token,
  unpledge_whole_token,
}
use rubixgoplatform.Wallet.Release.{
  release_token, release_tokens, release_all_locked_tokens, commit_tokens, unlock_locked_tokens,
}
use rubixgoplatform.Wallet.Moves.{
  Moves, stay, Moves-trans, Moves-mono, Moves-untouched, Moves-Frozen, Frozen,
}
use Moving.{
  HoldPolicy, get_whole_tokens-holds, get_tokens-holds, get_tokens_by_limit-holds,
  get_all_free_token-holds, get_all_part_tokens-holds, get_all_whole_tokens-holds,
  get_all_pinned_tokens-holds, get_token-holds, pledge_whole_token-holds, release_token-holds,
  release_tokens-holds, release_all_locked_tokens-holds,
}
use Marking.{
  MarkPolicy, get_child_token-marks, get_token-marks, unpledge_whole_token-marks,
  commit_tokens-marks, unlock_locked_tokens-marks,
}

-- A call of the wallet, with its arguments: the methods that change the status of tokens that are in
-- the table, and nothing else of them. Those that write the fields of a row as they are given
-- (LockToken, UpdateToken), that set the transaction too (TokensTransferred), or that add and delete
-- rows (CreateToken, RemoveTokens, ClearTokens) are no calls here.
pub data Call : Type 0 where
  take_whole : (did num mode : ℕ) → Call
  take_amount take_limit : (did amt : ℕ) → Call
  take_free take_parts take_wholes take_pinned : (did : ℕ) → Call
  take_child : (did parent : ℕ) → Call
  take_one : (token status : ℕ) → Call
  give_one : (token : ℕ) → Call
  give : (ts : List Token) → Call
  give_locked : Call
  pledge : (did token : ℕ) → Call
  unpledge : (did token : ℕ) (unpledged : Result Bool) → Call
  commit unlock : (did : ℕ) (ids : List ℕ) → Call

-- The calls that test the status of a token before they change it, but for the end of a pledge.
-- GetChildToken, CommitTokens and UnlockLockedTokens do not, and GetToken takes the status to test
-- from its caller.
abbrev pub Tests : Call → Type 0
Tests (take_child did parent) = ⊥
Tests (take_one token status) = status ≡ token_is_free
Tests (unpledge did token unpledged) = ⊥
Tests (commit did ids) = ⊥
Tests (unlock did ids) = ⊥
Tests c = Unit

module _ (g : Table Token key) where
  -- What a call leaves in the table, on success and on an error.
  unfoldable pub call : Call → g.Db → g.Db
  call (take_whole did num mode) d = (get_whole_tokens g did num mode d).1
  call (take_amount did amt) d = (get_tokens g did amt d).1
  call (take_limit did limit) d = (get_tokens_by_limit g did limit d).1
  call (take_free did) d = (get_all_free_token g did d).1
  call (take_parts did) d = (get_all_part_tokens g did d).1
  call (take_wholes did) d = (get_all_whole_tokens g did d).1
  call (take_pinned did) d = (get_all_pinned_tokens g did d).1
  call (take_child did parent) d = (get_child_token g did parent d).1
  call (take_one token status) d = (get_token g token status d).1
  call (give_one token) d = (release_token g token d).1
  call (give ts) d = (release_tokens g ts d).1
  call give_locked d = (release_all_locked_tokens g d).1
  call (pledge did token) d = (pledge_whole_token g did token d).1
  call (unpledge did token unpledged) d = (unpledge_whole_token g did token unpledged d).1
  call (commit did ids) d = (commit_tokens g did ids d).1
  call (unlock did ids) d = (unlock_locked_tokens g did ids d).1

  unfoldable pub run : List Call → g.Db → g.Db
  unfolding call
  run [] d = d
  run (c ∷ cs) d = run cs (call c d)

  call-holds : (c : Call) (d : g.Db) → Tests c → Moves g HoldPolicy d (call c d)
  unfolding call
  call-holds (take_whole did num mode) d h = get_whole_tokens-holds g did num mode d
  call-holds (take_amount did amt) d h = get_tokens-holds g did amt d
  call-holds (take_limit did limit) d h = get_tokens_by_limit-holds g did limit d
  call-holds (take_free did) d h = get_all_free_token-holds g did d
  call-holds (take_parts did) d h = get_all_part_tokens-holds g did d
  call-holds (take_wholes did) d h = get_all_whole_tokens-holds g did d
  call-holds (take_pinned did) d h = get_all_pinned_tokens-holds g did d
  call-holds (take_child did parent) d h = absurd h
  call-holds (take_one token status) d h =
      subst (λ s. Moves g HoldPolicy d (get_token g token s d).1) (sym h)
        (get_token-holds g token d)
  call-holds (give_one token) d h = release_token-holds g token d
  call-holds (give ts) d h = release_tokens-holds g ts d
  call-holds give_locked d h = release_all_locked_tokens-holds g d
  call-holds (pledge did token) d h = pledge_whole_token-holds g did token d
  call-holds (unpledge did token unpledged) d h = absurd h
  call-holds (commit did ids) d h = absurd h
  call-holds (unlock did ids) d h = absurd h

  run-holds : (cs : List Call) (d : g.Db) → All Tests cs → Moves g HoldPolicy d (run cs d)
  unfolding run
  run-holds [] d h = stay
  run-holds (c ∷ cs) d (hc, h) =
      Moves-trans g HoldPolicy (call-holds c d hc) (run-holds cs (call c d) h)

  marked : {d d' : g.Db} → Moves g HoldPolicy d d' → Moves g MarkPolicy d d'
  marked = Moves-mono g HoldPolicy MarkPolicy (λ t s p. tt)

  call-marks : (c : Call) (d : g.Db) → Moves g MarkPolicy d (call c d)
  unfolding call
  call-marks (take_whole did num mode) d = marked (get_whole_tokens-holds g did num mode d)
  call-marks (take_amount did amt) d = marked (get_tokens-holds g did amt d)
  call-marks (take_limit did limit) d = marked (get_tokens_by_limit-holds g did limit d)
  call-marks (take_free did) d = marked (get_all_free_token-holds g did d)
  call-marks (take_parts did) d = marked (get_all_part_tokens-holds g did d)
  call-marks (take_wholes did) d = marked (get_all_whole_tokens-holds g did d)
  call-marks (take_pinned did) d = marked (get_all_pinned_tokens-holds g did d)
  call-marks (take_child did parent) d = get_child_token-marks g did parent d
  call-marks (take_one token status) d = get_token-marks g token status d
  call-marks (give_one token) d = marked (release_token-holds g token d)
  call-marks (give ts) d = marked (release_tokens-holds g ts d)
  call-marks give_locked d = marked (release_all_locked_tokens-holds g d)
  call-marks (pledge did token) d = marked (pledge_whole_token-holds g did token d)
  call-marks (unpledge did token unpledged) d = unpledge_whole_token-marks g did token unpledged d
  call-marks (commit did ids) d = commit_tokens-marks g did ids d
  call-marks (unlock did ids) d = unlock_locked_tokens-marks g did ids d

  run-marks : (cs : List Call) (d : g.Db) → Moves g MarkPolicy d (run cs d)
  unfolding run
  run-marks [] d = stay
  run-marks (c ∷ cs) d = Moves-trans g MarkPolicy (call-marks c d) (run-marks cs (call c d))

  -- A token that is neither free nor locked nor pinned as a service, so a pledged, committed,
  -- transferred or burnt one, is left as it is, errors included, by any sequence of calls of
  -- GetWholeTokens, GetTokens, GetTokensByLimit, GetAllFreeToken, GetAllPartTokens,
  -- GetAllWholeTokens, GetAllPinnedTokens, GetToken for a free token, ReleaseToken, ReleaseTokens,
  -- ReleaseAllLockedTokens and PledgeWholeToken.
  pub run_keeps :
      (cs : List Call) (d : g.Db) (token : ℕ) (t : Token)
      → All Tests cs
      → t.token_status ≢ token_is_free
      → t.token_status ≢ token_is_locked
      → t.token_status ≢ token_is_pinned_as_service
      → g.row d token ≡ some t
      → g.row (run cs d) token ≡ some t
  run_keeps cs d token t tests not_free not_locked not_pinned at =
      Moves-untouched g HoldPolicy token t
        (λ s p. elim p [
          | inl (_, inl free) ↦ not_free free
          | inl (_, inr pinned) ↦ not_pinned pinned
          | inr (_, lock) ↦ not_locked lock
        ])
        (run-holds cs d tests) at

  -- By any sequence of calls of GetWholeTokens, GetTokens, GetTokensByLimit, GetAllFreeToken,
  -- GetAllPartTokens, GetAllWholeTokens, GetAllPinnedTokens, GetChildToken, GetToken, ReleaseToken,
  -- ReleaseTokens, ReleaseAllLockedTokens, PledgeWholeToken, UnpledgeWholeToken, CommitTokens and
  -- UnlockLockedTokens, errors included, no token appears or vanishes, and none changes its owner, its
  -- value, its parent, its state hash or its transaction.
  pub run-Frozen :
      (cs : List Call) (d : g.Db) (token : ℕ) → Frozen (g.row d token) (g.row (run cs d) token)
  run-Frozen cs d token = Moves-Frozen g MarkPolicy (run-marks cs d) token
