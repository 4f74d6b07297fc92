-- ===== src/Wallet/Token.antt =====
-- core/wallet/token.go: the row of the token table. Texts (token and peer identifiers, DIDs,
-- hashes) are only compared: they are numbers, 0 for the empty text. A token's value, which the
-- program rounds to three decimals, is counted in thousandths.
use rubixgoplatform.Prelude.{ℕ, Bool}

pub record Token : Type 0 where
  pub token_id : ℕ
  pub parent_token_id : ℕ
  pub token_value : ℕ
  pub did : ℕ
  pub token_status : ℕ
  pub token_state_hash : ℕ
  pub transaction_id : ℕ
  pub added : Bool

abbrev pub token_is_free : ℕ
token_is_free = 0

abbrev pub token_is_locked : ℕ
token_is_locked = 1

abbrev pub token_is_pledged : ℕ
token_is_pledged = 2

abbrev pub token_is_transferred : ℕ
token_is_transferred = 4

abbrev pub token_is_committed : ℕ
token_is_committed = 5

abbrev pub token_is_burnt : ℕ
token_is_burnt = 9

abbrev pub token_is_pinned_as_service : ℕ
token_is_pinned_as_service = 15

-- The value 1.0.
abbrev pub whole_value : ℕ
whole_value = 1000

abbrev pub key : Token → ℕ
key t = t.token_id

abbrev pub with_status : ℕ → Token → Token
with_status s t = record t { token_status = s }
