-- ===== src/PartTokens.antt =====
-- core/part_token.go: tokens for an amount, and a token split into parts. A value is a number of
-- thousandths, to which the program rounds.
pub mod Split
pub mod Adding
pub mod Gather
use rubixgoplatform.Prelude.{
  ℕ, zero, suc, ◌+◌, ◌*◌, ◌-◌, ◌/◌, ◌%◌, List, [], ◌∷◌, ◌++◌, Option, some, none, Bool, true, false,
  ◌==◌, ltb, leb, if◌then◌else◌, not, ◌&&◌,
}
use rubixgoplatform.Storage.Rows.{Table}
use rubixgoplatform.Storage.Effects.{
  Result, ok, err, Error, Exec, pure, raise, ◌>>=◌, ◌>>◌, rescue, quietly, no_records, insufficient,
  split_error, nil_pointer,
}
use rubixgoplatform.Wallet.Token.{
  Token, key, with_status, token_is_free, token_is_locked, token_is_burnt, whole_value,
}
use rubixgoplatform.Wallet.Tokens.{
  create_token, get_token, get_whole_tokens, get_tokens_by_limit, get_closer_token,
}
use rubixgoplatform.Wallet.Release.{release_token, release_tokens, update_token}

-- What the work on the token chains comes to in one split. `parent` reads the parents in the genesis
-- block of the token, of the type of parts or not; `child` makes the token of a part, by its number
-- and its value, and its first block; `burn` adds the block that burns the token.
pub record ChainWork : Type 0 where
  pub parent : Bool → Result (Unit {0})
  pub child : ℕ → ℕ → Result ℕ
  pub burn : Bool → List ℕ → Result (Unit {0})

-- The sum of the parts, which may not pass the value on the way.
unfoldable pub split_sum : ℕ → ℕ → List ℕ → Option ℕ
split_sum value amount [] = some amount
split_sum value amount (p ∷ parts) =
    let rest = split_sum value (amount + p) parts in if ltb value (amount + p) then none else rest

abbrev pub lift : {S A : Type 0} → Result A → Exec S A
lift r d = (r, d)

-- The part tokens from number `i` on.
unfoldable pub make_children : {S : Type 0} → ChainWork → ℕ → List ℕ → Exec S (List ℕ)
make_children w i [] = pure []
make_children w i (p ∷ parts) = do
  id ← lift (w.child i p)
  ids ← make_children w (suc i) parts
  pure (id ∷ ids)

-- The row of a part.
abbrev pub part_row : ℕ → ℕ → ℕ → ℕ → Token
part_row did parent id value = record {
  token_id = id;
  parent_token_id = parent;
  token_value = value;
  did = did;
  token_status = token_is_free;
  token_state_hash = 0;
  transaction_id = 0;
  added = false;
}

-- The first part of `pt` whose value is `rem`, and the others.
unfoldable pub find_exact : ℕ → List Token → Option (Token × List Token)
find_exact rem [] = none
find_exact rem (t ∷ ts) =
    let rest = find_exact rem ts in
    if t.token_value == rem
    then some (t, ts)
    else elim rest [ none ↦ none | some z ↦ some (z.0, t ∷ z.1) ]

-- The parts that fit, one after the other, what is still to find, and the parts that do not fit.
unfoldable pub fit_loop : ℕ → List Token → List Token × ℕ × List Token
fit_loop rem [] = ([], rem, [])
fit_loop rem (t ∷ ts) =
    if leb t.token_value rem
    then (let (wt, left, rpt) = fit_loop (rem - t.token_value) ts in (t ∷ wt, left, rpt))
    else (let (wt, left, rpt) = fit_loop rem ts in (wt, left, t ∷ rpt))

module _ (g : Table Token key) where
  unfoldable pub create_parts : ℕ → ℕ → List ℕ → List ℕ → Exec g.Db (List Token)
  create_parts did parent ids [] = pure []
  create_parts did parent [] (p ∷ parts) = raise nil_pointer
  create_parts did parent (id ∷ ids) (p ∷ parts) = do
    create_token g (part_row did parent id p)
    npt ← create_parts did parent ids parts
    pure (part_row did parent id p ∷ npt)

  -- `createPartToken` after its first call, with the token that is locked now.
  unfoldable pub split_token : ChainWork → ℕ → Token → ℕ → List ℕ → Exec g.Db (List Token)
  unfolding create_parts make_children split_sum
  split_token w did t tkn parts =
      let is_part = not (t.parent_token_id == 0) && ltb t.token_value whole_value in
      elim (split_sum t.token_value 0 parts) [
        | none ↦ raise split_error
        | some amount ↦
            if amount == t.token_value
            then (do
              lift (w.parent is_part)
              pts ← make_children w 0 parts
              lift (w.burn is_part pts)
              npt ← create_parts did tkn pts parts
              update_token g (with_status token_is_burnt t)
              pure npt)
            else raise split_error
      ]

  -- `createPartToken`. On an error after the token is locked, it is released.
  unfoldable pub create_part_token : Bool → ChainWork → ℕ → ℕ → List ℕ → Exec g.Db (List Token)
  unfolding split_token
  create_part_token dc w did tkn parts =
      if dc
      then (do
        t ← rescue (get_token g tkn token_is_free) (λ e. raise split_error)
        rescue (split_token w did t tkn parts) (λ e. quietly (release_token g tkn) >> raise e))
      else raise split_error

  -- The first new part is locked and added to the tokens.
  unfoldable pub add_part : List Token → List Token → Exec g.Db (List Token)
  add_part wt [] = raise nil_pointer
  add_part wt (n ∷ npt) =
      quietly (update_token g (with_status token_is_locked n))
      >> pure (wt ++ with_status token_is_locked n ∷ [])

  module _ (dc : Bool) (w : ChainWork) (did : ℕ) where
    -- `GetTokens` where there are no parts to take: a token is split.
    unfoldable pub split_closer : List Token → ℕ → Exec g.Db (List Token)
    unfolding add_part create_part_token
    split_closer wt rem =
        if leb whole_value rem then quietly (release_tokens g wt) >> raise insufficient else (do
          t ← rescue (get_closer_token g did rem) (λ e. quietly (release_tokens g wt) >> raise e)
          quietly (release_token g t.token_id)
          npt ←
              rescue (create_part_token dc w did t.token_id (rem ∷ (t.token_value - rem) ∷ []))
                (λ e. quietly (release_tokens g wt) >> raise e)
          add_part wt npt)

    -- A part that does not fit is split for the rest.
    unfoldable pub split_part : List Token → ℕ → Token → List Token → Exec g.Db (List Token)
    unfolding add_part create_part_token
    split_part wt rem t rpt = do
      quietly (release_token g t.token_id)
      npt ←
          rescue (create_part_token dc w did t.token_id (rem ∷ (t.token_value - rem) ∷ []))
            (λ e. quietly (release_tokens g wt) >> quietly (release_tokens g (t ∷ rpt)) >> raise e)
      quietly (release_tokens g (t ∷ rpt))
      add_part wt npt

    -- Another token is split for the rest.
    unfoldable pub split_last : List Token → ℕ → Token → Exec g.Db (List Token)
    unfolding add_part create_part_token
    split_last wt rem t = do
      quietly (release_token g t.token_id)
      npt ← rescue (create_part_token dc w did t.token_id (rem ∷ (t.token_value - rem) ∷ [])) (λ e.
          quietly (release_tokens g wt)
          >> quietly (release_token g t.token_id)
          >> raise split_error)
      add_part wt npt

    -- All parts are taken. Where no token is found, fewer are returned than were asked for.
    unfoldable pub last_closer : List Token → ℕ → Result Token → Exec g.Db (List Token)
    unfolding split_last
    last_closer wt rem (ok t) = split_last wt rem t
    last_closer wt rem (err no_records) = pure wt
    last_closer wt rem (err e) = quietly (release_tokens g wt) >> raise e

    unfoldable pub fit_parts : List Token → List Token × ℕ × List Token → Exec g.Db (List Token)
    unfolding split_part last_closer
    fit_parts wt (taken, rem, rpt) =
        if rem == 0 then quietly (release_tokens g rpt) >> pure (wt ++ taken) else elim rpt [
          | [] ↦ (λ d.
              let (r, d') = get_closer_token g did rem d in last_closer (wt ++ taken) rem r d')
          | t ∷ ts ↦ split_part (wt ++ taken) rem t ts
        ]

    -- With the parts that are locked.
    unfoldable pub take_parts : List Token → ℕ → List Token → Exec g.Db (List Token)
    unfolding fit_parts find_exact fit_loop
    take_parts wt rem pt = elim (if ltb rem whole_value then find_exact rem pt else none) [
      | some z ↦ quietly (release_tokens g z.1) >> pure (wt ++ z.0 ∷ [])
      | none ↦ fit_parts wt (fit_loop rem pt)
    ]

    unfoldable pub with_parts : List Token → ℕ → Result (List Token) → Exec g.Db (List Token)
    unfolding take_parts split_closer
    with_parts wt rem (err e) = split_closer wt rem
    with_parts wt rem (ok []) = split_closer wt rem
    with_parts wt rem (ok (t ∷ pt)) = take_parts wt rem (t ∷ pt)

    -- `GetTokens`.
    unfoldable pub core_get_tokens : ℕ → ℕ → Exec g.Db (List Token)
    unfolding with_parts
    core_get_tokens value mode = do
      (wt, rem_whole) ←
          (if value / whole_value == 0
            then pure ([], 0)
            else get_whole_tokens g did (value / whole_value) mode)
      let rem = value % whole_value + whole_value * rem_whole
      if rem == 0
          then pure wt
          else (λ d. let (r, d') = get_tokens_by_limit g did rem d in with_parts wt rem r d')
