-- ===== src/Wallet/Pledging.antt =====
-- core/wallet/token.go: pledging and unpledging a token, and unlocking listed tokens.
use rubixgoplatform.Prelude.{
  ℕ, ◌≡◌, refl, some, ◌==◌, ◌⊎◌, inl, inr, true, false, sym, ◌∙◌, ap, ==_iff, ==_refl, [], ◌∷◌,
  Bool, subst, Bool-cases, some_eq,
}
use rubixgoplatform.Storage.Rows.{Table}
use rubixgoplatform.Storage.Effects.{
  Result, ok, err, Error, db_error, not_locked, not_pledged, not_unpledged,
}
use rubixgoplatform.Storage.{read_one, update}
use rubixgoplatform.Storage.Laws.{read_one-cases, update-cases, Writes}
use rubixgoplatform.Wallet.Token.{
  Token, key, with_status, token_is_locked, token_is_free, token_is_pledged,
}
use rubixgoplatform.Wallet.Tokens.{owned_id, pledge_whole_token, unpledge_whole_token}
use rubixgoplatform.Wallet.Release.{unlock_locked_tokens}
use rubixgoplatform.Wallet.Locking.{and_parts, err≢ok}

module _ (g : Table Token key) (did token : ℕ) where
  -- The table has the owner's token in one status, and then in another, and no other change.
  abbrev pub Becomes : ℕ → ℕ → g.Db → g.Db → Type 0
  Becomes from_status to_status d d' =
      (t : Token) × (g.row d token ≡ some t)
      × (t.did ≡ did)
      × (t.token_status ≡ from_status)
      × Writes g d d' (with_status to_status t)

  -- `Read` with the owner and the identifier, by cases.
  pub read_owned-cases :
      (d : g.Db)
      → ((e : Error) × (read_one g (owned_id did token) d ≡ (err e, d)))
        ⊎ ((t : Token) × (read_one g (owned_id did token) d ≡ (ok t, d))
            × (g.row d token ≡ some t)
            × (t.did ≡ did)
            × (t.token_id ≡ token))
  read_owned-cases d = elim (read_one-cases g (owned_id did token) d) [
    | inl failed ↦ inl failed
    | inr (t, found, (at, q)) ↦
        let (own, id) = and_parts (t.did == did) (t.token_id == token) q in
        let same = (==_iff t.token_id token).0 id in
        inr (t, found, ap (g.row d) (sym same) ∙ at, (==_iff t.did did).0 own, same)
  ]

  -- The `Update` that follows it.
  pub update_owned-cases :
      (t : Token) (s : ℕ) (d : g.Db)
      → g.row d token ≡ some t
      → t.did ≡ did
      → t.token_id ≡ token
      → (update g (owned_id did token) (with_status s t) d ≡ (err db_error, d))
        ⊎ ((d' : g.Db) × (update g (owned_id did token) (with_status s t) d ≡ (ok tt, d'))
            × Writes g d d' (with_status s t))
  update_owned-cases t s d at own id =
      update-cases g (owned_id did token) (with_status s t) t d (ap (g.row d) id ∙ at)
        (rw (own, id, ==_refl did, ==_refl token) refl)

  abbrev pub Pledges : g.Db → Type 0
  Pledges d =
      ((e : Error) × (pledge_whole_token g did token d ≡ (err e, d)))
      ⊎ ((d' : g.Db) × (pledge_whole_token g did token d ≡ (ok tt, d'))
          × Becomes token_is_locked token_is_pledged d d')

  -- `PledgeWholeToken` either is an error and changes nothing, or makes a locked token of the owner
  -- pledged and changes nothing else.
  pub pledge_whole_token-Pledges : (d : g.Db) → Pledges d
  unfolding pledge_whole_token
  pledge_whole_token-Pledges d = elim (read_owned-cases d) [
    | inl (e, failed) ↦ inl (e, rw (failed, pledge_whole_token) refl)
    | inr (t, found, at, own, id) ↦ elim (Bool-cases (t.token_status == token_is_locked)) [
      | inr other ↦ inl (not_locked, rw (found, other, pledge_whole_token) refl)
      | inl lock ↦ elim (update_owned-cases t token_is_pledged d at own id) [
        | inl failed ↦ inl (db_error, rw (found, lock, failed, pledge_whole_token) refl)
        | inr (d', done, w) ↦ inr (
          d',
          rw (found, lock, done, pledge_whole_token) refl,
          (t, at, own, (==_iff t.token_status token_is_locked).0 lock, w),
        )
      ]
    ]
  ]

  abbrev pub Unpledges : Result Bool → g.Db → Type 0
  Unpledges u d =
      ((e : Error) × (unpledge_whole_token g did token u d ≡ (err e, d)))
      ⊎ ((d' : g.Db) × (unpledge_whole_token g did token u d ≡ (ok tt, d'))
          × (u ≡ ok true)
          × Becomes token_is_pledged token_is_free d d')

  -- `UnpledgeWholeToken` either is an error and changes nothing, or the latest block of the token is
  -- an unpledging block, and it makes a pledged token of the owner free and changes nothing else.
  pub unpledge_whole_token-Unpledges : (u : Result Bool) (d : g.Db) → Unpledges u d
  unfolding unpledge_whole_token
  unpledge_whole_token-Unpledges u d = elim (read_owned-cases d) [
    | inl (e, failed) ↦ inl (e, rw (failed, unpledge_whole_token) refl)
    | inr (t, found, at, own, id) ↦ elim (Bool-cases (t.token_status == token_is_pledged)) [
      | inr other ↦ inl (not_pledged, rw (found, other, unpledge_whole_token) refl)
      | inl pledged ↦ block u t found at own id pledged
    ]
  ]
    where
      block :
          (u : Result Bool) (t : Token)
          → read_one g (owned_id did token) d ≡ (ok t, d)
          → g.row d token ≡ some t
          → t.did ≡ did
          → t.token_id ≡ token
          → (t.token_status == token_is_pledged) ≡ true
          → Unpledges u d
      block (err e) t found at own id pledged =
          inl (e, rw (found, pledged, unpledge_whole_token) refl)
      block (ok false) t found at own id pledged =
          inl (not_unpledged, rw (found, pledged, unpledge_whole_token) refl)
      block (ok true) t found at own id pledged =
          elim (update_owned-cases t token_is_free d at own id) [
            | inl failed ↦ inl (db_error, rw (found, pledged, failed, unpledge_whole_token) refl)
            | inr (d', done, w) ↦ inr (
              d',
              rw (found, pledged, done, unpledge_whole_token) refl,
              refl,
              (t, at, own, (==_iff t.token_status token_is_pledged).0 pledged, w),
            )
          ]

  -- `UnlockLockedTokens` that returns without an error on one listed token of the owner makes it
  -- free, whatever its status was: locked, pledged, committed, transferred or burnt.
  pub unlock_locked_tokens_any :
      (d d' : g.Db) (t : Token)
      → g.row d token ≡ some t
      → unlock_locked_tokens g did (token ∷ []) d ≡ (ok tt, d')
      → Writes g d d' (with_status token_is_free t)
  unfolding unlock_locked_tokens
  unlock_locked_tokens_any d d' t here h = elim (read_owned-cases d) [
    | inl (e, failed) ↦
        let r : unlock_locked_tokens g did (token ∷ []) d ≡ (err e, d) =
          rw (failed, unlock_locked_tokens) refl in
        absurd (err≢ok (ap (λ z. z.0) (sym r ∙ h)))
    | inr (u, found, at, own, id) ↦ elim (update_owned-cases u token_is_free d at own id) [
      | inl failed ↦
          let r : unlock_locked_tokens g did (token ∷ []) d ≡ (err db_error, d) =
            rw (found, failed, unlock_locked_tokens) refl in
          absurd (err≢ok (ap (λ z. z.0) (sym r ∙ h)))
      | inr (d1, done, w) ↦
          let r : unlock_locked_tokens g did (token ∷ []) d ≡ (ok tt, d1) =
            rw (found, done, unlock_locked_tokens) refl in
          subst (λ z. Writes g d z (with_status token_is_free t)) (ap (λ z. z.1) (sym r ∙ h))
            (subst (λ v. Writes g d d1 (with_status token_is_free v)) (some_eq (sym at ∙ here)) w)
    ]
  ]
