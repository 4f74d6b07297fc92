-- ===== src/Wallet/Locking.antt =====
-- core/wallet/token.go: what locking a token does, and that a locked token is not handed out again.
use rubixgoplatform.Prelude.{
  ℕ, ◌≡◌, ◌≢◌, refl, some, if◌then◌else◌, arith, ◌⊎◌, inl, inr, true, sym, ◌∙◌, ap, ==_iff, ==_refl,
  ◌&&◌, Bool, subst, some_eq,
}
use rubixgoplatform.Storage.Rows.{Table}
use rubixgoplatform.Storage.Effects.{ok, err, Error, db_error}
use rubixgoplatform.Storage.Laws.{read_one-cases, update-cases, Writes}
use rubixgoplatform.Wallet.Token.{Token, key, with_status, token_is_locked}
use rubixgoplatform.Wallet.Tokens.{has_id, in_status, get_token}

pub and_parts : (a b : Bool) → (a && b) ≡ true → (a ≡ true) × (b ≡ true)
and_parts a b h = ground arith

pub err≢ok {ℓ} : {A : Type ℓ} {e : Error} {a : A} → err e ≡ ok a → ⊥
err≢ok h = cc

pub ok_eq {ℓ} : {A : Type ℓ} {a b : A} → ok a ≡ ok b → a ≡ b
ok_eq h = cc

module _ (g : Table Token key) where
  -- Both outcomes of `GetToken`: an error and an unchanged table, or the row of that identifier and
  -- status, which is locked in the table and in the answer.
  abbrev pub GetsToken : ℕ → ℕ → g.Db → Type 0
  GetsToken token status d =
      ((e : Error) × (get_token g token status d ≡ (err e, d)))
      ⊎ ((old : Token) × (d' : g.Db) × (get_token g token status d
            ≡ (ok (with_status token_is_locked old), d'))
          × (g.row d token ≡ some old)
          × (old.token_status ≡ status)
          × Writes g d d' (with_status token_is_locked old))

  pub get_token-cases : (token status : ℕ) (d : g.Db) → GetsToken token status d
  unfolding get_token
  get_token-cases token status d =
      elim (read_one-cases g (λ r. has_id token r && in_status status r) d) [
        | inl (e, eq) ↦ inl (e, rw (eq, get_token) refl)
        | inr (r, eq, (at, q)) ↦
            let (id, st) = and_parts (has_id token r) (in_status status r) q in
            elim (update-cases g (has_id r.token_id) (with_status token_is_locked r) r d at
              (==_refl r.token_id)) [
                | inl failed ↦ inl (db_error, rw (eq, failed, get_token) refl)
                | inr (d', done, w) ↦ inr (
                  r,
                  d',
                  rw (eq, done, get_token) refl,
                  ap (g.row d) (sym ((==_iff r.token_id token).0 id)) ∙ at,
                  (==_iff r.token_status status).0 st,
                  w,
                )
              ]
      ]

  -- What `GetToken` answers stands in the table, and is locked.
  pub get_token-locks :
      (token status : ℕ) (d d' : g.Db) (t : Token)
      → get_token g token status d ≡ (ok t, d')
      → (g.row d' token ≡ some t) × (t.token_status ≡ token_is_locked)
  get_token-locks token status d d' t h = elim (get_token-cases token status d) [
    | inl (e, failed) ↦ absurd (err≢ok (ap (λ z. z.0) (sym failed ∙ h)))
    | inr (old, d1, done, at, st, w) ↦
        let same = sym done ∙ h in
        let id : token ≡ key old = sym (g.row_key d token old at) in
        let here : g.row d1 token ≡ some (with_status token_is_locked old) =
          w token
          ∙ ap (λ b. if b then some (with_status token_is_locked old) else g.row d token)
              ((==_iff token (key old)).1 id) in
        let is_t = ok_eq (ap (λ z. z.0) same) in
        (
          subst (λ z. g.row z token ≡ some t) (ap (λ z. z.1) same) (here ∙ ap some is_t),
          sym (ap (λ u. u.token_status) is_t),
        )
  ]

  -- A token that `GetToken` has handed out is not handed out again under any other status than
  -- locked: the second call is an error, and the table is as the first call left it.
  pub get_token_exclusive :
      (token status again : ℕ) (d d' : g.Db) (t : Token)
      → again ≢ token_is_locked
      → get_token g token status d ≡ (ok t, d')
      → (e : Error) × (get_token g token again d' ≡ (err e, d'))
  get_token_exclusive token status again d d' t ne h = elim (get_token-cases token again d') [
    | inl failed ↦ failed
    | inr (old, d'', done, at, st, w) ↦
        let (row, is_locked) = get_token-locks token status d d' t h in
        absurd (ne (sym st ∙ ap (λ u. u.token_status) (some_eq (sym at ∙ row)) ∙ is_locked))
  ]
