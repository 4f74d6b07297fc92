-- ===== src/Wallet/Settling.antt =====
-- core/wallet/token.go: the rows after tokens are committed or transferred.
use rubixgoplatform.Prelude.{
  ℕ, ◌≡◌, refl, Option, none, some, List, [], ◌∷◌, Bool, true, false, ◌==◌, if◌then◌else◌, ◌⊎◌, inl,
  inr, sym, ◌∙◌, ap, subst, ==_iff, ==_refl, Bool-cases,
}
use rubixgoplatform.Storage.Rows.{Table}
use rubixgoplatform.Storage.Effects.{Result, ok, err, Error, db_error}
use rubixgoplatform.Storage.{read_one, update}
use rubixgoplatform.Storage.Laws.{update-cases}
use rubixgoplatform.Wallet.Token.{
  Token, key, with_status, token_is_transferred, token_is_committed, token_is_pinned_as_service,
}
use rubixgoplatform.Wallet.Tokens.{owned_id}
use rubixgoplatform.Wallet.Release.{commit_tokens, transfer_loop, tokens_transferred}
use rubixgoplatform.Wallet.Locking.{err≢ok}
use rubixgoplatform.Wallet.Pledging.{read_owned-cases}

abbrev changed : (Token → Token) → Option Token → Option Token
changed f none = none
changed f (some t) = some (f t)

-- The row under `k` after every token of the list is changed, in order.
abbrev pub settled_row : (Token → Token) → List ℕ → ℕ → Option Token → Option Token
settled_row f [] k o = o
settled_row f (id ∷ ids) k o = settled_row f ids k (if k == id then changed f o else o)

abbrev pub transferred : ℕ → ℕ → Token → Token
transferred status tid t = record t { token_status = status; transaction_id = tid }

module _ (g : Table Token key) (did : ℕ) where
  -- A loop over tokens of the owner that reads, changes and updates each: the first step.
  abbrev Step : (Token → Token) → ℕ → g.Db → g.Db → Type 0
  Step f id d d1 =
      (t : Token) × (read_one g (owned_id did id) d ≡ (ok t, d))
      × (update g (owned_id did id) (f t) d ≡ (ok tt, d1))
      × ((k : ℕ) → g.row d1 k ≡ (if k == id then changed f (g.row d k) else g.row d k))

  Step-row :
      (f : Token → Token) (id k : ℕ) (t : Token) (d d1 : g.Db)
      → g.row d id ≡ some t
      → g.row d1 k ≡ (if k == id then some (f t) else g.row d k)
      → g.row d1 k ≡ (if k == id then changed f (g.row d k) else g.row d k)
  Step-row f id k t d d1 at w = elim (Bool-cases (k == id)) [
    | inl hit ↦
        let here = ap (g.row d) ((==_iff k id).0 hit) ∙ at in
        rw hit ((rw hit at w) ∙ ap (changed f) (sym here))
    | inr miss ↦ rw miss (rw miss at w)
  ]

  -- The two calls of a step, by cases.
  Step-cases :
      (f : Token → Token) (id : ℕ) (d : g.Db)
      → ((t : Token) → key (f t) ≡ key t)
      → ((e : Error) × (read_one g (owned_id did id) d ≡ (err e, d)))
        ⊎ (((t : Token) × (read_one g (owned_id did id) d ≡ (ok t, d))
              × (update g (owned_id did id) (f t) d ≡ (err db_error, d)))
            ⊎ ((d1 : g.Db) × Step f id d d1))
  Step-cases f id d keeps = elim (read_owned-cases g did id d) [
    | inl failed ↦ inl failed
    | inr (t, found, at, own, same) ↦
        let k_eq = keeps t ∙ same in
        elim (update-cases g (owned_id did id) (f t) t d (ap (g.row d) k_eq ∙ at)
          (rw (own, same, ==_refl did, ==_refl id) refl)) [
            | inl failed ↦ inr (inl (t, found, failed))
            | inr (d1, done, w) ↦ inr (
                inr (
                  d1,
                  (
                    t,
                    found,
                    done,
                    λ k. Step-row f id k t d d1 at (
                        subst (λ n. g.row d1 k ≡ (if k == n then some (f t) else g.row d k)) k_eq
                          (w k)),
                  ),
                ))
          ]
  ]

  -- `CommitTokens` that succeeds has made the listed tokens committed, and nothing else.
  pub commit_tokens-settles :
      (ids : List ℕ) (d d' : g.Db)
      → commit_tokens g did ids d ≡ (ok tt, d')
      → (k : ℕ) → g.row d' k ≡ settled_row (with_status token_is_committed) ids k (g.row d k)
  unfolding commit_tokens
  commit_tokens-settles [] d d' h k = ap (λ z. g.row z.1 k) (sym h)
  commit_tokens-settles (id ∷ ids) d d' h k =
      elim (Step-cases (with_status token_is_committed) id d (λ t. refl)) [
        | inl (e, failed) ↦
            let r : commit_tokens g did (id ∷ ids) d ≡ (err e, d) =
              rw (failed, commit_tokens) refl in
            absurd (err≢ok (ap (λ z. z.0) (sym r ∙ h)))
        | inr (inl (t, found, failed)) ↦
            let r : commit_tokens g did (id ∷ ids) d ≡ (err db_error, d) =
              rw (found, failed, commit_tokens) refl in
            absurd (err≢ok (ap (λ z. z.0) (sym r ∙ h)))
        | inr (inr (d1, (t, found, done, w))) ↦
            let r : commit_tokens g did (id ∷ ids) d ≡ commit_tokens g did ids d1 =
              rw (found, done, commit_tokens) refl in
            commit_tokens-settles ids d1 d' (sym r ∙ h) k
            ∙ ap (settled_row (with_status token_is_committed) ids k) (w k)
      ]

  transfer_loop-settles :
      (status tid : ℕ) (ids : List ℕ) (d d' : g.Db)
      → transfer_loop g did status tid ids d ≡ (ok tt, d')
      → (k : ℕ) → g.row d' k ≡ settled_row (transferred status tid) ids k (g.row d k)
  unfolding transfer_loop
  transfer_loop-settles status tid [] d d' h k = ap (λ z. g.row z.1 k) (sym h)
  transfer_loop-settles status tid (id ∷ ids) d d' h k =
      elim (Step-cases (transferred status tid) id d (λ t. refl)) [
        | inl (e, failed) ↦
            let r : transfer_loop g did status tid (id ∷ ids) d ≡ (err e, d) =
              rw (failed, transfer_loop) refl in
            absurd (err≢ok (ap (λ z. z.0) (sym r ∙ h)))
        | inr (inl (t, found, failed)) ↦
            let r : transfer_loop g did status tid (id ∷ ids) d ≡ (err db_error, d) =
              rw (found, failed, transfer_loop) refl in
            absurd (err≢ok (ap (λ z. z.0) (sym r ∙ h)))
        | inr (inr (d1, (t, found, done, w))) ↦
            let r : transfer_loop g did status tid (id ∷ ids) d
                ≡ transfer_loop g did status tid ids d1 =
              rw (found, done, transfer_loop) refl in
            transfer_loop-settles status tid ids d1 d' (sym r ∙ h) k
            ∙ ap (settled_row (transferred status tid) ids k) (w k)
      ]

  -- `TokensTransferred` that succeeds has given the listed tokens the transaction of the block and
  -- the status of transferred tokens, or that of pinned ones in the pinning service, and changed
  -- nothing else; on a transfer within the node it has changed nothing.
  pub tokens_transferred-settles :
      (created : Result (Unit {0})) (tid : ℕ) (ids : List ℕ) (local pinning : Bool) (d d' : g.Db)
      → tokens_transferred g created tid did ids local pinning d ≡ (ok tt, d')
      → (k : ℕ)
      → g.row d' k ≡ (
          if local
          then g.row d k
          else settled_row
              (transferred
                (if pinning then token_is_pinned_as_service else token_is_transferred)
                tid)
              ids
              k
              (g.row d k))
  unfolding tokens_transferred
  tokens_transferred-settles created tid ids true pinning d d' h k = ap (λ z. g.row z.1 k) (sym h)
  tokens_transferred-settles (err e) tid ids false pinning d d' h k =
      absurd (err≢ok (ap (λ z. z.0) h))
  tokens_transferred-settles (ok u) tid ids false pinning d d' h k =
      transfer_loop-settles (if pinning then token_is_pinned_as_service else token_is_transferred)
        tid ids d d' h k
