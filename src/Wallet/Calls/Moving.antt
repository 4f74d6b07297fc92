-- ===== src/Wallet/Calls/Moving.antt =====
-- core/wallet/token.go: the moves of each call that locks, releases or pledges tokens.
use rubixgoplatform.Prelude.{
  ℕ, ◌≡◌, ◌≢◌, refl, some, ◌==◌, ltb, leb, if◌then◌else◌, arith, ◌⊎◌, inl, inr, true, ◌∙◌, ap,
  ==_iff, ==_refl, ne→==_false, List, [], ◌∷◌, ◌&&◌, Bool, Bool-cases, All, All-map, All-take, take,
  length, ◌/◌,
}
use rubixgoplatform.Storage.Rows.{Table, Distinct}
use rubixgoplatform.Storage.Effects.{
  err, Error, db_error, no_records, not_locked, not_pledged, not_unpledged, too_large, nil_pointer,
  no_token, split_error, after, pure, insufficient,
}
use rubixgoplatform.Storage.Laws.{Found, read_all-cases, update-cases, Writes}
use rubixgoplatform.Wallet.Token.{
  Token, key, with_status, token_is_free, token_is_locked, token_is_pledged,
  token_is_pinned_as_service, whole_value,
}
use rubixgoplatform.Wallet.Tokens.{
  has_id, in_status, lock_loop, lock_all, get_whole_tokens, get_tokens, get_tokens_by_limit,
  get_all_free_token, get_all_part_tokens, get_all_whole_tokens, get_all_pinned_tokens, get_token,
  pledge_whole_token, token_sort,
}
use rubixgoplatform.Wallet.Release.{
  release_token, release_tokens, release_all_locked_tokens, get_all_locked_tokens, free_loop,
  locked_or_empty,
}
use rubixgoplatform.Wallet.Moves.{Moves, stay, move, Moves-trans, Moves-mono, Moves-after}
use rubixgoplatform.Wallet.LockLoop.{Stands, LockPolicy, lock_loop-Locks}
use rubixgoplatform.Wallet.Locking.{get_token-cases}
use rubixgoplatform.Wallet.WholeTokens.{IsOffered, get_whole_tokens-TakesWhole, Distinct-take}
use rubixgoplatform.Wallet.Releasing.{ReleasePolicy, release_token-Moves, release_tokens-Moves}
use rubixgoplatform.Wallet.Pledging.{pledge_whole_token-Pledges}

abbrev Lockable : Token → Type 0
Lockable t = (t.token_status ≡ token_is_free) ⊎ (t.token_status ≡ token_is_pinned_as_service)

-- A free token or a pinned one becomes locked, a locked one becomes free or pledged.
abbrev pub HoldPolicy : Token → ℕ → Type 0
HoldPolicy t s =
    ((s ≡ token_is_locked) × Lockable t)
    ⊎ (((s ≡ token_is_free) ⊎ (s ≡ token_is_pledged)) × (t.token_status ≡ token_is_locked))

IsOffered-Lockable : (mode : ℕ) (t : Token) → IsOffered mode t → Lockable t
IsOffered-Lockable mode t (value, inl free) = inl free
IsOffered-Lockable mode t (value, inr (zero_mode, pinned)) = inr pinned

module _ (g : Table Token key) where
  module _ (did : ℕ) (q : Token → Bool)
      (own : (t : Token) → q t ≡ true → (t.did ≡ did) × Lockable t) where
    abbrev Passes : Token → Type 0
    Passes t = q t ≡ true

    -- The loop over rows that a query found, or over the first of them.
    lock_loop-holds :
        (ts : List Token) (d : g.Db)
        → All (Found g d q) ts
        → Distinct key ts
        → Moves g HoldPolicy d (lock_loop g did ts d).1
    lock_loop-holds ts d found ds =
        Moves-mono g (LockPolicy g Passes did) HoldPolicy
          (λ t s (is_locked, p). inl (is_locked, (own t p).1))
          (elim (lock_loop-Locks g Passes did ts d
            (All-map (Found g d q) (Stands g Passes did d) ts (λ t (at, p). (at, (own t p).0, p))
              found)
            ds) [ inl (e, d', failed, m) ↦ rw failed m | inr (d', done, m, rows) ↦ rw done m ])

    lock_all-holds : (d : g.Db) → Moves g HoldPolicy d (lock_all g did q d).1
    unfolding lock_all
    lock_all-holds d = elim (read_all-cases g q d) [
      | inl (e, failed) ↦ rw failed stay
      | inr (l, found, all) ↦ rw found (lock_loop-holds l d all.0 all.1)
    ]

  pub get_all_free_token-holds :
      (did : ℕ) (d : g.Db) → Moves g HoldPolicy d (get_all_free_token g did d).1
  unfolding get_all_free_token
  get_all_free_token-holds did d =
      lock_all-holds did (λ r. r.did == did && in_status token_is_free r)
        (λ t p. (ground arith, inl (ground arith))) d

  pub get_all_part_tokens-holds :
      (did : ℕ) (d : g.Db) → Moves g HoldPolicy d (get_all_part_tokens g did d).1
  unfolding get_all_part_tokens
  get_all_part_tokens-holds did d =
      lock_all-holds did
        (λ r.
          r.did == did
          && in_status token_is_free r
          && ltb 0 r.token_value
          && ltb r.token_value whole_value)
        (λ t p. (ground arith, inl (ground arith))) d

  pub get_all_whole_tokens-holds :
      (did : ℕ) (d : g.Db) → Moves g HoldPolicy d (get_all_whole_tokens g did d).1
  unfolding get_all_whole_tokens
  get_all_whole_tokens-holds did d =
      lock_all-holds did
        (λ r. r.did == did && in_status token_is_free r && r.token_value == whole_value)
        (λ t p. (ground arith, inl (ground arith))) d

  pub get_all_pinned_tokens-holds :
      (did : ℕ) (d : g.Db) → Moves g HoldPolicy d (get_all_pinned_tokens g did d).1
  unfolding get_all_pinned_tokens
  get_all_pinned_tokens-holds did d =
      lock_all-holds did (λ r. r.did == did && in_status token_is_pinned_as_service r)
        (λ t p. (ground arith, inr (ground arith))) d

  pub get_tokens_by_limit-holds :
      (did limit : ℕ) (d : g.Db) → Moves g HoldPolicy d (get_tokens_by_limit g did limit d).1
  unfolding get_tokens_by_limit
  get_tokens_by_limit-holds did limit d =
      let q = λ (r : Token). r.did == did && in_status token_is_free r && leb r.token_value limit in
      elim (read_all-cases g q d) [
        | inl (e, failed) ↦ rw failed stay
        | inr (l, found, all) ↦ rw found (
            Moves-after g HoldPolicy (lock_loop g did l d) (λ locked. pure (token_sort true locked))
              (lock_loop-holds did q (λ t p. (ground arith, inl (ground arith))) l d all.0 all.1)
              (λ a d'. stay))
      ]

  pub get_tokens-holds : (did amt : ℕ) (d : g.Db) → Moves g HoldPolicy d (get_tokens g did amt d).1
  unfolding get_tokens
  get_tokens-holds did amt d =
      let q = λ (r : Token). r.did == did && in_status token_is_free r in
      elim (read_all-cases g q d) [
        | inl (e, failed) ↦ rw failed stay
        | inr (l, found, all) ↦
            let n = amt / whole_value in
            let taken =
              lock_loop-holds did q (λ t p. (ground arith, inl (ground arith))) (take n l) d
                (All-take (Found g d q) n l all.0) (Distinct-take n l all.1) in
            rw found (elim (Bool-cases (ltb (length l) n)) [
              | inl few ↦ rw few stay
              | inr enough ↦ rw enough taken
            ])
      ]

  pub get_whole_tokens-holds :
      (did num mode : ℕ) (d : g.Db) → Moves g HoldPolicy d (get_whole_tokens g did num mode d).1
  get_whole_tokens-holds did num mode d =
      Moves-mono g (LockPolicy g (IsOffered mode) did) HoldPolicy
        (λ t s (is_locked, p). inl (is_locked, IsOffered-Lockable mode t p))
        (elim (get_whole_tokens-TakesWhole g did num mode d) [
          | inl (e, d', failed, m) ↦ rw failed m
          | inr (t, d', done, taken, m, rows) ↦ rw done m
        ])

  pub get_token-holds :
      (token : ℕ) (d : g.Db) → Moves g HoldPolicy d (get_token g token token_is_free d).1
  get_token-holds token d = elim (get_token-cases g token token_is_free d) [
    | inl (e, failed) ↦ rw failed stay
    | inr (old, d', done, at, free, w) ↦ rw done (
        move old token_is_locked stay (ap (g.row d) (g.row_key d token old at) ∙ at)
          (inl (refl, inl free)) w)
  ]

  pub pledge_whole_token-holds :
      (did token : ℕ) (d : g.Db) → Moves g HoldPolicy d (pledge_whole_token g did token d).1
  pledge_whole_token-holds did token d = elim (pledge_whole_token-Pledges g did token d) [
    | inl (e, failed) ↦ rw failed stay
    | inr (d', done, (t, at, own, lock, w)) ↦ rw done (
        move t token_is_pledged stay (ap (g.row d) (g.row_key d token t at) ∙ at)
          (inr (inr refl, lock)) w)
  ]

  released : {d d' : g.Db} → Moves g ReleasePolicy d d' → Moves g HoldPolicy d d'
  released = Moves-mono g ReleasePolicy HoldPolicy (λ t s (free, lock). inr (inl free, lock))

  pub release_token-holds :
      (token : ℕ) (d : g.Db) → Moves g HoldPolicy d (release_token g token d).1
  release_token-holds token d = released (release_token-Moves g token d)

  pub release_tokens-holds :
      (ts : List Token) (d : g.Db) → Moves g HoldPolicy d (release_tokens g ts d).1
  release_tokens-holds ts d = released (release_tokens-Moves g ts d)

  Stored-write :
      (r : Token) (ts : List Token) (d d1 : g.Db)
      → Writes g d d1 r
      → All (λ u. key u ≢ key r) ts
      → All (Found g d (in_status token_is_locked)) ts
      → All (Found g d1 (in_status token_is_locked)) ts
  Stored-write r [] d d1 w h st = tt
  Stored-write r (u ∷ ts) d d1 w (ne, h) ((at, p), st) = (
    (
      w (key u)
          ∙ ap (λ b. if b then some r else g.row d (key u)) (ne→==_false (key u) (key r) ne)
          ∙ at,
      p,
    ),
    Stored-write r ts d d1 w h st,
  )

  free_loop-holds :
      (ts : List Token) (d : g.Db)
      → All (Found g d (in_status token_is_locked)) ts
      → Distinct key ts
      → Moves g HoldPolicy d (free_loop g ts d).1
  unfolding free_loop
  free_loop-holds [] d st ds = stay
  free_loop-holds (t ∷ ts) d ((at, p), st) (fresh, ds) =
      elim (update-cases g (has_id t.token_id) (with_status token_is_free t) t d at
        (==_refl t.token_id)) [
          | inl failed ↦ rw failed stay
          | inr (d1, done, w) ↦ rw done (
              Moves-trans g HoldPolicy
                (move t token_is_free stay at
                  (inr (inl refl, (==_iff t.token_status token_is_locked).0 p)) w)
                (free_loop-holds ts d1
                  (Stored-write (with_status token_is_free t) ts d d1 w fresh st) ds))
        ]

  -- The query that finds no locked row, and the one that fails.
  none_found :
      (e : Error) (d : g.Db)
      → Moves g HoldPolicy d (after (locked_or_empty g (err e), d) (free_loop g)).1
  unfolding locked_or_empty free_loop
  none_found db_error d = stay
  none_found no_records d = stay
  none_found not_locked d = stay
  none_found not_pledged d = stay
  none_found not_unpledged d = stay
  none_found insufficient d = stay
  none_found too_large d = stay
  none_found nil_pointer d = stay
  none_found no_token d = stay
  none_found split_error d = stay

  pub release_all_locked_tokens-holds :
      (d : g.Db) → Moves g HoldPolicy d (release_all_locked_tokens g d).1
  unfolding release_all_locked_tokens get_all_locked_tokens locked_or_empty
  release_all_locked_tokens-holds d = elim (read_all-cases g (in_status token_is_locked) d) [
    | inl (e, failed) ↦ rw failed (none_found e d)
    | inr (l, found, all) ↦ rw found (free_loop-holds l d all.0 all.1)
  ]
