-- ===== src/Wallet/Releasing.antt =====
-- core/wallet/token.go: releasing frees locked tokens, and no others.
use rubixgoplatform.Prelude.{
  ℕ, ◌≡◌, ◌≢◌, refl, some, ◌==◌, if◌then◌else◌, arith, ◌⊎◌, inl, inr, false, sym, ◌∙◌, ap, ==_iff,
  ==_refl, List, [], ◌∷◌, subst, Bool-cases, some_eq, Bool, true, Option, none, ◌++◌, ne→==_false,
}
use rubixgoplatform.Storage.Rows.{Table}
use rubixgoplatform.Storage.Effects.{ok, err, Error, db_error}
use rubixgoplatform.Storage.Laws.{read_one-cases, update-cases, Writes}
use rubixgoplatform.Wallet.Token.{Token, key, with_status, token_is_locked, token_is_free}
use rubixgoplatform.Wallet.Tokens.{has_id, get_token}
use rubixgoplatform.Wallet.Release.{release_token, release_tokens}
use rubixgoplatform.Wallet.Moves.{Moves, stay, move, Moves-after}
use rubixgoplatform.Wallet.Locking.{get_token-cases, get_token-locks, ok_eq, err≢ok}

-- Locked tokens become free.
abbrev pub ReleasePolicy : Token → ℕ → Type 0
ReleasePolicy t s = (s ≡ token_is_free) × (t.token_status ≡ token_is_locked)

-- A token that is locked, freed; any other token.
abbrev pub freed : Token → Token
freed t = if t.token_status == token_is_locked then with_status token_is_free t else t

abbrev pub freed_row : Option Token → Option Token
freed_row none = none
freed_row (some t) = some (freed t)

-- The row under `k` after every token of the list is freed, in order.
abbrev pub released_row : List Token → ℕ → Option Token → Option Token
released_row [] k o = o
released_row (t ∷ ts) k o = released_row ts k (if k == t.token_id then freed_row o else o)

module _ (g : Table Token key) where
  -- Both outcomes of `ReleaseToken`: an error and an unchanged table, or a row that was locked and
  -- is free, or a row that was not locked and an unchanged table.
  abbrev pub Releases : ℕ → g.Db → Type 0
  Releases token d =
      ((e : Error) × (release_token g token d ≡ (err e, d)))
      ⊎ ((t : Token) × (d' : g.Db) × (release_token g token d ≡ (ok tt, d'))
          × (g.row d token ≡ some t)
          × (((t.token_status ≡ token_is_locked) × Writes g d d' (with_status token_is_free t))
              ⊎ ((t.token_status ≢ token_is_locked) × (d' ≡ d))))

  pub release_token-cases : (token : ℕ) (d : g.Db) → Releases token d
  unfolding release_token
  release_token-cases token d = elim (read_one-cases g (has_id token) d) [
    | inl (e, failed) ↦ inl (e, rw (failed, release_token) refl)
    | inr (t, found, (at, id)) ↦
        let here = ap (g.row d) (sym ((==_iff t.token_id token).0 id)) ∙ at in
        elim (Bool-cases (t.token_status == token_is_locked)) [
          | inr free ↦ inr (
            t,
            d,
            rw (found, free, release_token) refl,
            here,
            inr (λ e. no_test t.token_status free e, refl),
          )
          | inl lock ↦
              elim (update-cases g (has_id t.token_id) (with_status token_is_free t) t d at
                (==_refl t.token_id)) [
                  | inl failed ↦ inl (db_error, rw (found, lock, failed, release_token) refl)
                  | inr (d', done, w) ↦ inr (
                    t,
                    d',
                    rw (found, lock, done, release_token) refl,
                    here,
                    inl ((==_iff t.token_status token_is_locked).0 lock, w),
                  )
                ]
        ]
  ]
    where
      no_test : (n : ℕ) → (n == token_is_locked) ≡ false → n ≡ token_is_locked → ⊥
      no_test n h e = ground arith

  pub release_token-Moves :
      (token : ℕ) (d : g.Db) → Moves g ReleasePolicy d (release_token g token d).1
  release_token-Moves token d = elim (release_token-cases token d) [
    | inl (e, failed) ↦ rw failed stay
    | inr (t, d', done, at, inl (lock, w)) ↦
        rw done
          (move t token_is_free stay (ap (g.row d) (g.row_key d token t at) ∙ at) (refl, lock) w)
    | inr (t, d', done, at, inr (free, same)) ↦
        rw done (subst (Moves g ReleasePolicy d) (sym same) stay)
  ]

  -- A loop of releases frees locked tokens one after the other, and does nothing else to the table.
  pub release_tokens-Moves :
      (ts : List Token) (d : g.Db) → Moves g ReleasePolicy d (release_tokens g ts d).1
  unfolding release_tokens
  release_tokens-Moves [] d = stay
  release_tokens-Moves (t ∷ ts) d =
      Moves-after g ReleasePolicy (release_token g t.token_id d) (λ _. release_tokens g ts)
        (release_token-Moves t.token_id d) (λ _ d'. release_tokens-Moves ts d')

  freed-locked :
      (t : Token) (b : Bool)
      → (t.token_status == token_is_locked) ≡ b
      → (if b then with_status token_is_free t else t) ≡ freed t
  freed-locked t b e = rw e refl

  -- The row after one release.
  release_token-row :
      (id : ℕ) (t : Token) (d d' : g.Db)
      → g.row d id ≡ some t
      → (((t.token_status ≡ token_is_locked) × Writes g d d' (with_status token_is_free t))
          ⊎ ((t.token_status ≢ token_is_locked) × (d' ≡ d)))
      → (k : ℕ) → g.row d' k ≡ (if k == id then freed_row (g.row d k) else g.row d k)
  release_token-row id t d d' at (inl (lock, w)) k =
      let w' : g.row d' k ≡ (if k == id then some (with_status token_is_free t) else g.row d k) =
        subst (λ n. g.row d' k ≡ (if k == n then some (with_status token_is_free t) else g.row d k))
          (g.row_key d id t at) (w k) in
      elim (Bool-cases (k == id)) [
        | inl hit ↦
            let here = ap (g.row d) ((==_iff k id).0 hit) ∙ at in
            rw hit (
              (rw hit at w')
              ∙ ap some (freed-locked t true ((==_iff t.token_status token_is_locked).1 lock))
              ∙ ap freed_row (sym here))
        | inr miss ↦ rw miss (rw miss at w')
      ]
  release_token-row id t d d' at (inr (free, same)) k =
      ap (λ z. g.row z k) same ∙ elim (Bool-cases (k == id)) [
        | inl hit ↦
            let here = ap (g.row d) ((==_iff k id).0 hit) ∙ at in
            rw hit (
              here
              ∙ ap some (freed-locked t false (ne→==_false t.token_status token_is_locked free))
              ∙ ap freed_row (sym here))
        | inr miss ↦ rw miss refl
      ]

  -- The rows after the tokens of a list are released.
  abbrev pub Frees : List Token → g.Db → g.Db → Type 0
  Frees ts d d' = (k : ℕ) → g.row d' k ≡ released_row ts k (g.row d k)

  -- Success for the whole list, or the first of its tokens whose release is an error.
  abbrev pub ReleasesAll : List Token → g.Db → Type 0
  ReleasesAll ts d =
      ((d' : g.Db) × (release_tokens g ts d ≡ (ok tt, d')) × Frees ts d d')
      ⊎ ((before : List Token) × (t : Token) × (later : List Token) × (e : Error) × (d' : g.Db)
          × (ts ≡ before ++ t ∷ later)
          × (release_tokens g ts d ≡ (err e, d'))
          × (release_token g t.token_id d' ≡ (err e, d'))
          × Frees before d d')

  -- Both outcomes of `ReleaseTokens`. Either it succeeds, and exactly the listed tokens that were
  -- locked have become free; or the release of one of the listed tokens is an error, which is
  -- returned, and exactly those of the tokens before it that were locked have become free. No other
  -- row has changed.
  pub release_tokens-Frees : (ts : List Token) (d : g.Db) → ReleasesAll ts d
  unfolding release_tokens
  release_tokens-Frees [] d = inl (d, refl, λ k. refl)
  release_tokens-Frees (t ∷ ts) d = elim (release_token-cases t.token_id d) [
    | inl (e, failed) ↦
        inr ([], t, ts, e, d, refl, rw (failed, release_tokens) refl, failed, λ k. refl)
    | inr (u, d1, done, at, outcome) ↦
        let row = release_token-row t.token_id u d d1 at outcome in
        elim (release_tokens-Frees ts d1) [
          | inl (d', rest, rows) ↦ inl (
            d',
            rw (done, rest, release_tokens) refl,
            λ k. rows k ∙ ap (released_row ts k) (row k),
          )
          | inr (before, v, later, e, d', split, rest, failed, rows) ↦ inr (
            t ∷ before,
            v,
            later,
            e,
            d',
            ap (λ l. t ∷ l) split,
            rw (done, rest, release_tokens) refl,
            failed,
            λ k. rows k ∙ ap (released_row before k) (row k),
          )
        ]
  ]

  back :
      (old t : Token) (d d1 d2 : g.Db)
      → g.row d (key old) ≡ some old
      → old.token_status ≡ token_is_free
      → Writes g d d1 (with_status token_is_locked old)
      → t ≡ with_status token_is_locked old
      → Writes g d1 d2 (with_status token_is_free t)
      → (k : ℕ) → g.row d2 k ≡ g.row d k
  back old t d d1 d2 at free w e w2 k =
      let w3 =
        subst
          (λ u.
            g.row d2 k ≡ (if k == key u then some (with_status token_is_free u) else g.row d1 k))
          e (w2 k) in
      elim (Bool-cases (k == key old)) [
        | inl hit ↦
            (rw hit at w3)
            ∙ ap (λ s. some (with_status s old)) (sym free)
            ∙ sym at
            ∙ ap (g.row d) (sym ((==_iff k (key old)).0 hit))
        | inr miss ↦ (rw miss at w3) ∙ (rw miss at (w k))
      ]

  -- A free token that `GetToken` locks and `ReleaseToken` gives back is as it was, and so is every
  -- other row.
  pub release_token-get_token :
      (token : ℕ) (d d1 d2 : g.Db) (t : Token)
      → get_token g token token_is_free d ≡ (ok t, d1)
      → release_token g token d1 ≡ (ok tt, d2)
      → (k : ℕ) → g.row d2 k ≡ g.row d k
  release_token-get_token token d d1 d2 t h h1 k = elim (get_token-cases g token token_is_free d) [
    | inl (e, failed) ↦ absurd (err≢ok (ap (λ z. z.0) (sym failed ∙ h)))
    | inr (old, d1', done, at, free, w) ↦
        let same = ap (λ z. z.1) (sym done ∙ h) in
        let (row, lock) = get_token-locks g token token_is_free d d1 t h in
        let is_t : with_status token_is_locked old ≡ t = ok_eq (ap (λ z. z.0) (sym done ∙ h)) in
        elim (release_token-cases token d1) [
          | inl (e, failed) ↦ absurd (err≢ok (ap (λ z. z.0) (sym failed ∙ h1)))
          | inr (u, d2', freed, at_u, inr (ne, _)) ↦
              absurd (ne (ap (λ v. v.token_status) (some_eq (sym at_u ∙ row)) ∙ lock))
          | inr (u, d2', freed, at_u, inl (_, w2)) ↦
              let u_eq = some_eq (sym at_u ∙ row) ∙ sym is_t in
              let fin = ap (λ z. z.1) (sym freed ∙ h1) in
              back old u d d1 d2 (ap (g.row d) (g.row_key d token old at) ∙ at) free
                (subst (λ z. Writes g d z (with_status token_is_locked old)) same w) u_eq
                (subst (λ z. Writes g d1 z (with_status token_is_free u)) fin w2) k
        ]
  ]
