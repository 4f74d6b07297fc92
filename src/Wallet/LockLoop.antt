-- ===== src/Wallet/LockLoop.antt =====
-- core/wallet/token.go: the loop that locks the rows of a query, on success and when an update fails.
use rubixgoplatform.Prelude.{
  ℕ, ◌≡◌, ◌≢◌, refl, Option, some, ◌==◌, if◌then◌else◌, ◌⊎◌, inl, inr, true, sym, ◌∙◌, ap, ==_iff,
  ==_refl, ne→==_false, List, [], ◌∷◌, if-inv, subst, All, map,
}
use rubixgoplatform.Storage.Rows.{Table, Distinct}
use rubixgoplatform.Storage.Effects.{ok, err, Error, db_error}
use rubixgoplatform.Storage.Laws.{update-cases, Writes}
use rubixgoplatform.Wallet.Token.{Token, key, with_status, token_is_locked}
use rubixgoplatform.Wallet.Tokens.{owned_id, lock_loop}
use rubixgoplatform.Wallet.Moves.{Moves, stay, move, Moves-trans}

abbrev pub locked : Token → Token
locked = with_status token_is_locked

-- The row under `k` after every token of the list is locked.
abbrev pub locked_row : List Token → ℕ → Option Token → Option Token
locked_row [] k o = o
locked_row (t ∷ ts) k o = if k == key t then some (locked t) else locked_row ts k o

locked_row-absent :
    (ts : List Token) (k : ℕ) (o : Option Token) → All (λ u. key u ≢ k) ts → locked_row ts k o ≡ o
locked_row-absent [] k o h = refl
locked_row-absent (t ∷ ts) k o (ne, h) =
    rw (ne→==_false k (key t) (λ e. ne (sym e))) (locked_row-absent ts k o h)

-- After the first token is written, the rest of the loop gives the rows of the whole loop.
locked_row-cons :
    (t : Token) (ts : List Token) (k : ℕ) (o o1 : Option Token)
    → All (λ u. key u ≢ key t) ts
    → o1 ≡ (if k == key t then some (locked t) else o)
    → locked_row ts k o1 ≡ locked_row (t ∷ ts) k o
locked_row-cons t ts k o o1 h e = elim (if-inv (k == key t) (sym e)) [
  | inl (hit, e1) ↦ rw hit (
      locked_row-absent ts k o1
        (subst (λ n. All (λ u. key u ≢ n) ts) (sym ((==_iff k (key t)).0 hit)) h)
      ∙ sym e1)
  | inr (miss, e1) ↦ rw miss (ap (locked_row ts k) (sym e1))
]

module _ (g : Table Token key) (P : Token → Type 0) (did : ℕ) where
  -- Rows of one owner that stand in the table and have the property `P`.
  abbrev pub Stands : g.Db → Token → Type 0
  Stands d t = (g.row d (key t) ≡ some t) × (t.did ≡ did) × P t

  -- Tokens with the property are locked, and no other.
  abbrev pub LockPolicy : Token → ℕ → Type 0
  LockPolicy t s = (s ≡ token_is_locked) × P t

  abbrev pub Locks : List Token → g.Db → Type 0
  Locks ts d =
      ((e : Error) × (d' : g.Db) × (lock_loop g did ts d ≡ (err e, d')) × Moves g LockPolicy d d')
      ⊎ ((d' : g.Db) × (lock_loop g did ts d ≡ (ok (map locked ts), d'))
          × Moves g LockPolicy d d'
          × ((k : ℕ) → g.row d' k ≡ locked_row ts k (g.row d k)))

  Stands-write :
      (t : Token) (ts : List Token) (d d1 : g.Db)
      → Writes g d d1 (locked t)
      → All (λ u. key u ≢ key t) ts
      → All (Stands d) ts
      → All (Stands d1) ts
  Stands-write t [] d d1 w h st = tt
  Stands-write t (u ∷ ts) d d1 w (ne, h) ((at, own, p), st) = (
    (
      w (key u)
          ∙ ap (λ b. if b then some (locked t) else g.row d (key u))
              (ne→==_false (key u) (key t) ne)
          ∙ at,
      own,
      p,
    ),
    Stands-write t ts d d1 w h st,
  )

  owned_id_passes : (t : Token) → t.did ≡ did → owned_id did t.token_id t ≡ true
  owned_id_passes t own = rw (own, ==_refl did, ==_refl t.token_id) refl

  pub lock_loop-Locks :
      (ts : List Token) (d : g.Db) → All (Stands d) ts → Distinct key ts → Locks ts d
  unfolding lock_loop
  lock_loop-Locks [] d st ds = inr (d, refl, stay, λ k. refl)
  lock_loop-Locks (t ∷ ts) d ((at, own, p), st) (fresh, ds) =
      elim (update-cases g (owned_id did t.token_id) (locked t) t d at (owned_id_passes t own)) [
        | inl failed ↦ inl (db_error, d, rw (failed, lock_loop) refl, stay)
        | inr (d1, done, w) ↦
            let first : Moves g LockPolicy d d1 = move t token_is_locked stay at (refl, p) w in
            elim (lock_loop-Locks ts d1 (Stands-write t ts d d1 w fresh st) ds) [
              | inl (e, d', failed, m) ↦
                  inl (e, d', rw (done, failed, lock_loop) refl, Moves-trans g LockPolicy first m)
              | inr (d', rest, m, rows) ↦ inr (
                d',
                rw (done, rest, lock_loop) refl,
                Moves-trans g LockPolicy first m,
                λ k. rows k ∙ locked_row-cons t ts k (g.row d k) (g.row d1 k) fresh (w k),
              )
            ]
      ]
