-- ===== src/Wallet/WholeTokens.antt =====
-- core/wallet/token.go: `GetWholeTokens`, on every branch.
use rubixgoplatform.Prelude.{
  ℕ, zero, suc, ◌-◌, ◌≤◌, ◌≡◌, ◌≢◌, refl, some, if◌then◌else◌, arith, ◌⊎◌, inl, inr, true, sym, ◌∙◌,
  ap, List, [], ◌∷◌, subst, All, All-take, All-map, length-take_le, take-length, map, ltb, length,
  take, Bool-cases, ◌==◌,
}
use rubixgoplatform.Storage.Rows.{Table, Distinct, Member}
use rubixgoplatform.Storage.Effects.{ok, err, Error}
use rubixgoplatform.Storage.Laws.{Found, FoundAll, read_all-cases}
use rubixgoplatform.Wallet.Token.{
  Token, key, token_is_free, token_is_pinned_as_service, whole_value,
}
use rubixgoplatform.Wallet.Tokens.{get_whole_tokens, whole_free, in_status}
use rubixgoplatform.Wallet.Moves.{Moves, stay}
use rubixgoplatform.Wallet.LockLoop.{locked, locked_row, Stands, LockPolicy, lock_loop-Locks}

pub Distinct-take : (n : ℕ) (ts : List Token) → Distinct key ts → Distinct key (take n ts)
Distinct-take zero ts h = tt
Distinct-take (suc n) [] h = tt
Distinct-take (suc n) (t ∷ ts) (ne, h) =
    (All-take (λ u. key u ≢ key t) n ts ne, Distinct-take n ts h)

-- A whole token that is free or, in mode 0, pinned as a service.
abbrev pub IsOffered : ℕ → Token → Type 0
IsOffered mode t =
    (t.token_value ≡ whole_value)
    × ((t.token_status ≡ token_is_free)
        ⊎ ((mode ≡ 0) × (t.token_status ≡ token_is_pinned_as_service)))

-- The query asks for the owner's tokens that are offered.
whole_free-IsOffered :
    (did mode : ℕ) (t : Token) → whole_free did mode t ≡ true → (t.did ≡ did) × IsOffered mode t
whole_free-IsOffered did mode t h = elim (Bool-cases (mode == 0)) [
  | inl zero_mode ↦ elim (Bool-cases (in_status token_is_free t)) [
    | inl free ↦ (ground arith, (ground arith, inl (ground arith)))
    | inr other ↦ (ground arith, (ground arith, inr (ground arith, ground arith)))
  ]
  | inr other ↦ (ground arith, (ground arith, inl (ground arith)))
]

IsOffered-whole_free :
    (did mode : ℕ) (t : Token) → t.did ≡ did → IsOffered mode t → whole_free did mode t ≡ true
IsOffered-whole_free did mode t own (value, inl free) = ground arith
IsOffered-whole_free did mode t own (value, inr (zero_mode, pinned)) = ground arith

-- What is taken of the rows that were found: as many as are wanted, or all.
abbrev wanted : ℕ → List Token → ℕ
wanted num l = if ltb num (length l) then num else length l

wanted_le : (num : ℕ) (l : List Token) → (wanted num l ≤ length l) × (wanted num l ≤ num)
wanted_le num l = ground arith

wanted_rest : (num : ℕ) (l : List Token) → (num - wanted num l ≡ 0) ⊎ (wanted num l ≡ length l)
wanted_rest num l = elim (Bool-cases (ltb num (length l))) [
  | inl e ↦ inl (ground arith)
  | inr e ↦ inr (ground arith)
]

module _ (g : Table Token key) (did num mode : ℕ) (d : g.Db) where
  -- The taken tokens, and what is left to find: at most as many tokens as are wanted, all of them
  -- offered whole tokens of the owner, each once; and if some are still wanted, every such token of
  -- the table is taken.
  abbrev pub Taken : List Token → Type 0
  Taken t =
      All (Stands g (IsOffered mode) did d) t
      × Distinct key t
      × (length t ≤ num)
      × ((num - length t ≡ 0)
          ⊎ ((k : ℕ) (r : Token)
              → g.row d k ≡ some r
              → r.did ≡ did
              → IsOffered mode r
              → Member r t))

  abbrev pub TakesWhole : Type 0
  TakesWhole =
      ((e : Error) × (d' : g.Db) × (get_whole_tokens g did num mode d ≡ (err e, d'))
        × Moves g (LockPolicy g (IsOffered mode) did) d d')
      ⊎ ((t : List Token) × (d' : g.Db) × (get_whole_tokens g did num mode d
            ≡ (ok (map locked t, num - length t), d'))
          × Taken t
          × Moves g (LockPolicy g (IsOffered mode) did) d d'
          × ((k : ℕ) → g.row d' k ≡ locked_row t k (g.row d k)))

  Taken-take :
      (l : List Token) → FoundAll g d (whole_free did mode) l → Taken (take (wanted num l) l)
  Taken-take l (st, ds, complete) =
      let (le_l, le_num) = wanted_le num l in
      let len = length-take_le (wanted num l) l le_l in
      (
        All-take (Stands g (IsOffered mode) did d) (wanted num l) l (
            All-map (Found g d (whole_free did mode)) (Stands g (IsOffered mode) did d) l
              (λ t (at, free).
                let (own, offered) = whole_free-IsOffered did mode t free in (at, own, offered))
              st),
        Distinct-take (wanted num l) l ds,
        omega arith,
        elim (wanted_rest num l) [
          | inl none_left ↦ inl (omega arith)
          | inr all_taken ↦ inr λ k r at own offered.
              subst (Member r) (sym (ap (λ n. take n l) all_taken ∙ take-length l))
                (complete k r at (IsOffered-whole_free did mode r own offered))
        ],
      )

  pub get_whole_tokens-TakesWhole : TakesWhole
  unfolding get_whole_tokens
  get_whole_tokens-TakesWhole = elim (read_all-cases g (whole_free did mode) d) [
    | inl (e, failed) ↦ inl (e, d, rw (failed, get_whole_tokens) refl, stay)
    | inr (l, found, all) ↦
        let t = take (wanted num l) l in
        let taken = Taken-take l all in
        elim (lock_loop-Locks g (IsOffered mode) did t d taken.0 taken.1) [
          | inl (e, d', failed, m) ↦ inl (e, d', rw (found, failed, get_whole_tokens) refl, m)
          | inr (d', done, m, rows) ↦ inr (
            t,
            d',
            rw (found, done, get_whole_tokens)
                (ap (λ n. (ok (map locked t, num - n), d'))
                  (sym (length-take_le (wanted num l) l (wanted_le num l).0))),
            taken,
            m,
            rows,
          )
        ]
  ]
