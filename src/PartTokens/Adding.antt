-- ===== src/PartTokens/Adding.antt =====
-- core/part_token.go: sums of token values, and what the three splits of `GetTokens` add.
use rubixgoplatform.Prelude.{
  ℕ, ◌+◌, ◌*◌, ◌-◌, ◌≤◌, ◌<◌, ◌≡◌, List, [], ◌∷◌, ◌++◌, some, none, Bool, true, false, ◌==◌, leb,
  refl, inl, inr, sym, ◌∙◌, ap, arith, All, map, length, Bool-cases, Option-cases, some_eq, ==_iff,
}
use rubixgoplatform.Storage.Rows.{Table}
use rubixgoplatform.Storage.Effects.{
  ok, err, Error, Exec, raise, ◌>>◌, rescue, quietly, split_error,
}
use rubixgoplatform.Wallet.Token.{Token, key, with_status, token_is_locked}
use rubixgoplatform.Wallet.Tokens.{get_closer_token}
use rubixgoplatform.Wallet.Release.{release_token, release_tokens}
use rubixgoplatform.Wallet.Locking.{ok_eq, err≢ok}
use rubixgoplatform.Wallet.LockLoop.{locked}
use rubixgoplatform.PartTokens.{
  ChainWork, find_exact, fit_loop, create_part_token, add_part, split_closer, split_part,
  split_last,
}
use rubixgoplatform.PartTokens.Split.{total, after-ok, handled-ok, create_part_token-Splits}

pub total-append : (ts us : List Token) → total (ts ++ us) ≡ total ts + total us
total-append [] us = omega arith
total-append (t ∷ ts) us = omega (arith, total-append ts us)

pub no_value : {A : Type 0} {z : A} → none ≡ some z → ⊥
no_value e = cc

pub find_exact-value :
    (rem : ℕ) (ts : List Token) {z : Token × List Token}
    → find_exact rem ts ≡ some z
    → z.0.token_value ≡ rem
unfolding find_exact
find_exact-value rem [] {z} h = absurd (no_value h)
find_exact-value rem (t ∷ ts) {z} h = elim (Bool-cases (t.token_value == rem)) [
  | inl e ↦ ap (λ z. z.0.token_value) (some_eq (sym (rw e at h))) ∙ (==_iff t.token_value rem).0 e
  | inr e ↦ elim (Option-cases (find_exact rem ts)) [
    | inl missing ↦ absurd (no_value (rw (e, missing, find_exact) at h))
    | inr (y, found) ↦
        ap (λ z. z.0.token_value) (some_eq (sym (rw (e, found, find_exact) at h)))
        ∙ find_exact-value rem ts found
  ]
]

leb-fits : (m n : ℕ) → leb m n ≡ true → m ≤ n
leb-fits m n h = ground arith

pub above : (n : ℕ) → (n == 0) ≡ false → 0 < n
above n h = ground arith

-- What was taken and what is still to find make up what was to find.
pub fit_loop-total :
    (rem : ℕ) (ts : List Token) → total (fit_loop rem ts).0 + (fit_loop rem ts).1 ≡ rem
unfolding fit_loop
fit_loop-total rem [] = omega arith
fit_loop-total rem (t ∷ ts) = elim (Bool-cases (leb t.token_value rem)) [
  | inl fits ↦
      rw (fits, fit_loop)
        (omega (arith, fit_loop-total (rem - t.token_value) ts, leb-fits t.token_value rem fits))
  | inr over ↦ rw (over, fit_loop) (fit_loop-total rem ts)
]

pub total-whole :
    (P : Token → Type 0) (ts : List Token)
    → All P ts
    → ((t : Token) → P t → t.token_value ≡ 1000)
    → total (map locked ts) ≡ 1000 * length ts
total-whole P [] h value = refl
total-whole P (t ∷ ts) (ht, h) value = omega (arith, value t ht, total-whole P ts h value)

module _ (g : Table Token key) where
  add_part-total :
      (wt npt : List Token) (rem : ℕ) (rest : List ℕ) (d d' : g.Db) {ts : List Token}
      → map (λ t. t.token_value) npt ≡ rem ∷ rest
      → add_part g wt npt d ≡ (ok ts, d')
      → total ts ≡ total wt + rem
  unfolding add_part
  add_part-total wt [] rem rest d d' values h = absurd (err≢ok (ap (λ z. z.0) h))
  add_part-total wt (n ∷ npt) rem rest d d' {ts} values h =
      let is_rem : n.token_value ≡ rem = cc in
      ap total (ok_eq (sym (ap (λ z. z.0) h)))
      ∙ total-append wt (with_status token_is_locked n ∷ [])
      ∙ omega (arith, is_rem)

  module _ (dc : Bool) (w : ChainWork) (did : ℕ) where
    -- The step that the three splits share.
    split-total :
        (wt : List Token) (rem other token : ℕ) (f : Error → Exec g.Db (List Token)) (d d' : g.Db)
        {npt : List Token}
        → ((e : Error) (s : g.Db) → (e' : Error) × ((f e s).0 ≡ err e'))
        → rescue (create_part_token g dc w did token (rem ∷ other ∷ [])) f d ≡ (ok npt, d')
        → map (λ t. t.token_value) npt ≡ rem ∷ other ∷ []
    split-total wt rem other token f d d' never h =
        (create_part_token-Splits g dc w did token (rem ∷ other ∷ []) d d'
          (handled-ok (create_part_token g dc w did token (rem ∷ other ∷ []) d) f never h)).5

    pub split_closer-total :
        (wt : List Token) (rem : ℕ) (d d' : g.Db) {ts : List Token}
        → split_closer g dc w did wt rem d ≡ (ok ts, d')
        → total ts ≡ total wt + rem
    unfolding split_closer
    split_closer-total wt rem d d' {ts} h = elim (Bool-cases (leb 1000 rem)) [
      | inl large ↦ absurd (err≢ok (ap (λ z. z.0) (rw (large, split_closer) at h)))
      | inr small ↦
          let (t, d1, _, h1) =
            after-ok
              (rescue (get_closer_token g did rem) (λ e. quietly (release_tokens g wt) >> raise e)
                d)
              _ (rw (small, split_closer) at h) in
          let d2 = (release_token g t.token_id d1).1 in
          let (npt, d3, made, h2) =
            after-ok
              (rescue (create_part_token g dc w did t.token_id (rem ∷ (t.token_value - rem) ∷ []))
                (λ e. quietly (release_tokens g wt) >> raise e) d2)
              _ h1 in
          add_part-total wt npt rem ((t.token_value - rem) ∷ []) d3 d'
            (split-total wt rem (t.token_value - rem) t.token_id
              (λ e. quietly (release_tokens g wt) >> raise e) d2 d3 (λ e s. (e, refl)) made)
            h2
    ]

    pub split_part-total :
        (wt : List Token) (rem : ℕ) (t : Token) (rpt : List Token) (d d' : g.Db) {ts : List Token}
        → split_part g dc w did wt rem t rpt d ≡ (ok ts, d')
        → total ts ≡ total wt + rem
    unfolding split_part
    split_part-total wt rem t rpt d d' {ts} h =
        let d2 = (release_token g t.token_id d).1 in
        let f = λ (e : Error).
          quietly (release_tokens g wt) >> quietly (release_tokens g (t ∷ rpt)) >> raise e in
        let (npt, d3, made, h2) =
          after-ok
            (rescue (create_part_token g dc w did t.token_id (rem ∷ (t.token_value - rem) ∷ [])) f
              d2)
            _ h in
        add_part-total wt npt rem ((t.token_value - rem) ∷ []) (release_tokens g (t ∷ rpt) d3).1 d'
          (split-total wt rem (t.token_value - rem) t.token_id f d2 d3 (λ e s. (e, refl)) made) h2

    pub split_last-total :
        (wt : List Token) (rem : ℕ) (t : Token) (d d' : g.Db) {ts : List Token}
        → split_last g dc w did wt rem t d ≡ (ok ts, d')
        → total ts ≡ total wt + rem
    unfolding split_last
    split_last-total wt rem t d d' {ts} h =
        let d2 = (release_token g t.token_id d).1 in
        let f = λ (e : Error).
          quietly (release_tokens g wt)
          >> quietly (release_token g t.token_id)
          >> raise split_error in
        let (npt, d3, made, h2) =
          after-ok
            (rescue (create_part_token g dc w did t.token_id (rem ∷ (t.token_value - rem) ∷ [])) f
              d2)
            _ h in
        add_part-total wt npt rem ((t.token_value - rem) ∷ []) d3 d'
          (split-total wt rem (t.token_value - rem) t.token_id f d2 d3 (λ e s. (split_error, refl))
            made)
          h2
