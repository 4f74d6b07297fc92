-- ===== src/PartTokens/Gather.antt =====
-- core/part_token.go: the tokens that `GetTokens` returns are worth what was asked for.
use rubixgoplatform.Prelude.{
  ℕ, ◌+◌, ◌*◌, ◌/◌, ◌%◌, ◌<◌, ◌≡◌, List, [], ◌∷◌, ◌++◌, some, none, Bool, true, false, ◌==◌, ltb,
  refl, if◌then◌else◌, ◌⊎◌, inl, inr, sym, ◌∙◌, ap, arith, Bool-cases, Option-cases, ==_iff, subst,
}
use rubixgoplatform.Storage.Rows.{Table}
use rubixgoplatform.Storage.Effects.{
  Result, ok, err, Exec, pure, split_error, no_records, db_error, not_locked, not_pledged,
  not_unpledged, insufficient, too_large, nil_pointer, no_token,
}
use rubixgoplatform.Wallet.Token.{Token, key}
use rubixgoplatform.Wallet.Tokens.{get_whole_tokens, get_tokens_by_limit, get_closer_token}
use rubixgoplatform.Wallet.Locking.{ok_eq, err≢ok}
use rubixgoplatform.Wallet.Closest.{get_closer_token-Picks, NoneCovers, get_closer_token-no_records}
use rubixgoplatform.Wallet.LockLoop.{Stands}
use rubixgoplatform.Wallet.WholeTokens.{IsOffered, get_whole_tokens-TakesWhole}
use rubixgoplatform.PartTokens.{
  ChainWork, find_exact, fit_loop, last_closer, fit_parts, take_parts, with_parts, core_get_tokens,
}
use rubixgoplatform.PartTokens.Split.{total, after-ok}
use rubixgoplatform.PartTokens.Adding.{
  no_value, total-append, find_exact-value, fit_loop-total, above, total-whole, split_closer-total,
  split_part-total, split_last-total,
}

module _ (g : Table Token key) (dc : Bool) (w : ChainWork) (did : ℕ) where
  -- The tokens are worth the value; or they are worth less, and no free token of the owner in the
  -- table covers what is missing, unless the query for parts fails on it.
  abbrev pub Gathers : ℕ → List Token → g.Db → Type 0
  Gathers value ts d =
      (total ts ≡ value)
      ⊎ ((missing : ℕ) × (0 < missing) × (total ts + missing ≡ value) × NoneCovers g did missing d)

  last_closer-Gathers :
      (wt : List Token) (rem : ℕ) (r : Result Token) (d d1 d' : g.Db) {ts : List Token}
      → 0 < rem
      → get_closer_token g did rem d ≡ (r, d1)
      → d1 ≡ d
      → last_closer g dc w did wt rem r d1 ≡ (ok ts, d')
      → Gathers (total wt + rem) ts d'
  unfolding last_closer
  last_closer-Gathers wt rem (ok t) d d1 d' pos at same h =
      inl (split_last-total g dc w did wt rem t d1 d' h)
  last_closer-Gathers wt rem (err no_records) d d1 d' {ts} pos at same h =
      let left : d1 ≡ d' = ap (λ z. z.1) h in
      inr (
        rem,
        pos,
        ap (λ ts. total ts + rem) (ok_eq (sym (ap (λ z. z.0) h))),
        get_closer_token-no_records g did rem d' (
            subst (λ z. get_closer_token g did rem z ≡ (err no_records, z)) (sym same ∙ left)
              (at ∙ ap (λ z. (err no_records, z)) same)),
      )
  last_closer-Gathers wt rem (err db_error) d d1 d' pos at same h =
      absurd (err≢ok (ap (λ z. z.0) h))
  last_closer-Gathers wt rem (err not_locked) d d1 d' pos at same h =
      absurd (err≢ok (ap (λ z. z.0) h))
  last_closer-Gathers wt rem (err not_pledged) d d1 d' pos at same h =
      absurd (err≢ok (ap (λ z. z.0) h))
  last_closer-Gathers wt rem (err not_unpledged) d d1 d' pos at same h =
      absurd (err≢ok (ap (λ z. z.0) h))
  last_closer-Gathers wt rem (err insufficient) d d1 d' pos at same h =
      absurd (err≢ok (ap (λ z. z.0) h))
  last_closer-Gathers wt rem (err too_large) d d1 d' pos at same h =
      absurd (err≢ok (ap (λ z. z.0) h))
  last_closer-Gathers wt rem (err nil_pointer) d d1 d' pos at same h =
      absurd (err≢ok (ap (λ z. z.0) h))
  last_closer-Gathers wt rem (err no_token) d d1 d' pos at same h =
      absurd (err≢ok (ap (λ z. z.0) h))
  last_closer-Gathers wt rem (err split_error) d d1 d' pos at same h =
      absurd (err≢ok (ap (λ z. z.0) h))

  closer_same : (rem : ℕ) (d : g.Db) → (get_closer_token g did rem d).1 ≡ d
  closer_same rem d = elim (get_closer_token-Picks g did rem d) [
    | inl (e, failed) ↦ ap (λ z. z.1) failed
    | inr (t, found, _, _) ↦ ap (λ z. z.1) found
  ]

  some_left :
      (wt taken : List Token) (rem : ℕ) (rpt : List Token) (d d' : g.Db) {ts : List Token}
      → (rem == 0) ≡ false
      → fit_parts g dc w did wt (taken, rem, rpt) d ≡ (ok ts, d')
      → Gathers (total (wt ++ taken) + rem) ts d'
  unfolding fit_parts
  some_left wt taken rem [] d d' more h =
      let (r, d1) = get_closer_token g did rem d in
      last_closer-Gathers (wt ++ taken) rem r d d1 d' (above rem more) refl (closer_same rem d)
        (rw (more, fit_parts) at h)
  some_left wt taken rem (t ∷ rpt) d d' more h =
      inl (split_part-total g dc w did (wt ++ taken) rem t rpt d d' (rw (more, fit_parts) at h))

  fit_parts-Gathers :
      (wt taken : List Token) (rem : ℕ) (rpt : List Token) (d d' : g.Db) {ts : List Token}
      → fit_parts g dc w did wt (taken, rem, rpt) d ≡ (ok ts, d')
      → Gathers (total (wt ++ taken) + rem) ts d'
  unfolding fit_parts
  fit_parts-Gathers wt taken rem rpt d d' {ts} h = elim (Bool-cases (rem == 0)) [
    | inl whole ↦
        let now = ap (λ z. z.0) (rw (whole, fit_parts) at h) in
        inl (ap total (ok_eq (sym now)) ∙ omega (arith, (==_iff rem 0).0 whole))
    | inr more ↦ some_left wt taken rem rpt d d' more h
  ]

  chosen-value :
      (b : Bool) (rem : ℕ) (pt : List Token) {z : Token × List Token}
      → (if b then find_exact rem pt else none) ≡ some z
      → z.0.token_value ≡ rem
  chosen-value true rem pt h = find_exact-value rem pt h
  chosen-value false rem pt h = absurd (no_value h)

  Gathers-eq : {m n : ℕ} (ts : List Token) (d : g.Db) → m ≡ n → Gathers m ts d → Gathers n ts d
  Gathers-eq ts d e h = subst (λ n. Gathers n ts d) e h

  take_parts-Gathers :
      (wt : List Token) (rem : ℕ) (pt : List Token) (d d' : g.Db) {ts : List Token}
      → take_parts g dc w did wt rem pt d ≡ (ok ts, d')
      → Gathers (total wt + rem) ts d'
  unfolding take_parts
  take_parts-Gathers wt rem pt d d' {ts} h =
      elim (Option-cases (if ltb rem 1000 then find_exact rem pt else none)) [
        | inl missing ↦
            let (taken, left, rpt) = fit_loop rem pt in
            let now : fit_parts g dc w did wt (fit_loop rem pt) d ≡ (ok ts, d') =
              rw (missing, take_parts) at h in
            Gathers-eq ts d' (omega (arith, total-append wt taken, fit_loop-total rem pt))
              (fit_parts-Gathers wt taken left rpt d d' now)
        | inr (z, found) ↦
            let now = ap (λ z. z.0) (rw (found, take_parts) at h) in
            inl (
              ap total (ok_eq (sym now))
              ∙ total-append wt (z.0 ∷ [])
              ∙ omega (arith, chosen-value (ltb rem 1000) rem pt found))
      ]

  with_parts-Gathers :
      (wt : List Token) (rem : ℕ) (r : Result (List Token)) (d d' : g.Db) {ts : List Token}
      → with_parts g dc w did wt rem r d ≡ (ok ts, d')
      → Gathers (total wt + rem) ts d'
  unfolding with_parts
  with_parts-Gathers wt rem (err e) d d' h = inl (split_closer-total g dc w did wt rem d d' h)
  with_parts-Gathers wt rem (ok []) d d' h = inl (split_closer-total g dc w did wt rem d d' h)
  with_parts-Gathers wt rem (ok (t ∷ pt)) d d' h = take_parts-Gathers wt rem (t ∷ pt) d d' h

  -- The whole tokens, and how many are missing.
  whole-total :
      (num mode : ℕ) (d d1 : g.Db) {wt : List Token} {left : ℕ}
      → get_whole_tokens g did num mode d ≡ (ok (wt, left), d1)
      → total wt + 1000 * left ≡ 1000 * num
  whole-total num mode d d1 {wt} {left} h = elim (get_whole_tokens-TakesWhole g did num mode d) [
    | inl (e, d2, failed, _) ↦ absurd (err≢ok (ap (λ z. z.0) (sym failed ∙ h)))
    | inr (t, d2, found, taken, _, _) ↦
        let same = ok_eq (ap (λ z. z.0) (sym found ∙ h)) in
        let few = taken.2 in
        ap (λ (z : List Token × ℕ). total z.0 + 1000 * z.1) (sym same)
        ∙ omega (arith, few, total-whole (Stands g (IsOffered mode) did d) t taken.0 (λ t s. s.2.0))
  ]

  first-total :
      (value mode : ℕ) (d d1 : g.Db) {wt : List Token} {left : ℕ}
      → (if value / 1000 == 0 then pure ([], 0) else get_whole_tokens g did (value / 1000) mode) d
        ≡ (ok (wt, left), d1)
      → total wt + 1000 * left ≡ 1000 * (value / 1000)
  first-total value mode d d1 {wt} {left} h = elim (Bool-cases (value / 1000 == 0)) [
    | inl small ↦
        let same = ok_eq (ap (λ z. z.0) (rw small at h)) in
        ap (λ (z : List Token × ℕ). total z.0 + 1000 * z.1) (sym same)
        ∙ omega (arith, (==_iff (value / 1000) 0).0 small)
    | inr large ↦ whole-total (value / 1000) mode d d1 {wt = wt} {left = left} (rw large at h)
  ]

  -- What `GetTokens` returns is worth the value that was asked for; or it is worth less, and the
  -- table that is left has no free whole token of the owner, and no free part of theirs that covers
  -- what is missing, or fails to answer the query for such parts.
  pub core_get_tokens-Gathers :
      (value mode : ℕ) (d d' : g.Db) (ts : List Token)
      → core_get_tokens g dc w did value mode d ≡ (ok ts, d')
      → Gathers value ts d'
  unfolding core_get_tokens
  core_get_tokens-Gathers value mode d d' ts h =
      let first : Exec g.Db (List Token × ℕ) =
        (if value / 1000 == 0 then pure ([], 0) else get_whole_tokens g did (value / 1000) mode) in
      let ((wt, left), d1, found, h1) = after-ok (first d) _ h in
      let rem = value % 1000 + 1000 * left in
      let whole = first-total value mode d d1 {wt = wt} {left = left} found in
      elim (Bool-cases (rem == 0)) [
        | inl none_left ↦ inl (
            ap total (ok_eq (sym (ap (λ z. z.0) (rw none_left at h1))))
            ∙ omega (arith, whole, (==_iff rem 0).0 none_left))
        | inr more ↦
            let (r, d2) = get_tokens_by_limit g did rem d1 in
            Gathers-eq ts d' (omega (arith, whole))
              (with_parts-Gathers wt rem r d2 d' (rw more at h1))
      ]
