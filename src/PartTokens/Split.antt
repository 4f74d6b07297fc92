-- ===== src/PartTokens/Split.antt =====
-- core/part_token.go: what `createPartToken` leaves when it returns.
use rubixgoplatform.Prelude.{
  ℕ, suc, ◌+◌, ◌≡◌, ◌≢◌, List, [], ◌∷◌, some, none, Bool, true, false, ◌==◌, ltb, refl,
  if◌then◌else◌, not, ◌&&◌, inl, inr, sym, ◌∙◌, ap, arith, All, All-map, map, Bool-cases,
  Option-cases, some_eq, ==_iff, ==_refl, ne→==_false, subst,
}
use rubixgoplatform.Storage.Rows.{Table}
use rubixgoplatform.Storage.Effects.{
  Result, ok, err, Error, Exec, raise, ◌>>◌, after, handled, rescue, quietly, split_error,
}
use rubixgoplatform.Storage.Laws.{Writes, write-cases, update-cases}
use rubixgoplatform.Wallet.Token.{
  Token, key, with_status, token_is_free, token_is_locked, token_is_burnt,
}
use rubixgoplatform.Wallet.Tokens.{create_token, get_token, has_id}
use rubixgoplatform.Wallet.Release.{update_token, release_token}
use rubixgoplatform.Wallet.Locking.{get_token-cases, ok_eq, err≢ok}
use rubixgoplatform.PartTokens.{
  ChainWork, split_sum, make_children, part_row, create_parts, split_token, create_part_token,
}

abbrev pub total : List Token → ℕ
total [] = 0
total (t ∷ ts) = t.token_value + total ts

abbrev pub sum : List ℕ → ℕ
sum [] = 0
sum (n ∷ ns) = n + sum ns

split_sum-sum :
    (value amount : ℕ) (parts : List ℕ) {a : ℕ}
    → split_sum value amount parts ≡ some a
    → a ≡ amount + sum parts
unfolding split_sum
split_sum-sum value amount [] {a} h = sym (some_eq h) ∙ omega arith
split_sum-sum value amount (p ∷ parts) {a} h = elim (Bool-cases (ltb value (amount + p))) [
  | inl over ↦ absurd (no_value (rw over at h))
  | inr under ↦ split_sum-sum value (amount + p) parts (rw under at h) ∙ omega arith
]
  where
    no_value : none ≡ some a → ⊥
    no_value e = cc

-- A chain that ends in a value has a value at its first step.
pub after-ok :
    {S A B : Type 0} (z : Result A × S) (f : A → Exec S B) {b : B} {s : S}
    → after z f ≡ (ok b, s)
    → (a : A) × (s' : S) × (z ≡ (ok a, s')) × (f a s' ≡ (ok b, s))
after-ok (ok a, s') f h = (a, s', refl, h)
after-ok (err e, s') f h = absurd (err≢ok (ap (λ z. z.0) h))

-- A value is none of the handler's, where the handler raises errors only.
pub handled-ok :
    {S A : Type 0} (z : Result A × S) (f : Error → Exec S A) {a : A} {s : S}
    → ((e : Error) (s' : S) → (e' : Error) × ((f e s').0 ≡ err e'))
    → handled z f ≡ (ok a, s)
    → z ≡ (ok a, s)
handled-ok (ok a, s') f never h = h
handled-ok (err e, s') f never h =
    let (e', fails) = never e s' in absurd (err≢ok (sym fails ∙ ap (λ z. z.0) h))

lift-ok :
    {S A B : Type 0} (r : Result A) (s : S) (f : A → Exec S B) {b : B} {s' : S}
    → after (r, s) f ≡ (ok b, s')
    → (a : A) × (f a s ≡ (ok b, s'))
lift-ok (ok a) s f h = (a, h)
lift-ok (err e) s f h = absurd (err≢ok (ap (λ z. z.0) h))

make_children-same :
    {S : Type 0} (w : ChainWork) (i : ℕ) (parts : List ℕ) (s s' : S) {ids : List ℕ}
    → make_children w i parts s ≡ (ok ids, s')
    → s' ≡ s
unfolding make_children
make_children-same w i [] s s' h = ap (λ z. z.1) (sym h)
make_children-same w i (p ∷ parts) s s' h =
    let (id, h1) = lift-ok (w.child i p) s _ h in
    let (ids, s1, made, h2) = after-ok (make_children w (suc i) parts s) _ h1 in
    ap (λ z. z.1) (sym h2) ∙ make_children-same w (suc i) parts s s1 made

-- The rows of the parts stand in the table, and nothing else has changed.
module _ (g : Table Token key) where
  abbrev pub Fresh : g.Db → g.Db → Token → Type 0
  Fresh d d' t = (g.row d (key t) ≡ none) × (g.row d' (key t) ≡ some t)

  abbrev pub Others : g.Db → g.Db → List Token → Type 0
  Others d d' ts = (k : ℕ) → All (λ t. k ≢ key t) ts → g.row d' k ≡ g.row d k

  abbrev Created : g.Db → g.Db → List Token → Type 0
  Created d d' ts = All (Fresh d d') ts × Others d d' ts

  missed : (k : ℕ) (t : Token) (d d' : g.Db) → Writes g d d' t → k ≢ key t → g.row d' k ≡ g.row d k
  missed k t d d' w ne = w k ∙ ap (λ b. if b then some t else g.row d k) (ne→==_false k (key t) ne)

  hit : (t : Token) (d d' : g.Db) → Writes g d d' t → g.row d' (key t) ≡ some t
  hit t d d' w = w (key t) ∙ ap (λ b. if b then some t else g.row d (key t)) (==_refl (key t))

  Fresh-ne :
      (r : Token) (d1 d2 : g.Db) (ts : List Token)
      → g.row d1 (key r) ≡ some r
      → All (Fresh d1 d2) ts
      → All (λ t. key r ≢ key t) ts
  Fresh-ne r d1 d2 ts at h =
      All-map (Fresh d1 d2) (λ t. key r ≢ key t) ts
        (λ t f e. no_row (sym f.0 ∙ ap (g.row d1) (sym e) ∙ at)) h
    where
      no_row : none ≡ some r → ⊥
      no_row e = cc

  Fresh-before :
      (r : Token) (d d1 d2 : g.Db) (ts : List Token)
      → Writes g d d1 r
      → All (λ t. key r ≢ key t) ts
      → All (Fresh d1 d2) ts
      → All (Fresh d d2) ts
  Fresh-before r d d1 d2 [] w ne h = tt
  Fresh-before r d d1 d2 (t ∷ ts) w (n, ne) (f, h) = (
    (sym (missed (key t) r d d1 w (λ e. n (sym e))) ∙ f.0, f.1),
    Fresh-before r d d1 d2 ts w ne h,
  )

  Created-add :
      (r : Token) (d d1 d2 : g.Db) (ts : List Token)
      → g.row d (key r) ≡ none
      → Writes g d d1 r
      → Created d1 d2 ts
      → Created d d2 (r ∷ ts)
  Created-add r d d1 d2 ts absent w (fresh, others) =
      let ne = Fresh-ne r d1 d2 ts (hit r d d1 w) fresh in
      (
        ((absent, others (key r) ne ∙ hit r d d1 w), Fresh-before r d d1 d2 ts w ne fresh),
        λ k (n, ns). others k ns ∙ missed k r d d1 w n,
      )

  create_parts-Created :
      (did parent : ℕ) (ids parts : List ℕ) (d d' : g.Db) {ts : List Token}
      → create_parts g did parent ids parts d ≡ (ok ts, d')
      → Created d d' ts × (map (λ t. t.token_value) ts ≡ parts)
  unfolding create_parts create_token
  create_parts-Created did parent ids [] d d' {ts} h =
      subst (λ (z : List Token × g.Db). Created d z.1 z.0 × (map (λ t. t.token_value) z.0 ≡ []))
        (λ i. (ok_eq (ap (λ z. z.0) h) i, (h i).1)) ((tt, λ k _. refl), refl)
  create_parts-Created did parent [] (p ∷ parts) d d' {ts} h = absurd (err≢ok (ap (λ z. z.0) h))
  create_parts-Created did parent (id ∷ ids) (p ∷ parts) d d' {ts} h =
      let r = part_row did parent id p in
      elim (write-cases g r d) [
        | inl failed ↦ absurd (err≢ok (ap (λ z. z.0) (rw failed at h)))
        | inr (d1, done, absent, w) ↦
            let (npt, d2, made, h2) =
              after-ok (create_parts g did parent ids parts d1) _ (rw done at h) in
            let (c, values) = create_parts-Created did parent ids parts d1 d2 {ts = npt} made in
            subst
              (λ (z : List Token × g.Db).
                Created d z.1 z.0 × (map (λ t. t.token_value) z.0 ≡ p ∷ parts))
              (λ i. (ok_eq (ap (λ z. z.0) h2) i, (h2 i).1))
              (Created-add r d d1 d2 npt absent w c, ap (λ ps. p ∷ ps) values)
      ]

  -- A split of the free token `tkn`: the rows of its parts are new, the parts have the values asked
  -- for, which are together its value, it is burnt, and no other row has changed.
  abbrev pub Splits : ℕ → List ℕ → g.Db → g.Db → List Token → Type 0
  Splits tkn parts d d' ts =
      (t : Token) × (g.row d tkn ≡ some t)
      × (t.token_status ≡ token_is_free)
      × (g.row d' tkn ≡ some (with_status token_is_burnt t))
      × (total ts ≡ t.token_value)
      × (map (λ t. t.token_value) ts ≡ parts)
      × All (Fresh d d') ts
      × ((k : ℕ) → k ≢ tkn → All (λ t. k ≢ key t) ts → g.row d' k ≡ g.row d k)

  -- What `createPartToken` has done before it returns: the parts are created, and the row is burnt.
  abbrev SplitRun : Token → List ℕ → g.Db → g.Db → List Token → Type 0
  SplitRun t parts d d' ts =
      (d1 : g.Db) × (sum parts ≡ t.token_value)
      × Created d d1 ts
      × (map (λ t. t.token_value) ts ≡ parts)
      × (update_token g (with_status token_is_burnt t) d1 ≡ (ok tt, d'))

  split_token-SplitRun :
      (w : ChainWork) (did : ℕ) (t : Token) (tkn : ℕ) (parts : List ℕ) (d d' : g.Db)
      {ts : List Token}
      → split_token g w did t tkn parts d ≡ (ok ts, d')
      → SplitRun t parts d d' ts
  unfolding split_token
  split_token-SplitRun w did t tkn parts d d' {ts} h =
      elim (Option-cases (split_sum t.token_value 0 parts)) [
        | inl over ↦ absurd (err≢ok (ap (λ z. z.0) (rw (over, split_token) at h)))
        | inr (amount, within) ↦ elim (Bool-cases (amount == t.token_value)) [
          | inr other ↦ absurd (err≢ok (ap (λ z. z.0) (rw (within, other, split_token) at h)))
          | inl whole ↦
              let is_part = not (t.parent_token_id == 0) && ltb t.token_value 1000 in
              let (_, h1) = lift-ok (w.parent is_part) d _ (rw (within, whole, split_token) at h) in
              let (ids, d1, made, h2) = after-ok (make_children w 0 parts d) _ h1 in
              let (_, h3) = lift-ok (w.burn is_part ids) d1 _ h2 in
              let (npt, d2, created, h4) = after-ok (create_parts g did tkn ids parts d1) _ h3 in
              let (_, d3, updated, h5) =
                after-ok (update_token g (with_status token_is_burnt t) d2) _ h4 in
              let (c, values) = create_parts-Created did tkn ids parts d1 d2 {ts = npt} created in
              let same = make_children-same w 0 parts d d1 made in
              let is_sum : sum parts ≡ t.token_value = omega (
                arith,
                split_sum-sum t.token_value 0 parts within,
                (==_iff amount t.token_value).0 whole,
              ) in
              subst (λ (z : List Token × g.Db). SplitRun t parts d z.1 z.0)
                (λ i. (ok_eq (ap (λ z. z.0) h5) i, (h5 i).1))
                (d2, is_sum, subst (λ z. Created z d2 npt) same c, values, updated)
        ]
      ]

  total-sum : (ts : List Token) → total ts ≡ sum (map (λ t. t.token_value) ts)
  total-sum [] = refl
  total-sum (t ∷ ts) = ap (λ n. t.token_value + n) (total-sum ts)

  -- New rows stay new when a row that is none of them is written before and after.
  Fresh-through :
      (r : Token) (d d1 d2 d3 : g.Db) (ts : List Token)
      → Writes g d d1 r
      → Writes g d2 d3 (with_status token_is_burnt r)
      → All (λ t. key r ≢ key t) ts
      → All (Fresh d1 d2) ts
      → All (Fresh d d3) ts
  Fresh-through r d d1 d2 d3 [] w w' ne h = tt
  Fresh-through r d d1 d2 d3 (t ∷ ts) w w' (n, ne) (f, h) = (
    (
      sym (missed (key t) r d d1 w (λ e. n (sym e))) ∙ f.0,
      missed (key t) (with_status token_is_burnt r) d2 d3 w' (λ e. n (sym e)) ∙ f.1,
    ),
    Fresh-through r d d1 d2 d3 ts w w' ne h,
  )

  Splits-row :
      (tkn : ℕ) (parts : List ℕ) (d d1 d' : g.Db) (old : Token) (ts : List Token)
      → g.row d tkn ≡ some old
      → old.token_status ≡ token_is_free
      → Writes g d d1 (with_status token_is_locked old)
      → SplitRun (with_status token_is_locked old) parts d1 d' ts
      → Splits tkn parts d d' ts
  unfolding update_token
  Splits-row tkn parts d d1 d' old ts at free w (d2, whole, (fresh, others), values, updated) =
      let t = with_status token_is_locked old in
      let id = g.row_key d tkn old at in
      let ne = Fresh-ne t d1 d2 ts (hit t d d1 w) fresh in
      elim (update-cases g (has_id old.token_id) (with_status token_is_burnt old) t d2
        (others (key t) ne ∙ hit t d d1 w) (==_refl old.token_id)) [
          | inl failed ↦ absurd (err≢ok (ap (λ z. z.0) (sym failed ∙ updated)))
          | inr (d3, burnt, w3) ↦
              let w' =
                subst (λ z. Writes g d2 z (with_status token_is_burnt old))
                  (ap (λ z. z.1) (sym burnt ∙ updated)) w3 in
              (
                old,
                at,
                free,
                ap (g.row d') (sym id) ∙ hit (with_status token_is_burnt old) d2 d' w',
                total-sum ts ∙ ap sum values ∙ whole,
                values,
                Fresh-through t d d1 d2 d' ts w w' ne fresh,
                λ k n ns.
                    missed k (with_status token_is_burnt old) d2 d' w' (λ e. n (e ∙ id))
                    ∙ others k ns
                    ∙ missed k t d d1 w (λ e. n (e ∙ id)),
              )
        ]

  Splits-get_token :
      (tkn : ℕ) (parts : List ℕ) (d d1 d' : g.Db) (t : Token) (ts : List Token)
      → get_token g tkn token_is_free d ≡ (ok t, d1)
      → SplitRun t parts d1 d' ts
      → Splits tkn parts d d' ts
  Splits-get_token tkn parts d d1 d' t ts taken run = elim (get_token-cases g tkn token_is_free d) [
    | inl (e, failed) ↦ absurd (err≢ok (ap (λ z. z.0) (sym failed ∙ taken)))
    | inr (old, d1', done, at, free, w) ↦
        let same = sym done ∙ taken in
        Splits-row tkn parts d d1 d' old ts at free
          (subst (λ z. Writes g d z (with_status token_is_locked old)) (ap (λ z. z.1) same) w)
          (subst (λ u. SplitRun u parts d1 d' ts) (sym (ok_eq (ap (λ z. z.0) same))) run)
  ]

  pub create_part_token-Splits :
      (dc : Bool) (w : ChainWork) (did tkn : ℕ) (parts : List ℕ) (d d' : g.Db) {ts : List Token}
      → create_part_token g dc w did tkn parts d ≡ (ok ts, d')
      → Splits tkn parts d d' ts
  unfolding create_part_token
  create_part_token-Splits false w did tkn parts d d' {ts} h = absurd (err≢ok (ap (λ z. z.0) h))
  create_part_token-Splits true w did tkn parts d d' {ts} h =
      let (t, d1, got, h1) =
        after-ok (rescue (get_token g tkn token_is_free) (λ e. raise split_error) d) _ h in
      let taken =
        handled-ok (get_token g tkn token_is_free d) (λ e. raise split_error)
          (λ e s'. (split_error, refl)) got in
      let split =
        handled-ok (split_token g w did t tkn parts d1)
          (λ e. quietly (release_token g tkn) >> raise e) (λ e s'. (e, refl)) h1 in
      Splits-get_token tkn parts d d1 d' t ts taken
        (split_token-SplitRun w did t tkn parts d1 d' split)
