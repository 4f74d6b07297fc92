-- ===== src/Storage/Memory.antt =====
-- A table held in memory, with eight keys: it meets the laws of `Table`, which so can be met.
use rubixgoplatform.Prelude.{
  ℕ, zero, suc, ◌≡◌, ◌≢◌, ◌<◌, refl, Option, some, none, ◌==◌, if◌then◌else◌, arith, inl, inr, true,
  sym, ◌∙◌, ap, ==_iff, ==_refl, List, [], ◌∷◌, Bool, subst, Bool-cases, Option-cases, if-inv,
  if_same, some_eq, ltb, lt→ltb, ltb→lt, All, All-map,
}
use rubixgoplatform.Storage.Rows.{Table, Member, Distinct}

module _ {A : Type 0} (key : A → ℕ) where
  abbrev pub Cells : Type 0
  Cells = ℕ → Option A

  -- A cell counts as a row if it has its key.
  unfoldable pub keyed : ℕ → Option A → Option A
  keyed k none = none
  keyed k (some r) = if key r == k then some r else none

  unfoldable pub row_at : Cells → ℕ → Option A
  unfolding keyed
  row_at d k = if ltb k 8 then keyed k (d k) else none

  unfoldable pub keep : (A → Bool) → Option A → List A → List A
  keep q none rest = rest
  keep q (some r) rest = if q r then r ∷ rest else rest

  unfoldable pub collect : ℕ → Cells → (A → Bool) → List A
  unfolding keep row_at
  collect zero d q = []
  collect (suc n) d q = keep q (row_at d n) (collect n d q)

  unfoldable pub put : Cells → A → Cells
  put d r k = if k == key r then some r else d k

  unfoldable pub save_cell : Cells → (A → Bool) → A → Option Cells
  unfolding put row_at
  save_cell d q r = elim (row_at d (key r)) [
    | none ↦ some d
    | some old ↦ if q old then some (put d r) else some d
  ]

  unfoldable pub create_cell : Cells → A → Option Cells
  unfolding put row_at
  create_cell d r = elim (row_at d (key r)) [
    | none ↦ if ltb (key r) 8 then some (put d r) else none
    | some old ↦ none
  ]

  unfoldable pub keep_unless : (A → Bool) → Option A → Option A
  keep_unless q none = none
  keep_unless q (some r) = if q r then none else some r

  unfoldable pub delete_cells : Cells → (A → Bool) → Option Cells
  unfolding keep_unless row_at
  delete_cells d q = some (λ k. keep_unless q (row_at d k))

  keyed_inv : (k : ℕ) (o : Option A) (r : A) → keyed k o ≡ some r → (key r ≡ k) × (o ≡ some r)
  unfolding keyed
  keyed_inv k none r h = cc
  keyed_inv k (some x) r h = elim (if-inv (key x == k) h) [
    | inl (hit, e) ↦ (ap key (sym (some_eq e)) ∙ (==_iff (key x) k).0 hit, e)
    | inr (miss, e) ↦ cc
  ]

  pub row_at-key : (d : Cells) (k : ℕ) (r : A) → row_at d k ≡ some r → (key r ≡ k) × (k < 8)
  unfolding row_at
  row_at-key d k r h = elim (if-inv (ltb k 8) h) [
    | inl (small, e) ↦ ((keyed_inv k (d k) r e).0, ltb→lt k 8 small)
    | inr (big, e) ↦ cc
  ]

  keep-All :
      (P : A → Type 0) (q : A → Bool) (o : Option A) (rest : List A)
      → ((r : A) → o ≡ some r → q r ≡ true → P r)
      → All P rest
      → All P (keep q o rest)
  unfolding keep
  keep-All P q none rest f h = h
  keep-All P q (some r) rest f h = elim (Bool-cases (q r)) [
    | inl e ↦ rw e (f r refl e, h)
    | inr e ↦ rw e h
  ]

  keep-Distinct :
      (q : A → Bool) (o : Option A) (rest : List A)
      → ((r : A) → o ≡ some r → All (λ y. key y ≢ key r) rest)
      → Distinct key rest
      → Distinct key (keep q o rest)
  unfolding keep
  keep-Distinct q none rest f h = h
  keep-Distinct q (some r) rest f h = elim (Bool-cases (q r)) [
    | inl e ↦ rw e (f r refl, h)
    | inr e ↦ rw e h
  ]

  keep-Member :
      (q : A → Bool) (o : Option A) (rest : List A) (r : A)
      → Member r rest
      → Member r (keep q o rest)
  unfolding keep
  keep-Member q none rest r m = m
  keep-Member q (some x) rest r m = elim (Bool-cases (q x)) [
    | inl e ↦ rw e (inr m)
    | inr e ↦ rw e m
  ]

  keep-head :
      (q : A → Bool) (o : Option A) (rest : List A) (r : A)
      → o ≡ some r
      → q r ≡ true
      → Member r (keep q o rest)
  unfolding keep
  keep-head q none rest r h p = cc
  keep-head q (some x) rest r h p = let same = some_eq h in rw (ap q same ∙ p) (inl (sym same))

  abbrev Collected : ℕ → Cells → (A → Bool) → A → Type 0
  Collected n d q r = (row_at d (key r) ≡ some r) × (q r ≡ true) × (key r < n)

  pub collect_sound : (n : ℕ) (d : Cells) (q : A → Bool) → All (Collected n d q) (collect n d q)
  unfolding collect
  collect_sound zero d q = tt
  collect_sound (suc n) d q =
      keep-All (Collected (suc n) d q) q (row_at d n) (collect n d q)
        (λ r e p. let k = (row_at-key d n r e).0 in (ap (row_at d) k ∙ e, p, omega (arith, k)))
        (All-map (Collected n d q) (Collected (suc n) d q) (collect n d q)
          (λ r (at, p, lt). (at, p, omega arith)) (collect_sound n d q))

  pub collect-Distinct : (n : ℕ) (d : Cells) (q : A → Bool) → Distinct key (collect n d q)
  unfolding collect
  collect-Distinct zero d q = tt
  collect-Distinct (suc n) d q =
      keep-Distinct q (row_at d n) (collect n d q)
        (λ r e.
          let k = (row_at-key d n r e).0 in
          All-map (Collected n d q) (λ y. key y ≢ key r) (collect n d q)
            (λ y (at, p, lt). omega (arith, k)) (collect_sound n d q))
        (collect-Distinct n d q)

  pub collect_complete :
      (n : ℕ) (d : Cells) (q : A → Bool) (k : ℕ) (r : A)
      → k < n
      → row_at d k ≡ some r
      → q r ≡ true
      → Member r (collect n d q)
  unfolding collect
  collect_complete zero d q k r lt h p = absurd (omega arith)
  collect_complete (suc n) d q k r lt h p = elim (Bool-cases (k == n)) [
    | inl e ↦
        keep-head q (row_at d n) (collect n d q) r (ap (row_at d) (sym ((==_iff k n).0 e)) ∙ h) p
    | inr e ↦
        keep-Member q (row_at d n) (collect n d q) r (collect_complete n d q k r (ground arith) h p)
  ]

  put_row :
      (d : Cells) (r : A) (k : ℕ)
      → key r < 8
      → row_at (put d r) k ≡ (if k == key r then some r else row_at d k)
  unfolding row_at put keyed
  put_row d r k h = elim (Bool-cases (k == key r)) [
    | inl e ↦ rw (e, (==_iff k (key r)).0 e, lt→ltb (key r) 8 h) (rw (==_refl (key r)) refl)
    | inr e ↦ rw e refl
  ]

  pub save_put :
      (d d' : Cells) (q : A → Bool) (r old : A) (k : ℕ)
      → save_cell d q r ≡ some d'
      → row_at d (key r) ≡ some old
      → q old ≡ true
      → row_at d' k ≡ (if k == key r then some r else row_at d k)
  unfolding save_cell
  save_put d d' q r old k h at passes =
      let stored : save_cell d q r ≡ some (put d r) = rw (at, save_cell) (rw passes refl) in
      ap (λ z. row_at z k) (sym (some_eq (sym stored ∙ h)))
      ∙ put_row d r k (row_at-key d (key r) old at).1

  pub create_put :
      (d d' : Cells) (r : A) (k : ℕ)
      → create_cell d r ≡ some d'
      → (row_at d (key r) ≡ none) × (row_at d' k ≡ (if k == key r then some r else row_at d k))
  unfolding create_cell
  create_put d d' r k h = elim (Option-cases (row_at d (key r))) [
    | inr (old, e) ↦ let refused : create_cell d r ≡ none = rw (e, create_cell) refl in cc
    | inl e ↦
        let stored : create_cell d r ≡ (if ltb (key r) 8 then some (put d r) else none) =
          rw (e, create_cell) refl in
        elim (if-inv (ltb (key r) 8) (sym stored ∙ h)) [
          | inl (small, e') ↦
              (e, ap (λ z. row_at z k) (sym (some_eq e')) ∙ put_row d r k (ltb→lt (key r) 8 small))
          | inr (big, e') ↦ cc
        ]
  ]

  row_in : (d : Cells) (k : ℕ) → row_at d k ≡ (if ltb k 8 then keyed k (d k) else none)
  unfolding row_at
  row_in d k = refl

  keyed-none : (k : ℕ) → (if ltb k 8 then keyed k none else none) ≡ none
  unfolding keyed
  keyed-none k = if_same (ltb k 8) none

  keyed_again :
      (q : A → Bool) (r : A) (k : ℕ)
      → key r ≡ k
      → keyed k (keep_unless q (some r)) ≡ keep_unless q (some r)
  unfolding keyed keep_unless
  keyed_again q r k h = elim (Bool-cases (q r)) [
    | inl e ↦ rw e refl
    | inr e ↦ rw e (rw ((==_iff (key r) k).1 h) refl)
  ]

  keep_by_cases :
      (q : A → Bool) (o : Option A)
      → keep_unless q o ≡ elim o [ none ↦ none | some r ↦ if q r then none else some r ]
  unfolding keep_unless
  keep_by_cases q none = refl
  keep_by_cases q (some r) = refl

  keyed_keep :
      (q : A → Bool) (d : Cells) (k : ℕ) (o : Option A)
      → row_at d k ≡ o
      → row_at (λ n. keep_unless q (row_at d n)) k ≡ keep_unless q o
  keyed_keep q d k none h =
      row_in (λ n. keep_unless q (row_at d n)) k
      ∙ ap (λ z. if ltb k 8 then keyed k (keep_unless q z) else none) h
      ∙ ap (λ z. if ltb k 8 then keyed k z else none) (keep_by_cases q none)
      ∙ keyed-none k
      ∙ sym (keep_by_cases q none)
  keyed_keep q d k (some r) h =
      row_in (λ n. keep_unless q (row_at d n)) k
      ∙ ap (λ z. if ltb k 8 then keyed k (keep_unless q z) else none) h
      ∙ ap (λ b. if b then keyed k (keep_unless q (some r)) else none)
          (lt→ltb k 8 (row_at-key d k r h).1)
      ∙ keyed_again q r k (row_at-key d k r h).0

  pub delete_rest :
      (d d' : Cells) (q : A → Bool) (k : ℕ)
      → delete_cells d q ≡ some d'
      → row_at d' k ≡ elim (row_at d k) [ none ↦ none | some r ↦ if q r then none else some r ]
  unfolding delete_cells
  delete_rest d d' q k h =
      ap (λ z. row_at z k) (sym (some_eq h))
      ∙ keyed_keep q d k (row_at d k) refl
      ∙ keep_by_cases q (row_at d k)

  -- The table with keys below 8: no call fails but an insertion under a key that is taken or too
  -- large.
  abbrev pub memory : Table A key
  memory = record {
    Db = Cells;
    row = row_at;
    find = λ d q. some (collect 8 d q);
    save = save_cell;
    create = create_cell;
    delete_where = delete_cells;
    row_key = λ d k r at. (row_at-key d k r at).0;
    find_sound = λ d q l h.
        subst (All (λ r. (row_at d (key r) ≡ some r) × (q r ≡ true))) (some_eq h) (
          All-map (Collected 8 d q) (λ r. (row_at d (key r) ≡ some r) × (q r ≡ true))
            (collect 8 d q) (λ r (at, p, lt). (at, p)) (collect_sound 8 d q));
    find_complete = λ d q l k r h at p.
        subst (Member r) (some_eq h) (collect_complete 8 d q k r (row_at-key d k r at).1 at p);
    find_distinct = λ d q l h. subst (Distinct key) (some_eq h) (collect-Distinct 8 d q);
    save_row = save_put;
    create_row = create_put;
    delete_row = delete_rest;
  }
