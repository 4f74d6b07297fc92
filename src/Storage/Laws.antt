-- ===== src/Storage/Laws.antt =====
-- wrapper/adapter/adapter.go: what the calls of the adapter return, by cases.
use rubixgoplatform.Prelude.{
  ℕ, List, [], ◌∷◌, some, Bool, true, ◌≡◌, refl, ◌==◌, if◌then◌else◌, All, ◌⊎◌, inl, inr,
  Option-cases, Bool-cases, false, Option, none, ◌∙◌, sym,
}
use rubixgoplatform.Storage.Rows.{Table, Member, Distinct}
use rubixgoplatform.Storage.Effects.{ok, err, Error, db_error, no_records}
use rubixgoplatform.Storage.{read_all, read_one, update, write, delete}

module _ {A : Type 0} {key : A → ℕ} (g : Table A key) where
  -- The row stands in the table and passes the test.
  abbrev pub Found : g.Db → (A → Bool) → A → Type 0
  Found d q r = (g.row d (key r) ≡ some r) × (q r ≡ true)

  pub read_one-cases :
      (q : A → Bool) (d : g.Db)
      → ((e : Error) × (read_one g q d ≡ (err e, d)))
        ⊎ ((r : A) × (read_one g q d ≡ (ok r, d)) × Found d q r)
  unfolding read_one
  read_one-cases q d = elim (Option-cases (g.find d q)) [
    | inl e ↦ inl (db_error, rw (e, read_one) refl)
    | inr (l, e) ↦ first l e
  ]
    where
      first :
          (l : List A)
          → g.find d q ≡ some l
          → ((e : Error) × (read_one g q d ≡ (err e, d)))
            ⊎ ((r : A) × (read_one g q d ≡ (ok r, d)) × Found d q r)
      first [] e = inl (no_records, rw (e, read_one) refl)
      first (r ∷ rs) e = inr (r, rw (e, read_one) refl, (g.find_sound d q (r ∷ rs) e).0)

  -- Exactly the rows of the table that pass the test, each once.
  abbrev pub FoundAll : g.Db → (A → Bool) → List A → Type 0
  FoundAll d q l =
      All (Found d q) l
      × Distinct key l
      × ((k : ℕ) (r : A) → g.row d k ≡ some r → q r ≡ true → Member r l)

  pub read_all-cases :
      (q : A → Bool) (d : g.Db)
      → ((e : Error) × (read_all g q d ≡ (err e, d)))
        ⊎ ((l : List A) × (read_all g q d ≡ (ok l, d)) × FoundAll d q l)
  unfolding read_all
  read_all-cases q d = elim (Option-cases (g.find d q)) [
    | inl e ↦ inl (db_error, rw (e, read_all) refl)
    | inr (l, e) ↦ whole l e
  ]
    where
      whole :
          (l : List A)
          → g.find d q ≡ some l
          → ((e : Error) × (read_all g q d ≡ (err e, d)))
            ⊎ ((l : List A) × (read_all g q d ≡ (ok l, d)) × FoundAll d q l)
      whole [] e = inl (no_records, rw (e, read_all) refl)
      whole (r ∷ rs) e = inr (
        r ∷ rs,
        rw (e, read_all) refl,
        (
          g.find_sound d q (r ∷ rs) e,
          g.find_distinct d q (r ∷ rs) e,
          λ k x at passes. g.find_complete d q (r ∷ rs) k x e at passes,
        ),
      )

  -- The table `d'` is `d` with the row `r` written under its key.
  abbrev pub Writes : g.Db → g.Db → A → Type 0
  Writes d d' r = (k : ℕ) → g.row d' k ≡ (if k == key r then some r else g.row d k)

  pub update-cases :
      (q : A → Bool) (r old : A) (d : g.Db)
      → g.row d (key r) ≡ some old
      → q old ≡ true
      → (update g q r d ≡ (err db_error, d))
        ⊎ ((d' : g.Db) × (update g q r d ≡ (ok tt, d')) × Writes d d' r)
  unfolding update
  update-cases q r old d at passes = elim (Option-cases (g.save d q r)) [
    | inl e ↦ inl (rw (e, update) refl)
    | inr (d', e) ↦ inr (d', rw (e, update) refl, λ k. g.save_row d d' q r old k e at passes)
  ]

  pub write-cases :
      (r : A) (d : g.Db)
      → (write g r d ≡ (err db_error, d))
        ⊎ ((d' : g.Db) × (write g r d ≡ (ok tt, d')) × (g.row d (key r) ≡ none) × Writes d d' r)
  unfolding write
  write-cases r d = elim (Option-cases (g.create d r)) [
    | inl e ↦ inl (rw (e, write) refl)
    | inr (d', e) ↦ inr (
      d',
      rw (e, write) refl,
      (g.create_row d d' r (key r) e).0,
      λ k. (g.create_row d d' r k e).1,
    )
  ]

  -- The row of a table without the rows that pass the test.
  abbrev pub without : (A → Bool) → Option A → Option A
  without q none = none
  without q (some r) = if q r then none else some r

  abbrev pub Deletes : g.Db → g.Db → (A → Bool) → Type 0
  Deletes d d' q = (k : ℕ) → g.row d' k ≡ without q (g.row d k)

  without-eq :
      (q : A → Bool) (o : Option A)
      → elim o [ none ↦ none | some r ↦ if q r then none else some r ] ≡ without q o
  without-eq q none = refl
  without-eq q (some r) = refl

  pub delete-cases :
      (q : A → Bool) (d : g.Db)
      → (delete g q d ≡ (err db_error, d))
        ⊎ ((d' : g.Db) × (delete g q d ≡ (ok tt, d')) × Deletes d d' q)
  unfolding delete
  delete-cases q d = elim (Option-cases (g.delete_where d q)) [
    | inl e ↦ inl (rw (e, delete) refl)
    | inr (d', e) ↦
        inr (d', rw (e, delete) refl, λ k. g.delete_row d d' q k e ∙ without-eq q (g.row d k))
  ]

  without-failing :
      (q : A → Bool) (o : Option A) → ((r : A) → o ≡ some r → q r ≡ false) → without q o ≡ o
  without-failing q none h = refl
  without-failing q (some r) h = rw (h r refl) refl

  -- Where `Read` finds no records, there is nothing to delete.
  pub no_records-Deletes : (q : A → Bool) (d : g.Db) → g.find d q ≡ some [] → Deletes d d q
  no_records-Deletes q d e k = sym (
      without-failing q (g.row d k) λ r at. elim (Bool-cases (q r)) [
        | inl passes ↦ absurd (g.find_complete d q [] k r e at passes)
        | inr fails ↦ fails
      ])
