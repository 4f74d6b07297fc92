-- ===== src/Storage/Rows.antt =====
-- One table of the object mapper: what the wallet calls of it, and what it documents. A row is found
-- under its primary key; a call may fail, and then changes nothing.
use rubixgoplatform.Prelude.{
  ℕ, List, [], ◌∷◌, Option, none, some, Bool, true, ◌≡◌, ◌==◌, if◌then◌else◌, All, ◌⊎◌, ◌≢◌,
}

abbrev pub Member : {A : Type 0} → A → List A → Type 0
Member a [] = ⊥
Member a (x ∷ xs) = (a ≡ x) ⊎ Member a xs

-- The keys of a list of rows are distinct.
abbrev pub Distinct : {A : Type 0} → (A → ℕ) → List A → Type 0
Distinct key [] = Unit
Distinct key (x ∷ xs) = All (λ y. key y ≢ key x) xs × Distinct key xs

pub record Table (A : Type 0) (key : A → ℕ) : Type 1 where
  pub Db : Type 0
  pub row : Db → ℕ → Option A
  pub find : Db → (A → Bool) → Option (List A)
  pub save : Db → (A → Bool) → A → Option Db
  pub create : Db → A → Option Db
  pub delete_where : Db → (A → Bool) → Option Db
  -- A row stands under its key.
  pub row_key : (d : Db) (k : ℕ) (r : A) → row d k ≡ some r → key r ≡ k
  -- `SELECT ... WHERE` gives the rows of the table that pass the test, each once.
  pub find_sound :
      (d : Db) (q : A → Bool) (l : List A)
      → find d q ≡ some l
      → All (λ r. (row d (key r) ≡ some r) × (q r ≡ true)) l
  pub find_complete :
      (d : Db) (q : A → Bool) (l : List A) (k : ℕ) (r : A)
      → find d q ≡ some l
      → row d k ≡ some r
      → q r ≡ true
      → Member r l
  pub find_distinct : (d : Db) (q : A → Bool) (l : List A) → find d q ≡ some l → Distinct key l
  -- `UPDATE ... WHERE` with all columns, on a row that passes the test.
  pub save_row :
      (d d' : Db) (q : A → Bool) (r old : A) (k : ℕ)
      → save d q r ≡ some d'
      → row d (key r) ≡ some old
      → q old ≡ true
      → row d' k ≡ (if k == key r then some r else row d k)
  -- `INSERT`, which the primary key limits to a new key.
  pub create_row :
      (d d' : Db) (r : A) (k : ℕ)
      → create d r ≡ some d'
      → (row d (key r) ≡ none) × (row d' k ≡ (if k == key r then some r else row d k))
  -- `DELETE ... WHERE`.
  pub delete_row :
      (d d' : Db) (q : A → Bool) (k : ℕ)
      → delete_where d q ≡ some d'
      → row d' k ≡ elim (row d k) [ none ↦ none | some r ↦ if q r then none else some r ]
