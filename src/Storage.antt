-- ===== src/Storage.antt =====
-- core/storage/storage_db.go and wrapper/adapter/adapter.go: the calls of the object mapper that
-- stand behind `Read`, `Write`, `Update` and `Delete`. The mapper (gorm) is a parameter: `Table` is
-- one table of it, with what it documents of a table with a primary key. A condition of a query is
-- the test that it makes on a row.
pub mod Rows
pub mod Effects
pub mod Laws
pub mod Memory
use rubixgoplatform.Prelude.{ℕ, List, [], ◌∷◌, Option, none, some, Bool}
use Rows.{Table}
use Effects.{Result, ok, err, Error, db_error, no_records, Exec}

module _ {A : Type 0} {key : A → ℕ} (g : Table A key) where
  -- `FindNew` into a slice: an empty answer is the error "no records found".
  unfoldable pub read_all : (A → Bool) → Exec g.Db (List A)
  read_all q d = elim (g.find d q) [
    | none ↦ (err db_error, d)
    | some l ↦ elim l [ [] ↦ (err no_records, d) | r ∷ rs ↦ (ok (r ∷ rs), d) ]
  ]

  -- `FindNew` into a struct: the first of the rows.
  unfoldable pub read_one : (A → Bool) → Exec g.Db A
  read_one q d = elim (g.find d q) [
    | none ↦ (err db_error, d)
    | some l ↦ elim l [ [] ↦ (err no_records, d) | r ∷ rs ↦ (ok r, d) ]
  ]

  -- `SaveNew`.
  unfoldable pub update : (A → Bool) → A → Exec g.Db (Unit {0})
  update q r d = elim (g.save d q r) [ none ↦ (err db_error, d) | some d' ↦ (ok tt, d') ]

  -- `Create`.
  unfoldable pub write : A → Exec g.Db (Unit {0})
  write r d = elim (g.create d r) [ none ↦ (err db_error, d) | some d' ↦ (ok tt, d') ]

  -- `DeleteNew`.
  unfoldable pub delete : (A → Bool) → Exec g.Db (Unit {0})
  delete q d = elim (g.delete_where d q) [ none ↦ (err db_error, d) | some d' ↦ (ok tt, d') ]
