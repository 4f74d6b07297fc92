-- ===== src/Storage/Effects.antt =====
-- Methods that change the tables and may fail. What was written before a failure stays written, so
-- the state comes back beside the error too.

-- The errors that the wallet tells apart, and a nil pointer.
pub data Error : Type 0 where
  db_error no_records not_locked not_pledged not_unpledged insufficient too_large nil_pointer
        no_token split_error :
      Error

pub data Result {ℓ} (A : Type ℓ) : Type ℓ where
  ok : A → Result A
  err : Error → Result A

abbrev pub Exec {ℓ} : Type ℓ → Type ℓ → Type ℓ
Exec S A = S → Result A × S

module _ {ℓ} {S A : Type ℓ} where
  abbrev pub pure : A → Exec S A
  pure a s = (ok a, s)

  abbrev pub raise : Error → Exec S A
  raise e s = (err e, s)

module _ {ℓ} {S A B : Type ℓ} where
  abbrev pub after : Result A × S → (A → Exec S B) → Result B × S
  after (ok a, s) f = f a s
  after (err e, s) f = (err e, s)

  infixl 10 ◌>>=◌ ◌>>◌
  abbrev pub ◌>>=◌ : Exec S A → (A → Exec S B) → Exec S B
  ◌>>=◌ m f s = after (m s) f

  abbrev pub ◌>>◌ : Exec S A → Exec S B → Exec S B
  m >> n = m >>= λ _. n

module _ {ℓ} {S A : Type ℓ} where
  -- What is done on an error.
  abbrev pub handled : Result A × S → (Error → Exec S A) → Result A × S
  handled (ok a, s) f = (ok a, s)
  handled (err e, s) f = f e s

  abbrev pub rescue : Exec S A → (Error → Exec S A) → Exec S A
  rescue m f s = handled (m s) f

module _ {S A : Type 0} where
  -- A call whose result is not looked at.
  abbrev pub quietly : Exec S A → Exec S (Unit {0})
  quietly m s = (ok tt, (m s).1)
