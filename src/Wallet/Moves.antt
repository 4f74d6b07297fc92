-- ===== src/Wallet/Moves.antt =====
-- core/wallet/token.go: what the methods may do to the token table: single rows change their status,
-- one after the other, and nothing else changes.
use rubixgoplatform.Prelude.{
  ℕ, ◌≡◌, refl, Option, some, none, ◌==◌, if◌then◌else◌, inl, inr, sym, ◌∙◌, ap, if-inv, subst,
  some_eq, ==_iff,
}
use rubixgoplatform.Storage.Rows.{Table}
use rubixgoplatform.Storage.Effects.{Result, ok, err, Exec, after}
use rubixgoplatform.Storage.Laws.{Writes}
use rubixgoplatform.Wallet.Token.{Token, key, with_status}

-- Which status a row may be given.
abbrev pub Policy : Type 1
Policy = Token → ℕ → Type 0

-- The rows of one key before and after: both absent, or the same but for the status.
abbrev pub Frozen : Option Token → Option Token → Type 0
Frozen none o = o ≡ none
Frozen (some r) o = (s : ℕ) × (o ≡ some (with_status s r))

Frozen-refl : (o : Option Token) → Frozen o o
Frozen-refl none = refl
Frozen-refl (some r) = (r.token_status, refl)

Frozen-status :
    (a o : Option Token) (r : Token) (s : ℕ)
    → o ≡ some r
    → Frozen a o
    → Frozen a (some (with_status s r))
Frozen-status none o r s at f = cc
Frozen-status (some x) o r s at (s', e) =
    (s, ap (λ y. some (with_status s y)) (some_eq (sym at ∙ e)))

Frozen-write :
    (a o b : Option Token) (r : Token) (s k : ℕ)
    → b ≡ (if k == key r then some (with_status s r) else o)
    → (k ≡ key r → o ≡ some r)
    → Frozen a o
    → Frozen a b
Frozen-write a o b r s k e at f = elim (if-inv (k == key r) (sym e)) [
  | inl (hit, e') ↦ subst (Frozen a) e' (Frozen-status a o r s (at ((==_iff k (key r)).0 hit)) f)
  | inr (miss, e') ↦ subst (Frozen a) e' f
]

module _ (g : Table Token key) (P : Policy) where
  pub data Moves (d : g.Db) : g.Db → Type 0 where
    stay : Moves d d
    move :
        {d' d'' : g.Db} (r : Token) (s : ℕ)
        → Moves d d'
        → g.row d' (key r) ≡ some r
        → P r s
        → Writes g d' d'' (with_status s r)
        → Moves d d''

  pub Moves-trans : {d d' d'' : g.Db} → Moves d d' → Moves d' d'' → Moves d d''
  Moves-trans m stay = m
  Moves-trans m (move r s n at p w) = move r s (Moves-trans m n) at p w

  -- However many statuses change, no token appears or vanishes, and none changes its owner, its
  -- value, its parent, its state hash or its transaction.
  pub Moves-Frozen : {d d' : g.Db} → Moves d d' → (k : ℕ) → Frozen (g.row d k) (g.row d' k)
  Moves-Frozen {d} stay k = Frozen-refl (g.row d k)
  Moves-Frozen {d} (move {d' = d1} {d'' = d2} r s m at p w) k =
      Frozen-write (g.row d k) (g.row d1 k) (g.row d2 k) r s k (w k) (λ e. ap (g.row d1) e ∙ at)
        (Moves-Frozen m k)

  -- A row that the policy gives no other status is left alone.
  pub Moves-untouched :
      {d d' : g.Db} (k : ℕ) (r : Token)
      → ((s : ℕ) → ¬ P r s)
      → Moves d d'
      → g.row d k ≡ some r
      → g.row d' k ≡ some r
  Moves-untouched k r never stay at = at
  Moves-untouched k r never (move {d' = d1} {d'' = d2} u s m au p w) at =
      let before = Moves-untouched k r never m at in
      elim (if-inv (k == key u) (sym (w k))) [
        | inl (hit, e) ↦
            let same = some_eq (sym au ∙ ap (g.row d1) (sym ((==_iff k (key u)).0 hit)) ∙ before) in
            absurd (never s (subst (λ t. P t s) same p))
        | inr (miss, e) ↦ sym e ∙ before
      ]

module _ (g : Table Token key) (P Q : Policy) (weaker : (r : Token) (s : ℕ) → P r s → Q r s) where
  pub Moves-mono : {d d' : g.Db} → Moves g P d d' → Moves g Q d d'
  Moves-mono stay = stay
  Moves-mono (move r s m at p w) = move r s (Moves-mono m) at (weaker r s p) w

-- The moves of a chain of steps.
module _ (g : Table Token key) (P : Policy) {A B : Type 0} where
  pub Moves-after :
      {d : g.Db} (z : Result A × g.Db) (f : A → Exec g.Db B)
      → Moves g P d z.1
      → ((a : A) (d' : g.Db) → Moves g P d' (f a d').1)
      → Moves g P d (after z f).1
  Moves-after (ok a, d') f m n = Moves-trans g P m (n a d')
  Moves-after (err e, d') f m n = m
