-- ===== src/TokenChain/Order.antt =====
-- core/wallet/token_chain.go: the order of keys.
use rubixgoplatform.Prelude.{ℕ, ◌<◌, ◌≡◌, ◌⊎◌, List, [], ◌∷◌, ◌++◌, All}

-- The order of byte strings.
abbrev pub LexLt : List ℕ → List ℕ → Type 0
LexLt [] [] = ⊥
LexLt [] (y ∷ ys) = Unit
LexLt (x ∷ xs) [] = ⊥
LexLt (x ∷ xs) (y ∷ ys) = (x < y) ⊎ ((x ≡ y) × LexLt xs ys)

abbrev pub HasPrefix : List ℕ → List ℕ → Type 0
HasPrefix p k = (rest : List ℕ) × (k ≡ p ++ rest)

-- Each key is below the keys that follow it.
abbrev pub Rising : List (List ℕ × List ℕ) → Type 0
Rising [] = Unit
Rising (e ∷ es) = All (λ f. LexLt e.0 f.0) es × Rising es
