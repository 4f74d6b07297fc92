-- ===== src/Nlss/Tables/Rows.antt =====
-- nlss/secretshare.go: the rows of the tables, and the tables `V4` and `G`.
use rubixgoplatform.Prelude.{ℕ, List, [], ◌∷◌}

abbrev pub row4 : ℕ → ℕ → ℕ → ℕ → List ℕ
row4 a b c d = a ∷ b ∷ c ∷ d ∷ []

abbrev pub row8 : ℕ → ℕ → ℕ → ℕ → ℕ → ℕ → ℕ → ℕ → List ℕ
row8 a b c d e f g h = a ∷ b ∷ c ∷ d ∷ e ∷ f ∷ g ∷ h ∷ []

unfoldable pub v4 : List (List ℕ)
v4 =
    row4 0 0 0 0
    ∷ row4 0 0 0 1
    ∷ row4 0 0 1 0
    ∷ row4 0 0 1 1
    ∷ row4 0 1 0 0
    ∷ row4 0 1 0 1
    ∷ row4 0 1 1 0
    ∷ row4 0 1 1 1
    ∷ row4 1 0 0 0
    ∷ row4 1 0 0 1
    ∷ row4 1 0 1 0
    ∷ row4 1 0 1 1
    ∷ row4 1 1 0 0
    ∷ row4 1 1 0 1
    ∷ row4 1 1 1 0
    ∷ row4 1 1 1 1
    ∷ []

unfoldable pub generator : List (List ℕ)
generator =
    row8 1 1 1 1 1 1 1 1 ∷ row8 0 1 0 1 0 1 0 1 ∷ row8 0 0 1 1 0 0 1 1 ∷ row8 0 0 0 0 1 1 1 1 ∷ []
