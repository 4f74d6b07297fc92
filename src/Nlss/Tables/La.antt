-- ===== src/Nlss/Tables/La.antt =====
-- nlss/secretshare.go: the table `LA`, in the order of the source.
use rubixgoplatform.Prelude.{ℕ, List, [], ◌∷◌}
use rubixgoplatform.Nlss.Tables.Rows.{row8}

unfoldable pub la : List (List ℕ)
la =
    row8 0 0 0 0 0 0 0 1
    ∷ row8 0 0 0 0 0 0 1 0
    ∷ row8 0 0 0 0 0 0 1 1
    ∷ row8 0 0 0 0 0 1 0 0
    ∷ row8 0 0 0 0 0 1 0 1
    ∷ row8 0 0 0 0 0 1 1 0
    ∷ row8 0 0 0 0 0 1 1 1
    ∷ row8 0 0 0 0 1 0 0 0
    ∷ row8 0 0 0 0 1 0 0 1
    ∷ row8 0 0 0 0 1 0 1 0
    ∷ row8 0 0 0 0 1 0 1 1
    ∷ row8 0 0 0 0 1 1 0 0
    ∷ row8 0 0 0 0 1 1 0 1
    ∷ row8 0 0 0 0 1 1 1 0
    ∷ row8 0 0 0 1 0 0 0 0
    ∷ row8 0 0 0 1 0 0 0 1
    ∷ row8 0 0 0 1 0 0 1 0
    ∷ row8 0 0 0 1 0 0 1 1
    ∷ row8 0 0 0 1 0 1 0 0
    ∷ row8 0 0 0 1 0 1 0 1
    ∷ row8 0 0 0 1 0 1 1 0
    ∷ row8 0 0 0 1 0 1 1 1
    ∷ row8 0 0 0 1 1 0 0 0
    ∷ row8 0 0 0 1 1 0 0 1
    ∷ row8 0 0 0 1 1 0 1 0
    ∷ row8 0 0 0 1 1 0 1 1
    ∷ row8 0 0 0 1 1 1 0 0
    ∷ row8 0 0 0 1 1 1 0 1
    ∷ row8 0 0 0 1 1 1 1 0
    ∷ row8 0 0 0 1 1 1 1 1
    ∷ row8 0 0 1 0 0 0 0 0
    ∷ row8 0 0 1 0 0 0 0 1
    ∷ row8 0 0 1 0 0 0 1 0
    ∷ row8 0 0 1 0 0 0 1 1
    ∷ row8 0 0 1 0 0 1 0 0
    ∷ row8 0 0 1 0 0 1 0 1
    ∷ row8 0 0 1 0 0 1 1 0
    ∷ row8 0 0 1 0 0 1 1 1
    ∷ row8 0 0 1 0 1 0 0 0
    ∷ row8 0 0 1 0 1 0 0 1
    ∷ row8 0 0 1 0 1 0 1 0
    ∷ row8 0 0 1 0 1 0 1 1
    ∷ row8 0 0 1 0 1 1 0 0
    ∷ row8 0 0 1 0 1 1 0 1
    ∷ row8 0 0 1 0 1 1 1 0
    ∷ row8 0 0 1 0 1 1 1 1
    ∷ row8 0 0 1 1 0 0 0 0
    ∷ row8 0 0 1 1 0 0 0 1
    ∷ row8 0 0 1 1 0 0 1 0
    ∷ row8 0 0 1 1 0 1 0 0
    ∷ row8 0 0 1 1 0 1 0 1
    ∷ row8 0 0 1 1 0 1 1 0
    ∷ row8 0 0 1 1 0 1 1 1
    ∷ row8 0 0 1 1 1 0 0 0
    ∷ row8 0 0 1 1 1 0 0 1
    ∷ row8 0 0 1 1 1 0 1 0
    ∷ row8 0 0 1 1 1 0 1 1
    ∷ row8 0 0 1 1 1 1 0 1
    ∷ row8 0 0 1 1 1 1 1 0
    ∷ row8 0 0 1 1 1 1 1 1
    ∷ row8 0 1 0 0 0 0 0 0
    ∷ row8 0 1 0 0 0 0 0 1
    ∷ row8 0 1 0 0 0 0 1 0
    ∷ row8 0 1 0 0 0 0 1 1
    ∷ row8 0 1 0 0 0 1 0 0
    ∷ row8 0 1 0 0 0 1 0 1
    ∷ row8 0 1 0 0 0 1 1 0
    ∷ row8 0 1 0 0 0 1 1 1
    ∷ row8 0 1 0 0 1 0 0 0
    ∷ row8 0 1 0 0 1 0 0 1
    ∷ row8 0 1 0 0 1 0 1 0
    ∷ row8 0 1 0 0 1 0 1 1
    ∷ row8 0 1 0 0 1 1 0 0
    ∷ row8 0 1 0 0 1 1 0 1
    ∷ row8 0 1 0 0 1 1 1 0
    ∷ row8 0 1 0 0 1 1 1 1
    ∷ row8 0 1 0 1 0 0 0 0
    ∷ row8 0 1 0 1 0 0 0 1
    ∷ row8 0 1 0 1 0 0 1 0
    ∷ row8 0 1 0 1 0 0 1 1
    ∷ row8 0 1 0 1 0 1 0 0
    ∷ row8 0 1 0 1 0 1 1 0
    ∷ row8 0 1 0 1 0 1 1 1
    ∷ row8 0 1 0 1 1 0 0 0
    ∷ row8 0 1 0 1 1 0 0 1
    ∷ row8 0 1 0 1 1 0 1 1
    ∷ row8 0 1 0 1 1 1 0 0
    ∷ row8 0 1 0 1 1 1 0 1
    ∷ row8 0 1 0 1 1 1 1 0
    ∷ row8 0 1 0 1 1 1 1 1
    ∷ row8 0 1 1 0 0 0 0 0
    ∷ row8 0 1 1 0 0 0 0 1
    ∷ row8 0 1 1 0 0 0 1 0
    ∷ row8 0 1 1 0 0 0 1 1
    ∷ row8 0 1 1 0 0 1 0 0
    ∷ row8 0 1 1 0 0 1 0 1
    ∷ row8 0 1 1 0 0 1 1 1
    ∷ row8 0 1 1 0 1 0 0 0
    ∷ row8 0 1 1 0 1 0 1 0
    ∷ row8 0 1 1 0 1 0 1 1
    ∷ row8 0 1 1 0 1 1 0 0
    ∷ row8 0 1 1 0 1 1 0 1
    ∷ row8 0 1 1 0 1 1 1 0
    ∷ row8 0 1 1 0 1 1 1 1
    ∷ row8 0 1 1 1 0 0 0 0
    ∷ row8 0 1 1 1 0 0 0 1
    ∷ row8 0 1 1 1 0 0 1 0
    ∷ row8 0 1 1 1 0 0 1 1
    ∷ row8 0 1 1 1 0 1 0 0
    ∷ row8 0 1 1 1 0 1 0 1
    ∷ row8 0 1 1 1 0 1 1 0
    ∷ row8 0 1 1 1 0 1 1 1
    ∷ row8 0 1 1 1 1 0 0 0
    ∷ row8 0 1 1 1 1 0 0 1
    ∷ row8 0 1 1 1 1 0 1 0
    ∷ row8 0 1 1 1 1 0 1 1
    ∷ row8 0 1 1 1 1 1 0 0
    ∷ row8 0 1 1 1 1 1 0 1
    ∷ row8 0 1 1 1 1 1 1 0
    ∷ row8 0 1 1 1 1 1 1 1
    ∷ row8 1 0 0 0 0 0 0 0
    ∷ row8 1 0 0 0 0 0 0 1
    ∷ row8 1 0 0 0 0 0 1 0
    ∷ row8 1 0 0 0 0 0 1 1
    ∷ row8 1 0 0 0 0 1 0 0
    ∷ row8 1 0 0 0 0 1 0 1
    ∷ row8 1 0 0 0 0 1 1 0
    ∷ row8 1 0 0 0 0 1 1 1
    ∷ row8 1 0 0 0 1 0 0 0
    ∷ row8 1 0 0 0 1 0 0 1
    ∷ row8 1 0 0 0 1 0 1 0
    ∷ row8 1 0 0 0 1 0 1 1
    ∷ row8 1 0 0 0 1 1 0 0
    ∷ row8 1 0 0 0 1 1 0 1
    ∷ row8 1 0 0 0 1 1 1 0
    ∷ row8 1 0 0 0 1 1 1 1
    ∷ row8 1 0 0 1 0 0 0 0
    ∷ row8 1 0 0 1 0 0 0 1
    ∷ row8 1 0 0 1 0 0 1 0
    ∷ row8 1 0 0 1 0 0 1 1
    ∷ row8 1 0 0 1 0 1 0 0
    ∷ row8 1 0 0 1 0 1 0 1
    ∷ row8 1 0 0 1 0 1 1 1
    ∷ row8 1 0 0 1 1 0 0 0
    ∷ row8 1 0 0 1 1 0 1 0
    ∷ row8 1 0 0 1 1 0 1 1
    ∷ row8 1 0 0 1 1 1 0 0
    ∷ row8 1 0 0 1 1 1 0 1
    ∷ row8 1 0 0 1 1 1 1 0
    ∷ row8 1 0 0 1 1 1 1 1
    ∷ row8 1 0 1 0 0 0 0 0
    ∷ row8 1 0 1 0 0 0 0 1
    ∷ row8 1 0 1 0 0 0 1 0
    ∷ row8 1 0 1 0 0 0 1 1
    ∷ row8 1 0 1 0 0 1 0 0
    ∷ row8 1 0 1 0 0 1 1 0
    ∷ row8 1 0 1 0 0 1 1 1
    ∷ row8 1 0 1 0 1 0 0 0
    ∷ row8 1 0 1 0 1 0 0 1
    ∷ row8 1 0 1 0 1 0 1 1
    ∷ row8 1 0 1 0 1 1 0 0
    ∷ row8 1 0 1 0 1 1 0 1
    ∷ row8 1 0 1 0 1 1 1 0
    ∷ row8 1 0 1 0 1 1 1 1
    ∷ row8 1 0 1 1 0 0 0 0
    ∷ row8 1 0 1 1 0 0 0 1
    ∷ row8 1 0 1 1 0 0 1 0
    ∷ row8 1 0 1 1 0 0 1 1
    ∷ row8 1 0 1 1 0 1 0 0
    ∷ row8 1 0 1 1 0 1 0 1
    ∷ row8 1 0 1 1 0 1 1 0
    ∷ row8 1 0 1 1 0 1 1 1
    ∷ row8 1 0 1 1 1 0 0 0
    ∷ row8 1 0 1 1 1 0 0 1
    ∷ row8 1 0 1 1 1 0 1 0
    ∷ row8 1 0 1 1 1 0 1 1
    ∷ row8 1 0 1 1 1 1 0 0
    ∷ row8 1 0 1 1 1 1 0 1
    ∷ row8 1 0 1 1 1 1 1 0
    ∷ row8 1 0 1 1 1 1 1 1
    ∷ row8 1 1 0 0 0 0 0 0
    ∷ row8 1 1 0 0 0 0 0 1
    ∷ row8 1 1 0 0 0 0 1 0
    ∷ row8 1 1 0 0 0 1 0 0
    ∷ row8 1 1 0 0 0 1 0 1
    ∷ row8 1 1 0 0 0 1 1 0
    ∷ row8 1 1 0 0 0 1 1 1
    ∷ row8 1 1 0 0 1 0 0 0
    ∷ row8 1 1 0 0 1 0 0 1
    ∷ row8 1 1 0 0 1 0 1 0
    ∷ row8 1 1 0 0 1 0 1 1
    ∷ row8 1 1 0 0 1 1 0 1
    ∷ row8 1 1 0 0 1 1 1 0
    ∷ row8 1 1 0 0 1 1 1 1
    ∷ row8 1 1 0 1 0 0 0 0
    ∷ row8 1 1 0 1 0 0 0 1
    ∷ row8 1 1 0 1 0 0 1 0
    ∷ row8 1 1 0 1 0 0 1 1
    ∷ row8 1 1 0 1 0 1 0 0
    ∷ row8 1 1 0 1 0 1 0 1
    ∷ row8 1 1 0 1 0 1 1 0
    ∷ row8 1 1 0 1 0 1 1 1
    ∷ row8 1 1 0 1 1 0 0 0
    ∷ row8 1 1 0 1 1 0 0 1
    ∷ row8 1 1 0 1 1 0 1 0
    ∷ row8 1 1 0 1 1 0 1 1
    ∷ row8 1 1 0 1 1 1 0 0
    ∷ row8 1 1 0 1 1 1 0 1
    ∷ row8 1 1 0 1 1 1 1 0
    ∷ row8 1 1 0 1 1 1 1 1
    ∷ row8 1 1 1 0 0 0 0 0
    ∷ row8 1 1 1 0 0 0 0 1
    ∷ row8 1 1 1 0 0 0 1 0
    ∷ row8 1 1 1 0 0 0 1 1
    ∷ row8 1 1 1 0 0 1 0 0
    ∷ row8 1 1 1 0 0 1 0 1
    ∷ row8 1 1 1 0 0 1 1 0
    ∷ row8 1 1 1 0 0 1 1 1
    ∷ row8 1 1 1 0 1 0 0 0
    ∷ row8 1 1 1 0 1 0 0 1
    ∷ row8 1 1 1 0 1 0 1 0
    ∷ row8 1 1 1 0 1 0 1 1
    ∷ row8 1 1 1 0 1 1 0 0
    ∷ row8 1 1 1 0 1 1 0 1
    ∷ row8 1 1 1 0 1 1 1 0
    ∷ row8 1 1 1 0 1 1 1 1
    ∷ row8 1 1 1 1 0 0 0 1
    ∷ row8 1 1 1 1 0 0 1 0
    ∷ row8 1 1 1 1 0 0 1 1
    ∷ row8 1 1 1 1 0 1 0 0
    ∷ row8 1 1 1 1 0 1 0 1
    ∷ row8 1 1 1 1 0 1 1 0
    ∷ row8 1 1 1 1 0 1 1 1
    ∷ row8 1 1 1 1 1 0 0 0
    ∷ row8 1 1 1 1 1 0 0 1
    ∷ row8 1 1 1 1 1 0 1 0
    ∷ row8 1 1 1 1 1 0 1 1
    ∷ row8 1 1 1 1 1 1 0 0
    ∷ row8 1 1 1 1 1 1 0 1
    ∷ row8 1 1 1 1 1 1 1 0
    ∷ []
