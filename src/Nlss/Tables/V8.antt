-- ===== src/Nlss/Tables/V8.antt =====
-- nlss/secretshare.go: the table `V8`, in the order of the source.
use rubixgoplatform.Prelude.{ℕ, List, [], ◌∷◌}
use rubixgoplatform.Nlss.Tables.Rows.{row8}

unfoldable pub v8 : List (List ℕ)
v8 =
    row8 0 0 0 0 0 0 0 0
    ∷ row8 0 0 0 0 0 0 0 1
    ∷ row8 0 0 0 0 0 0 1 0
    ∷ row8 0 0 0 0 0 0 1 1
    ∷ row8 0 0 0 0 0 1 0 0
    ∷ row8 0 0 0 0 0 1 0 1
    ∷ row8 0 0 0 0 0 1 1 0
    ∷ row8 0 0 0 0 0 1 1 1
    ∷ row8 0 0 0 0 1 0 0 0
    ∷ row8 0 0 0 0 1 0 0 1
    ∷ row8 0 0 0 0 1 0 1 0
    ∷ row8 0 0 0 0 1 0 1 1
    ∷ row8 0 0 0 0 1 1 0 0
    ∷ row8 0 0 0 0 1 1 0 1
    ∷ row8 0 0 0 0 1 1 1 0
    ∷ row8 0 0 0 0 1 1 1 1
    ∷ row8 0 0 0 1 0 0 0 0
    ∷ row8 0 0 0 1 0 0 0 1
    ∷ row8 0 0 0 1 0 0 1 0
    ∷ row8 0 0 0 1 0 0 1 1
    ∷ row8 0 0 0 1 0 1 0 0
    ∷ row8 0 0 0 1 0 1 0 1
    ∷ row8 0 0 0 1 0 1 1 0
    ∷ row8 0 0 0 1 0 1 1 1
    ∷ row8 0 0 0 1 1 0 0 0
    ∷ row8 0 0 0 1 1 0 0 1
    ∷ row8 0 0 0 1 1 0 1 0
    ∷ row8 0 0 0 1 1 0 1 1
    ∷ row8 0 0 0 1 1 1 0 0
    ∷ row8 0 0 0 1 1 1 0 1
    ∷ row8 0 0 0 1 1 1 1 0
    ∷ row8 0 0 0 1 1 1 1 1
    ∷ row8 0 0 1 0 0 0 0 0
    ∷ row8 0 0 1 0 0 0 0 1
    ∷ row8 0 0 1 0 0 0 1 0
    ∷ row8 0 0 1 0 0 0 1 1
    ∷ row8 0 0 1 0 0 1 0 0
    ∷ row8 0 0 1 0 0 1 0 1
    ∷ row8 0 0 1 0 0 1 1 0
    ∷ row8 0 0 1 0 0 1 1 1
    ∷ row8 0 0 1 0 1 0 0 0
    ∷ row8 0 0 1 0 1 0 0 1
    ∷ row8 0 0 1 0 1 0 1 0
    ∷ row8 0 0 1 0 1 0 1 1
    ∷ row8 0 0 1 0 1 1 0 0
    ∷ row8 0 0 1 0 1 1 0 1
    ∷ row8 0 0 1 0 1 1 1 0
    ∷ row8 0 0 1 0 1 1 1 1
    ∷ row8 0 0 1 1 0 0 0 0
    ∷ row8 0 0 1 1 0 0 0 1
    ∷ row8 0 0 1 1 0 0 1 0
    ∷ row8 0 0 1 1 0 0 1 1
    ∷ row8 0 0 1 1 0 1 0 0
    ∷ row8 0 0 1 1 0 1 0 1
    ∷ row8 0 0 1 1 0 1 1 0
    ∷ row8 0 0 1 1 0 1 1 1
    ∷ row8 0 0 1 1 1 0 0 0
    ∷ row8 0 0 1 1 1 0 0 1
    ∷ row8 0 0 1 1 1 0 1 0
    ∷ row8 0 0 1 1 1 0 1 1
    ∷ row8 0 0 1 1 1 1 0 0
    ∷ row8 0 0 1 1 1 1 0 1
    ∷ row8 0 0 1 1 1 1 1 0
    ∷ row8 0 0 1 1 1 1 1 1
    ∷ row8 0 1 0 0 0 0 0 0
    ∷ row8 0 1 0 0 0 0 0 1
    ∷ row8 0 1 0 0 0 0 1 0
    ∷ row8 0 1 0 0 0 0 1 1
    ∷ row8 0 1 0 0 0 1 0 0
    ∷ row8 0 1 0 0 0 1 0 1
    ∷ row8 0 1 0 0 0 1 1 0
    ∷ row8 0 1 0 0 0 1 1 1
    ∷ row8 0 1 0 0 1 0 0 0
    ∷ row8 0 1 0 0 1 0 0 1
    ∷ row8 0 1 0 0 1 0 1 0
    ∷ row8 0 1 0 0 1 0 1 1
    ∷ row8 0 1 0 0 1 1 0 0
    ∷ row8 0 1 0 0 1 1 0 1
    ∷ row8 0 1 0 0 1 1 1 0
    ∷ row8 0 1 0 0 1 1 1 1
    ∷ row8 0 1 0 1 0 0 0 0
    ∷ row8 0 1 0 1 0 0 0 1
    ∷ row8 0 1 0 1 0 0 1 0
    ∷ row8 0 1 0 1 0 0 1 1
    ∷ row8 0 1 0 1 0 1 0 0
    ∷ row8 0 1 0 1 0 1 0 1
    ∷ row8 0 1 0 1 0 1 1 0
    ∷ row8 0 1 0 1 0 1 1 1
    ∷ row8 0 1 0 1 1 0 0 0
    ∷ row8 0 1 0 1 1 0 0 1
    ∷ row8 0 1 0 1 1 0 1 0
    ∷ row8 0 1 0 1 1 0 1 1
    ∷ row8 0 1 0 1 1 1 0 0
    ∷ row8 0 1 0 1 1 1 0 1
    ∷ row8 0 1 0 1 1 1 1 0
    ∷ row8 0 1 0 1 1 1 1 1
    ∷ row8 0 1 1 0 0 0 0 0
    ∷ row8 0 1 1 0 0 0 0 1
    ∷ row8 0 1 1 0 0 0 1 0
    ∷ row8 0 1 1 0 0 0 1 1
    ∷ row8 0 1 1 0 0 1 0 0
    ∷ row8 0 1 1 0 0 1 0 1
    ∷ row8 0 1 1 0 0 1 1 0
    ∷ row8 0 1 1 0 0 1 1 1
    ∷ row8 0 1 1 0 1 0 0 0
    ∷ row8 0 1 1 0 1 0 0 1
    ∷ row8 0 1 1 0 1 0 1 0
    ∷ row8 0 1 1 0 1 0 1 1
    ∷ row8 0 1 1 0 1 1 0 0
    ∷ row8 0 1 1 0 1 1 0 1
    ∷ row8 0 1 1 0 1 1 1 0
    ∷ row8 0 1 1 0 1 1 1 1
    ∷ row8 0 1 1 1 0 0 0 0
    ∷ row8 0 1 1 1 0 0 0 1
    ∷ row8 0 1 1 1 0 0 1 0
    ∷ row8 0 1 1 1 0 0 1 1
    ∷ row8 0 1 1 1 0 1 0 0
    ∷ row8 0 1 1 1 0 1 0 1
    ∷ row8 0 1 1 1 0 1 1 0
    ∷ row8 0 1 1 1 0 1 1 1
    ∷ row8 0 1 1 1 1 0 0 0
    ∷ row8 0 1 1 1 1 0 0 1
    ∷ row8 0 1 1 1 1 0 1 0
    ∷ row8 0 1 1 1 1 0 1 1
    ∷ row8 0 1 1 1 1 1 0 0
    ∷ row8 0 1 1 1 1 1 0 1
    ∷ row8 0 1 1 1 1 1 1 0
    ∷ row8 0 1 1 1 1 1 1 1
    ∷ row8 1 0 0 0 0 0 0 0
    ∷ row8 1 0 0 0 0 0 0 1
    ∷ row8 1 0 0 0 0 0 1 0
    ∷ row8 1 0 0 0 0 0 1 1
    ∷ row8 1 0 0 0 0 1 0 0
    ∷ row8 1 0 0 0 0 1 0 1
    ∷ row8 1 0 0 0 0 1 1 0
    ∷ row8 1 0 0 0 0 1 1 1
    ∷ row8 1 0 0 0 1 0 0 0
    ∷ row8 1 0 0 0 1 0 0 1
    ∷ row8 1 0 0 0 1 0 1 0
    ∷ row8 1 0 0 0 1 0 1 1
    ∷ row8 1 0 0 0 1 1 0 0
    ∷ row8 1 0 0 0 1 1 0 1
    ∷ row8 1 0 0 0 1 1 1 0
    ∷ row8 1 0 0 0 1 1 1 1
    ∷ row8 1 0 0 1 0 0 0 0
    ∷ row8 1 0 0 1 0 0 0 1
    ∷ row8 1 0 0 1 0 0 1 0
    ∷ row8 1 0 0 1 0 0 1 1
    ∷ row8 1 0 0 1 0 1 0 0
    ∷ row8 1 0 0 1 0 1 0 1
    ∷ row8 1 0 0 1 0 1 1 0
    ∷ row8 1 0 0 1 0 1 1 1
    ∷ row8 1 0 0 1 1 0 0 0
    ∷ row8 1 0 0 1 1 0 0 1
    ∷ row8 1 0 0 1 1 0 1 0
    ∷ row8 1 0 0 1 1 0 1 1
    ∷ row8 1 0 0 1 1 1 0 0
    ∷ row8 1 0 0 1 1 1 0 1
    ∷ row8 1 0 0 1 1 1 1 0
    ∷ row8 1 0 0 1 1 1 1 1
    ∷ row8 1 0 1 0 0 0 0 0
    ∷ row8 1 0 1 0 0 0 0 1
    ∷ row8 1 0 1 0 0 0 1 0
    ∷ row8 1 0 1 0 0 0 1 1
    ∷ row8 1 0 1 0 0 1 0 0
    ∷ row8 1 0 1 0 0 1 0 1
    ∷ row8 1 0 1 0 0 1 1 0
    ∷ row8 1 0 1 0 0 1 1 1
    ∷ row8 1 0 1 0 1 0 0 0
    ∷ row8 1 0 1 0 1 0 0 1
    ∷ row8 1 0 1 0 1 0 1 0
    ∷ row8 1 0 1 0 1 0 1 1
    ∷ row8 1 0 1 0 1 1 0 0
    ∷ row8 1 0 1 0 1 1 0 1
    ∷ row8 1 0 1 0 1 1 1 0
    ∷ row8 1 0 1 0 1 1 1 1
    ∷ row8 1 0 1 1 0 0 0 0
    ∷ row8 1 0 1 1 0 0 0 1
    ∷ row8 1 0 1 1 0 0 1 0
    ∷ row8 1 0 1 1 0 0 1 1
    ∷ row8 1 0 1 1 0 1 0 0
    ∷ row8 1 0 1 1 0 1 0 1
    ∷ row8 1 0 1 1 0 1 1 0
    ∷ row8 1 0 1 1 0 1 1 1
    ∷ row8 1 0 1 1 1 0 0 0
    ∷ row8 1 0 1 1 1 0 0 1
    ∷ row8 1 0 1 1 1 0 1 0
    ∷ row8 1 0 1 1 1 0 1 1
    ∷ row8 1 0 1 1 1 1 0 0
    ∷ row8 1 0 1 1 1 1 0 1
    ∷ row8 1 0 1 1 1 1 1 0
    ∷ row8 1 0 1 1 1 1 1 1
    ∷ row8 1 1 0 0 0 0 0 0
    ∷ row8 1 1 0 0 0 0 0 1
    ∷ row8 1 1 0 0 0 0 1 0
    ∷ row8 1 1 0 0 0 0 1 1
    ∷ row8 1 1 0 0 0 1 0 0
    ∷ row8 1 1 0 0 0 1 0 1
    ∷ row8 1 1 0 0 0 1 1 0
    ∷ row8 1 1 0 0 0 1 1 1
    ∷ row8 1 1 0 0 1 0 0 0
    ∷ row8 1 1 0 0 1 0 0 1
    ∷ row8 1 1 0 0 1 0 1 0
    ∷ row8 1 1 0 0 1 0 1 1
    ∷ row8 1 1 0 0 1 1 0 0
    ∷ row8 1 1 0 0 1 1 0 1
    ∷ row8 1 1 0 0 1 1 1 0
    ∷ row8 1 1 0 0 1 1 1 1
    ∷ row8 1 1 0 1 0 0 0 0
    ∷ row8 1 1 0 1 0 0 0 1
    ∷ row8 1 1 0 1 0 0 1 0
    ∷ row8 1 1 0 1 0 0 1 1
    ∷ row8 1 1 0 1 0 1 0 0
    ∷ row8 1 1 0 1 0 1 0 1
    ∷ row8 1 1 0 1 0 1 1 0
    ∷ row8 1 1 0 1 0 1 1 1
    ∷ row8 1 1 0 1 1 0 0 0
    ∷ row8 1 1 0 1 1 0 0 1
    ∷ row8 1 1 0 1 1 0 1 0
    ∷ row8 1 1 0 1 1 0 1 1
    ∷ row8 1 1 0 1 1 1 0 0
    ∷ row8 1 1 0 1 1 1 0 1
    ∷ row8 1 1 0 1 1 1 1 0
    ∷ row8 1 1 0 1 1 1 1 1
    ∷ row8 1 1 1 0 0 0 0 0
    ∷ row8 1 1 1 0 0 0 0 1
    ∷ row8 1 1 1 0 0 0 1 0
    ∷ row8 1 1 1 0 0 0 1 1
    ∷ row8 1 1 1 0 0 1 0 0
    ∷ row8 1 1 1 0 0 1 0 1
    ∷ row8 1 1 1 0 0 1 1 0
    ∷ row8 1 1 1 0 0 1 1 1
    ∷ row8 1 1 1 0 1 0 0 0
    ∷ row8 1 1 1 0 1 0 0 1
    ∷ row8 1 1 1 0 1 0 1 0
    ∷ row8 1 1 1 0 1 0 1 1
    ∷ row8 1 1 1 0 1 1 0 0
    ∷ row8 1 1 1 0 1 1 0 1
    ∷ row8 1 1 1 0 1 1 1 0
    ∷ row8 1 1 1 0 1 1 1 1
    ∷ row8 1 1 1 1 0 0 0 0
    ∷ row8 1 1 1 1 0 0 0 1
    ∷ row8 1 1 1 1 0 0 1 0
    ∷ row8 1 1 1 1 0 0 1 1
    ∷ row8 1 1 1 1 0 1 0 0
    ∷ row8 1 1 1 1 0 1 0 1
    ∷ row8 1 1 1 1 0 1 1 0
    ∷ row8 1 1 1 1 0 1 1 1
    ∷ row8 1 1 1 1 1 0 0 0
    ∷ row8 1 1 1 1 1 0 0 1
    ∷ row8 1 1 1 1 1 0 1 0
    ∷ row8 1 1 1 1 1 0 1 1
    ∷ row8 1 1 1 1 1 1 0 0
    ∷ row8 1 1 1 1 1 1 0 1
    ∷ row8 1 1 1 1 1 1 1 0
    ∷ row8 1 1 1 1 1 1 1 1
    ∷ []
