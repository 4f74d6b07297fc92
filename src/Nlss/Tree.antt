-- ===== src/Nlss/Tree.antt =====
-- nlss/interact4tree.go: the shares of a byte slice, one `SecretShare` for each of its bits. Of the
-- struct's fields the ones that no method writes (`strs`, `pvt`, `cnd`, `cnd1`) are left out.
pub mod Rows
pub mod Created
use rubixgoplatform.Prelude.{
  ℕ, zero, suc, ◌+◌, ◌*◌, ◌-◌, ◌%◌, List, [], ◌∷◌, ◌++◌, Option, none, some, ◌==◌, if◌then◌else◌,
  length, ◌>>=◌, Bool, true, false, ◌&&◌, ◌||◌,
}
use rubixgoplatform.Nlss.Bits.{convert_to_bit_string, convert_bit_string}
use rubixgoplatform.Nlss.Share.{SecretShare, dot, starts}

pub record Interact4Tree : Type 0 where
  pub secret_string : List ℕ
  pub y1_string : List ℕ
  pub bits : List ℕ
  pub cand1 : List (List ℕ)
  pub secret : List (List ℕ)

-- `ConvertString`.
unfoldable pub convert_string : List ℕ → ℕ → List ℕ
convert_string str s = if s == 1 then str ++ 49 ∷ [] else str ++ 48 ∷ []

-- The calls of `ConvertString` for the entries of a row.
unfoldable pub convert_row : List ℕ → List ℕ → List ℕ
unfolding convert_string
convert_row str [] = str
convert_row str (x ∷ xs) = convert_row (convert_string str x) xs

-- `NewInteract4Tree`. The tables' rows are made empty, and filled in order.
unfoldable pub new_interact4tree : List ℕ → Interact4Tree
new_interact4tree bytes = record {
  secret_string = [];
  y1_string = [];
  bits = convert_to_bit_string bytes;
  cand1 = [];
  secret = [];
}

-- The share of one bit, written at the end of the tables and of the texts.
unfoldable pub add_share : Interact4Tree → SecretShare → Interact4Tree
unfolding convert_row
add_share it share = record it {
  secret_string = convert_row it.secret_string share.s0;
  y1_string = convert_row it.y1_string share.y1;
  cand1 = it.cand1 ++ share.y1 ∷ [];
  secret = it.secret ++ share.s0 ∷ [];
}

-- The loop of `ShareCreate` over the bits that are left.
unfoldable pub share_loop : List ℕ → Interact4Tree → List ℕ → Option (Interact4Tree × List ℕ)
share_loop [] it draws = some (it, draws)
share_loop (bit ∷ bits) it draws = do
  (share, rest) ← starts (if bit == 48 then 0 else 1) draws
  share_loop bits (add_share it share) rest

-- The loop of `CheckShare` over rows and bits.
unfoldable pub check_rows : List (List ℕ) → List (List ℕ) → List ℕ → Bool
check_rows (s ∷ ss) (c ∷ cs) (b ∷ bs) = dot s c % 2 == b - 48 && check_rows ss cs bs
check_rows _ _ _ = true

unfoldable pub check_share : Interact4Tree → Bool
unfolding check_rows
check_share it = check_rows it.secret it.cand1 it.bits

unfoldable pub share_create : Interact4Tree → List ℕ → Option (Bool × Interact4Tree × List ℕ)
unfolding share_loop check_share
share_create it draws = do
  (it', rest) ← share_loop it.bits it draws
  some (check_share it', it', rest)

-- The test of `GetPvtShare` and of `GetPublicShare1` before they convert a text.
unfoldable pub share_bytes : List ℕ → Option (List ℕ)
share_bytes str = if length str == 0 || not_whole then some [] else convert_bit_string str
  where
    not_whole : Bool
    not_whole = if length str % 8 == 0 then false else true

unfoldable pub get_pvt_share : Interact4Tree → Option (List ℕ)
unfolding share_bytes
get_pvt_share it = share_bytes it.secret_string

unfoldable pub get_public_share1 : Interact4Tree → Option (List ℕ)
unfolding share_bytes
get_public_share1 it = share_bytes it.y1_string

-- `Gen2Shares`: the private and the public share, both nil where the check fails.
unfoldable pub gen2_shares : List ℕ → List ℕ → Option (List ℕ × List ℕ)
unfolding new_interact4tree share_create get_pvt_share get_public_share1
gen2_shares bytes draws = do
  (good, it, rest) ← share_create (new_interact4tree bytes) draws
  if good
      then (do pvt ← get_pvt_share it; pub1 ← get_public_share1 it; some (pvt, pub1))
      else some ([], [])
