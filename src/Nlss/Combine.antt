-- ===== src/Nlss/Combine.antt =====
-- nlss/interact4tree.go: shares put together again. A `none` is a panic.
pub mod Recovers
pub mod Modes
pub mod Total
pub mod EncodedShares
use rubixgoplatform.Prelude.{
  ℕ, zero, suc, ◌+◌, ◌*◌, ◌-◌, ◌/◌, ◌%◌, List, [], ◌∷◌, ◌++◌, Option, none, some, ◌==◌, ltb, leb,
  if◌then◌else◌, length, take, drop, ◌>>=◌, Bool, true, false, ◌&&◌, not,
}
use rubixgoplatform.Nlss.Bits.{convert_to_bit_string, convert_bit_string}
use rubixgoplatform.Nlss.Tree.{convert_string, gen2_shares}

-- The inner loop of `Combine2Shares`: `int(p[j]-0x30) * int(q[j]-0x30)`, the differences as bytes.
unfoldable pub char_dot : List ℕ → List ℕ → ℕ
char_dot [] qs = 0
char_dot (p ∷ ps) [] = 0
char_dot (p ∷ ps) (q ∷ qs) = (p + 256 - 48) % 256 * ((q + 256 - 48) % 256) + char_dot ps qs

-- The outer loop, with the rounds left. Both texts come from whole bytes.
unfoldable pub combine_loop : ℕ → List ℕ → List ℕ → List ℕ → List ℕ
unfolding char_dot convert_string
combine_loop zero ps qs temp = temp
combine_loop (suc n) ps qs temp =
    combine_loop n (drop 8 ps) (drop 8 qs)
      (convert_string temp (char_dot (take 8 ps) (take 8 qs) % 2))

unfoldable pub combine2_shares : List ℕ → List ℕ → Option (List ℕ)
unfolding combine_loop
combine2_shares pvt pub1 =
    let ps = convert_to_bit_string pvt in
    let qs = convert_to_bit_string pub1 in
    if length ps == length qs
    then convert_bit_string (combine_loop (length ps / 8) ps qs [])
    else some []

-- Share types and modes.
abbrev pub private_share : ℕ
private_share = 0

abbrev pub essential_share : ℕ
essential_share = 1

abbrev pub public_share : ℕ
public_share = 2

-- `other` is a byte that is none of the four constants.
pub data ShareMode : Type 0 where
  two1x2 four1x4 four1x6 four1x9 other : ShareMode

-- `GetNumShares`.
unfoldable pub get_num_shares : ShareMode → ℕ
get_num_shares two1x2 = 2
get_num_shares four1x4 = 4
get_num_shares four1x6 = 6
get_num_shares four1x9 = 9
get_num_shares other = 0

pub record ShareFormat : Type 0 where
  pub share_id : ℕ
  pub share_type : ℕ
  pub share_bytes : List ℕ

-- The map from a byte to a share is a function; a missing entry is a nil pointer.
pub record Shares : Type 0 where
  pub num_shares : ℕ
  pub mode : ShareMode
  pub share : ℕ → Option ShareFormat

-- `GenShares`: only the first mode is implemented; for the others it returns nil.
unfoldable pub gen_shares : List ℕ → ShareMode → List ℕ → Option (Option Shares)
gen_shares bytes mode draws = do
  (temp1, temp2) ← gen2_shares bytes draws
  some (elim mode [
    | two1x2 ↦ some (record {
      num_shares = 2;
      mode = two1x2;
      share = λ i.
          if i == 0
          then some (record { share_id = 0; share_type = private_share; share_bytes = temp1 })
          else if i == 1
          then some (record { share_id = 1; share_type = private_share; share_bytes = temp2 })
          else none;
    })
    | _ ↦ none
  ])

abbrev matches : ShareFormat → ℕ → ℕ → Bool
matches f id t = f.share_id == id && f.share_type == t

-- The loop of `IsShareFound` from `i` on, in `n` rounds: the number of matches.
unfoldable pub count_shares : ℕ → ℕ → Shares → ℕ → ℕ → Option ℕ
count_shares zero i s id t = some 0
count_shares (suc n) i s id t = do
  f ← s.share i
  count ← count_shares n (suc i) s id t
  some (if matches f id t then suc count else count)

-- `IsShareFound`: its flag is whether the count is positive.
unfoldable pub is_share_found : Shares → ℕ → ℕ → Option (Bool × ℕ)
unfolding count_shares
is_share_found s id t = do count ← count_shares s.num_shares 0 s id t; some (ltb 0 count, count)

-- The loop of `GetShareBytes` from `i` on, in `n` rounds, `index` matches before the one wanted.
unfoldable pub find_share : ℕ → ℕ → Shares → ℕ → ℕ → ℕ → Option (List ℕ)
find_share zero i s id t index = some []
find_share (suc n) i s id t index = do
  f ← s.share i
  let rest = find_share n (suc i) s id t (if matches f id t then index - 1 else index)
  if matches f id t && index == 0 then some f.share_bytes else rest

unfoldable pub get_share_bytes : Shares → ℕ → ℕ → ℕ → Option (List ℕ)
unfolding find_share
get_share_bytes s id t index = find_share s.num_shares 0 s id t index

-- The early returns of `CombineShares`: nil unless enough such shares are found.
unfoldable pub require : Shares → ℕ → ℕ → ℕ → Option (List ℕ) → Option (List ℕ)
unfolding is_share_found
require s id t least continue = do
  (found, count) ← is_share_found s id t
  if found && leb least count then continue else some []

-- Two shares, each named by its identifier, its type and its index, put together.
unfoldable pub combine_pair : Shares → ℕ × ℕ × ℕ → ℕ × ℕ × ℕ → Option (List ℕ)
unfolding get_share_bytes
combine_pair s (id1, t1, i1) (id2, t2, i2) = do
  a ← get_share_bytes s id1 t1 i1
  b ← get_share_bytes s id2 t2 i2
  combine2_shares a b

unfoldable pub combine_two_pairs :
    Shares → ℕ × ℕ × ℕ → ℕ × ℕ × ℕ → ℕ × ℕ × ℕ → ℕ × ℕ × ℕ → Option (List ℕ)
unfolding combine_pair
combine_two_pairs s p q p' q' = do
  temp1 ← combine_pair s p q
  temp2 ← combine_pair s p' q'
  combine2_shares temp1 temp2

-- The last step of mode 1x9, with the identifier that the source has set.
unfoldable pub combine_essential : Shares → ℕ → Option (List ℕ)
unfolding combine_two_pairs
combine_essential s id =
    combine_two_pairs s (0, private_share, 0) (0, public_share, 0) (id, essential_share, 0)
      (id, public_share, 0)

-- The choice of an essential share in mode 1x9: the identifier is set to 0 for share 1, and to 1
-- for share 2.
unfoldable pub choose_essential : Shares → Option (List ℕ)
unfolding combine_essential require
choose_essential s = do
  (found1, count1) ← is_share_found s 1 essential_share
  if found1
      then require s 1 public_share 0 (combine_essential s 0)
      else require s 2 essential_share 0 (require s 2 public_share 0 (combine_essential s 1))

-- `Combine2Shares(s.Share[0].ShareBytes, s.Share[1].ShareBytes)`.
unfoldable pub combine_first_two : Shares → Option (List ℕ)
combine_first_two s = do f ← s.share 0; g ← s.share 1; combine2_shares f.share_bytes g.share_bytes

-- `CombineShares`.
unfoldable pub combine_shares : Shares → Option (List ℕ)
unfolding choose_essential combine_first_two
combine_shares s = elim s.mode [
  | two1x2 ↦
      if s.num_shares == 2
      then require s 0 private_share 0 (require s 1 private_share 0 (combine_first_two s))
      else some []
  | four1x4 ↦
      if s.num_shares == 4
      then require s 0 private_share 2 (
          require s 1 private_share 2 (
            combine_two_pairs s (0, private_share, 0) (0, private_share, 1) (1, private_share, 0)
              (1, private_share, 1)))
      else some []
  | four1x6 ↦
      if ltb s.num_shares 4
      then some []
      else require s 0 private_share 0 (
          require s 0 public_share 0 (
            require s 1 private_share 0 (
              require s 1 public_share 0 (
                combine_two_pairs s (0, private_share, 0) (0, public_share, 0) (1, private_share, 0)
                  (1, public_share, 0)))))
  | four1x9 ↦
      if ltb s.num_shares 4
      then some []
      else require s 0 private_share 0 (require s 0 public_share 0 (choose_essential s))
  | other ↦ some []
]
