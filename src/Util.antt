-- ===== src/Util.antt =====
-- util/util.go: bits as arrays of integers, and the positions that a signature reads. A string is the
-- list of its bytes. `sha3_hex` is the hexadecimal text of a SHA3-256 sum, which a library computes.
pub mod Streams
pub mod Blocks
pub mod Positions
pub mod Signer
pub mod Dots
use rubixgoplatform.Prelude.{
  ℕ, zero, suc, ◌+◌, ◌-◌, ◌*◌, ◌/◌, ◌%◌, ◌^◌, List, [], ◌∷◌, ◌++◌, Option, none, some, ltb, leb,
  ◌==◌, if◌then◌else◌, length, get_elem?, take, drop, ◌>>=◌, Bool, ◌&&◌,
}

-- `GetPrivatePositions`: an index out of range is a panic.
unfoldable pub get_private_positions : List ℕ → List ℕ → Option (List ℕ)
get_private_positions [] bits = some []
get_private_positions (a ∷ positions) bits = do
  b ← get_elem? bits a
  rest ← get_private_positions positions bits
  some (b ∷ rest)

unfoldable pub int_array_to_str : List ℕ → List ℕ
int_array_to_str [] = []
int_array_to_str (i ∷ is) = (if i == 1 then 49 else 48) ∷ int_array_to_str is

unfoldable pub string_to_int_array : List ℕ → List ℕ
string_to_int_array [] = []
string_to_int_array (c ∷ cs) = (if c == 49 then 1 else 0) ∷ string_to_int_array cs

-- `b >> uint(7-j) & 0x01` for j from 0 to 7.
abbrev pub byte_ints : ℕ → List ℕ
byte_ints b =
    b / 2 ^ 7 % 2
    ∷ b / 2 ^ 6 % 2
    ∷ b / 2 ^ 5 % 2
    ∷ b / 2 ^ 4 % 2
    ∷ b / 2 ^ 3 % 2
    ∷ b / 2 ^ 2 % 2
    ∷ b / 2 ^ 1 % 2
    ∷ b / 2 ^ 0 % 2
    ∷ []

unfoldable pub byte_array_to_int_array : List ℕ → List ℕ
byte_array_to_int_array [] = []
byte_array_to_int_array (b ∷ bs) = byte_ints b ++ byte_array_to_int_array bs

-- The digits of `strconv.ParseInt(text, 2, 64)`.
unfoldable pub binary_digits : ℕ → List ℕ → Option ℕ
binary_digits v [] = some v
binary_digits v (c ∷ cs) =
    let rest = binary_digits (2 * v + (c - 48)) cs in if leb 48 c && leb c 49 then rest else none

-- At least one digit.
unfoldable pub binary_number : List ℕ → Option ℕ
unfolding binary_digits
binary_number [] = none
binary_number (c ∷ cs) = binary_digits 0 (c ∷ cs)

-- `byte(temp)` for the value of a text, which may have a sign. A text of at most eight bytes is in
-- the range of 64 bits.
unfoldable pub binary_byte : List ℕ → Option ℕ
unfolding binary_number
binary_byte [] = none
binary_byte (c ∷ cs) =
    if c == 45
    then (binary_number cs >>= λ v. some ((256 - v % 256) % 256))
    else (binary_number (if c == 43 then cs else c ∷ cs) >>= λ v. some (v % 256))

-- The loop of `BitstreamToBytes`; `none` is its error, or no fuel.
unfoldable pub bitstream_loop : ℕ → List ℕ → List ℕ → Option (List ℕ)
unfolding binary_byte
bitstream_loop zero str result = none
bitstream_loop (suc fuel) str result =
    let l = if ltb 8 (length str) then length str - 8 else 0 in
    let rest = λ (b : ℕ). bitstream_loop fuel (take l str) (b ∷ result) in
    binary_byte (drop l str) >>= λ b. if l == 0 then some (b ∷ result) else rest b

-- Each round but the last leaves eight bytes less.
unfoldable pub bitstream_to_bytes : List ℕ → Option (List ℕ)
unfolding bitstream_loop
bitstream_to_bytes stream = bitstream_loop (suc (length stream)) stream []

-- `strconv.ParseInt(string(c), 16, 32)` for one byte.
unfoldable pub hex_value : ℕ → Option ℕ
hex_value c =
    if leb 48 c && leb c 57
    then some (c - 48)
    else if leb 97 c && leb c 102
    then some (c - 87)
    else if leb 65 c && leb c 70
    then some (c - 55)
    else none

-- `originalPos[k] = p`.
unfoldable pub set_elem? : List ℕ → ℕ → ℕ → Option (List ℕ)
set_elem? [] k p = none
set_elem? (x ∷ xs) zero p = some (p ∷ xs)
set_elem? (x ∷ xs) (suc k) p = do rest ← set_elem? xs k p; some (x ∷ rest)

-- The start of the block of eight bits that a hexadecimal digit selects in round `k`.
unfoldable pub block_start : ℕ → ℕ → ℕ
block_start k h = ((2402 + h) * 2709 + (k + 2709 + h)) % 2048 / 8 * 8

abbrev pub eight_from : ℕ → List ℕ
eight_from p = p ∷ (p + 1) ∷ (p + 2) ∷ (p + 3) ∷ (p + 4) ∷ (p + 5) ∷ (p + 6) ∷ (p + 7) ∷ []

unfoldable pub zeros : ℕ → List ℕ
zeros zero = []
zeros (suc n) = 0 ∷ zeros n

module _ (sha3_hex : List ℕ → List ℕ) where
  -- The loop of `RandomPositions` from `k` on, with the rounds left: the array `originalPos`, and the
  -- part of `posForSign` that these rounds write. The signer reads the bits of its share at the
  -- positions, the verifier the next eight bits of what it is given. A digit that is not hexadecimal
  -- makes the function return nil, which no caller tests: that is a panic too.
  unfoldable pub positions_loop : Bool → ℕ → ℕ → List ℕ → List ℕ → List ℕ → Option (List ℕ × List ℕ)
  positions_loop signer zero k hash original pvt = some (original, [])
  positions_loop signer (suc n) k hash original pvt = do
    c ← get_elem? hash k
    h ← hex_value c
    let p = block_start k h
    original' ← set_elem? original k p
    p1 ← get_private_positions (if signer then eight_from p else eight_from (8 * k)) pvt
    let hash' = sha3_hex (hash ++ int_array_to_str original' ++ int_array_to_str p1)
    (final, rest) ← positions_loop signer n (suc k) hash' original' pvt
    some (final, eight_from p ++ rest)

  -- `RandomPositions` with 32 positions, as every caller asks for.
  unfoldable pub random_positions : Bool → List ℕ → List ℕ → Option (List ℕ × List ℕ)
  unfolding positions_loop zeros
  random_positions signer hash pvt = positions_loop signer 32 0 hash (zeros 32) pvt

-- The inner loop of `GetPos`: products of character codes.
unfoldable pub code_dot : List ℕ → List ℕ → ℕ
code_dot [] qs = 0
code_dot (p ∷ ps) [] = 0
code_dot (p ∷ ps) (q ∷ qs) = p * q + code_dot ps qs

-- The outer loop, with the rounds left: `Itoa` of a parity is one digit.
unfoldable pub get_pos_loop : ℕ → List ℕ → List ℕ → List ℕ
unfolding code_dot
get_pos_loop zero s1 s2 = []
get_pos_loop (suc n) s1 s2 =
    (48 + code_dot (take 8 s1) (take 8 s2) % 2) ∷ get_pos_loop n (drop 8 s1) (drop 8 s2)

-- `GetPos`: texts of unequal lengths give the empty text, and a last block that is not whole a panic.
unfoldable pub get_pos : List ℕ → List ℕ → Option (List ℕ)
unfolding get_pos_loop
get_pos s1 s2 =
    if length s1 == length s2 && ltb 0 (length s1)
    then if length s1 % 8 == 0 then some (get_pos_loop (length s1 / 8) s1 s2) else none
    else some []
