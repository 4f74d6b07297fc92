-- ===== src/Nlss/Bits.antt =====
-- nlss/util.go: bytes to strings of the characters '0' and '1', and back. The two conversions of
-- util/util.go have the same text. A byte slice is a list of numbers, a string the list of its
-- bytes, and the empty and the nil slice are one: no caller tells them apart.
pub mod RoundTrip
use rubixgoplatform.Prelude.{
  ℕ, zero, suc, ◌+◌, ◌-◌, ◌*◌, ◌/◌, ◌%◌, ◌^◌, ◌<◌, List, [], ◌∷◌, ◌++◌, Option, none, some, ltb,
  ◌==◌, if◌then◌else◌, take, drop, length, ◌>>=◌, Bool, ◌⊎◌, ◌≡◌,
}

-- The character of a bit of `b`, as `%b` prints it.
abbrev pub bit_char : ℕ → ℕ → ℕ
bit_char b k = 48 + b / 2 ^ k % 2

-- `fmt.Sprintf("%08b", b)` for a byte.
abbrev pub byte_bits : ℕ → List ℕ
byte_bits b =
    bit_char b 7
    ∷ bit_char b 6
    ∷ bit_char b 5
    ∷ bit_char b 4
    ∷ bit_char b 3
    ∷ bit_char b 2
    ∷ bit_char b 1
    ∷ bit_char b 0
    ∷ []

-- The loop of `ConvertToBitString`, with what it has written.
unfoldable pub to_bits_from : List ℕ → List ℕ → List ℕ
to_bits_from bits [] = bits
to_bits_from bits (b ∷ bs) = to_bits_from (bits ++ byte_bits b) bs

unfoldable pub convert_to_bit_string : List ℕ → List ℕ
unfolding to_bits_from
convert_to_bit_string bytes = to_bits_from [] bytes

-- `strconv.ParseUint(str, 2, 8)` after its first digit: an error on another character.
unfoldable pub parse_digits : ℕ → List ℕ → Option ℕ
parse_digits v [] = some v
parse_digits v (c ∷ cs) =
    if c == 48
    then parse_digits (2 * v) cs
    else if c == 49
    then parse_digits (2 * v + 1) cs
    else none

-- It refuses the empty text, and a value that does not fit in 8 bits.
unfoldable pub parse_uint8 : List ℕ → Option ℕ
unfolding parse_digits
parse_uint8 [] = none
parse_uint8 (c ∷ cs) = do v ← parse_digits 0 (c ∷ cs); if ltb v 256 then some v else none

-- The piece `b[i-8 : i]`, or `b[0:i]` where fewer are left.
abbrev pub piece : List ℕ → ℕ → List ℕ
piece b i = if ltb i 8 then take i b else take 8 (drop (i - 8) b)

-- The loop of `ConvertBitString`, from the end; `none` is its panic, or no fuel.
unfoldable pub from_bits_loop : ℕ → List ℕ → ℕ → List ℕ → Option (List ℕ)
unfolding parse_uint8
from_bits_loop zero b i out = none
from_bits_loop (suc fuel) b i out =
    let rest = λ (v : ℕ). from_bits_loop fuel b (i - 8) (v ∷ out) in
    if i == 0 then some out else (parse_uint8 (piece b i) >>= rest)

unfoldable pub convert_bit_string : List ℕ → Option (List ℕ)
unfolding from_bits_loop
convert_bit_string b = from_bits_loop (suc (length b)) b (length b) []

abbrev pub IsBitChar : ℕ → Type 0
IsBitChar c = (c ≡ 48) ⊎ (c ≡ 49)

abbrev pub IsByte : ℕ → Type 0
IsByte b = b < 256
