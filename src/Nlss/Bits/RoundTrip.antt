-- ===== src/Nlss/Bits/RoundTrip.antt =====
-- nlss/util.go: the two conversions are inverse to one another.
use rubixgoplatform.Prelude.{
  ℕ, zero, suc, ◌+◌, ◌-◌, ◌*◌, ◌≤◌, ◌<◌, List, [], ◌∷◌, ◌++◌, some, refl, ◌≡◌, take, drop, length,
  arith, All, ◌==◌, ap, ◌∙◌, sym, subst, lt→ltb, le→ltb_false, ne→==_false, length-take-drop,
  take-append-drop, holds_below, holds_below-at, ==_iff, true, drop-drop, inl, inr,
}
use mathlib.Core.Path.{ap₂}
use mathlib.Core.List.{append_assoc, append-nil}
use rubixgoplatform.Nlss.Bits.{
  bit_char, byte_bits, convert_to_bit_string, to_bits_from, convert_bit_string, from_bits_loop,
  parse_digits, parse_uint8, piece, IsByte, IsBitChar,
}

-- The value of a text of bit characters, most significant first, after the value `v`.
abbrev pub digits_value : ℕ → List ℕ → ℕ
digits_value v [] = v
digits_value v (c ∷ cs) = digits_value (2 * v + (c - 48)) cs

abbrev pub row_values : ℕ → List ℕ → List ℕ
row_values zero b = []
row_values (suc n) b = digits_value 0 (take 8 b) ∷ row_values n (drop 8 b)

abbrev pub IsRow : List ℕ → Type 0
IsRow r = (length r ≡ 8) × All IsBitChar r

-- A text of `n` whole bytes.
abbrev pub Rows : ℕ → List ℕ → Type 0
Rows zero b = b ≡ []
Rows (suc n) b = IsRow (take 8 b) × Rows n (drop 8 b)

parse-digits :
    (v : ℕ) (cs : List ℕ) → All IsBitChar cs → parse_digits v cs ≡ some (digits_value v cs)
unfolding parse_digits
parse-digits v [] h = refl
parse-digits v (c ∷ cs) (inl e, h) =
    ground (arith, parse-digits (2 * v + (c - 48)) cs h, ap (λ k. parse_digits k cs) (shift v c e))
  where
    shift : (v c : ℕ) → c ≡ 48 → 2 * v ≡ 2 * v + (c - 48)
    shift v c e = omega arith
parse-digits v (c ∷ cs) (inr e, h) =
    ground (arith, parse-digits (2 * v + (c - 48)) cs h, ap (λ k. parse_digits k cs) (shift v c e))
  where
    shift : (v c : ℕ) → c ≡ 49 → 2 * v + 1 ≡ 2 * v + (c - 48)
    shift v c e = omega arith

abbrev doubled : ℕ → ℕ → ℕ
doubled k zero = k
doubled k (suc n) = doubled (2 * k) n

digits_value-lt :
    (k v : ℕ) (cs : List ℕ) → v < k → All IsBitChar cs → digits_value v cs < doubled k (length cs)
digits_value-lt k v [] lt h = lt
digits_value-lt k v (c ∷ cs) lt (hc, h) =
    digits_value-lt (2 * k) (2 * v + (c - 48)) cs (ground arith) h

pub digits_value-lt-256 : (r : List ℕ) → IsRow r → digits_value 0 r < 256
digits_value-lt-256 r (l, h) =
    subst (λ n. digits_value 0 r < doubled 1 n) l (digits_value-lt 1 0 r (omega arith) h)

parse-row : (r : List ℕ) → IsRow r → parse_uint8 r ≡ some (digits_value 0 r)
unfolding parse_uint8
parse-row [] h = absurd (omega (arith, h.0))
parse-row (c ∷ cs) (l, h) =
    rw (parse-digits 0 (c ∷ cs) h) (rw (lt→ltb _ _ (digits_value-lt-256 (c ∷ cs) (l, h))) refl)

eight_more : (n : ℕ) → 8 + 8 * n ≡ 8 * suc n
eight_more n = omega arith

pub Rows-at : (n m : ℕ) (b : List ℕ) → n < m → Rows m b → IsRow (take 8 (drop (8 * n) b))
Rows-at n zero b h r = elim h [ ]
Rows-at zero (suc m) b h r = r.0
Rows-at (suc n) (suc m) b h r =
    subst (λ xs. IsRow (take 8 xs)) (drop-drop (8 * n) 8 b ∙ ap (λ k. drop k b) (eight_more n))
      (Rows-at n m (drop 8 b) (omega arith) r.1)

pub row_values-suc :
    (n : ℕ) (b : List ℕ)
    → row_values (suc n) b ≡ row_values n b ++ digits_value 0 (take 8 (drop (8 * n) b)) ∷ []
row_values-suc zero b = refl
row_values-suc (suc n) b = ap (◌∷◌ (digits_value 0 (take 8 b))) (
    row_values-suc n (drop 8 b)
    ∙ ap (λ xs. row_values n (drop 8 b) ++ digits_value 0 (take 8 xs) ∷ [])
        (drop-drop (8 * n) 8 b ∙ ap (λ k. drop k b) (eight_more n)))

less : (n : ℕ) → 8 * suc n - 8 ≡ 8 * n
less n = omega arith

piece-eight : (b : List ℕ) (n : ℕ) → piece b (8 * suc n) ≡ take 8 (drop (8 * n) b)
piece-eight b n =
    rw (le→ltb_false (8 * suc n) 8 (omega arith)) (ap (λ k. take 8 (drop k b)) (omega arith))

pub Rows-length : (n : ℕ) (b : List ℕ) → Rows n b → length b ≡ 8 * n
Rows-length zero b h = ap length h
Rows-length (suc n) b (row, h) =
    omega (arith, length-take-drop 8 b, row.0, Rows-length n (drop 8 b) h)

from_bits_loop-Rows :
    (fuel n m : ℕ) (b out : List ℕ)
    → n < fuel
    → n ≤ m
    → Rows m b
    → from_bits_loop fuel b (8 * n) out ≡ some (row_values n b ++ out)
unfolding from_bits_loop
from_bits_loop-Rows zero n m b out f h r = elim f [ ]
from_bits_loop-Rows (suc fuel) zero m b out f h r = refl
from_bits_loop-Rows (suc fuel) (suc n) m b out f h r =
    rw
      (
        ne→==_false (8 * suc n) 0 (omega arith),
        piece-eight b n,
        parse-row _ (Rows-at n m b (omega arith) r),
        less n,
        from_bits_loop-Rows fuel n m b (digits_value 0 (take 8 (drop (8 * n) b)) ∷ out)
            (omega arith) (omega arith) r,
      )
      (ap some (
        sym (append_assoc (row_values n b) _ out)
        ∙ ap (λ xs. xs ++ out) (sym (row_values-suc n b))))

-- The text of `n` whole bytes is read as the values of its rows.
pub convert_bit_string-Rows :
    (n : ℕ) (b : List ℕ) → Rows n b → convert_bit_string b ≡ some (row_values n b)
unfolding convert_bit_string
convert_bit_string-Rows n b r = rw (Rows-length n b r) (
    from_bits_loop-Rows (suc (8 * n)) n n b [] (omega arith) (omega arith) r
    ∙ ap some (append-nil (row_values n b)))

pub row_values-IsByte : (n : ℕ) (b : List ℕ) → Rows n b → All IsByte (row_values n b)
row_values-IsByte zero b r = tt
row_values-IsByte (suc n) b (row, r) =
    (digits_value-lt-256 (take 8 b) row, row_values-IsByte n (drop 8 b) r)

abbrev pub to_bits : List ℕ → List ℕ
to_bits [] = []
to_bits (b ∷ bs) = byte_bits b ++ to_bits bs

to_bits_from-eq : (bits bs : List ℕ) → to_bits_from bits bs ≡ bits ++ to_bits bs
unfolding to_bits_from
to_bits_from-eq bits [] = sym (append-nil bits)
to_bits_from-eq bits (b ∷ bs) =
    to_bits_from-eq (bits ++ byte_bits b) bs ∙ append_assoc bits (byte_bits b) (to_bits bs)

pub convert_to_bit_string-eq : (bs : List ℕ) → convert_to_bit_string bs ≡ to_bits bs
unfolding convert_to_bit_string
convert_to_bit_string-eq bs = to_bits_from-eq [] bs

bit_char-IsBitChar : (b k : ℕ) → IsBitChar (bit_char b k)
bit_char-IsBitChar b k = ground arith

byte_bits-IsRow : (b : ℕ) → IsRow (byte_bits b)
byte_bits-IsRow b =
    let at = bit_char-IsBitChar b in
    (refl, (at 7, (at 6, (at 5, (at 4, (at 3, (at 2, (at 1, (at 0, tt)))))))))

pub to_bits-Rows : (bs : List ℕ) → Rows (length bs) (to_bits bs)
to_bits-Rows [] = refl
to_bits-Rows (b ∷ bs) = (byte_bits-IsRow b, to_bits-Rows bs)

byte_table : holds_below 256 (λ b. digits_value 0 (byte_bits b) == b) ≡ true
unfolding holds_below
byte_table = refl

digits_value-byte_bits : (b : ℕ) → b < 256 → digits_value 0 (byte_bits b) ≡ b
digits_value-byte_bits b h = (==_iff _ b).0 (holds_below-at 256 _ b h byte_table)

row_values-to_bits : (bs : List ℕ) → All IsByte bs → row_values (length bs) (to_bits bs) ≡ bs
row_values-to_bits [] h = refl
row_values-to_bits (b ∷ bs) (hb, h) = rw (digits_value-byte_bits b hb, row_values-to_bits bs h) refl

bit_of : (c : ℕ) → IsBitChar c → (48 ≤ c) × (c ≤ 49)
bit_of c h = ground arith

eight_bits :
    (a b c d e f g h : ℕ)
    → All IsBitChar (a ∷ b ∷ c ∷ d ∷ e ∷ f ∷ g ∷ h ∷ [])
    → byte_bits (digits_value 0 (a ∷ b ∷ c ∷ d ∷ e ∷ f ∷ g ∷ h ∷ []))
      ≡ a ∷ b ∷ c ∷ d ∷ e ∷ f ∷ g ∷ h ∷ []
eight_bits a b c d e f g h (ha, (hb, (hc, (hd, (he, (hf, (hg, (hh, _)))))))) =
    let ba = bit_of a ha in
    let bb = bit_of b hb in
    let bc = bit_of c hc in
    let bd = bit_of d hd in
    let be = bit_of e he in
    let bf = bit_of f hf in let bg = bit_of g hg in let bh = bit_of h hh in ground arith

byte_bits-digits_value : (r : List ℕ) → IsRow r → byte_bits (digits_value 0 r) ≡ r
byte_bits-digits_value (a ∷ b ∷ c ∷ d ∷ e ∷ f ∷ g ∷ h ∷ []) (l, hs) = eight_bits a b c d e f g h hs
byte_bits-digits_value _ (l, hs) = absurd (omega arith)

pub to_bits-row_values : (n : ℕ) (b : List ℕ) → Rows n b → to_bits (row_values n b) ≡ b
to_bits-row_values zero b h = sym h
to_bits-row_values (suc n) b (row, h) =
    ap₂ ◌++◌ (byte_bits-digits_value (take 8 b) row) (to_bits-row_values n (drop 8 b) h)
    ∙ take-append-drop 8 b

pub to_bits-IsBitChar : (bs : List ℕ) → All IsBitChar (to_bits bs)
to_bits-IsBitChar [] = tt
to_bits-IsBitChar (b ∷ bs) =
    let at = bit_char-IsBitChar b in
    (at 7, (at 6, (at 5, (at 4, (at 3, (at 2, (at 1, (at 0, to_bits-IsBitChar bs))))))))

pub convert_to_bit_string-IsBitChar : (bs : List ℕ) → All IsBitChar (convert_to_bit_string bs)
convert_to_bit_string-IsBitChar bs =
    subst (All IsBitChar) (sym (convert_to_bit_string-eq bs)) (to_bits-IsBitChar bs)

-- Every byte slice comes back from its bit string.
pub convert_bit_string-convert_to_bit_string :
    (bytes : List ℕ)
    → All IsByte bytes
    → convert_bit_string (convert_to_bit_string bytes) ≡ some bytes
convert_bit_string-convert_to_bit_string bytes h = rw (convert_to_bit_string-eq bytes) (
    convert_bit_string-Rows (length bytes) (to_bits bytes) (to_bits-Rows bytes)
    ∙ ap some (row_values-to_bits bytes h))
