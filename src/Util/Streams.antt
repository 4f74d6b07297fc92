-- ===== src/Util/Streams.antt =====
-- util/util.go: the conversions between texts of bits, arrays of bits and bytes agree.
use rubixgoplatform.Prelude.{
  ℕ, zero, suc, ◌+◌, ◌-◌, ◌*◌, ◌/◌, ◌%◌, ◌^◌, ◌≤◌, ◌<◌, List, [], ◌∷◌, ◌++◌, some, refl, ◌≡◌, take,
  drop, length, arith, All, ◌==◌, ltb, if◌then◌else◌, ap, ◌∙◌, sym, ne→==_false, length-take_le,
  take-length, inl, inr,
}
use mathlib.Core.List.{append_assoc, append-nil}
use rubixgoplatform.Nlss.Bits.{IsBitChar, byte_bits, bit_char}
use rubixgoplatform.Nlss.Bits.RoundTrip.{
  Rows, IsRow, row_values, digits_value, Rows-length, Rows-at, row_values-suc, to_bits,
  digits_value-lt-256,
}
use rubixgoplatform.Nlss.Share.Complies.{IsBit}
use rubixgoplatform.Nlss.Tree.Rows.{row_text, text}
use rubixgoplatform.Util.{
  int_array_to_str, string_to_int_array, byte_ints, byte_array_to_int_array, binary_digits,
  binary_number, binary_byte, bitstream_loop, bitstream_to_bytes,
}

abbrev pub flat : List (List ℕ) → List ℕ
flat [] = []
flat (r ∷ rs) = r ++ flat rs

pub row_text-append : (xs ys : List ℕ) → row_text (xs ++ ys) ≡ row_text xs ++ row_text ys
row_text-append [] ys = refl
row_text-append (x ∷ xs) ys = ap (λ z. (if x == 1 then 49 else 48) ∷ z) (row_text-append xs ys)

pub text-flat : (rs : List (List ℕ)) → text rs ≡ row_text (flat rs)
text-flat [] = refl
text-flat (r ∷ rs) = ap (λ z. row_text r ++ z) (text-flat rs) ∙ sym (row_text-append r (flat rs))

pub int_array_to_str-eq : (is : List ℕ) → int_array_to_str is ≡ row_text is
unfolding int_array_to_str
int_array_to_str-eq [] = refl
int_array_to_str-eq (i ∷ is) = ap (λ z. (if i == 1 then 49 else 48) ∷ z) (int_array_to_str-eq is)

pub string_to_int_array-row_text :
    (is : List ℕ) → All IsBit is → string_to_int_array (row_text is) ≡ is
unfolding string_to_int_array
string_to_int_array-row_text [] h = refl
string_to_int_array-row_text (i ∷ is) (b, h) = ground (arith, string_to_int_array-row_text is h)

bit_text : (b k : ℕ) → (if b / 2 ^ k % 2 == 1 then 49 else 48) ≡ bit_char b k
bit_text b k = ground arith

row_text-byte_ints : (b : ℕ) → row_text (byte_ints b) ≡ byte_bits b
row_text-byte_ints b =
    let e = bit_text b in λ i. e 7 i ∷ e 6 i ∷ e 5 i ∷ e 4 i ∷ e 3 i ∷ e 2 i ∷ e 1 i ∷ e 0 i ∷ []

-- The text of a byte slice's bits.
pub row_text-byte_array_to_int_array :
    (bs : List ℕ) → row_text (byte_array_to_int_array bs) ≡ to_bits bs
unfolding byte_array_to_int_array
row_text-byte_array_to_int_array [] = refl
row_text-byte_array_to_int_array (b ∷ bs) =
    row_text-append (byte_ints b) (byte_array_to_int_array bs)
    ∙ ap (λ z. row_text (byte_ints b) ++ z) (row_text-byte_array_to_int_array bs)
    ∙ ap (λ z. z ++ to_bits bs) (row_text-byte_ints b)

IsBit-mod : (b k : ℕ) → IsBit (b / 2 ^ k % 2)
IsBit-mod b k = omega arith

pub byte_array_to_int_array-IsBit : (bs : List ℕ) → All IsBit (byte_array_to_int_array bs)
unfolding byte_array_to_int_array
byte_array_to_int_array-IsBit [] = tt
byte_array_to_int_array-IsBit (b ∷ bs) =
    let e = IsBit-mod b in
    (e 7, (e 6, (e 5, (e 4, (e 3, (e 2, (e 1, (e 0, byte_array_to_int_array-IsBit bs))))))))

-- The array of the bits whose text is known.
pub byte_array_to_int_array-flat :
    (bs : List ℕ) (is : List ℕ)
    → All IsBit is
    → to_bits bs ≡ row_text is
    → byte_array_to_int_array bs ≡ is
byte_array_to_int_array-flat bs is h e =
    sym
      (string_to_int_array-row_text (byte_array_to_int_array bs) (byte_array_to_int_array-IsBit bs))
    ∙ ap string_to_int_array (row_text-byte_array_to_int_array bs ∙ e)
    ∙ string_to_int_array-row_text is h

binary-digits :
    (v : ℕ) (cs : List ℕ) → All IsBitChar cs → binary_digits v cs ≡ some (digits_value v cs)
unfolding binary_digits
binary-digits v [] h = refl
binary-digits v (c ∷ cs) (b, h) = ground (arith, binary-digits (2 * v + (c - 48)) cs h)

binary_byte-row : (r : List ℕ) → IsRow r → binary_byte r ≡ some (digits_value 0 r)
unfolding binary_byte binary_number
binary_byte-row [] h = absurd (omega (arith, h.0))
binary_byte-row (c ∷ cs) (l, (hc, h)) =
    let lt = digits_value-lt-256 (c ∷ cs) (l, (hc, h)) in
    rw
      (
        ne→==_false c 45 (no_sign 45 hc (omega arith)),
        ne→==_false c 43 (no_sign 43 hc (omega arith)),
      )
      (rw (binary-digits 0 (c ∷ cs) (hc, h)) (ap some (whole lt)))
  where
    no_sign : (k : ℕ) → IsBitChar c → k < 48 → c ≡ k → ⊥
    no_sign k (inl e) lt e' = omega arith
    no_sign k (inr e) lt e' = omega arith

    whole : digits_value 0 (c ∷ cs) < 256 → digits_value 0 (c ∷ cs) % 256 ≡ digits_value 0 (c ∷ cs)
    whole lt = omega arith

suc_add : (m n : ℕ) → suc m + n ≡ suc (m + n)
suc_add m n = omega arith

zero_add : (n : ℕ) → 0 + n ≡ n
zero_add n = omega arith

drop-take : (m n : ℕ) (xs : List ℕ) → drop m (take (m + n) xs) ≡ take n (drop m xs)
drop-take zero n xs = ap (λ k. take k xs) (zero_add n)
drop-take (suc m) zero [] = ap (λ k. drop (suc m) (take k [])) (suc_add m zero)
drop-take (suc m) (suc n) [] = ap (λ k. drop (suc m) (take k [])) (suc_add m (suc n))
drop-take (suc m) n (x ∷ xs) =
    ap (λ k. drop (suc m) (take k (x ∷ xs))) (suc_add m n) ∙ drop-take m n xs

take-take : (m n : ℕ) (xs : List ℕ) → take m (take (m + n) xs) ≡ take m xs
take-take zero n xs = refl
take-take (suc m) n [] = ap (λ k. take (suc m) (take k [])) (suc_add m n)
take-take (suc m) n (x ∷ xs) =
    ap (λ k. take (suc m) (take k (x ∷ xs))) (suc_add m n) ∙ ap (λ z. x ∷ z) (take-take m n xs)

next_eight : (n : ℕ) → 8 * suc n ≡ 8 * n + 8
next_eight n = omega arith

-- How much is left of `n + 1` whole bytes after a round.
cut : (n : ℕ) → (if ltb 8 (8 * suc n) then 8 * suc n - 8 else 0) ≡ 8 * n
cut n = ground arith

length-front : (n m : ℕ) (b : List ℕ) → n ≤ m → Rows m b → length (take (8 * n) b) ≡ 8 * n
length-front n m b le r = length-take_le (8 * n) b (omega (arith, Rows-length m b r))

abbrev row_at : ℕ → List ℕ → ℕ
row_at n b = digits_value 0 (take 8 (drop (8 * n) b))

bitstream_round :
    (fuel n m : ℕ) (b out : List ℕ)
    → suc n ≤ m
    → Rows m b
    → bitstream_loop (suc fuel) (take (8 * suc n) b) out ≡ (
        if 8 * n == 0
        then some (row_at n b ∷ out)
        else bitstream_loop fuel (take (8 * n) b) (row_at n b ∷ out))
unfolding bitstream_loop
bitstream_round fuel n m b out le r =
    rw
      (
        length-front (suc n) m b le r,
        cut n,
        ap (λ k. drop (8 * n) (take k b)) (next_eight n) ∙ drop-take (8 * n) 8 b,
        binary_byte-row (take 8 (drop (8 * n) b)) (Rows-at n m b le r),
      )
      (ap
        (λ z.
          if 8 * n == 0 then some (row_at n b ∷ out) else bitstream_loop fuel z (row_at n b ∷ out))
        (ap (λ k. take (8 * n) (take k b)) (next_eight n) ∙ take-take (8 * n) 8 b))

bitstream_loop-Rows :
    (fuel n m : ℕ) (b out : List ℕ)
    → n < fuel
    → suc n ≤ m
    → Rows m b
    → bitstream_loop fuel (take (8 * suc n) b) out ≡ some (row_values (suc n) b ++ out)
bitstream_loop-Rows zero n m b out f le r = elim f [ ]
bitstream_loop-Rows (suc fuel) zero m b out f le r = bitstream_round fuel zero m b out le r
bitstream_loop-Rows (suc fuel) (suc n) m b out f le r =
    bitstream_round fuel (suc n) m b out le r
    ∙ rw (ne→==_false (8 * suc n) 0 (omega arith)) (
        bitstream_loop-Rows fuel n m b (row_at (suc n) b ∷ out) (omega arith) (omega arith) r
        ∙ ap some (
            sym (append_assoc (row_values (suc n) b) (row_at (suc n) b ∷ []) out)
            ∙ ap (λ z. z ++ out) (sym (row_values-suc (suc n) b))))

-- `BitstreamToBytes` reads a text of whole bytes, of which there is at least one, as the values of
-- its rows.
pub bitstream_to_bytes-Rows :
    (n : ℕ) (b : List ℕ) → Rows (suc n) b → bitstream_to_bytes b ≡ some (row_values (suc n) b)
unfolding bitstream_to_bytes
bitstream_to_bytes-Rows n b r =
    let l = Rows-length (suc n) b r in
    ap (λ z. bitstream_loop (suc (length b)) z [])
      (sym (ap (λ k. take k b) (sym l) ∙ take-length b))
    ∙ bitstream_loop-Rows (suc (length b)) n (suc n) b [] (omega arith) (omega arith) r
    ∙ ap some (append-nil (row_values (suc n) b))
