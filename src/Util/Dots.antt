-- ===== src/Util/Dots.antt =====
-- util/util.go and nlss/interact4tree.go: `GetPos` and the loop of `Combine2Shares` write the same
-- text.
use rubixgoplatform.Prelude.{
  ℕ, zero, suc, ◌+◌, ◌*◌, ◌-◌, ◌/◌, ◌%◌, List, [], ◌∷◌, ◌++◌, some, refl, ◌≡◌, length, take, drop,
  arith, All, All-take, ◌==◌, ==_refl, lt→ltb, ap, ◌∙◌, sym, inl, inr, Bool-cases, true, false,
}
use mathlib.Core.List.{append_assoc, append-nil}
use rubixgoplatform.Nlss.Bits.{IsBitChar}
use rubixgoplatform.Nlss.Tree.{convert_string}
use rubixgoplatform.Nlss.Combine.{char_dot, combine_loop}
use rubixgoplatform.Util.{code_dot, get_pos_loop, get_pos}

even_sum : (a b a' b' : ℕ) → a % 2 ≡ a' % 2 → b % 2 ≡ b' % 2 → (a + b) % 2 ≡ (a' + b') % 2
even_sum a b a' b' h k = omega arith

product :
    (p q : ℕ)
    → IsBitChar p
    → IsBitChar q
    → (p * q) % 2 ≡ ((p + 256 - 48) % 256 * ((q + 256 - 48) % 256)) % 2
product p q (inl hp) (inl hq) = rw (hp, hq) refl
product p q (inl hp) (inr hq) = rw (hp, hq) refl
product p q (inr hp) (inl hq) = rw (hp, hq) refl
product p q (inr hp) (inr hq) = rw (hp, hq) refl

dots :
    (xs ys : List ℕ) → All IsBitChar xs → All IsBitChar ys → code_dot xs ys % 2 ≡ char_dot xs ys % 2
unfolding code_dot char_dot
dots [] ys h k = refl
dots (x ∷ xs) [] h k = refl
dots (x ∷ xs) (y ∷ ys) (hx, h) (hy, k) =
    even_sum (x * y) (code_dot xs ys) _ (char_dot xs ys) (product x y hx hy) (dots xs ys h k)

one : (n : ℕ) → (n % 2 == 1) ≡ true → 49 ≡ 48 + n % 2
one n e = ground arith

none_left : (n : ℕ) → (n % 2 == 1) ≡ false → 48 ≡ 48 + n % 2
none_left n e = ground arith

digit : (temp : List ℕ) (n : ℕ) → convert_string temp (n % 2) ≡ temp ++ (48 + n % 2) ∷ []
unfolding convert_string
digit temp n = elim (Bool-cases (n % 2 == 1)) [
  | inl e ↦ rw e (ap (λ c. temp ++ c ∷ []) (one n e))
  | inr e ↦ rw e (ap (λ c. temp ++ c ∷ []) (none_left n e))
]

All-drop : (n : ℕ) (xs : List ℕ) → All IsBitChar xs → All IsBitChar (drop n xs)
All-drop zero xs h = h
All-drop (suc n) [] h = tt
All-drop (suc n) (x ∷ xs) (hx, h) = All-drop n xs h

combine_loop-get_pos_loop :
    (n : ℕ) (ps qs temp : List ℕ)
    → All IsBitChar ps
    → All IsBitChar qs
    → combine_loop n ps qs temp ≡ temp ++ get_pos_loop n ps qs
unfolding combine_loop get_pos_loop
combine_loop-get_pos_loop zero ps qs temp h k = sym (append-nil temp)
combine_loop-get_pos_loop (suc n) ps qs temp h k =
    let same =
      dots (take 8 ps) (take 8 qs) (All-take IsBitChar 8 ps h) (All-take IsBitChar 8 qs k) in
    ap (combine_loop n (drop 8 ps) (drop 8 qs))
      (ap (convert_string temp) (sym same) ∙ digit temp (code_dot (take 8 ps) (take 8 qs)))
    ∙ combine_loop-get_pos_loop n (drop 8 ps) (drop 8 qs) _ (All-drop 8 ps h) (All-drop 8 qs k)
    ∙ append_assoc temp _ _

-- On two texts of the same number of whole bytes, at least one, `GetPos` gives the text that
-- `Combine2Shares` converts to bytes.
pub get_pos-combine_loop :
    (n : ℕ) (ps qs : List ℕ)
    → length ps ≡ 8 * suc n
    → length qs ≡ 8 * suc n
    → All IsBitChar ps
    → All IsBitChar qs
    → get_pos ps qs ≡ some (combine_loop (suc n) ps qs [])
unfolding get_pos
get_pos-combine_loop n ps qs lp lq h k =
    rw (lp, lq, ==_refl (8 * suc n), lt→ltb 0 (8 * suc n) (omega arith), whole n, eighth n)
      (ap some (sym (combine_loop-get_pos_loop (suc n) ps qs [] h k)))
  where
    eighth : (n : ℕ) → 8 * suc n / 8 ≡ suc n
    eighth n = omega arith

    whole : (n : ℕ) → (8 * suc n % 8 == 0) ≡ true
    whole n = ground arith
