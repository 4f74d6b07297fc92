-- ===== src/Util/Blocks.antt =====
-- util/util.go: reading blocks of eight bits out of an array.
use rubixgoplatform.Prelude.{
  ℕ, zero, suc, ◌+◌, ◌*◌, ◌<◌, List, [], ◌∷◌, ◌++◌, some, refl, ◌≡◌, take, drop, length, get_elem?,
  get_or, arith, All, map, ap, ◌∙◌, sym, length-append, ◌>>=◌, some_eq, >>=-eq-some,
}
use mathlib.Core.List.{append_assoc}
use rubixgoplatform.Nlss.Share.Complies.{IsBitRow}
use rubixgoplatform.Util.{get_private_positions, eight_from}
use rubixgoplatform.Util.Streams.{flat}

get_private_positions-suc :
    (ps : List ℕ) (x : ℕ) (bits : List ℕ)
    → get_private_positions (map suc ps) (x ∷ bits) ≡ get_private_positions ps bits
unfolding get_private_positions
get_private_positions-suc [] x bits = refl
get_private_positions-suc (p ∷ ps) x bits =
    ap (λ z. get_elem? bits p >>= λ b. z >>= λ rest. some (b ∷ rest))
      (get_private_positions-suc ps x bits)

suc_add : (n j : ℕ) → suc n + j ≡ suc (n + j)
suc_add n j = omega arith

eight_from-suc : (n : ℕ) → eight_from (suc n) ≡ map suc (eight_from n)
eight_from-suc n =
    let e = suc_add n in λ i. suc n ∷ e 1 i ∷ e 2 i ∷ e 3 i ∷ e 4 i ∷ e 5 i ∷ e 6 i ∷ e 7 i ∷ []

eight_here :
    (row rest : List ℕ)
    → length row ≡ 8
    → get_private_positions (eight_from 0) (row ++ rest) ≡ some row
unfolding get_private_positions
eight_here (a ∷ b ∷ c ∷ d ∷ e ∷ f ∷ g ∷ h ∷ []) rest l = refl
eight_here _ rest l = absurd (omega arith)

-- The eight positions after `before` read the row that stands there.
pub eight_at :
    (before row rest : List ℕ)
    → length row ≡ 8
    → get_private_positions (eight_from (length before)) (before ++ (row ++ rest)) ≡ some row
eight_at [] row rest l = eight_here row rest l
eight_at (x ∷ before) row rest l =
    ap (λ ps. get_private_positions ps (x ∷ before ++ (row ++ rest)))
      (eight_from-suc (length before))
    ∙ get_private_positions-suc (eight_from (length before)) x (before ++ (row ++ rest))
    ∙ eight_at before row rest l

pub length-flat : (rows : List (List ℕ)) → All IsBitRow rows → length (flat rows) ≡ 8 * length rows
length-flat [] h = refl
length-flat (r ∷ rows) (hr, h) =
    omega (arith, length-append r (flat rows), hr.0, length-flat rows h)

pub row-IsBitRow :
    (rows : List (List ℕ)) (q : ℕ)
    → All IsBitRow rows
    → q < length rows
    → IsBitRow (get_or rows q [])
row-IsBitRow [] q h lt = elim lt [ ]
row-IsBitRow (r ∷ rows) zero (hr, h) lt = hr
row-IsBitRow (r ∷ rows) (suc q) (hr, h) lt = row-IsBitRow rows q h (omega arith)

flat-split :
    (rows : List (List ℕ)) (q : ℕ)
    → q < length rows
    → flat rows ≡ flat (take q rows) ++ (get_or rows q [] ++ flat (drop (suc q) rows))
flat-split [] q lt = elim lt [ ]
flat-split (r ∷ rows) zero lt = refl
flat-split (r ∷ rows) (suc q) lt =
    ap (λ z. r ++ z) (flat-split rows q (omega arith))
    ∙ sym (append_assoc r (flat (take q rows)) (get_or rows q [] ++ flat (drop (suc q) rows)))

length-before :
    (rows : List (List ℕ)) (q : ℕ)
    → All IsBitRow rows
    → q < length rows
    → length (flat (take q rows)) ≡ 8 * q
length-before [] q h lt = elim lt [ ]
length-before (r ∷ rows) zero h lt = refl
length-before (r ∷ rows) (suc q) (hr, h) lt =
    omega (arith, length-append r (flat (take q rows)), hr.0, length-before rows q h (omega arith))

-- The eight positions of block `q` read row `q`.
pub block_reads :
    (rows : List (List ℕ)) (q : ℕ)
    → All IsBitRow rows
    → q < length rows
    → get_private_positions (eight_from (8 * q)) (flat rows) ≡ some (get_or rows q [])
block_reads rows q h lt =
    ap (get_private_positions (eight_from (8 * q))) (flat-split rows q lt)
    ∙ ap
        (λ n.
          get_private_positions (eight_from n)
            (flat (take q rows) ++ (get_or rows q [] ++ flat (drop (suc q) rows))))
        (sym (length-before rows q h lt))
    ∙ eight_at (flat (take q rows)) (get_or rows q []) (flat (drop (suc q) rows))
        (row-IsBitRow rows q h lt).0

abbrev pub picks : List ℕ → List (List ℕ) → List (List ℕ)
picks [] rows = []
picks (q ∷ qs) rows = get_or rows q [] ∷ picks qs rows

abbrev pub starts_of : List ℕ → List ℕ
starts_of [] = []
starts_of (q ∷ qs) = 8 * q ∷ starts_of qs

abbrev pub eights : List ℕ → List ℕ
eights [] = []
eights (q ∷ qs) = eight_from (8 * q) ++ eights qs

pub picks-IsBitRow :
    (qs : List ℕ) (rows : List (List ℕ))
    → All IsBitRow rows
    → All (λ q. q < length rows) qs
    → All IsBitRow (picks qs rows)
picks-IsBitRow [] rows h lt = tt
picks-IsBitRow (q ∷ qs) rows h (l, lt) = (row-IsBitRow rows q h l, picks-IsBitRow qs rows h lt)

get_private_positions-append :
    (ps qs bits : List ℕ) {xs ys : List ℕ}
    → get_private_positions ps bits ≡ some xs
    → get_private_positions qs bits ≡ some ys
    → get_private_positions (ps ++ qs) bits ≡ some (xs ++ ys)
unfolding get_private_positions
get_private_positions-append [] qs bits {ys} h k = k ∙ ap (λ z. some (z ++ ys)) (some_eq h)
get_private_positions-append (p ∷ ps) qs bits {ys} h k =
    let (b, found, h1) = >>=-eq-some (get_elem? bits p) _ h in
    let (rest, later, h2) = >>=-eq-some (get_private_positions ps bits) _ h1 in
    rw (found, get_private_positions-append ps qs bits later k)
      (ap (λ z. some (z ++ ys)) (some_eq h2))

-- The positions of several blocks read their rows.
pub blocks_read :
    (qs : List ℕ) (rows : List (List ℕ))
    → All IsBitRow rows
    → All (λ q. q < length rows) qs
    → get_private_positions (eights qs) (flat rows) ≡ some (flat (picks qs rows))
unfolding get_private_positions
blocks_read [] rows h lt = refl
blocks_read (q ∷ qs) rows h (l, lt) =
    get_private_positions-append (eight_from (8 * q)) (eights qs) (flat rows)
      (block_reads rows q h l) (blocks_read qs rows h lt)
