-- ===== src/Did/Picked.antt =====
-- did/basic.go: the bits of a DID at chosen positions, and the rows of the two shares that encode them.
use rubixgoplatform.Prelude.{
  ℕ, zero, suc, ◌*◌, ◌-◌, ◌/◌, ◌%◌, ◌<◌, List, [], ◌∷◌, some, refl, ◌≡◌, length, drop, get_elem?,
  get_or, arith, All, All-take, ◌==◌, if◌then◌else◌, ap, ◌∙◌, length-take_le, length-drop,
}
use rubixgoplatform.Nlss.Bits.{IsBitChar}
use rubixgoplatform.Nlss.Bits.RoundTrip.{Rows}
use rubixgoplatform.Nlss.Share.{dot}
use rubixgoplatform.Nlss.Share.Complies.{IsBit}
use rubixgoplatform.Nlss.Tree.Rows.{row_text, Encoded}
use rubixgoplatform.Util.{get_private_positions}
use rubixgoplatform.Util.Blocks.{picks, starts_of}
use rubixgoplatform.Did.{org_positions}

pub org_positions-starts_of : (qs : List ℕ) → org_positions (starts_of qs) ≡ qs
unfolding org_positions
org_positions-starts_of [] = refl
org_positions-starts_of (q ∷ qs) =
    let e : 8 * q / 8 ≡ q = omega arith in λ i. e i ∷ org_positions-starts_of qs i

-- What stands at the positions `qs`.
pub record Picked (qs bits : List ℕ) (ss cs : List (List ℕ)) : Type 0 where
  pub found : List ℕ
  pub reads : get_private_positions qs bits ≡ some found
  pub bit : All IsBit found
  pub count : length found ≡ length qs
  pub encoded : Encoded (row_text found) (picks qs ss) (picks qs cs)

Encoded-at :
    (bits : List ℕ) (ss cs : List (List ℕ)) (q : ℕ)
    → All IsBit bits
    → Encoded (row_text bits) ss cs
    → q < length bits
    → (b : ℕ) × (get_elem? bits q ≡ some b)
      × IsBit b
      × (dot (get_or ss q []) (get_or cs q []) % 2 ≡ (if b == 1 then 49 else 48) - 48)
Encoded-at [] ss cs q h e lt = elim lt [ ]
Encoded-at (b ∷ bits) (s ∷ ss) (c ∷ cs) zero (hb, h) (e, es) lt = (b, refl, hb, e)
Encoded-at (b ∷ bits) (s ∷ ss) (c ∷ cs) (suc q) (hb, h) (e, es) lt =
    Encoded-at bits ss cs q h es (omega arith)
Encoded-at (b ∷ bits) [] cs q h e lt = absurd e
Encoded-at (b ∷ bits) (s ∷ ss) [] q h e lt = absurd e

pub picked :
    (qs bits : List ℕ) (ss cs : List (List ℕ))
    → All IsBit bits
    → Encoded (row_text bits) ss cs
    → All (λ q. q < length bits) qs
    → Picked qs bits ss cs
unfolding get_private_positions
picked [] bits ss cs h e lt = record {
  found = [];
  reads = refl;
  bit = tt;
  count = refl;
  encoded = tt;
}
picked (q ∷ qs) bits ss cs h e (l, lt) =
    let (b, at, hb, product) = Encoded-at bits ss cs q h e l in
    let rest = picked qs bits ss cs h e lt in
    record {
      found = b ∷ rest.found;
      reads = rw (at, rest.reads) refl;
      bit = (hb, rest.bit);
      count = ap suc rest.count;
      encoded = (product, rest.encoded);
    }

All-drop : (P : ℕ → Type 0) (n : ℕ) (xs : List ℕ) → All P xs → All P (drop n xs)
All-drop P zero xs h = h
All-drop P (suc n) [] h = tt
All-drop P (suc n) (x ∷ xs) (hx, h) = All-drop P n xs h

-- A text of bit characters whose length is a multiple of eight.
pub whole-Rows : (n : ℕ) (b : List ℕ) → length b ≡ 8 * n → All IsBitChar b → Rows n b
whole-Rows zero [] l h = refl
whole-Rows zero (c ∷ b) l h = absurd (omega arith)
whole-Rows (suc n) b l h = (
  (length-take_le 8 b (omega arith), All-take IsBitChar 8 b h),
  whole-Rows n (drop 8 b) (length-drop 8 b ∙ omega arith) (All-drop IsBitChar 8 b h),
)
