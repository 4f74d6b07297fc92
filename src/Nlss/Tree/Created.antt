-- ===== src/Nlss/Tree/Created.antt =====
-- nlss/interact4tree.go: what `ShareCreate` leaves, and that its check passes.
use rubixgoplatform.Prelude.{
  ℕ, ◌-◌, ◌%◌, List, [], ◌∷◌, ◌++◌, ◌==◌, if◌then◌else◌, ◌≡◌, refl, sym, ap, ◌∙◌, arith, All, true,
  subst, some, >>=-eq-some, some_eq, Bool,
}
use mathlib.Core.List.{append_assoc, append-nil}
use rubixgoplatform.Nlss.Bits.{IsBitChar, convert_to_bit_string}
use rubixgoplatform.Nlss.Bits.RoundTrip.{convert_to_bit_string-IsBitChar}
use rubixgoplatform.Nlss.Share.{SecretShare, starts}
use rubixgoplatform.Nlss.Share.Complies.{IsBitRow, Encodes, starts-Encodes}
use rubixgoplatform.Nlss.Tree.{
  Interact4Tree, new_interact4tree, convert_row, add_share, share_loop, check_share, share_create,
}
use rubixgoplatform.Nlss.Tree.Rows.{
  text, row_text, Encoded, convert_row-eq, dot_comm, check_rows-Encoded,
}

-- The state `it'` is `it` with the shares of `bits` written behind what it held.
pub record Adds (bits : List ℕ) (it it' : Interact4Tree) : Type 0 where
  pub secrets : List (List ℕ)
  pub cands : List (List ℕ)
  pub encoded : Encoded bits secrets cands
  pub secret_rows : All IsBitRow secrets
  pub cand_rows : All IsBitRow cands
  pub same_bits : it'.bits ≡ it.bits
  pub secret_eq : it'.secret ≡ it.secret ++ secrets
  pub cand_eq : it'.cand1 ≡ it.cand1 ++ cands
  pub secret_text : it'.secret_string ≡ it.secret_string ++ text secrets
  pub y1_text : it'.y1_string ≡ it.y1_string ++ text cands

secret_bit : (bit : ℕ) → IsBitChar bit → (if bit == 48 then 0 else 1) ≡ bit - 48
secret_bit bit h = ground arith

snoc_assoc {ℓ} :
    {A : Type ℓ} {zs : List A} (xs ys : List A) (y : A)
    → zs ≡ (xs ++ y ∷ []) ++ ys
    → zs ≡ xs ++ y ∷ ys
snoc_assoc xs ys y e = e ∙ append_assoc xs (y ∷ []) ys

text_assoc :
    {zs : List ℕ} (xs y ys : List ℕ) → zs ≡ convert_row xs y ++ ys → zs ≡ xs ++ (row_text y ++ ys)
text_assoc xs y ys e = e ∙ ap (λ t. t ++ ys) (convert_row-eq xs y) ∙ append_assoc xs (row_text y) ys

Adds-cons :
    (bit : ℕ) (bits : List ℕ) (it it' : Interact4Tree) (share : SecretShare)
    → Encodes (bit - 48) share
    → Adds bits (add_share it share) it'
    → Adds (bit ∷ bits) it it'
unfolding add_share
Adds-cons bit bits it it' share e a = record {
  secrets = share.s0 ∷ a.secrets;
  cands = share.y1 ∷ a.cands;
  encoded = (ap (λ n. n % 2) (dot_comm share.s0 share.y1) ∙ e.parity, a.encoded);
  secret_rows = (e.s0_row, a.secret_rows);
  cand_rows = (e.y1_row, a.cand_rows);
  same_bits = a.same_bits;
  secret_eq = snoc_assoc it.secret a.secrets share.s0 a.secret_eq;
  cand_eq = snoc_assoc it.cand1 a.cands share.y1 a.cand_eq;
  secret_text = text_assoc it.secret_string share.s0 (text a.secrets) a.secret_text;
  y1_text = text_assoc it.y1_string share.y1 (text a.cands) a.y1_text;
}

Adds-nil : (it : Interact4Tree) → Adds [] it it
Adds-nil it = record {
  secrets = [];
  cands = [];
  encoded = tt;
  secret_rows = tt;
  cand_rows = tt;
  same_bits = refl;
  secret_eq = sym (append-nil it.secret);
  cand_eq = sym (append-nil it.cand1);
  secret_text = sym (append-nil it.secret_string);
  y1_text = sym (append-nil it.y1_string);
}

share_loop-Adds :
    (bits : List ℕ) (it : Interact4Tree) (draws : List ℕ) {it' : Interact4Tree} {rest : List ℕ}
    → All IsBitChar bits
    → share_loop bits it draws ≡ some (it', rest)
    → Adds bits it it'
unfolding share_loop
share_loop-Adds [] it draws b h = subst (λ z. Adds [] it z.0) (some_eq h) (Adds-nil it)
share_loop-Adds (bit ∷ bits) it draws {it'} (hb, b) h =
    let (r, found, h1) = >>=-eq-some (starts (if bit == 48 then 0 else 1) draws) _ h in
    let e = starts-Encodes (if bit == 48 then 0 else 1) draws found in
    Adds-cons bit bits it it' r.0 (subst (λ s. Encodes s r.0) (secret_bit bit hb) e)
      (share_loop-Adds bits (add_share it r.0) r.1 b h1)

new-IsBitChar : (bytes : List ℕ) → All IsBitChar (new_interact4tree bytes).bits
unfolding new_interact4tree
new-IsBitChar bytes = convert_to_bit_string-IsBitChar bytes

new-Adds :
    (bytes : List ℕ) (it : Interact4Tree)
    → Adds (new_interact4tree bytes).bits (new_interact4tree bytes) it
    → Adds (convert_to_bit_string bytes) (new_interact4tree bytes) it
unfolding new_interact4tree
new-Adds bytes it a = a

check_share-Adds :
    (bytes : List ℕ) (it : Interact4Tree)
    → Adds (convert_to_bit_string bytes) (new_interact4tree bytes) it
    → check_share it ≡ true
unfolding check_share new_interact4tree
check_share-Adds bytes it a =
    rw (a.secret_eq, a.cand_eq, a.same_bits)
      (check_rows-Encoded (convert_to_bit_string bytes) a.secrets a.cands a.encoded)

-- Whatever is drawn, the tree that `ShareCreate` returns passes `CheckShare`.
pub share_create_checks :
    (bytes draws : List ℕ) {good : Bool} {it : Interact4Tree} {rest : List ℕ}
    → share_create (new_interact4tree bytes) draws ≡ some (good, it, rest)
    → (good ≡ true) × Adds (convert_to_bit_string bytes) (new_interact4tree bytes) it
unfolding share_create
share_create_checks bytes draws {good} {it} h =
    let new = new_interact4tree bytes in
    let (r, looped, h1) = >>=-eq-some (share_loop new.bits new draws) _ h in
    let out = some_eq h1 in
    let a = share_loop-Adds new.bits new draws (new-IsBitChar bytes) looped in
    let adds = subst (λ z. Adds (convert_to_bit_string bytes) new z.1) out (new-Adds bytes r.0 a) in
    (sym (ap (λ z. z.0) out) ∙ check_share-Adds bytes r.0 (new-Adds bytes r.0 a), adds)
