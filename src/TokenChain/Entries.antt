-- ===== src/TokenChain/Entries.antt =====
-- core/wallet/token_chain.go: the last key of a chain, and the parts of a block identifier.
use rubixgoplatform.Prelude.{
  ℕ, ◌≡◌, ◌⊎◌, inl, inr, refl, List, [], ◌∷◌, ◌++◌, some, none, >>=-eq-some, some_eq, All, sym, ◌∙◌,
  ap, subst, Bool-cases,
}
use rubixgoplatform.Storage.Rows.{Member}
use rubixgoplatform.TokenAuth.Text.{is_empty}
use rubixgoplatform.Blocks.{Block, get_tokens_map, parse_uint64, get_block_number, get_block_id}
use rubixgoplatform.TokenChain.Order.{LexLt, Rising}
use rubixgoplatform.TokenChain.{last_entry}

pub last_entry-Member : {A : Type 0} (l : List A) {e : A} → last_entry l ≡ some e → Member e l
last_entry-Member [] h = cc
last_entry-Member (x ∷ []) h = inl (sym (some_eq h))
last_entry-Member (x ∷ y ∷ ys) h = inr (last_entry-Member (y ∷ ys) h)

pub last_entry-none : {A : Type 0} (l : List A) (e : A) → last_entry l ≡ none → Member e l → ⊥
last_entry-none [] e h m = m
last_entry-none (x ∷ []) e h m = cc
last_entry-none (x ∷ y ∷ ys) e h (inl s) = last_entry-none (y ∷ ys) y h (inl refl)
last_entry-none (x ∷ y ∷ ys) e h (inr m) = last_entry-none (y ∷ ys) e h m

Member-All : {A : Type 0} (P : A → Type 0) (l : List A) (e : A) → All P l → Member e l → P e
Member-All P [] e h m = absurd m
Member-All P (x ∷ xs) e (hx, h) (inl s) = subst P (sym s) hx
Member-All P (x ∷ xs) e (hx, h) (inr m) = Member-All P xs e h m

pub entry_holds : {A : Type 0} (P : A → Type 0) (l : List A) (e : A) → All P l → Member e l → P e
entry_holds P l e h m = Member-All P l e h m

-- No key is above the last one.
pub last_entry-LexLt :
    (l : List (List ℕ × List ℕ)) (e f : List ℕ × List ℕ)
    → Rising l
    → last_entry l ≡ some e
    → Member f l
    → (f ≡ e) ⊎ LexLt f.0 e.0
last_entry-LexLt [] e f r h m = absurd m
last_entry-LexLt (x ∷ []) e f r h (inl s) = inl (s ∙ some_eq h)
last_entry-LexLt (x ∷ []) e f r h (inr m) = absurd m
last_entry-LexLt (x ∷ y ∷ ys) e f (above, r) h (inl s) = inr (
    subst (λ z. LexLt z.0 e.0) (sym s)
      (Member-All (λ g. LexLt x.0 g.0) (y ∷ ys) e above (last_entry-Member (y ∷ ys) h)))
last_entry-LexLt (x ∷ y ∷ ys) e f (above, r) h (inr m) = last_entry-LexLt (y ∷ ys) e f r h m

no_value : {A : Type 0} {a : A} → none ≡ some a → ⊥
no_value e = cc

-- The identifier is the text of the number, a dash and the hash.
pub get_block_id-parts :
    (b : Block) (t : List ℕ) {bid : List ℕ} {n : ℕ}
    → get_block_id b t ≡ some bid
    → get_block_number b t ≡ some n
    → (bns : List ℕ) × (ha : List ℕ) × (bid ≡ bns ++ 45 ∷ ha)
      × (parse_uint64 bns ≡ some n)
      × (b.block_hash ≡ some ha)
unfolding get_block_id get_block_number
get_block_id-parts b t h k =
    let (ha, hash, h1) = >>=-eq-some b.block_hash _ h in
    let (ttm, entry, h2) = >>=-eq-some (get_tokens_map b t) _ h1 in
    let (bns, number, h3) = >>=-eq-some ttm.block_number _ h2 in
    let (ttm', entry', k1) = >>=-eq-some (get_tokens_map b t) _ k in
    let (bns', number', k2) = >>=-eq-some ttm'.block_number _ k1 in
    let same_entry = some_eq (sym entry ∙ entry') in
    let same = some_eq (sym number ∙ ap (λ e. e.block_number) same_entry ∙ number') in
    elim (Bool-cases (is_empty bns)) [
      | inl empty ↦ absurd (no_value (rw empty at h3))
      | inr full ↦ (bns, ha, some_eq (sym (rw full at h3)), ap parse_uint64 same ∙ k2, hash)
    ]
