-- ===== src/TokenChain/Memory.antt =====
-- A store held in memory as a list that is sorted by its keys: it meets the laws of `Level`.
use rubixgoplatform.Prelude.{
  ℕ, ◌≡◌, ◌≢◌, ◌⊎◌, inl, inr, refl, List, [], ◌∷◌, ◌++◌, Option, some, none, true, false, ltb,
  ltb→lt, ◌==◌, ==_refl, ==_iff, if◌then◌else◌, All, All-map, sym, ◌∙◌, ap, subst, Bool-cases,
  Option-cases, some_eq, arith,
}
use rubixgoplatform.Storage.Rows.{Member}
use rubixgoplatform.TokenAuth.Text.{same_text, same_text_refl, same_text-eq}
use rubixgoplatform.TokenChain.{Level}
use rubixgoplatform.TokenChain.Order.{LexLt, HasPrefix, Rising}
use rubixgoplatform.TokenChain.Keys.{LexLt-asym}

abbrev Entry : Type 0
Entry = List ℕ × List ℕ

no_value : {A : Type 0} {a : A} → none ≡ some a → ⊥
no_value e = cc

true≢false : true ≡ false → ⊥
true≢false e = cc

pub equal_values : (x y : ℕ) → ltb x y ≡ false → ltb y x ≡ false → x ≡ y
equal_values x y h k = ground arith

-- Two texts in order, alike or the other way round.
unfoldable pub compare_texts : (xs ys : List ℕ) → LexLt xs ys ⊎ ((xs ≡ ys) ⊎ LexLt ys xs)
compare_texts [] [] = inr (inl refl)
compare_texts [] (y ∷ ys) = inl tt
compare_texts (x ∷ xs) [] = inr (inr tt)
compare_texts (x ∷ xs) (y ∷ ys) = elim (Bool-cases (ltb x y)) [
  | inl lt ↦ inl (inl (ltb→lt x y lt))
  | inr ge ↦ elim (Bool-cases (ltb y x)) [
    | inl gt ↦ inr (inr (inl (ltb→lt y x gt)))
    | inr le ↦
        let e = equal_values x y ge le in
        elim (compare_texts xs ys) [
          | inl h ↦ inl (inr (e, h))
          | inr (inl h) ↦ inr (inl (λ i. e i ∷ h i))
          | inr (inr h) ↦ inr (inr (inr (sym e, h)))
        ]
  ]
]

LexLt-trans : (xs ys zs : List ℕ) → LexLt xs ys → LexLt ys zs → LexLt xs zs
LexLt-trans [] [] zs h k = absurd h
LexLt-trans [] (y ∷ ys) [] h k = absurd k
LexLt-trans [] (y ∷ ys) (z ∷ zs) h k = tt
LexLt-trans (x ∷ xs) [] zs h k = absurd h
LexLt-trans (x ∷ xs) (y ∷ ys) [] h k = absurd k
LexLt-trans (x ∷ xs) (y ∷ ys) (z ∷ zs) (inl h) (inl k) = inl (omega arith)
LexLt-trans (x ∷ xs) (y ∷ ys) (z ∷ zs) (inl h) (inr (e, k)) = inl (omega arith)
LexLt-trans (x ∷ xs) (y ∷ ys) (z ∷ zs) (inr (e, h)) (inl k) = inl (omega arith)
LexLt-trans (x ∷ xs) (y ∷ ys) (z ∷ zs) (inr (e, h)) (inr (e', k)) =
    inr (e ∙ e', LexLt-trans xs ys zs h k)

unfoldable pub lookup : List Entry → List ℕ → Option (List ℕ)
lookup [] k = none
lookup (e ∷ es) k = if same_text e.0 k then some e.1 else lookup es k

unfoldable pub insert : List ℕ → List ℕ → List Entry → List Entry
unfolding compare_texts
insert k v [] = (k, v) ∷ []
insert k v (e ∷ es) = elim (compare_texts k e.0) [
  | inl lt ↦ (k, v) ∷ e ∷ es
  | inr (inl same) ↦ (k, v) ∷ es
  | inr (inr gt) ↦ e ∷ insert k v es
]

other_text : (a b : List ℕ) → a ≢ b → same_text a b ≡ false
other_text a b ne = elim (Bool-cases (same_text a b)) [
  | inl same ↦ absurd (ne (same_text-eq a b same))
  | inr other ↦ other
]

LexLt-ne : (a b : List ℕ) → LexLt a b → a ≢ b
LexLt-ne a b h e = LexLt-asym b b (subst (λ z. LexLt z b) e h) (subst (λ z. LexLt z b) e h)

pub lookup-insert : (k v : List ℕ) (l : List Entry) → lookup (insert k v l) k ≡ some v
unfolding lookup insert
lookup-insert k v [] = rw (same_text_refl k) refl
lookup-insert k v (e ∷ es) =
    elim (compare_texts k e.0)
      as (λ c.
        lookup
          (elim c [
            | inl lt ↦ (k, v) ∷ e ∷ es
            | inr (inl same) ↦ (k, v) ∷ es
            | inr (inr gt) ↦ e ∷ insert k v es
          ])
          k
        ≡ some v) [
          | inl lt ↦ rw (same_text_refl k) refl
          | inr (inl same) ↦ rw (same_text_refl k) refl
          | inr (inr gt) ↦ rw (other_text e.0 k (LexLt-ne e.0 k gt)) (lookup-insert k v es)
        ]

pub lookup-insert_other :
    (k v k' : List ℕ) (l : List Entry) → k' ≢ k → lookup (insert k v l) k' ≡ lookup l k'
unfolding lookup insert
lookup-insert_other k v k' [] ne = rw (other_text k k' (λ e. ne (sym e))) refl
lookup-insert_other k v k' (e ∷ es) ne =
    elim (compare_texts k e.0)
      as (λ c.
        lookup
          (elim c [
            | inl lt ↦ (k, v) ∷ e ∷ es
            | inr (inl same) ↦ (k, v) ∷ es
            | inr (inr gt) ↦ e ∷ insert k v es
          ])
          k'
        ≡ (if same_text e.0 k' then some e.1 else lookup es k')) [
          | inl lt ↦ rw (other_text k k' (λ s. ne (sym s))) refl
          | inr (inl same) ↦
              rw (other_text k k' (λ s. ne (sym s)), other_text e.0 k' (λ s. ne (sym (same ∙ s))))
                refl
          | inr (inr gt) ↦
              ap (λ z. if same_text e.0 k' then some e.1 else z) (lookup-insert_other k v k' es ne)
        ]

All-insert :
    (P : Entry → Type 0) (k v : List ℕ) (l : List Entry) → P (k, v) → All P l → All P (insert k v l)
unfolding insert
All-insert P k v [] p h = (p, tt)
All-insert P k v (e ∷ es) p (he, h) =
    elim (compare_texts k e.0)
      as (λ c. All P (elim c [
        | inl lt ↦ (k, v) ∷ e ∷ es
        | inr (inl same) ↦ (k, v) ∷ es
        | inr (inr gt) ↦ e ∷ insert k v es
      ])) [
        | inl lt ↦ (p, (he, h))
        | inr (inl same) ↦ (p, h)
        | inr (inr gt) ↦ (he, All-insert P k v es p h)
      ]

pub Rising-insert : (k v : List ℕ) (l : List Entry) → Rising l → Rising (insert k v l)
unfolding insert
Rising-insert k v [] r = (tt, tt)
Rising-insert k v (e ∷ es) (above, r) =
    elim (compare_texts k e.0)
      as (λ c. Rising (elim c [
        | inl lt ↦ (k, v) ∷ e ∷ es
        | inr (inl same) ↦ (k, v) ∷ es
        | inr (inr gt) ↦ e ∷ insert k v es
      ])) [
        | inl lt ↦ (
          (
            lt,
            All-map (λ f. LexLt e.0 f.0) (λ f. LexLt k f.0) es (λ f h. LexLt-trans k e.0 f.0 lt h)
                above,
          ),
          (above, r),
        )
        | inr (inl same) ↦ (subst (λ z. All (λ f. LexLt z f.0) es) (sym same) above, r)
        | inr (inr gt) ↦ (All-insert (λ f. LexLt e.0 f.0) k v es gt above, Rising-insert k v es r)
      ]

-- What is left of a text after a prefix.
unfoldable pub strip : List ℕ → List ℕ → Option (List ℕ)
strip [] k = some k
strip (c ∷ p) [] = none
strip (c ∷ p) (d ∷ k) = let rest = strip p k in if c == d then rest else none

strip-HasPrefix : (p k : List ℕ) {rest : List ℕ} → strip p k ≡ some rest → HasPrefix p k
unfolding strip
strip-HasPrefix [] k h = (k, refl)
strip-HasPrefix (c ∷ p) [] h = absurd (no_value h)
strip-HasPrefix (c ∷ p) (d ∷ k) h = elim (Bool-cases (c == d)) [
  | inl same ↦
      let (rest, e) = strip-HasPrefix p k (rw same at h) in
      (rest, λ i. sym ((==_iff c d).0 same) i ∷ e i)
  | inr other ↦ absurd (no_value (rw other at h))
]

strip-append : (p rest : List ℕ) → strip p (p ++ rest) ≡ some rest
unfolding strip
strip-append [] rest = refl
strip-append (c ∷ p) rest = rw (==_refl c) (strip-append p rest)

unfoldable pub select : List ℕ → List Entry → List Entry
unfolding strip
select p [] = []
select p (e ∷ es) = elim (strip p e.0) [ none ↦ select p es | some rest ↦ e ∷ select p es ]

pub All-select :
    (P : Entry → Type 0) (p : List ℕ) (l : List Entry)
    → All P l
    → All (λ e. P e × HasPrefix p e.0) (select p l)
unfolding select
All-select P p [] h = tt
All-select P p (e ∷ es) (he, h) = elim (Option-cases (strip p e.0)) [
  | inl none_left ↦ rw (none_left, select) (All-select P p es h)
  | inr (rest, found) ↦ rw (found, select) ((he, strip-HasPrefix p e.0 found), All-select P p es h)
]

pub Rising-select : (p : List ℕ) (l : List Entry) → Rising l → Rising (select p l)
unfolding select
Rising-select p [] r = tt
Rising-select p (e ∷ es) (above, r) = elim (Option-cases (strip p e.0)) [
  | inl none_left ↦ rw (none_left, select) (Rising-select p es r)
  | inr (rest, found) ↦
      rw (found, select)
        (
          All-map (λ f. LexLt e.0 f.0 × HasPrefix p f.0) (λ f. LexLt e.0 f.0) (select p es)
              (λ f h. h.0) (All-select (λ f. LexLt e.0 f.0) p es above),
          Rising-select p es r,
        )
]

pub Member-select :
    (p rest k v : List ℕ) (l : List Entry)
    → lookup l k ≡ some v
    → k ≡ p ++ rest
    → Member (k, v) (select p l)
unfolding select lookup
Member-select p rest k v [] h e = absurd (no_value h)
Member-select p rest k v (x ∷ xs) h e = elim (Bool-cases (same_text x.0 k)) [
  | inl same ↦
      let is_key = same_text-eq x.0 k same in
      let found : strip p x.0 ≡ some rest = ap (strip p) (is_key ∙ e) ∙ strip-append p rest in
      rw (found, select) (inl (λ i. (sym is_key i, sym (some_eq (rw (same, lookup) at h)) i)))
  | inr other ↦
      let later = Member-select p rest k v xs (rw (other, lookup) at h) e in
      elim (Option-cases (strip p x.0)) [
        | inl none_left ↦ rw (none_left, select) later
        | inr (_, found) ↦ rw (found, select) (inr later)
      ]
]

pub lookup-All : (l : List Entry) → Rising l → All (λ e. lookup l e.0 ≡ some e.1) l
unfolding lookup
lookup-All [] r = tt
lookup-All (x ∷ xs) (above, r) = (rw (same_text_refl x.0) refl, both xs above (lookup-All xs r))
  where
    both :
        (es : List Entry)
        → All (λ f. LexLt x.0 f.0) es
        → All (λ e. lookup xs e.0 ≡ some e.1) es
        → All (λ e. (if same_text x.0 e.0 then some x.1 else lookup xs e.0) ≡ some e.1) es
    both [] a h = tt
    both (e ∷ es) (ae, a) (he, h) = (rw (other_text x.0 e.0 (LexLt-ne x.0 e.0 ae)) he, both es a h)

abbrev pub memory_level : Level
memory_level = record {
  Db = (l : List Entry) × Rising l;
  get = λ d k. lookup d.0 k;
  put = λ d k v. some (insert k v d.0, Rising-insert k v d.0 d.1);
  delete = λ d k. none;
  range = λ d p. select p d.0;
  get_put = λ d d' k v e. ap (λ z. lookup z.0 k) (sym (some_eq e)) ∙ lookup-insert k v d.0;
  get_put_other = λ d d' k v k' e ne.
      ap (λ z. lookup z.0 k') (sym (some_eq e)) ∙ lookup-insert_other k v k' d.0 ne;
  range_sound = λ d p. All-select (λ e. lookup d.0 e.0 ≡ some e.1) p d.0 (lookup-All d.0 d.1);
  range_complete = λ d p k v at prefix. Member-select p prefix.0 k v d.0 at prefix.1;
  range_rising = λ d p. Rising-select p d.0 d.1;
}
