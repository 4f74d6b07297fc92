-- ===== src/TokenChain/AllBlocks.antt =====
-- core/wallet/token_chain.go: the blocks of a chain, read one after the other.
use rubixgoplatform.Prelude.{
  ℕ, zero, suc, ◌≡◌, inl, inr, refl, List, [], ◌∷◌, Option, some, none, Bool, true, false, ◌==◌,
  ltb, if◌then◌else◌, length, ◌>>=◌, sym, ◌∙◌, ap, Bool-cases, Option-cases, some_eq, ◌⊎◌, ◌+◌, ◌<◌,
  ◌≤◌, ◌≢◌, get_elem?, subst, arith, ==_iff,
}
use rubixgoplatform.TokenAuth.Text.{is_empty}
use rubixgoplatform.Blocks.{Block, get_block_id}
use rubixgoplatform.TokenChain.{
  Level, tcs_prefix, tcs_key, is_old_key, is_reference, get_raw_block, update_new_key,
}

-- The order of an iterator's keys, as a test.
unfoldable pub text_ltb : List ℕ → List ℕ → Bool
text_ltb [] [] = false
text_ltb [] (y ∷ ys) = true
text_ltb (x ∷ xs) [] = false
text_ltb (x ∷ xs) (y ∷ ys) = let rest = text_ltb xs ys in if x == y then rest else ltb x y

-- The entries that `Next` walks after `Seek`, which stands at the first key that is not below.
unfoldable pub after_seek : List ℕ → List (List ℕ × List ℕ) → Option (List (List ℕ × List ℕ))
unfolding text_ltb
after_seek key [] = none
after_seek key (e ∷ es) = let rest = after_seek key es in if text_ltb e.0 key then rest else some es

-- `TCBlockCountLimit`.
abbrev pub tc_block_count_limit : ℕ
tc_block_count_limit = 100

-- What the loop of `getAllBlocks` comes to: the blocks and the next identifier, a key of the old form,
-- or an error.
pub data Walk : Type 0 where
  found : List (List ℕ) → List ℕ → Walk
  old_key broken : Walk

unfoldable pub add_found : List ℕ → Walk → Walk
add_found blk (found blks next) = found (blk ∷ blks) next
add_found blk old_key = old_key
add_found blk broken = broken

module _ (g : Level) (decode : List ℕ → Option Block) where
  unfoldable pub raw_of_value : g.Db → List ℕ → Option (List ℕ)
  raw_of_value d v = is_reference v >>= λ r. if r then get_raw_block g 2 d v else some v

  unfoldable pub collect_blocks : g.Db → List ℕ → ℕ → List ℕ → List (List ℕ × List ℕ) → Walk
  unfolding raw_of_value add_found
  collect_blocks d token count next [] = found [] next
  collect_blocks d token count next (e ∷ es) =
      let rest = λ (n : List ℕ). collect_blocks d token (suc count) n es in
      if is_old_key e.0 then old_key else elim (raw_of_value d e.1) [
        | none ↦ broken
        | some blk ↦
            if suc count == tc_block_count_limit
            then elim (decode blk >>= λ b. get_block_id b token) [
              | none ↦ broken
              | some id ↦ add_found blk (rest id)
            ]
            else add_found blk (rest next)
      ]

  -- `getAllBlocks` on its database. After the keys are renewed, it starts again: the fuel is for that.
  unfoldable pub get_all_blocks :
      ℕ → ℕ → List ℕ → List ℕ → g.Db → Option (List (List ℕ) × List ℕ) × g.Db
  unfolding collect_blocks after_seek
  get_all_blocks zero token_type token block_id d = (none, d)
  get_all_blocks (suc fuel) token_type token block_id d =
      let again = get_all_blocks fuel token_type token block_id in
      let entries = g.range d (tcs_prefix token_type token) in
      elim (if is_empty block_id
        then some entries
        else after_seek (tcs_key token_type token block_id) entries) [
          | none ↦ (none, d)
          | some es ↦ elim (collect_blocks d token 0 [] es) [
            | found blks next ↦ (some (blks, next), d)
            | broken ↦ (none, d)
            | old_key ↦
                let (renewed, d') = update_new_key g token_type token d in
                if renewed then again d' else (none, d')
          ]
        ]

  abbrev blks_of : Walk → List (List ℕ)
  blks_of (found blks next) = blks
  blks_of old_key = []
  blks_of broken = []

  abbrev next_of : Walk → List ℕ
  next_of (found blks next) = next
  next_of old_key = []
  next_of broken = []

  broken≢found : {A : Type 0} {blks : List (List ℕ)} {n : List ℕ} → broken ≡ found blks n → A
  broken≢found h = cc

  old_key≢found : {A : Type 0} {blks : List (List ℕ)} {n : List ℕ} → old_key ≡ found blks n → A
  old_key≢found h = cc

  add_found-inv :
      (blk : List ℕ) (w : Walk) {blks : List (List ℕ)} {n : List ℕ}
      → add_found blk w ≡ found blks n
      → (rest : List (List ℕ)) × (w ≡ found rest n) × (blks ≡ blk ∷ rest)
  unfolding add_found
  add_found-inv blk (found rest m) h =
      (rest, ap (λ z. found rest (next_of z)) h, ap blks_of (sym h))
  add_found-inv blk old_key h = old_key≢found h
  add_found-inv blk broken h = broken≢found h

  -- The identifier that a block has for the token.
  abbrev pub HasId : List ℕ → List ℕ → List ℕ → Type 0
  HasId token blk id = (decode blk >>= λ b. get_block_id b token) ≡ some id

  -- The next identifier after a block, which is the `count`th.
  abbrev NextStep : List ℕ → ℕ → List ℕ → List ℕ → List ℕ → Type 0
  NextStep token count blk next next' =
      ((count ≡ tc_block_count_limit) × HasId token blk next')
      ⊎ ((count ≢ tc_block_count_limit) × (next' ≡ next))

  -- One round of the loop.
  collect_blocks-inv :
      (d : g.Db) (token : List ℕ) (count : ℕ) (next : List ℕ) (e : List ℕ × List ℕ)
      (es : List (List ℕ × List ℕ)) {blks : List (List ℕ)} {n : List ℕ}
      → collect_blocks d token count next (e ∷ es) ≡ found blks n
      → (blk : List ℕ) × (rest : List (List ℕ)) × (next' : List ℕ) × (blks ≡ blk ∷ rest)
        × (raw_of_value d e.1 ≡ some blk)
        × (collect_blocks d token (suc count) next' es ≡ found rest n)
        × NextStep token (suc count) blk next next'
  unfolding collect_blocks
  collect_blocks-inv d token count next e es h = elim (Bool-cases (is_old_key e.0)) [
    | inl old ↦ old_key≢found (rw (old, collect_blocks) at h)
    | inr new ↦ elim (Option-cases (raw_of_value d e.1)) [
      | inl bad ↦ broken≢found (rw (new, bad, collect_blocks) at h)
      | inr (blk, read) ↦ elim (Bool-cases (suc count == 100)) [
        | inr other ↦
            let (rest, later, same) =
              add_found-inv blk _ (rw (new, read, other, collect_blocks) at h) in
            (blk, rest, next, same, read, later, inr (not_limit other, refl))
        | inl limit ↦ elim (Option-cases (decode blk >>= λ b. get_block_id b token)) [
          | inl bad ↦ broken≢found (rw (new, read, limit, bad, collect_blocks) at h)
          | inr (id, found_id) ↦
              let (rest, later, same) =
                add_found-inv blk _ (rw (new, read, limit, found_id, collect_blocks) at h) in
              (blk, rest, id, same, read, later, inl ((==_iff (suc count) 100).0 limit, found_id))
        ]
      ]
    ]
  ]
    where
      not_limit : (suc count == 100) ≡ false → suc count ≢ 100
      not_limit other e = ground arith

  -- Every block is the value of its entry, or the block that this refers to.
  abbrev pub Reads : g.Db → List (List ℕ × List ℕ) → List (List ℕ) → Type 0
  Reads d [] [] = Unit
  Reads d (e ∷ es) (blk ∷ blks) = (raw_of_value d e.1 ≡ some blk) × Reads d es blks
  Reads d _ _ = ⊥

  Reads-collect_blocks :
      (d : g.Db) (token : List ℕ) (count : ℕ) (next : List ℕ) (es : List (List ℕ × List ℕ))
      {blks : List (List ℕ)} {n : List ℕ}
      → collect_blocks d token count next es ≡ found blks n
      → Reads d es blks
  unfolding collect_blocks
  Reads-collect_blocks d token count next [] h = subst (Reads d []) (ap blks_of h) tt
  Reads-collect_blocks d token count next (e ∷ es) h =
      let (blk, rest, next', same, read, later, _) = collect_blocks-inv d token count next e es h in
      subst (Reads d (e ∷ es)) (sym same)
        (read, Reads-collect_blocks d token (suc count) next' es later)

  -- Past the limit, the next identifier stays.
  next-after :
      (d : g.Db) (token : List ℕ) (count : ℕ) (next : List ℕ) (es : List (List ℕ × List ℕ))
      {blks : List (List ℕ)} {n : List ℕ}
      → tc_block_count_limit ≤ count
      → collect_blocks d token count next es ≡ found blks n
      → n ≡ next
  unfolding collect_blocks
  next-after d token count next [] past h = ap next_of (sym h)
  next-after d token count next (e ∷ es) past h =
      let (blk, rest, next', same, read, later, step) =
        collect_blocks-inv d token count next e es h in
      elim step [
        | inl (at_limit, _) ↦ absurd (omega (arith, at_limit))
        | inr (_, kept) ↦ next-after d token (suc count) next' es (omega arith) later ∙ kept
      ]

  pred : (n : ℕ) → n ≢ 0 → (m : ℕ) × (suc m ≡ n)
  pred zero ne = absurd (ne refl)
  pred (suc m) ne = (m, refl)

  -- The next identifier where there are `left` blocks before the one at the limit.
  abbrev NextAt : List ℕ → ℕ → List ℕ → List (List ℕ) → List ℕ → Type 0
  NextAt token left next blks n =
      ((length blks ≤ left) × (n ≡ next))
      ⊎ ((blk : List ℕ) × (get_elem? blks left ≡ some blk) × HasId token blk n)

  next-before :
      (d : g.Db) (token : List ℕ) (count left : ℕ) (next : List ℕ) (es : List (List ℕ × List ℕ))
      {blks : List (List ℕ)} {n : List ℕ}
      → suc (count + left) ≡ tc_block_count_limit
      → collect_blocks d token count next es ≡ found blks n
      → NextAt token left next blks n
  unfolding collect_blocks
  next-before d token count left next [] sums h =
      inl (subst (λ l. length l ≤ left) (ap blks_of h) (omega arith), ap next_of (sym h))
  next-before d token count left next (e ∷ es) {n = n} sums h =
      let (blk, rest, next', same, read, later, step) =
        collect_blocks-inv d token count next e es h in
      subst (λ l. NextAt token left next l n) (sym same)
        (elim step [
          | inl (at_limit, id) ↦
              let zero_left : 0 ≡ left = omega (arith, at_limit) in
              inr (
                blk,
                ap (get_elem? (blk ∷ rest)) (sym zero_left),
                subst (HasId token blk)
                    (sym (next-after d token (suc count) next' es (omega (arith, at_limit)) later))
                    id,
              )
          | inr (below, kept) ↦
              let (fewer, one_less) = pred left (omega (arith, below)) in
              subst (λ l. NextAt token l next (blk ∷ rest) n) one_less
                (elim (next-before d token (suc count) fewer next' es (omega (arith, one_less))
                  later) [
                    | inl (few, same_next) ↦ inl (omega (arith, few), same_next ∙ kept)
                    | inr (found_at) ↦ inr found_at
                  ])
        ])

  Walk-cases :
      (w : Walk)
      → ((blks : List (List ℕ)) × (n : List ℕ) × (w ≡ found blks n))
        ⊎ ((w ≡ old_key) ⊎ (w ≡ broken))
  Walk-cases (found blks n) = inl (blks, n, refl)
  Walk-cases old_key = inr (inl refl)
  Walk-cases broken = inr (inr refl)

  none≢some : {A B : Type 0} {a : A} → none ≡ some a → B
  none≢some h = cc

  -- What a walk over all entries returns: their blocks, in order, and, of a hundred blocks or more,
  -- the identifier of the hundredth, of fewer the empty text.
  abbrev pub AllOf : List ℕ → List (List ℕ × List ℕ) → g.Db → List (List ℕ) → List ℕ → Type 0
  AllOf token es d blks n =
      Reads d es blks
      × (((length blks < tc_block_count_limit) × (n ≡ []))
          ⊎ ((blk : List ℕ) × (get_elem? blks 99 ≡ some blk) × HasId token blk n))

  collect_blocks-AllOf :
      (d : g.Db) (token : List ℕ) (es : List (List ℕ × List ℕ)) {blks : List (List ℕ)} {n : List ℕ}
      → collect_blocks d token 0 [] es ≡ found blks n
      → AllOf token es d blks n
  collect_blocks-AllOf d token es h = (
    Reads-collect_blocks d token 0 [] es h,
    elim (next-before d token 0 99 [] es refl h) [
      | inl (few, empty) ↦ inl (omega (arith, few), empty)
      | inr (blk, at, id) ↦ inr (blk, at, id)
    ],
  )

  -- `getAllBlocks` from the start of a chain, when it returns blocks, returns the block of every entry
  -- of the chain that it leaves, in the order of the keys, however many they are. The next identifier
  -- that it returns is that of the hundredth block, or empty where there are fewer; the walk does not
  -- end there.
  pub get_all_blocks-AllOf :
      (fuel token_type : ℕ) (token : List ℕ) (d d' : g.Db) (blks : List (List ℕ)) (n : List ℕ)
      → get_all_blocks fuel token_type token [] d ≡ (some (blks, n), d')
      → AllOf token (g.range d' (tcs_prefix token_type token)) d' blks n
  unfolding get_all_blocks is_empty
  get_all_blocks-AllOf zero token_type token d d' blks n h = none≢some (ap (λ z. z.0) h)
  get_all_blocks-AllOf (suc fuel) token_type token d d' blks n h =
      let es = g.range d (tcs_prefix token_type token) in
      let (renewed, d1) = update_new_key g token_type token d in
      elim (Walk-cases (collect_blocks d token 0 [] es)) [
        | inl (all, m, walked) ↦
            let same = rw (walked, get_all_blocks) at h in
            let z = some_eq (ap (λ z. z.0) same) in
            subst (λ x. AllOf token (g.range x (tcs_prefix token_type token)) x blks n)
              (ap (λ z. z.1) same)
              (subst (λ (y : List (List ℕ) × List ℕ). AllOf token es d y.0 y.1) z
                (collect_blocks-AllOf d token es walked))
        | inr (inl old) ↦ elim (Bool-cases renewed) [
          | inl good ↦
              get_all_blocks-AllOf fuel token_type token d1 d' blks n
                (rw (old, good, get_all_blocks) at h)
          | inr bad ↦ none≢some (ap (λ z. z.0) (rw (old, bad, get_all_blocks) at h))
        ]
        | inr (inr bad) ↦ none≢some (ap (λ z. z.0) (rw (bad, get_all_blocks) at h))
      ]
