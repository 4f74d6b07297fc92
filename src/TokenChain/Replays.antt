-- ===== src/TokenChain/Replays.antt =====
-- core/wallet/token_chain.go: `addBlocks` refuses a block whose number is not new, and then has
-- written nothing.
use rubixgoplatform.Prelude.{
  ℕ, suc, ◌^◌, ◌≤◌, ◌<◌, ◌≡◌, inl, inr, refl, List, [], ◌∷◌, ◌++◌, Option, some, true, false,
  if◌then◌else◌, length, sym, ◌∙◌, ap, subst, Bool-cases, Option-cases, some_eq, arith, All,
}
use rubixgoplatform.Storage.Rows.{Member}
use rubixgoplatform.Blocks.{Block, get_block_number, get_token_type, get_trans_tokens}
use rubixgoplatform.TokenChain.Order.{LexLt}
use rubixgoplatform.TokenChain.{
  hex_text, Level, Shelf, tcs, dtcs, ntcs, smart_contracts, fts, get_chain_db, last_entry,
  pick_block,
}
use rubixgoplatform.TokenChain.Adding.{Stores, same_shelf, follows}
use rubixgoplatform.TokenChain.Keys.{LexLt-asym}
use rubixgoplatform.TokenChain.Latest.{
  IsKept, AllBelow, follows-AllBelow, pick_same, chain_key, chain_key-LexLt,
}
use rubixgoplatform.TokenChain.Together.{
  set_shelf, latest_in, check_tokens, add_together, add_blocks,
}

false≢true : false ≡ true → ⊥
false≢true e = cc

same_shelf-eq : (x y : Shelf) → same_shelf x y ≡ true → x ≡ y
unfolding same_shelf
same_shelf-eq tcs tcs h = refl
same_shelf-eq dtcs dtcs h = refl
same_shelf-eq ntcs ntcs h = refl
same_shelf-eq smart_contracts smart_contracts h = refl
same_shelf-eq fts fts h = refl
same_shelf-eq x y h = absurd (false≢true h)

module _ (g : Level) (sha3_hex : List ℕ → List ℕ) (decode : List ℕ → Option Block) where
  set_same : (shelf : Shelf) (s : Stores g) → set_shelf g shelf (s shelf) s ≡ s
  unfolding set_shelf
  set_same shelf s i x = at x i
    where
      at : (x : Shelf) → (if same_shelf x shelf then s shelf else s x) ≡ s x
      at x = elim (Bool-cases (same_shelf x shelf)) [
        | inl e ↦ rw e (ap s (sym (same_shelf-eq x shelf e)))
        | inr e ↦ rw e refl
      ]

  -- The chain of a token of the block is in order.
  abbrev pub InOrder : Block → Stores g → List ℕ → Type 0
  InOrder b s t =
      (length t ≡ 46)
      × ((shelf : Shelf)
          → get_chain_db (get_token_type b t) ≡ some shelf
          → IsKept (get_token_type b t) t g decode (s shelf))

  latest_in_same :
      (f : ℕ) (b : Block) (t : List ℕ) (s : Stores g)
      → InOrder b s t
      → (latest_in g sha3_hex decode (suc f) (get_token_type b t) t s).1 ≡ s
  unfolding latest_in
  latest_in_same f b t s (short, kept) = elim (Option-cases (get_chain_db (get_token_type b t))) [
    | inl none_there ↦ rw (none_there, latest_in) refl
    | inr (shelf, there) ↦
        rw (there, latest_in)
          (ap (λ d. set_shelf g shelf d s)
              (pick_same (get_token_type b t) t g decode short (s shelf) (kept shelf there) f)
            ∙ set_same shelf s)
  ]

  -- The chain of the token has a block of the number that the block gives it, or of a larger one.
  abbrev pub Replayed : Block → Stores g → List ℕ → Type 0
  Replayed b s t =
      (n : ℕ) × (m : ℕ) × (h : List ℕ) × (v : List ℕ) × (shelf : Shelf) × (get_block_number b t
        ≡ some n)
      × (get_chain_db (get_token_type b t) ≡ some shelf)
      × (g.get (s shelf) (chain_key (get_token_type b t) t m h) ≡ some v)
      × (n ≤ m)
      × (m < 2 ^ 64)

  not_below :
      (ty : ℕ) (t : List ℕ) (d : g.Db) (n m : ℕ) (h v : List ℕ)
      → g.get d (chain_key ty t m h) ≡ some v
      → n ≤ m
      → m < 2 ^ 64
      → AllBelow ty t g decode n d
      → ⊥
  not_below ty t d n m h v at le small below =
      let (m', h', same, lt) = below (chain_key ty t m h) v at (hex_text 16 m ++ 45 ∷ h, refl) in
      let up = chain_key-LexLt ty t m' m h' h small (omega arith) in
      let loop = subst (λ z. LexLt z (chain_key ty t m h)) (sym same) up in
      LexLt-asym (chain_key ty t m h) (chain_key ty t m h) loop loop

  Replayed-follows :
      (f n : ℕ) (b : Block) (t : List ℕ) (s : Stores g)
      → InOrder b s t
      → Replayed b s t
      → get_block_number b t ≡ some n
      → follows n (latest_in g sha3_hex decode (suc f) (get_token_type b t) t s).0 t ≡ true
      → ⊥
  unfolding latest_in
  Replayed-follows f n b t s (short, kept) (n', m, h, v, shelf, number', there, at, le, small)
        number next =
      let same_n = some_eq (sym number ∙ number') in
      let now : follows n
            (pick_block g decode last_entry (suc f) (get_token_type b t) t (s shelf)).0 t
          ≡ true =
        rw (there, latest_in) at next in
      not_below (get_token_type b t) t (s shelf) n m h v at (omega arith) small
        (follows-AllBelow (get_token_type b t) t g decode short (s shelf) (kept shelf there) f n
          now).1

  check_tokens-Replayed :
      (f : ℕ) (b : Block) (t : List ℕ) (ts : List (List ℕ)) (s : Stores g)
      → All (InOrder b s) ts
      → Member t ts
      → Replayed b s t
      → check_tokens g sha3_hex decode (suc f) b ts s ≡ (false, s)
  unfolding check_tokens
  check_tokens-Replayed f b t [] s io m r = absurd m
  check_tokens-Replayed f b t (u ∷ us) s (io, ios) m r =
      let same = latest_in_same f b u s io in
      elim (Option-cases (get_block_number b u)) [
        | inl missing ↦ rw (missing, check_tokens) (ap (λ z. (false, z)) same)
        | inr (n, number) ↦
            elim (Bool-cases
              (follows n (latest_in g sha3_hex decode (suc f) (get_token_type b u) u s).0 u)) [
                | inr late ↦ rw (number, late, check_tokens) (ap (λ z. (false, z)) same)
                | inl next ↦ elim m [
                  | inl here ↦
                      absurd
                        (Replayed-follows f n b u s io (subst (Replayed b s) here r) number next)
                  | inr later ↦
                      rw (number, next, check_tokens)
                        (ap (check_tokens g sha3_hex decode (suc f) b us) same
                          ∙ check_tokens-Replayed f b t us s ios later r)
                ]
              ]
      ]

  -- A block of two tokens or more is refused by `addBlocks` if the chain of one of them already has
  -- its number or a larger one, and then nothing has been written, where the chains are in order.
  pub add_blocks-Replayed :
      (f : ℕ) (b : Block) (t u v : List ℕ) (ts : List (List ℕ)) (s : Stores g)
      → get_trans_tokens b ≡ some (u ∷ v ∷ ts)
      → All (InOrder b s) (u ∷ v ∷ ts)
      → Member t (u ∷ v ∷ ts)
      → Replayed b s t
      → add_blocks g sha3_hex decode (suc f) b s ≡ (false, s)
  unfolding add_blocks add_together
  add_blocks-Replayed f b t u v ts s tokens io m r =
      elim (Option-cases (get_chain_db (get_token_type b u))) [
        | inl nowhere ↦ rw (tokens, nowhere, add_blocks, add_together) refl
        | inr (shelf, there) ↦
            rw
              (
                tokens,
                there,
                add_blocks,
                add_together,
                check_tokens-Replayed f b t (u ∷ v ∷ ts) s io m r,
              )
              refl
      ]
