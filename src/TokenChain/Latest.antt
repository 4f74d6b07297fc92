-- ===== src/TokenChain/Latest.antt =====
-- core/wallet/token_chain.go: a block that is added to a chain is its latest one.
use rubixgoplatform.Prelude.{
  ℕ, suc, ◌+◌, ◌^◌, ◌<◌, ◌≡◌, ◌≢◌, ◌⊎◌, inl, inr, refl, List, [], ◌∷◌, ◌++◌, Option, some, none,
  true, false, ltb, ltb→lt, length, length-append, sym, ◌∙◌, ap, subst, Bool-cases, Option-cases,
  arith,
}
use rubixgoplatform.Blocks.{Block, get_block_number}
use rubixgoplatform.TokenChain.Order.{LexLt, HasPrefix}
use rubixgoplatform.TokenChain.{
  Level, type_text, tcs_prefix, hex_text, is_old_key, last_entry, block_of_value, pick_block,
}
use rubixgoplatform.TokenChain.Keys.{LexLt-asym, LexLt-append, LexLt-hex_text, length-hex_text}
use rubixgoplatform.TokenChain.Entries.{
  last_entry-Member, last_entry-none, last_entry-LexLt, entry_holds,
}
use rubixgoplatform.TokenChain.Adding.{follows}

length-type_text : (ty : ℕ) → length (type_text ty) ≡ 2
unfolding type_text
length-type_text ty = ground arith

module _ (token_type : ℕ) (token : List ℕ) where
  abbrev pub chain_key : ℕ → List ℕ → List ℕ
  chain_key n h = tcs_prefix token_type token ++ (hex_text 16 n ++ 45 ∷ h)

  length-tcs_prefix : length (tcs_prefix token_type token) ≡ 4 + length token
  unfolding tcs_prefix
  length-tcs_prefix =
      length-append (type_text token_type) (45 ∷ (token ++ 45 ∷ []))
      ∙ omega (arith, length-type_text token_type, length-append token (45 ∷ []))

  length-chain_key :
      (n : ℕ) (h : List ℕ) → length token ≡ 46 → length h ≡ 64 → length (chain_key n h) ≡ 131
  length-chain_key n h lt lh =
      length-append (tcs_prefix token_type token) (hex_text 16 n ++ 45 ∷ h)
      ∙ omega (
        arith,
        length-tcs_prefix,
        length-append (hex_text 16 n) (45 ∷ h),
        length-hex_text 16 n,
        lt,
        lh,
      )

  chain_key_new :
      (n : ℕ) (h : List ℕ) → length token ≡ 46 → length h ≡ 64 → is_old_key (chain_key n h) ≡ false
  unfolding is_old_key
  chain_key_new n h lt lh = rw (length-chain_key n h lt lh) refl

  pub chain_key-LexLt :
      (m n : ℕ) (h h' : List ℕ) → n < 2 ^ 64 → m < n → LexLt (chain_key m h) (chain_key n h')
  chain_key-LexLt m n h h' small lt =
      LexLt-append (tcs_prefix token_type token) (hex_text 16 m ++ 45 ∷ h)
        (hex_text 16 n ++ 45 ∷ h') (LexLt-hex_text 16 m n (45 ∷ h) (45 ∷ h') small lt)

  module _ (g : Level) (decode : List ℕ → Option Block) where
    -- What stands under a key of the chain: the key has the number of the block that is read there.
    pub record KeptEntry (d : g.Db) (k v : List ℕ) : Type 0 where
      pub number : ℕ
      pub digest : List ℕ
      pub block : Block
      pub key_eq : k ≡ chain_key number digest
      pub small : number < 2 ^ 64
      pub digest_length : length digest ≡ 64
      pub read : block_of_value g decode d v ≡ some block
      pub number_eq : get_block_number block token ≡ some number

    -- The chain of the token in the database.
    abbrev pub IsKept : g.Db → Type 0
    IsKept d =
        (k v : List ℕ)
        → g.get d k ≡ some v
        → HasPrefix (tcs_prefix token_type token) k
        → KeptEntry d k v

    -- Every block of the chain has a smaller number than `n`.
    abbrev pub AllBelow : ℕ → g.Db → Type 0
    AllBelow n d =
        (k v : List ℕ)
        → g.get d k ≡ some v
        → HasPrefix (tcs_prefix token_type token) k
        → (m : ℕ) × (h : List ℕ) × (k ≡ chain_key m h) × (m < n)

    module _ (short : length token ≡ 46) (d : g.Db) (kept : IsKept d) where
      last_read :
          (f : ℕ) (e : List ℕ × List ℕ)
          → last_entry (g.range d (tcs_prefix token_type token)) ≡ some e
          → (k : KeptEntry d e.0 e.1) × (pick_block g decode last_entry (suc f) token_type token d
              ≡ (some k.block, d))
      unfolding pick_block
      last_read f e last =
          let p = tcs_prefix token_type token in
          let (at, prefix) =
            entry_holds (λ e. (g.get d e.0 ≡ some e.1) × HasPrefix p e.0) (g.range d p) e
              (g.range_sound d p) (last_entry-Member (g.range d p) last) in
          let k = kept e.0 e.1 at prefix in
          let new =
            ap is_old_key k.key_eq ∙ chain_key_new k.number k.digest short k.digest_length in
          (k, rw (last, new, k.read, pick_block) refl)

      unlisted :
          (f : ℕ)
          → last_entry (g.range d (tcs_prefix token_type token)) ≡ none
          → pick_block g decode last_entry (suc f) token_type token d ≡ (none, d)
      unfolding pick_block
      unlisted f empty = rw (empty, pick_block) refl

      -- The search for the latest block leaves the database as it was.
      pub pick_same : (f : ℕ) → (pick_block g decode last_entry (suc f) token_type token d).1 ≡ d
      pick_same f = elim (Option-cases (last_entry (g.range d (tcs_prefix token_type token)))) [
        | inl empty ↦ ap (λ z. z.1) (unlisted f empty)
        | inr (e, last) ↦ ap (λ z. z.1) (last_read f e last).1
      ]

      same_or_below :
          (e : List ℕ × List ℕ) (l : KeptEntry d e.0 e.1) (k v : List ℕ) (q : KeptEntry d k v)
          → ((k, v) ≡ e) ⊎ LexLt k e.0
          → l.number < q.number
          → ⊥
      same_or_below e l k v q order lt =
          let up : LexLt e.0 k =
            subst (λ z. LexLt z k) (sym l.key_eq)
              (subst (LexLt (chain_key l.number l.digest)) (sym q.key_eq)
                (chain_key-LexLt l.number q.number l.digest q.digest q.small lt)) in
          elim order [
            | inl same ↦
                LexLt-asym e.0 e.0 (subst (LexLt e.0) (ap (λ z. z.0) same) up)
                  (subst (LexLt e.0) (ap (λ z. z.0) same) up)
            | inr down ↦ LexLt-asym e.0 k up down
          ]

      below :
          (e : List ℕ × List ℕ) (l : KeptEntry d e.0 e.1) (n : ℕ)
          → l.number < n
          → last_entry (g.range d (tcs_prefix token_type token)) ≡ some e
          → AllBelow n d
      below e l n above last k v at prefix =
          let p = tcs_prefix token_type token in
          let q = kept k v at prefix in
          let order =
            last_entry-LexLt (g.range d p) e (k, v) (g.range_rising d p) last
              (g.range_complete d p k v at prefix) in
          elim (Bool-cases (ltb q.number n)) [
            | inl small ↦ (q.number, q.digest, q.key_eq, ltb→lt q.number n small)
            | inr large ↦ absurd (same_or_below e l k v q order (ground arith))
          ]

      number_above :
          (n : ℕ) (b : Block) (m : ℕ)
          → get_block_number b token ≡ some m
          → follows n (some b) token ≡ true
          → m < n
      unfolding follows
      number_above n b m e h = ltb→lt m n (rw (e, follows) at h)

      -- The number of a block that `addBlock` lets through is above those of the chain, and the search
      -- for the latest block has left the database as it was.
      pub follows-AllBelow :
          (f n : ℕ)
          → follows n (pick_block g decode last_entry (suc f) token_type token d).0 token ≡ true
          → ((pick_block g decode last_entry (suc f) token_type token d).1 ≡ d) × AllBelow n d
      follows-AllBelow f n h =
          let p = tcs_prefix token_type token in
          elim (Option-cases (last_entry (g.range d p))) [
            | inl empty ↦ (
              ap (λ z. z.1) (unlisted f empty),
              λ k v at prefix.
                  absurd (
                    last_entry-none (g.range d p) (k, v) empty
                      (g.range_complete d p k v at prefix)),
            )
            | inr (e, last) ↦
                let (l, found) = last_read f e last in
                let above =
                  number_above n l.block l.number l.number_eq
                    (ap (λ z. follows n z.0 token) (sym found) ∙ h) in
                (ap (λ z. z.1) found, below e l n above last)
          ]

    -- Another database, in which a block has been written under the next key.
    module _ (short : length token ≡ 46) (d d' : g.Db) (n : ℕ) (ha : List ℕ) (b : Block)
        (v : List ℕ) (small : n < 2 ^ 64) (long : length ha ≡ 64)
        (numbered : get_block_number b token ≡ some n)
        (written : g.get d' (chain_key n ha) ≡ some v)
        (readable : block_of_value g decode d' v ≡ some b)
        (others : (k : List ℕ)
          → HasPrefix (tcs_prefix token_type token) k
          → k ≢ chain_key n ha
          → g.get d' k ≡ g.get d k)
        (above : AllBelow n d) where
      entry_below :
          (k w : List ℕ)
          → g.get d' k ≡ some w
          → HasPrefix (tcs_prefix token_type token) k
          → k ≢ chain_key n ha
          → LexLt k (chain_key n ha)
      entry_below k w at prefix ne =
          let (m, h, is_key, lt) = above k w (sym (others k prefix ne) ∙ at) prefix in
          subst (λ z. LexLt z (chain_key n ha)) (sym is_key) (chain_key-LexLt m n h ha small lt)

      is_last :
          (e : List ℕ × List ℕ)
          → last_entry (g.range d' (tcs_prefix token_type token)) ≡ some e
          → (chain_key n ha, v) ≡ e
      is_last e last =
          let p = tcs_prefix token_type token in
          let key = chain_key n ha in
          let (at, prefix) =
            entry_holds (λ e. (g.get d' e.0 ≡ some e.1) × HasPrefix p e.0) (g.range d' p) e
              (g.range_sound d' p) (last_entry-Member (g.range d' p) last) in
          elim (last_entry-LexLt (g.range d' p) e (key, v) (g.range_rising d' p) last
            (g.range_complete d' p key v written (hex_text 16 n ++ 45 ∷ ha, refl))) [
              | inl same ↦ same
              | inr up ↦ absurd (
                  LexLt-asym key e.0 up (
                    entry_below e.0 e.1 at prefix (λ same.
                      LexLt-asym key key (subst (LexLt key) same up) (subst (LexLt key) same up))))
            ]

      -- The block is the latest one.
      pub latest_is :
          (f : ℕ) → pick_block g decode last_entry (suc f) token_type token d' ≡ (some b, d')
      unfolding pick_block
      latest_is f =
          let p = tcs_prefix token_type token in
          let key = chain_key n ha in
          elim (Option-cases (last_entry (g.range d' p))) [
            | inl empty ↦ absurd (
                last_entry-none (g.range d' p) (key, v) empty
                  (g.range_complete d' p key v written (hex_text 16 n ++ 45 ∷ ha, refl)))
            | inr (e, last) ↦
                let same = is_last e last in
                rw (last ∙ ap some (sym same), chain_key_new n ha short long, readable, pick_block)
                  refl
          ]
