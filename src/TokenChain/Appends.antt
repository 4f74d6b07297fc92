-- ===== src/TokenChain/Appends.antt =====
-- core/wallet/token_chain.go: `addBlock` on a chain that is in order.
use rubixgoplatform.Prelude.{
  ℕ, suc, ◌^◌, ◌<◌, ◌≡◌, inl, inr, refl, List, ◌∷◌, ◌++◌, Option, some, true, false, length, sym,
  ◌∙◌, ap, Bool-cases, Option-cases,
}
use rubixgoplatform.TokenAuth.Text.{same_text, same_text_refl, same_text-eq}
use rubixgoplatform.Blocks.{Block, get_block_number, get_block_id}
use rubixgoplatform.TokenChain.Order.{HasPrefix}
use rubixgoplatform.TokenChain.{
  Level, tcs_prefix, tcs_key, hex_text, is_reference, last_entry, block_of_value, pick_block,
}
use rubixgoplatform.TokenChain.Keys.{NoDash, parse_uint64-NoDash, tcs_key-eq}
use rubixgoplatform.TokenChain.Entries.{get_block_id-parts}
use rubixgoplatform.TokenChain.Adding.{follows, store_block, add_to_chain}
use rubixgoplatform.TokenChain.Stored.{Stored, IsAddressed, store_block-Stored, HasPrefix-reference}
use rubixgoplatform.TokenChain.Latest.{chain_key, IsKept, AllBelow, follows-AllBelow, latest_is}

false≢true : false ≡ true → ⊥
false≢true e = cc

module _ (g : Level) (decode : List ℕ → Option Block) (sha3_hex : List ℕ → List ℕ) (token_type : ℕ)
    (token : List ℕ) where
  -- What a successful `addBlock` has tested and done.
  record Ran (f : ℕ) (b : Block) (d d' : g.Db) : Type 0 where
    pub bid : List ℕ
    pub n : ℕ
    pub id_eq : get_block_id b token ≡ some bid
    pub number_eq : get_block_number b token ≡ some n
    pub next : follows n (pick_block g decode last_entry f token_type token d).0 token ≡ true
    pub stored :
        store_block g sha3_hex
          (tcs_key token_type token bid)
          b
          (pick_block g decode last_entry f token_type token d).1
        ≡ (true, d')

  add_to_chain-Ran :
      (f : ℕ) (b : Block) (d d' : g.Db)
      → add_to_chain g sha3_hex decode f token_type token b d ≡ (true, d')
      → Ran f b d d'
  unfolding add_to_chain
  add_to_chain-Ran f b d d' h =
      let (lb, d1) = pick_block g decode last_entry f token_type token d in
      elim (Option-cases (get_block_id b token)) [
        | inl missing ↦ absurd (false≢true (ap (λ z. z.0) (rw (missing, add_to_chain) at h)))
        | inr (bid, id) ↦ elim (Option-cases (get_block_number b token)) [
          | inl missing ↦ absurd (false≢true (ap (λ z. z.0) (rw (id, missing, add_to_chain) at h)))
          | inr (n, number) ↦ elim (Bool-cases (follows n lb token)) [
            | inr late ↦
                absurd (false≢true (ap (λ z. z.0) (rw (id, number, late, add_to_chain) at h)))
            | inl next ↦ record {
              bid = bid;
              n = n;
              id_eq = id;
              number_eq = number;
              next = next;
              stored = rw (id, number, next, add_to_chain) at h;
            }
          ]
        ]
      ]

  -- The block is the latest of a chain in order, and its number is above those of the chain before.
  abbrev pub Appends : Block → g.Db → g.Db → Type 0
  Appends b d d' =
      ((f : ℕ) → pick_block g decode last_entry (suc f) token_type token d' ≡ (some b, d'))
      × IsKept token_type token g decode d'
      × ((n : ℕ) × (get_block_number b token ≡ some n) × AllBelow token_type token g decode n d)

  -- A hash is the hexadecimal text of 32 bytes.
  abbrev pub IsDigest : List ℕ → Type 0
  IsDigest h = (length h ≡ 64) × NoDash h

  IsKept-after :
      (d d' : g.Db) (n : ℕ) (ha : List ℕ) (b : Block)
      → n < 2 ^ 64
      → length ha ≡ 64
      → get_block_number b token ≡ some n
      → IsKept token_type token g decode d
      → Stored g decode d d' (chain_key token_type token n ha) b
      → IsKept token_type token g decode d'
  IsKept-after d d' n ha b small long number kept s k v at prefix =
      let key = chain_key token_type token n ha in
      elim (Bool-cases (same_text k key)) [
        | inl same ↦
            let e = same_text-eq k key same in
            let is_value : s.value ≡ v = some_value (sym s.written ∙ ap (g.get d') (sym e) ∙ at) in
            record {
              number = n;
              digest = ha;
              block = b;
              key_eq = e;
              small = small;
              digest_length = long;
              read = ap (block_of_value g decode d') (sym is_value) ∙ s.readable;
              number_eq = number;
            }
        | inr other ↦
            let ne = λ (e : k ≡ key).
              false≢true (sym other ∙ ap (λ z. same_text z key) e ∙ same_text_refl key) in
            let q =
              kept k v (sym (s.others k (HasPrefix-reference token_type token k prefix) ne) ∙ at)
                prefix in
            record {
              number = q.number;
              digest = q.digest;
              block = q.block;
              key_eq = q.key_eq;
              small = q.small;
              digest_length = q.digest_length;
              read = s.kept v q.block q.read;
              number_eq = q.number_eq;
            }
      ]
    where
      some_value : {x y : List ℕ} → some x ≡ some y → x ≡ y
      some_value e = cc

  -- A block that `addBlock` adds to a chain that is in order is its latest block, the chain stays in
  -- order, and the block has a larger number than every block before, where hashes are 64 digits,
  -- tokens have 46 characters, the bytes of the block decode to it and are no reference, and a
  -- reference leads to the block of its hash.
  pub add_to_chain-Appends :
      (f : ℕ) (b : Block) (d d' : g.Db)
      → length token ≡ 46
      → ((h : List ℕ) → b.block_hash ≡ some h → IsDigest h)
      → is_reference b.bytes ≡ some false
      → decode b.bytes ≡ some b
      → IsAddressed g decode sha3_hex d b
      → IsKept token_type token g decode d
      → add_to_chain g sha3_hex decode (suc f) token_type token b d ≡ (true, d')
      → Appends b d d'
  add_to_chain-Appends f b d d' short digest plain whole addressed kept h =
      let r = add_to_chain-Ran (suc f) b d d' h in
      let (bns, ha, is_id, parsed, hash) = get_block_id-parts b token r.id_eq r.number_eq in
      let (long, dashes) = digest ha hash in
      let (_, small) = parse_uint64-NoDash bns parsed in
      let (same, below) = follows-AllBelow token_type token g decode short d kept f r.n r.next in
      let key_eq =
        ap (tcs_key token_type token) is_id ∙ tcs_key-eq token_type token bns ha parsed dashes in
      let key = chain_key token_type token r.n ha in
      let prefix : HasPrefix (tcs_prefix token_type token) key =
        (hex_text 16 r.n ++ 45 ∷ ha, refl) in
      let done : store_block g sha3_hex key b d ≡ (true, d') =
        (λ i. store_block g sha3_hex (sym key_eq i) b (sym same i)) ∙ r.stored in
      let s =
        store_block-Stored g decode sha3_hex key b d d'
          (HasPrefix-reference token_type token key prefix) plain whole addressed done in
      (
        latest_is token_type token g decode short d d' r.n ha b s.value small long r.number_eq
            s.written s.readable
            (λ k p ne. s.others k (HasPrefix-reference token_type token k p) ne) below,
        IsKept-after d d' r.n ha b small long r.number_eq kept s,
        (r.n, r.number_eq, below),
      )
