-- ===== src/TokenChain/Stored.antt =====
-- core/wallet/token_chain.go: what the end of `addBlock` has written.
use rubixgoplatform.Prelude.{
  ℕ, zero, suc, ◌≤◌, ◌≡◌, ◌≢◌, inl, inr, refl, List, [], ◌∷◌, ◌++◌, Option, some, none, Bool, true,
  false, ◌==◌, if◌then◌else◌, >>=-eq-some, some_eq, sym, ◌∙◌, ap, Bool-cases, Option-cases, arith,
}
use mathlib.Core.List.{append_assoc}
use rubixgoplatform.Blocks.{Block, get_hash, check_multi_token_block}
use rubixgoplatform.TokenChain.Order.{HasPrefix}
use rubixgoplatform.TokenChain.{
  Level, type_text, tcs_prefix, is_reference, get_raw_block, block_of_value,
}
use rubixgoplatform.TokenChain.Adding.{write_value, reference_key, store_block}

no_value : {A : Type 0} {a : A} → none ≡ some a → ⊥
no_value e = cc

false≢true : false ≡ true → ⊥
false≢true e = cc

if_both : {A : Type 0} (P : A → Type 0) (c : Bool) {a b : A} → P a → P b → P (if c then a else b)
if_both P true h k = h
if_both P false h k = k

type_text_reference :
    (ty : ℕ) (rest : List ℕ) → is_reference (type_text ty ++ 45 ∷ rest) ≡ some false
unfolding type_text is_reference
type_text_reference ty rest =
    let P = λ (x : List ℕ). is_reference (x ++ 45 ∷ rest) ≡ some false in
    if_both P (ty == 1) refl (
      if_both P (ty == 2) refl (
        if_both P (ty == 3) refl (
          if_both P (ty == 4) refl (
            if_both P (ty == 5) refl (
              if_both P (ty == 6) refl
                (if_both P (ty == 8) refl (if_both P (ty == 10) refl refl)))))))

-- No key of a chain is a reference.
pub HasPrefix-reference :
    (ty : ℕ) (t k : List ℕ) → HasPrefix (tcs_prefix ty t) k → is_reference k ≡ some false
unfolding tcs_prefix
HasPrefix-reference ty t k (rest, e) =
    ap is_reference (e ∙ append_assoc (type_text ty) (45 ∷ (t ++ 45 ∷ [])) rest)
    ∙ type_text_reference ty ((t ++ 45 ∷ []) ++ rest)

module _ (g : Level) where
  -- What a search has found stays found when more is written under a key at which it finds nothing.
  raw_more :
      (f : ℕ) (d : g.Db) (k : List ℕ) {v : List ℕ}
      → get_raw_block g f d k ≡ some v
      → get_raw_block g (suc f) d k ≡ some v
  unfolding get_raw_block
  raw_more zero d k h = absurd (no_value h)
  raw_more (suc f) d k {v} h =
      let (u, at, h1) = >>=-eq-some (g.get d k) _ h in
      let (r, ref, h2) = >>=-eq-some (is_reference u) _ h1 in
      elim (Bool-cases r) [
        | inl refers ↦ rw (at, ref, refers) (raw_more f d u (rw refers at h2))
        | inr other ↦ rw (at, ref, other) (rw other at h2)
      ]

  -- A key that is no reference, or at which nothing is found within `f` steps.
  abbrev Unread : ℕ → g.Db → List ℕ → Type 0
  Unread f d key =
      (j : ℕ) (v : List ℕ)
      → j ≤ f
      → is_reference key ≡ some true
      → get_raw_block g j d key ≡ some v
      → ⊥

  raw_kept :
      (f : ℕ) (d d' : g.Db) (key k : List ℕ) {v : List ℕ}
      → ((k : List ℕ) → k ≢ key → g.get d' k ≡ g.get d k)
      → Unread f d key
      → is_reference k ≡ some true
      → get_raw_block g f d k ≡ some v
      → get_raw_block g f d' k ≡ some v
  unfolding get_raw_block
  raw_kept zero d d' key k others never at_ref h = absurd (no_value h)
  raw_kept (suc f) d d' key k {v} others never at_ref h =
      let ne = λ (e : k ≡ key).
        never (suc f) v (omega arith) (ap is_reference (sym e) ∙ at_ref)
          (ap (get_raw_block g (suc f) d) (sym e) ∙ h) in
      let (u, at, h1) = >>=-eq-some (g.get d k) _ h in
      let (r, ref, h2) = >>=-eq-some (is_reference u) _ h1 in
      elim (Bool-cases r) [
        | inl refers ↦
            rw (others k ne ∙ at, ref, refers)
              (raw_kept f d d' key u others (λ j w le. never j w (omega arith))
                (ref ∙ ap some refers) (rw refers at h2))
        | inr other ↦ rw (others k ne ∙ at, ref, other) (rw other at h2)
      ]

  unfound : (d : g.Db) (key : List ℕ) → get_raw_block g 2 d key ≡ none → Unread 2 d key
  unfolding get_raw_block
  unfound d key h zero v le ref found = no_value found
  unfound d key h (suc zero) v le ref found = no_value (sym h ∙ raw_more 1 d key found)
  unfound d key h (suc (suc zero)) v le ref found = no_value (sym h ∙ found)
  unfound d key h (suc (suc (suc j))) v le ref found = omega arith

  module _ (decode : List ℕ → Option Block) where
    -- A database keeps what the values of another lead to.
    abbrev pub Preserves : g.Db → g.Db → Type 0
    Preserves d d' =
        (v : List ℕ) (b : Block)
        → block_of_value g decode d v ≡ some b
        → block_of_value g decode d' v ≡ some b

    preserves :
        (d d' : g.Db) (key : List ℕ)
        → ((k : List ℕ) → k ≢ key → g.get d' k ≡ g.get d k)
        → Unread 2 d key
        → Preserves d d'
    unfolding block_of_value
    preserves d d' key others never v b h =
        let (r, ref, h1) = >>=-eq-some (is_reference v) _ h in
        elim (Bool-cases r) [
          | inr plain ↦ rw (ref, plain) (rw plain at h1)
          | inl refers ↦
              let (blk, raw, h2) = >>=-eq-some (get_raw_block g 2 d v) _ (rw refers at h1) in
              let kept : get_raw_block g 2 d' v ≡ some blk =
                raw_kept 2 d d' key v others never (ref ∙ ap some refers) raw in
              rw (ref, refers, kept) h2
        ]

    -- The block can be read under the key, the values of other keys lead where they led, and of the
    -- keys that are no references only this one may have another value.
    pub record Stored (d d' : g.Db) (key : List ℕ) (b : Block) : Type 0 where
      pub value : List ℕ
      pub written : g.get d' key ≡ some value
      pub readable : block_of_value g decode d' value ≡ some b
      pub others : (k : List ℕ) → is_reference k ≡ some false → k ≢ key → g.get d' k ≡ g.get d k
      pub kept : Preserves d d'

    value_written :
        (d d' : g.Db) (key v : List ℕ)
        → write_value g key v d ≡ (true, d')
        → (g.get d' key ≡ some v) × ((k : List ℕ) → k ≢ key → g.get d' k ≡ g.get d k)
    unfolding write_value
    value_written d d' key v h = elim (Option-cases (g.put d key v)) [
      | inl failed ↦ absurd (false≢true (ap (λ z. z.0) (rw (failed, write_value) at h)))
      | inr (d1, done) ↦
          let same = ap (λ z. z.1) (rw (done, write_value) at h) in
          let done' = done ∙ ap some same in
          (g.get_put d d' key v done', λ k ne. g.get_put_other d d' key v k done' ne)
    ]

    plain_read :
        (d : g.Db) (b : Block)
        → is_reference b.bytes ≡ some false
        → decode b.bytes ≡ some b
        → block_of_value g decode d b.bytes ≡ some b
    unfolding block_of_value
    plain_read d b plain whole = rw plain whole

    -- A value that refers to the block.
    reference_read :
        (d : g.Db) (key : List ℕ) (b : Block)
        → is_reference key ≡ some true
        → get_raw_block g 2 d key ≡ some b.bytes
        → decode b.bytes ≡ some b
        → block_of_value g decode d key ≡ some b
    unfolding block_of_value
    reference_read d key b ref raw whole = rw (ref, raw) whole

    raw_here :
        (d : g.Db) (key : List ℕ) (v : List ℕ)
        → g.get d key ≡ some v
        → is_reference v ≡ some false
        → get_raw_block g 2 d key ≡ some v
    unfolding get_raw_block
    raw_here d key v at plain = rw (at, plain) refl

    module _ (sha3_hex : List ℕ → List ℕ) where
      -- What is stored under the reference key of a block is the block: the key has its hash.
      abbrev pub IsAddressed : g.Db → Block → Type 0
      IsAddressed d b =
          (bs v : List ℕ)
          → get_hash b ≡ some bs
          → get_raw_block g 2 d (reference_key g sha3_hex b bs) ≡ some v
          → v ≡ b.bytes

      false_ref : (k : List ℕ) → is_reference k ≡ some false → is_reference k ≡ some true → ⊥
      false_ref k h e = false≢true (some_eq (sym h ∙ e))

      is_ref : (b : Block) (bs : List ℕ) → is_reference (reference_key g sha3_hex b bs) ≡ some true
      unfolding is_reference
      is_ref b bs = refl

      -- A reference that is written, where the block stands already.
      reference-Stored :
          (key r : List ℕ) (b : Block) (d d1 d' : g.Db)
          → is_reference key ≡ some false
          → is_reference r ≡ some true
          → decode b.bytes ≡ some b
          → ((k : List ℕ) → is_reference k ≡ some false → g.get d1 k ≡ g.get d k)
          → Preserves d d1
          → get_raw_block g 2 d1 r ≡ some b.bytes
          → write_value g key r d1 ≡ (true, d')
          → Stored d d' key b
      reference-Stored key r b d d1 d' key_plain ref whole before earlier raw h =
          let (at, others) = value_written d1 d' key r h in
          let unread : Unread 2 d1 key = λ j v le e. absurd (false_ref key key_plain e) in
          record {
            value = r;
            written = at;
            readable =
                reference_read d' r b ref (raw_kept 2 d1 d' key r others unread ref raw) whole;
            others = λ k plain ne. others k ne ∙ before k plain;
            kept = λ v x e. preserves d1 d' key others unread v x (earlier v x e);
          }

      pub store_block-Stored :
          (key : List ℕ) (b : Block) (d d' : g.Db)
          → is_reference key ≡ some false
          → is_reference b.bytes ≡ some false
          → decode b.bytes ≡ some b
          → IsAddressed d b
          → store_block g sha3_hex key b d ≡ (true, d')
          → Stored d d' key b
      unfolding store_block
      store_block-Stored key b d d' key_plain plain whole addressed h =
          elim (Bool-cases (check_multi_token_block b)) [
            | inr single ↦
                let (at, others) = value_written d d' key b.bytes (rw (single, store_block) at h) in
                record {
                  value = b.bytes;
                  written = at;
                  readable = plain_read d' b plain whole;
                  others = λ k _ ne. others k ne;
                  kept =
                      preserves d d' key others
                        (λ j v le ref. absurd (false_ref key key_plain ref));
                }
            | inl multi ↦ elim (Option-cases (get_hash b)) [
              | inl unknown ↦
                  absurd (false≢true (ap (λ z. z.0) (rw (multi, unknown, store_block) at h)))
              | inr (bs, hash) ↦
                  let r = reference_key g sha3_hex b bs in
                  elim (Option-cases (get_raw_block g 2 d r)) [
                    | inr (v, found) ↦
                        reference-Stored key r b d d d' key_plain (is_ref b bs) whole (λ k e. refl)
                          (λ w x e. e) (found ∙ ap some (addressed bs v hash found))
                          (rw (multi, hash, found, store_block) at h)
                    | inl unfound_yet ↦ elim (Option-cases (g.put d r b.bytes)) [
                      | inl failed ↦ absurd (
                          false≢true (
                            ap (λ z. z.0)
                              (rw (multi, hash, unfound_yet, failed, store_block) at h)))
                      | inr (d1, done) ↦
                          let others =
                            λ (k : List ℕ) (ne : k ≢ r). g.get_put_other d d1 r b.bytes k done ne in
                          reference-Stored key r b d d1 d' key_plain (is_ref b bs) whole
                            (λ k e.
                              others k (λ same. false_ref k e (ap is_reference same ∙ is_ref b bs)))
                            (preserves d d1 r others (unfound d r unfound_yet))
                            (raw_here d1 r b.bytes (g.get_put d d1 r b.bytes done) plain)
                            (rw (multi, hash, unfound_yet, done, store_block) at h)
                    ]
                  ]
            ]
          ]
