-- ===== src/Wallet/StateHistory.antt =====
-- core/wallet/token.go: what adding and removing token state hashes does to their table.
use rubixgoplatform.Prelude.{
  ℕ, ◌≡◌, refl, Option, none, some, List, [], ◌∷◌, Bool, ◌==◌, if◌then◌else◌, ◌⊎◌, inl, inr, sym,
  ◌∙◌, ap, subst, ==_iff, ==_refl, if-inv, Bool-cases, Option-cases,
}
use rubixgoplatform.Storage.Rows.{Table}
use rubixgoplatform.Storage.Effects.{ok, err, db_error, Exec}
use rubixgoplatform.Storage.{read_all, read_one, delete}
use rubixgoplatform.Storage.Laws.{
  Writes, Deletes, without, write-cases, delete-cases, no_records-Deletes,
}
use rubixgoplatform.Wallet.Locking.{err≢ok}
use rubixgoplatform.Wallet.StateHashes.{
  TokenStateDetails, state_key, of_transaction, of_hash, add_token_state_hash, delete_read,
  remove_token_state_hash, remove_token_state_hash_by_transaction_id,
}

-- The row that is added for a hash.
abbrev pub details : ℕ → List ℕ → ℕ → ℕ → TokenStateDetails
details did pledged id hash = record {
  did = did;
  token_state_hash = hash;
  pledged_tokens = pledged;
  transaction_id = id;
}

-- The row under `k` after every hash of the list is added.
abbrev pub added_row :
    ℕ → List ℕ → List ℕ → ℕ → ℕ → Option TokenStateDetails → Option TokenStateDetails
added_row did [] pledged id k o = o
added_row did (hash ∷ hashes) pledged id k o =
    if k == hash then some (details did pledged id k) else added_row did hashes pledged id k o

added_row-details :
    (did : ℕ) (hashes pledged : List ℕ) (id k : ℕ)
    → added_row did hashes pledged id k (some (details did pledged id k))
      ≡ some (details did pledged id k)
added_row-details did [] pledged id k = refl
added_row-details did (hash ∷ hashes) pledged id k = elim (Bool-cases (k == hash)) [
  | inl e ↦ rw e refl
  | inr e ↦ rw e (added_row-details did hashes pledged id k)
]

added_row-cons :
    (did hash : ℕ) (hashes pledged : List ℕ) (id k : ℕ) (o o1 : Option TokenStateDetails)
    → o1 ≡ (if k == hash then some (details did pledged id hash) else o)
    → added_row did hashes pledged id k o1 ≡ added_row did (hash ∷ hashes) pledged id k o
added_row-cons did hash hashes pledged id k o o1 e = elim (if-inv (k == hash) (sym e)) [
  | inl (hit, e1) ↦
      let same = (==_iff k hash).0 hit in
      rw hit (
        ap (added_row did hashes pledged id k)
          (sym e1 ∙ ap (λ h. some (details did pledged id h)) (sym same))
        ∙ added_row-details did hashes pledged id k)
  | inr (miss, e1) ↦ rw miss (ap (added_row did hashes pledged id k) (sym e1))
]

module _ (g : Table TokenStateDetails state_key) where
  -- The store fails to answer the query or to delete its rows.
  abbrev pub StoreFails : (TokenStateDetails → Bool) → g.Db → Type 0
  StoreFails q d = (g.find d q ≡ none) ⊎ (g.delete_where d q ≡ none)

  abbrev pub Removes : Exec g.Db (Unit {0}) → (TokenStateDetails → Bool) → g.Db → Type 0
  Removes m q d =
      (StoreFails q d × (m d ≡ (err db_error, d)))
      ⊎ ((d' : g.Db) × (m d ≡ (ok tt, d')) × Deletes g d d' q)

  -- A call that comes to the deletion.
  delete-Removes :
      (m : Exec g.Db (Unit {0})) (q : TokenStateDetails → Bool) (d : g.Db)
      → m d ≡ delete g q d
      → Removes m q d
  unfolding delete
  delete-Removes m q d same = elim (Option-cases (g.delete_where d q)) [
    | inl failed ↦
        let left : delete g q d ≡ (err db_error, d) = rw (failed, delete) refl in
        inl (inr failed, same ∙ left)
    | inr (d1, done) ↦ elim (delete-cases g q d) [
      | inl failed ↦
          let made : delete g q d ≡ (ok tt, d1) = rw (done, delete) refl in
          absurd (err≢ok (ap (λ z. z.0) (sym failed ∙ made)))
      | inr (d', made, deleted) ↦ inr (d', same ∙ made, deleted)
    ]
  ]

  -- `RemoveTokenStateHashByTransactionID` removes exactly the rows of the transaction, and returns no
  -- error, also where there are none; only when the store fails to read or to delete them, it returns
  -- that error and changes nothing.
  pub remove_by_transaction_id-Removes :
      (id : ℕ) (d : g.Db)
      → Removes (remove_token_state_hash_by_transaction_id g id) (of_transaction id) d
  unfolding remove_token_state_hash_by_transaction_id delete_read read_all
  remove_by_transaction_id-Removes id d = found (g.find d (of_transaction id)) refl
    where
      found :
          (o : Option (List TokenStateDetails))
          → g.find d (of_transaction id) ≡ o
          → Removes (remove_token_state_hash_by_transaction_id g id) (of_transaction id) d
      found none e = inl (inl e, rw (e, read_all, remove_token_state_hash_by_transaction_id) refl)
      found (some []) e = inr (
        d,
        rw (e, read_all, remove_token_state_hash_by_transaction_id) refl,
        no_records-Deletes g (of_transaction id) d e,
      )
      found (some (r ∷ rs)) e =
          delete-Removes (remove_token_state_hash_by_transaction_id g id) (of_transaction id) d
            (rw (e, read_all, remove_token_state_hash_by_transaction_id) refl)

  -- `RemoveTokenStateHash` likewise removes exactly the row of the hash, and returns no error, also
  -- where there is none; only when the store fails, it returns that error and changes nothing.
  pub remove_token_state_hash-Removes :
      (hash : ℕ) (d : g.Db) → Removes (remove_token_state_hash g hash) (of_hash hash) d
  unfolding remove_token_state_hash delete_read read_one
  remove_token_state_hash-Removes hash d = found (g.find d (of_hash hash)) refl
    where
      found :
          (o : Option (List TokenStateDetails))
          → g.find d (of_hash hash) ≡ o
          → Removes (remove_token_state_hash g hash) (of_hash hash) d
      found none e = inl (inl e, rw (e, read_one, remove_token_state_hash) refl)
      found (some []) e = inr (
        d,
        rw (e, read_one, remove_token_state_hash) refl,
        no_records-Deletes g (of_hash hash) d e,
      )
      found (some (r ∷ rs)) e =
          delete-Removes (remove_token_state_hash g hash) (of_hash hash) d
            (rw (e, read_one, remove_token_state_hash) refl)

module _ (g : Table TokenStateDetails state_key) (did : ℕ) (pledged : List ℕ) (id : ℕ) where
  -- A key whose row is as before, or is new.
  abbrev SameOrNew : Option TokenStateDetails → Option TokenStateDetails → ℕ → Type 0
  SameOrNew o o' k = (o' ≡ o) ⊎ ((o ≡ none) × (o' ≡ some (details did pledged id k)))

  SameOrNew-write :
      (hash k : ℕ) (o o1 o2 : Option TokenStateDetails)
      → (k ≡ hash → o ≡ none)
      → o1 ≡ (if k == hash then some (details did pledged id hash) else o)
      → SameOrNew o1 o2 k
      → SameOrNew o o2 k
  SameOrNew-write hash k o o1 o2 fresh e h = elim (if-inv (k == hash) (sym e)) [
    | inl (hit, e1) ↦
        let same = (==_iff k hash).0 hit in
        elim h [
          | inl kept ↦
              inr (fresh same, kept ∙ sym e1 ∙ ap (λ n. some (details did pledged id n)) (sym same))
          | inr (gone, _) ↦ absurd (no_row (sym gone ∙ sym e1))
        ]
    | inr (miss, e1) ↦ subst (λ z. SameOrNew z o2 k) (sym e1) h
  ]
    where
      no_row : none ≡ some (details did pledged id hash) → ⊥
      no_row h = cc

  -- The first hash of the list is written, and the others after it.
  add_token_state_hash-first :
      (hash : ℕ) (hashes : List ℕ) (d d' : g.Db)
      → add_token_state_hash g did (hash ∷ hashes) pledged id d ≡ (ok tt, d')
      → (d1 : g.Db) × (g.row d hash ≡ none)
        × Writes g d d1 (details did pledged id hash)
        × (add_token_state_hash g did hashes pledged id d1 ≡ (ok tt, d'))
  unfolding add_token_state_hash
  add_token_state_hash-first hash hashes d d' h =
      elim (write-cases g (details did pledged id hash) d) [
        | inl failed ↦
            let r : add_token_state_hash g did (hash ∷ hashes) pledged id d ≡ (err db_error, d) =
              rw (failed, add_token_state_hash) refl in
            absurd (err≢ok (ap (λ z. z.0) (sym r ∙ h)))
        | inr (d1, done, fresh, w) ↦
            let r : add_token_state_hash g did (hash ∷ hashes) pledged id d
                ≡ add_token_state_hash g did hashes pledged id d1 =
              rw (done, add_token_state_hash) refl in
            (d1, fresh, w, sym r ∙ h)
      ]

  -- `AddTokenStateHash` that succeeds adds the rows of all its hashes, and changes no other row.
  pub add_token_state_hash-adds :
      (hashes : List ℕ) (d d' : g.Db)
      → add_token_state_hash g did hashes pledged id d ≡ (ok tt, d')
      → (k : ℕ) → g.row d' k ≡ added_row did hashes pledged id k (g.row d k)
  unfolding add_token_state_hash
  add_token_state_hash-adds [] d d' h k = ap (λ z. g.row z.1 k) (sym h)
  add_token_state_hash-adds (hash ∷ hashes) d d' h k =
      let (d1, fresh, w, rest) = add_token_state_hash-first hash hashes d d' h in
      add_token_state_hash-adds hashes d1 d' rest k
      ∙ added_row-cons did hash hashes pledged id k (g.row d k) (g.row d1 k) (w k)

  add_token_state_hash-SameOrNew :
      (hashes : List ℕ) (d d' : g.Db)
      → add_token_state_hash g did hashes pledged id d ≡ (ok tt, d')
      → (k : ℕ) → SameOrNew (g.row d k) (g.row d' k) k
  unfolding add_token_state_hash
  add_token_state_hash-SameOrNew [] d d' h k = inl (ap (λ z. g.row z.1 k) (sym h))
  add_token_state_hash-SameOrNew (hash ∷ hashes) d d' h k =
      let (d1, fresh, w, rest) = add_token_state_hash-first hash hashes d d' h in
      SameOrNew-write hash k (g.row d k) (g.row d1 k) (g.row d' k) (λ e. ap (g.row d) e ∙ fresh)
        (w k) (add_token_state_hash-SameOrNew hashes d1 d' rest k)

  -- Hashes that are added for a transaction and then removed with it leave of the table what it had
  -- of other transactions.
  pub remove_by_transaction_id-add_token_state_hash :
      (hashes : List ℕ) (d d1 d2 : g.Db)
      → add_token_state_hash g did hashes pledged id d ≡ (ok tt, d1)
      → remove_token_state_hash_by_transaction_id g id d1 ≡ (ok tt, d2)
      → (k : ℕ) → g.row d2 k ≡ without g (of_transaction id) (g.row d k)
  remove_by_transaction_id-add_token_state_hash hashes d d1 d2 h h1 k =
      elim (remove_by_transaction_id-Removes g id d1) [
        | inl (e, failed) ↦ absurd (err≢ok (ap (λ z. z.0) (sym failed ∙ h1)))
        | inr (d2', done, removed) ↦
            ap (λ z. g.row z.1 k) (sym h1 ∙ done)
            ∙ removed k
            ∙ elim (add_token_state_hash-SameOrNew hashes d d1 h k) [
              | inl kept ↦ ap (without g (of_transaction id)) kept
              | inr (new, row) ↦
                  ap (without g (of_transaction id)) row
                  ∙ dropped
                  ∙ ap (without g (of_transaction id)) (sym new)
            ]
      ]
    where
      dropped : (if id == id then none else some (details did pledged id k)) ≡ none
      dropped = rw (==_refl id) refl
