-- ===== src/TokenAuth/Search.antt =====
-- token/token_auth.go: the search of `calcSHA256` for the number with a given hash.
use rubixgoplatform.Prelude.{
  ℕ, zero, suc, ◌+◌, ◌≤◌, ◌<◌, List, ◌≡◌, refl, arith, true, false, Bool-cases, inl, inr, ◌⊎◌, sym,
  ◌∙◌, ap,
}
use rubixgoplatform.TokenAuth.Decimal.{pos, negsuc}
use rubixgoplatform.TokenAuth.Text.{same_text, same_text_refl, same_text-eq}
use rubixgoplatform.TokenAuth.{calc_from, calc_sha256}

-- No two numbers below `max` have the same hash.
abbrev pub NoCollision : (ℕ → List ℕ) → ℕ → Type 0
NoCollision hex max = (i j : ℕ) → i < max → j < max → hex i ≡ hex j → i ≡ j

module _ (hex : ℕ → List ℕ) where
  calc_from-finds :
      (n i tn : ℕ)
      → NoCollision hex (i + n)
      → i ≤ tn
      → tn < i + n
      → calc_from hex n i (hex tn) ≡ pos tn
  unfolding calc_from
  calc_from-finds zero i tn free le lt = absurd (omega arith)
  calc_from-finds (suc n) i tn free le lt = elim (Bool-cases (same_text (hex i) (hex tn))) [
    | inl e ↦
        let same = free i tn (omega arith) lt (same_text-eq (hex i) (hex tn) e) in
        rw e (ap pos same)
    | inr e ↦ rw e (
        calc_from-finds n (suc i) tn (λ a b la lb h. free a b (omega arith) (omega arith) h)
          (differs e) (omega arith))
  ]
    where
      differs : same_text (hex i) (hex tn) ≡ false → suc i ≤ tn
      differs e = elim (at_most i tn le) [
        | inl same ↦
            absurd
              (no (sym e ∙ ap (λ z. same_text (hex z) (hex tn)) same ∙ same_text_refl (hex tn)))
        | inr less ↦ less
      ]
        where
          no : false ≡ true → ⊥
          no h = cc

          at_most : (a b : ℕ) → a ≤ b → (a ≡ b) ⊎ (suc a ≤ b)
          at_most a b h = ground arith

  calc_from-at :
      (n i : ℕ) (target : List ℕ)
      → (calc_from hex n i target ≡ negsuc 0)
        ⊎ ((tn : ℕ) × (calc_from hex n i target ≡ pos tn) × (tn < i + n) × (hex tn ≡ target))
  unfolding calc_from
  calc_from-at zero i target = inl refl
  calc_from-at (suc n) i target = elim (Bool-cases (same_text (hex i) target)) [
    | inl e ↦ inr (i, rw e refl, omega arith, same_text-eq (hex i) target e)
    | inr e ↦ elim (calc_from-at n (suc i) target) [
      | inl missing ↦ inl (rw e missing)
      | inr (tn, found, lt, same) ↦ inr (tn, rw e found, omega arith, same)
    ]
  ]

  -- The search finds a number below its bound by its hash.
  pub calc_sha256-finds :
      (max tn : ℕ) → NoCollision hex max → tn < max → calc_sha256 hex (hex tn) max ≡ pos tn
  unfolding calc_sha256
  calc_sha256-finds max tn free lt =
      calc_from-finds max 0 tn (λ i j li lj h. free i j (omega arith) (omega arith) h) (omega arith)
        (omega arith)

  -- What it finds is below the bound and has that hash; else it gives -1.
  pub calc_sha256-at :
      (max : ℕ) (target : List ℕ)
      → (calc_sha256 hex target max ≡ negsuc 0)
        ⊎ ((tn : ℕ) × (calc_sha256 hex target max ≡ pos tn) × (tn < max) × (hex tn ≡ target))
  unfolding calc_sha256
  calc_sha256-at max target = elim (calc_from-at max 0 target) [
    | inl missing ↦ inl missing
    | inr (tn, found, lt, same) ↦ inr (tn, found, omega arith, same)
  ]
