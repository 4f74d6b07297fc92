-- ===== src/TokenAuth/Accepts.antt =====
-- token/token_auth.go: what `ValidateWholeToken` accepts.
use rubixgoplatform.Prelude.{
  ℕ, ◌-◌, ◌<◌, List, ◌++◌, some, ltb, length, drop, take-append-drop, Bool, true, ◌≡◌, refl, sym,
  ◌∙◌, ap, subst, Option-cases, if-inv, inl, inr, lt→ltb, some_eq,
}
use rubixgoplatform.TokenAuth.Decimal.{ℤ, pos}
use rubixgoplatform.TokenAuth.Text.{trim_space}
use rubixgoplatform.TokenAuth.Search.{calc_sha256-at}
use rubixgoplatform.Prelude.Outcome.{done_eq, Outcome, done, failed, panicked}
use rubixgoplatform.TokenAuth.{
  max_token_from_level, validate_token_detials, level_of, split_text, get_whole_token_value,
  validate_whole_token,
}

valid : (l : ℤ) (tn : ℕ) → tn < max_token_from_level l → validate_token_detials l (pos tn) ≡ true
unfolding validate_token_detials
valid l tn lt = lt→ltb tn (max_token_from_level l) lt

split_text-inv : (t a b : List ℕ) → split_text t ≡ some (a, b) → t ≡ a ++ b
unfolding split_text
split_text-inv t a b h = elim (if-inv (ltb (length t) 64) h) [
  | inl (short, e) ↦ cc
  | inr (long, e) ↦
      let same = some_eq e in
      sym (take-append-drop (length t - 64) t)
      ∙ ap (λ z. z.0 ++ drop (length t - 64) t) same
      ∙ ap (λ z. a ++ z.1) same
]

get_whole_token_value-inv :
    (details : List ℕ) (l : ℤ) (hash : List ℕ) (migrate : Bool)
    → get_whole_token_value details ≡ done (l, hash, migrate)
    → (level : List ℕ) × (trim_space details ≡ level ++ hash) × (level_of level ≡ done (l, migrate))
unfolding get_whole_token_value
get_whole_token_value-inv details l hash migrate h =
    elim (Option-cases (split_text (trim_space details))) [
      | inl e ↦
          let r : get_whole_token_value details ≡ panicked = rw (e, get_whole_token_value) refl in
          cc
      | inr (z, e) ↦ leveled z e (level_of z.0) refl
    ]
  where
    leveled :
        (z : List ℕ × List ℕ)
        → split_text (trim_space details) ≡ some z
        → (o : Outcome (ℤ × Bool)) → level_of z.0 ≡ o
        → (level : List ℕ) × (trim_space details ≡ level ++ hash)
          × (level_of level ≡ done (l, migrate))
    leveled z e (done w) at =
        let r : get_whole_token_value details ≡ done (w.0, z.1, w.1) =
          rw (e, at, get_whole_token_value) refl in
        let same : done (w.0, z.1, w.1) ≡ done (l, hash, migrate) = sym r ∙ h in
        let three : (w.0, z.1, w.1) ≡ (l, hash, migrate) = done_eq same in
        (
          z.0,
          split_text-inv (trim_space details) z.0 z.1 e ∙ ap (λ v. z.0 ++ v.1) three,
          at ∙ ap (λ v. done (v.0, v.2)) three,
        )
    leveled z e failed at =
        let r : get_whole_token_value details ≡ failed = rw (e, at, get_whole_token_value) refl in
        cc
    leveled z e panicked at =
        let r : get_whole_token_value details ≡ panicked = rw (e, at, get_whole_token_value) refl in
        cc

module _ (hex : ℕ → List ℕ) where
  -- Whatever `ValidateWholeToken` accepts is, without the spaces around it, the text of a level and
  -- the hash of a number, which passes `ValidateTokenDetials` for that level.
  pub validate_whole_token-inv :
      (details : List ℕ) {l n : ℤ} {migrate : Bool}
      → validate_whole_token hex details ≡ done (l, n, migrate)
      → (level : List ℕ) × (tn : ℕ) × (trim_space details ≡ level ++ hex tn)
        × (level_of level ≡ done (l, migrate))
        × (n ≡ pos tn)
        × (validate_token_detials l n ≡ true)
  unfolding validate_whole_token
  validate_whole_token-inv details {l} {n} {migrate} h = valued (get_whole_token_value details) refl
    where
      Accepts : Type 0
      Accepts =
          (level : List ℕ) × (tn : ℕ) × (trim_space details ≡ level ++ hex tn)
          × (level_of level ≡ done (l, migrate))
          × (n ≡ pos tn)
          × (validate_token_detials l n ≡ true)

      valued : (o : Outcome (ℤ × List ℕ × Bool)) → get_whole_token_value details ≡ o → Accepts
      valued failed e =
          let r : validate_whole_token hex details ≡ failed = rw (e, validate_whole_token) refl in
          cc
      valued panicked e =
          let r : validate_whole_token hex details ≡ panicked = rw (e, validate_whole_token) refl in
          cc
      valued (done (k, hash, b)) e = elim (calc_sha256-at hex (max_token_from_level k) hash) [
        | inl missing ↦
            let r : validate_whole_token hex details ≡ failed =
              rw (e, missing, validate_whole_token) refl in
            cc
        | inr (tn, found, lt, same) ↦
            let r : validate_whole_token hex details ≡ done (k, pos tn, b) =
              rw (e, found, validate_whole_token) refl in
            let three : (k, pos tn, b) ≡ (l, n, migrate) = done_eq (sym r ∙ h) in
            let (level, text, at) = get_whole_token_value-inv details k hash b e in
            (
              level,
              tn,
              text ∙ ap (λ z. level ++ z) (sym same),
              at ∙ ap (λ v. done (v.0, v.2)) three,
              sym (ap (λ v. v.1) three),
              subst (λ v. validate_token_detials v.0 v.1 ≡ true) three (valid k tn lt),
            )
      ]
