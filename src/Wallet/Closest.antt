-- ===== src/Wallet/Closest.antt =====
-- core/wallet/token.go and core/wallet/sort.go: the token that `GetCloserToken` picks.
use rubixgoplatform.Prelude.{
  ℕ, ◌≡◌, ◌≤◌, refl, some, List, [], ◌∷◌, Bool, true, false, ◌==◌, ltb, leb, ◌⊎◌, inl, inr, sym,
  subst, arith, Bool-cases, All, All-map, ◌&&◌, ◌≢◌, none, ==_refl, Option-cases, ap,
}
use rubixgoplatform.Storage.Rows.{Table, Member}
use rubixgoplatform.Storage.Effects.{
  Result, ok, err, Error, db_error, no_records, too_large, no_token,
}
use rubixgoplatform.Storage.{read_all}
use rubixgoplatform.Storage.Laws.{Found, FoundAll, read_all-cases}
use rubixgoplatform.Wallet.Token.{Token, key, token_is_free, whole_value}
use rubixgoplatform.Wallet.Tokens.{
  insert_by, token_sort, in_status, get_closer_token, closer_choice, first_of_list,
}

-- A token of the list with the least value.
abbrev pub Least : Token → List Token → Type 0
Least u l = Member u l × All (λ v. u.token_value ≤ v.token_value) l

-- The head of a list that is sorted in the order of rising values.
abbrev pub Heads : List Token → List Token → Type 0
Heads [] l = l ≡ []
Heads (u ∷ us) l = Least u l

Heads-insert :
    (t : Token) (s l : List Token)
    → Heads s l
    → Heads (insert_by (λ u v. ltb u.token_value v.token_value) t s) (t ∷ l)
unfolding insert_by
Heads-insert t [] l h =
    (inl refl, (omega arith, subst (All (λ v. t.token_value ≤ v.token_value)) (sym h) tt))
Heads-insert t (u ∷ us) l (m, least) = elim (Bool-cases (ltb u.token_value t.token_value)) [
  | inl less ↦ rw less (inr m, (ground arith, least))
  | inr more ↦ rw more (
    inl refl,
    (
      omega arith,
      All-map (λ v. u.token_value ≤ v.token_value) (λ v. t.token_value ≤ v.token_value) l
          (λ v le. ground arith) least,
    ),
  )
]

-- `TokenSort` puts a token of the least value first.
pub token_sort-Heads : (l : List Token) → Heads (token_sort false l) l
unfolding token_sort
token_sort-Heads [] = refl
token_sort-Heads (t ∷ ts) = Heads-insert t (token_sort false ts) ts (token_sort-Heads ts)

Member-All : (P : Token → Type 0) (u : Token) (l : List Token) → All P l → Member u l → P u
Member-All P u [] h m = elim m [ ]
Member-All P u (t ∷ ts) (h, hs) (inl same) = subst P (sym same) h
Member-All P u (t ∷ ts) (h, hs) (inr later) = Member-All P u ts hs later

abbrev pub part_fits : ℕ → ℕ → Token → Bool
part_fits did rem r =
    r.did == did
    && in_status token_is_free r
    && leb rem r.token_value
    && ltb r.token_value whole_value

abbrev pub is_whole : ℕ → Token → Bool
is_whole did r = r.did == did && in_status token_is_free r && r.token_value == whole_value

module _ (g : Table Token key) (did rem : ℕ) (d : g.Db) where
  -- A free part token of the owner that covers the value, and none that does has a smaller value;
  -- or a free whole token of the owner.
  abbrev pub Picked : Token → Type 0
  Picked t =
      (Found g d (part_fits did rem) t
        × ((k : ℕ) (r : Token)
            → g.row d k ≡ some r
            → part_fits did rem r ≡ true
            → t.token_value ≤ r.token_value))
      ⊎ Found g d (is_whole did) t

  abbrev pub Picks : Type 0
  Picks =
      ((e : Error) × (get_closer_token g did rem d ≡ (err e, d)))
      ⊎ ((t : Token) × (get_closer_token g did rem d ≡ (ok t, d)) × Picked t × (rem ≤ whole_value))

  least_part :
      (l s : List Token)
      → rem ≤ whole_value
      → ltb whole_value rem ≡ false
      → read_all g (part_fits did rem) d ≡ (ok l, d)
      → FoundAll g d (part_fits did rem) l
      → token_sort false l ≡ s
      → Heads s l
      → Picks
  unfolding get_closer_token closer_choice
  least_part l [] small test found all sorted h =
      inl (no_token, rw (test, found, sorted, get_closer_token) refl)
  least_part l (u ∷ us) small test found all sorted (m, least) = inr (
    u,
    rw (test, found, sorted, get_closer_token) refl,
    inl (
      Member-All (Found g d (part_fits did rem)) u l all.0 m,
      λ k r at fits. Member-All (λ v. u.token_value ≤ v.token_value) r l least (all.2 k r at fits),
    ),
    small,
  )

  whole_instead :
      (e : Error)
      → rem ≤ whole_value
      → ltb whole_value rem ≡ false
      → read_all g (part_fits did rem) d ≡ (err e, d)
      → Picks
  unfolding get_closer_token closer_choice
  whole_instead e small test failed = elim (read_all-cases g (is_whole did) d) [
    | inl (e1, failed1) ↦ inl (e1, rw (test, failed, failed1, get_closer_token) refl)
    | inr ([], found, all) ↦ inl (no_token, rw (test, failed, found, get_closer_token) refl)
    | inr (t ∷ ts, found, all) ↦
        inr (t, rw (test, failed, found, get_closer_token) refl, inr all.0.0, small)
  ]

  -- The table has no free whole token of the owner.
  abbrev pub NoWhole : Type 0
  NoWhole =
      (k : ℕ) (r : Token)
      → g.row d k ≡ some r
      → r.did ≡ did
      → r.token_status ≡ token_is_free
      → r.token_value ≢ whole_value

  -- It has no free part token of the owner that covers the value.
  abbrev pub NoPart : Type 0
  NoPart =
      (k : ℕ) (r : Token)
      → g.row d k ≡ some r
      → r.did ≡ did
      → r.token_status ≡ token_is_free
      → rem ≤ r.token_value
      → whole_value ≤ r.token_value

  -- No free token of the owner covers the value, unless the query for parts has failed.
  abbrev pub NoneCovers : Type 0
  NoneCovers = NoWhole × (NoPart ⊎ (g.find d (part_fits did rem) ≡ none))

  no_whole : g.find d (is_whole did) ≡ some [] → NoWhole
  no_whole e k r at own free value =
      g.find_complete d (is_whole did) [] k r e at (rw (own, free, value, ==_refl did) refl)

  no_part : g.find d (part_fits did rem) ≡ some [] → NoPart
  no_part e k r at own free covers = elim (Bool-cases (ltb r.token_value whole_value)) [
    | inl part ↦ absurd (g.find_complete d (part_fits did rem) [] k r e at (ground arith))
    | inr whole ↦ ground arith
  ]

  ok≢none : {t : Token} → ok t ≡ err no_records → ⊥
  ok≢none h = cc

  db≢none : Path (Result Token) (err db_error) (err no_records) → ⊥
  db≢none h = cc

  large≢none : Path (Result Token) (err too_large) (err no_records) → ⊥
  large≢none h = cc

  first≢none : (l : List Token) → first_of_list g l d ≡ (err no_records, d) → ⊥
  first≢none [] h = no_token≢none (ap (λ z. z.0) h)
    where
      no_token≢none : Path (Result Token) (err no_token) (err no_records) → ⊥
      no_token≢none e = cc
  first≢none (t ∷ ts) h = ok≢none (ap (λ z. z.0) h)

  -- The query for whole tokens found none.
  after_parts : (e : Error) → closer_choice g did (err e) d ≡ (err no_records, d) → NoWhole
  unfolding closer_choice read_all
  after_parts e h = elim (Option-cases (g.find d (is_whole did))) [
    | inl failed ↦
        let r : read_all g (is_whole did) d ≡ (err db_error, d) = rw (failed, read_all) refl in
        absurd (db≢none (ap (λ z. z.0) (rw (r, closer_choice) at h)))
    | inr ([], found) ↦ no_whole found
    | inr (t ∷ ts, found) ↦
        let r : read_all g (is_whole did) d ≡ (ok (t ∷ ts), d) = rw (found, read_all) refl in
        absurd (ok≢none (ap (λ z. z.0) (rw (r, closer_choice) at h)))
  ]

  -- `GetCloserToken` that finds no records has asked for whole tokens too.
  pub get_closer_token-no_records : get_closer_token g did rem d ≡ (err no_records, d) → NoneCovers
  unfolding get_closer_token closer_choice read_all
  get_closer_token-no_records h = elim (Bool-cases (ltb whole_value rem)) [
    | inl large ↦ absurd (large≢none (ap (λ z. z.0) (rw large at h)))
    | inr small ↦ elim (Option-cases (g.find d (part_fits did rem))) [
      | inl failed ↦
          let r : read_all g (part_fits did rem) d ≡ (err db_error, d) =
            rw (failed, read_all) refl in
          (after_parts db_error (rw (small, r, get_closer_token) at h), inr failed)
      | inr ([], found) ↦
          let r : read_all g (part_fits did rem) d ≡ (err no_records, d) =
            rw (found, read_all) refl in
          (after_parts no_records (rw (small, r, get_closer_token) at h), inl (no_part found))
      | inr (t ∷ ts, found) ↦
          let r : read_all g (part_fits did rem) d ≡ (ok (t ∷ ts), d) = rw (found, read_all) refl in
          absurd (
            first≢none (token_sort false (t ∷ ts))
              (rw (small, r, get_closer_token, closer_choice) at h))
    ]
  ]

  -- `GetCloserToken` changes nothing. It either is an error, or returns a free part token of the
  -- owner that covers the value, of the least value among those, or a free whole token; and the
  -- value was at most a whole token's.
  pub get_closer_token-Picks : Picks
  unfolding get_closer_token
  get_closer_token-Picks = elim (Bool-cases (ltb whole_value rem)) [
    | inl large ↦ inl (too_large, rw (large, get_closer_token) refl)
    | inr test ↦ elim (read_all-cases g (part_fits did rem) d) [
      | inl (e, failed) ↦ whole_instead e (bound test) test failed
      | inr (l, found, all) ↦
          least_part l (token_sort false l) (bound test) test found all refl (token_sort-Heads l)
    ]
  ]
    where
      bound : ltb whole_value rem ≡ false → rem ≤ whole_value
      bound h = ground arith
