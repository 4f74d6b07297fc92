-- ===== src/Wallet/Calls/Marking.antt =====
-- core/wallet/token.go: the moves of the calls that set a status whatever a token's status was, or
-- that end a pledge.
use rubixgoplatform.Prelude.{
  ℕ, ◌≡◌, some, ◌==◌, arith, inl, inr, true, ◌∙◌, ap, List, [], ◌∷◌, ◌&&◌, Bool, All-map,
}
use rubixgoplatform.Storage.Rows.{Table}
use rubixgoplatform.Storage.Effects.{Result}
use rubixgoplatform.Storage.Laws.{Found, read_all-cases, Writes}
use rubixgoplatform.Wallet.Token.{
  Token, key, with_status, token_is_free, token_is_locked, token_is_committed,
}
use rubixgoplatform.Wallet.Tokens.{lock_all, get_child_token, get_token, unpledge_whole_token}
use rubixgoplatform.Wallet.Release.{commit_tokens, unlock_locked_tokens}
use rubixgoplatform.Wallet.Moves.{Moves, stay, move, Moves-trans, Moves-mono}
use rubixgoplatform.Wallet.LockLoop.{Stands, LockPolicy, lock_loop-Locks}
use rubixgoplatform.Wallet.Locking.{get_token-cases}
use rubixgoplatform.Wallet.Pledging.{
  read_owned-cases, update_owned-cases, unpledge_whole_token-Unpledges,
}

-- Any status may become any other.
abbrev pub MarkPolicy : Token → ℕ → Type 0
MarkPolicy t s = Unit

is_owner :
    (did parent : ℕ) (t : Token)
    → (t.did == did && t.parent_token_id == parent) ≡ true
    → t.did ≡ did
is_owner did parent t h = ground arith

module _ (g : Table Token key) where
  pub get_child_token-marks :
      (did parent : ℕ) (d : g.Db) → Moves g MarkPolicy d (get_child_token g did parent d).1
  unfolding get_child_token lock_all
  get_child_token-marks did parent d =
      let q = λ (r : Token). r.did == did && r.parent_token_id == parent in
      let P = λ (t : Token). q t ≡ true in
      elim (read_all-cases g q d) [
        | inl (e, failed) ↦ rw failed stay
        | inr (l, found, all) ↦ rw found (
            Moves-mono g (LockPolicy g P did) MarkPolicy (λ t s p. tt)
              (elim (lock_loop-Locks g P did l d
                (All-map (Found g d q) (Stands g P did d) l
                  (λ t (at, p). (at, is_owner did parent t p, p)) all.0)
                all.1) [
                  | inl (e, d', failed, m) ↦ rw failed m
                  | inr (d', done, m, rows) ↦ rw done m
                ]))
      ]

  mark :
      (token s : ℕ) (t : Token) {d d' : g.Db}
      → g.row d token ≡ some t
      → Writes g d d' (with_status s t)
      → Moves g MarkPolicy d d'
  mark token s t {d = d} at w = move t s stay (ap (g.row d) (g.row_key d token t at) ∙ at) tt w

  pub get_token-marks :
      (token status : ℕ) (d : g.Db) → Moves g MarkPolicy d (get_token g token status d).1
  get_token-marks token status d = elim (get_token-cases g token status d) [
    | inl (e, failed) ↦ rw failed stay
    | inr (old, d', done, at, was, w) ↦ rw done (mark token token_is_locked old at w)
  ]

  pub unpledge_whole_token-marks :
      (did token : ℕ) (u : Result Bool) (d : g.Db)
      → Moves g MarkPolicy d (unpledge_whole_token g did token u d).1
  unpledge_whole_token-marks did token u d = elim (unpledge_whole_token-Unpledges g did token u d) [
    | inl (e, failed) ↦ rw failed stay
    | inr (d', done, latest, (t, at, own, was, w)) ↦ rw done (mark token token_is_free t at w)
  ]

  pub commit_tokens-marks :
      (did : ℕ) (ids : List ℕ) (d : g.Db) → Moves g MarkPolicy d (commit_tokens g did ids d).1
  unfolding commit_tokens
  commit_tokens-marks did [] d = stay
  commit_tokens-marks did (id ∷ ids) d = elim (read_owned-cases g did id d) [
    | inl (e, failed) ↦ rw failed stay
    | inr (t, found, at, own, same) ↦
        elim (update_owned-cases g did id t token_is_committed d at own same) [
          | inl failed ↦ rw (found, failed) stay
          | inr (d1, done, w) ↦
              rw (found, done)
                (Moves-trans g MarkPolicy (mark id token_is_committed t at w)
                  (commit_tokens-marks did ids d1))
        ]
  ]

  pub unlock_locked_tokens-marks :
      (did : ℕ) (ids : List ℕ) (d : g.Db)
      → Moves g MarkPolicy d (unlock_locked_tokens g did ids d).1
  unfolding unlock_locked_tokens
  unlock_locked_tokens-marks did [] d = stay
  unlock_locked_tokens-marks did (id ∷ ids) d = elim (read_owned-cases g did id d) [
    | inl (e, failed) ↦ rw failed stay
    | inr (t, found, at, own, same) ↦
        elim (update_owned-cases g did id t token_is_free d at own same) [
          | inl failed ↦ rw (found, failed) stay
          | inr (d1, done, w) ↦
              rw (found, done)
                (Moves-trans g MarkPolicy (mark id token_is_free t at w)
                  (unlock_locked_tokens-marks did ids d1))
        ]
  ]
