-- ===== src/Nlss/Combine/Total.antt =====
-- nlss/interact4tree.go: `Gen2Shares` can always return.
use rubixgoplatform.Prelude.{ℕ, List, [], ◌∷◌, ◌≡◌, refl, arith, some, if◌then◌else◌, ◌==◌, All}
use rubixgoplatform.Nlss.Bits.{IsByte}
use rubixgoplatform.Nlss.Bits.RoundTrip.{row_values}
use rubixgoplatform.Nlss.Share.Termination.{starts-some}
use rubixgoplatform.Nlss.Tree.{
  Interact4Tree, new_interact4tree, add_share, share_loop, share_create, check_share, gen2_shares,
}
use rubixgoplatform.Nlss.Tree.Rows.{text}
use rubixgoplatform.Nlss.Tree.Created.{share_create_checks}
use rubixgoplatform.Nlss.Combine.{combine2_shares}
use rubixgoplatform.Nlss.Combine.Recovers.{
  rounds, pvt_share, public_share1, combine2_shares-gen2_shares,
}

share_loop_total :
    (bits : List ℕ) (it : Interact4Tree)
    → (draws : List ℕ) × (r : Interact4Tree × List ℕ) × (share_loop bits it draws ≡ some r)
unfolding share_loop
share_loop_total [] it = ([], (it, []), refl)
share_loop_total (bit ∷ bits) it =
    let (d, share, start) = starts-some (if bit == 48 then 0 else 1) (ground arith) in
    let (draws, r, looped) = share_loop_total bits (add_share it share) in
    (0 ∷ 0 ∷ d ∷ draws, r, rw (start draws) looped)

share_create_total :
    (bytes : List ℕ)
    → (draws : List ℕ) × (r : Interact4Tree × List ℕ) × (share_create
          (new_interact4tree bytes)
          draws
        ≡ some (check_share r.0, r.0, r.1))
unfolding share_create
share_create_total bytes =
    let new = new_interact4tree bytes in
    let (draws, r, looped) = share_loop_total new.bits new in (draws, r, rw looped refl)

-- For every byte slice there is a source of randomness with which `Gen2Shares` returns two shares
-- that combine to the slice.
pub gen2_shares_total :
    (bytes : List ℕ)
    → All IsByte bytes
    → (draws : List ℕ) × (z : List ℕ × List ℕ) × (gen2_shares bytes draws ≡ some z)
      × (combine2_shares z.0 z.1 ≡ some bytes)
unfolding gen2_shares
gen2_shares_total bytes hb =
    let (draws, r, created) = share_create_total bytes in
    let (good, a) = share_create_checks bytes draws created in
    let n = rounds bytes r.0 a in
    let z : List ℕ × List ℕ = (row_values n (text a.secrets), row_values n (text a.cands)) in
    let made : gen2_shares bytes draws ≡ some z =
      rw (created, good, pvt_share bytes r.0 a, public_share1 bytes r.0 a) refl in
    (draws, z, made, combine2_shares-gen2_shares bytes draws hb made)
