-- ===== src/Audit/Chain.antt =====
-- What `verify_chain` accepts: a chain, and every chain.
use justi_key.Common.{
  ℕ, ◌+◌, ◌≡◌, ◌↔◌, refl, String, [], ◌∷◌, str_eq_iff, arith, length, take, zero, suc,
}
use justi_key.Library.{Library}
use justi_key.Audit.{Ledger, genesis_hash, intact, entry_hash, verify_from, verify_chain}

module _ (lib : Library) where
  -- Consecutive sequence numbers from `seq` on, each row linked to the hash before it (`prev` for the
  -- first) and bearing the hash of its own content.
  abbrev pub IsChain : String → ℕ → Ledger → Type 0
  IsChain prev seq [] = Unit
  IsChain prev seq (e ∷ rows) =
      (e.seq ≡ seq)
      × (e.prev_hash ≡ prev)
      × (e.hash ≡ entry_hash lib e)
      × IsChain e.hash (seq + 1) rows

  verify_from-intact :
      (total : ℕ) (prev : String) (seq : ℕ) (rows : Ledger)
      → IsChain prev seq rows
      → verify_from lib total prev seq rows ≡ intact total
  unfolding verify_from
  verify_from-intact total prev seq [] h = refl
  verify_from-intact total prev seq (e ∷ rows) h = ground (
    arith,
    str_eq_iff e.prev_hash prev,
    str_eq_iff (entry_hash lib e) e.hash,
    verify_from-intact total e.hash (seq + 1) rows h.3,
  )

  verify_from-IsChain :
      (total n : ℕ) (prev : String) (seq : ℕ) (rows : Ledger)
      → verify_from lib total prev seq rows ≡ intact n
      → IsChain prev seq rows × (n ≡ total)
  unfolding verify_from
  verify_from-IsChain total n prev seq [] h = (tt, ground arith)
  verify_from-IsChain total n prev seq (e ∷ rows) h =
      let passed : verify_from lib total e.hash (seq + 1) rows ≡ intact n = ground arith in
      let (rest, same) = verify_from-IsChain total n e.hash (seq + 1) rows passed in
      (
        (
          ground arith,
          ground (arith, str_eq_iff e.prev_hash prev),
          ground (arith, str_eq_iff (entry_hash lib e) e.hash),
          rest,
        ),
        same,
      )

  -- `verify_chain` answers that a ledger of `n` entries is intact exactly when the ledger has `n`
  -- entries and is a chain from the genesis hash: numbered 1, 2, ..., each linked to the one before
  -- and bearing its own hash.
  pub verify_chain_iff :
      (rows : Ledger) (n : ℕ)
      → (verify_chain lib rows ≡ intact n) ↔ ((n ≡ length rows) × IsChain genesis_hash 1 rows)
  unfolding verify_chain
  verify_chain_iff rows n = (
    λ h.
        let (chain, same) = verify_from-IsChain (length rows) n genesis_hash 1 rows h in
        (same, chain),
    λ (same, chain). rw same (verify_from-intact (length rows) genesis_hash 1 rows chain),
  )

  pub take-IsChain :
      (k : ℕ) (prev : String) (seq : ℕ) (rows : Ledger)
      → IsChain prev seq rows
      → IsChain prev seq (take k rows)
  take-IsChain zero prev seq rows h = tt
  take-IsChain (suc k) prev seq [] h = tt
  take-IsChain (suc k) prev seq (e ∷ rows) h =
      (h.0, h.1, h.2, take-IsChain k e.hash (seq + 1) rows h.3)

  -- What the chain cannot show: of an intact ledger, every initial part is intact too, so entries
  -- deleted from the end leave no trace in it.
  pub verify_chain-take :
      (k n : ℕ) (rows : Ledger)
      → verify_chain lib rows ≡ intact n
      → verify_chain lib (take k rows) ≡ intact (length (take k rows))
  verify_chain-take k n rows h =
      (verify_chain_iff (take k rows) (length (take k rows))).1
        (refl, take-IsChain k genesis_hash 1 rows ((verify_chain_iff rows n).0 h).1)
