-- ===== src/Audit/Append.antt =====
-- `append_event` on a chain.
use justi_key.Common.{
  ℕ, ◌+◌, ◌≡◌, refl, ap, ◌∙◌, String, [], ◌∷◌, ◌++◌ as append, none, some, arith, length-append,
}
use justi_key.Library.{Library}
use justi_key.Audit.{
  Entry, Ledger, genesis_hash, intact, entry_hash, last, head_seq, head_hash, next_entry,
  append_entry, verify_chain,
}
use justi_key.Audit.Chain.{IsChain, verify_chain_iff}

-- The hash that a row after `rows` must name, and the sequence number before its own, when `prev` and
-- `seq` are those before them.
abbrev end_hash : String → Ledger → String
end_hash prev [] = prev
end_hash prev (e ∷ rows) = end_hash e.hash rows

abbrev end_seq : ℕ → Ledger → ℕ
end_seq seq [] = seq
end_seq seq (e ∷ rows) = end_seq e.seq rows

end_hash-last :
    (prev : String) (rows : Ledger)
    → elim (last rows) [ none ↦ prev | some e ↦ e.hash ] ≡ end_hash prev rows
unfolding last
end_hash-last prev [] = refl
end_hash-last prev (d ∷ []) = refl
end_hash-last prev (d ∷ c ∷ rows) = end_hash-last prev (c ∷ rows)

end_seq-last :
    (seq : ℕ) (rows : Ledger) → elim (last rows) [ none ↦ seq | some e ↦ e.seq ] ≡ end_seq seq rows
unfolding last
end_seq-last seq [] = refl
end_seq-last seq (d ∷ []) = refl
end_seq-last seq (d ∷ c ∷ rows) = end_seq-last seq (c ∷ rows)

module _ (lib : Library) where
  append-IsChain :
      (prev : String) (seq : ℕ) (rows : Ledger) (e : Entry)
      → IsChain lib prev (seq + 1) rows
      → e.seq ≡ end_seq seq rows + 1
      → e.prev_hash ≡ end_hash prev rows
      → e.hash ≡ entry_hash lib e
      → IsChain lib prev (seq + 1) (append rows (e ∷ []))
  append-IsChain prev seq [] e h s p q = (s, p, q, tt)
  append-IsChain prev seq (d ∷ rows) e (n, l, g, h) s p q =
      (n, l, g, append-IsChain d.hash (seq + 1) rows e h (s ∙ ap (λ k. end_seq k rows + 1) n) p q)

  -- An append to an intact ledger leaves it intact, with one entry more, whatever is recorded and at
  -- whatever time.
  pub append_entry-intact :
      (rows : Ledger) (n : ℕ) (now event_type actor details : String)
      → verify_chain lib rows ≡ intact n
      → verify_chain lib (append_entry lib rows now event_type actor details) ≡ intact (n + 1)
  unfolding append_entry next_entry head_seq head_hash
  append_entry-intact rows n now event_type actor details h =
      let (size, chain) = (verify_chain_iff lib rows n).0 h in
      let e = next_entry lib rows now event_type actor details in
      (verify_chain_iff lib (append rows (e ∷ [])) (n + 1)).1 (
        omega (arith, size, length-append rows (e ∷ [])),
        append-IsChain genesis_hash 0 rows e chain (ap (λ k. k + 1) (end_seq-last 0 rows))
            (end_hash-last genesis_hash rows) refl,
      )
