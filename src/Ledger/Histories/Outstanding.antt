-- ===== src/Ledger/Histories/Outstanding.antt =====
-- `outstandingRecoveries` of internal/state/recovery_ledger.go lists all open recoveries or none.
use linux_deep_clean.Prelude.{
  arith, ℕ, ◌+◌, ◌≤◌, ◌<◌, true, ◌&&◌, ◌==◌, ◌≡◌, refl, leb, ltb, List, [], ◌∷◌, ◌⊎◌, Bool-cases,
  inl, inr, length, Result, ok, err, if◌then◌else◌,
}
use linux_deep_clean.Ledger.Vocabulary.{LedgerError, unsupported}
use linux_deep_clean.Ledger.Frame.{Recovery, closed}
use linux_deep_clean.Ledger.Histories.{
  History, maximum_records, outstanding_from, outstanding_recoveries,
}

module _ {B : Type 0} where
  -- The recoveries of the histories that are not closed, in their order.
  abbrev pub still_open : List (History B) → List (Recovery B)
  still_open [] = []
  still_open (history ∷ histories) =
      let rest = still_open histories in
      if closed history.recovery then rest else history.recovery ∷ rest

  -- All of the open recoveries where there are no more than the limit, else an error.
  pub WithinLimit : List (Recovery B) → ℕ → Result LedgerError (List (Recovery B)) → Type 0
  WithinLimit rs limit given =
      ((length rs ≤ limit) × (given ≡ ok rs)) ⊎ ((limit < length rs) × (given ≡ err unsupported))

  outstanding_from_lem :
      (limit kept : ℕ) (histories : List (History B))
      → kept ≤ limit
      → ((kept + length (still_open histories) ≤ limit)
          × (outstanding_from limit kept histories ≡ ok (still_open histories)))
        ⊎ ((limit < kept + length (still_open histories))
            × (outstanding_from limit kept histories ≡ err unsupported))
  unfolding outstanding_from
  outstanding_from_lem limit kept [] h = inl (omega arith, refl)
  outstanding_from_lem limit kept (history ∷ histories) h =
      elim (Bool-cases (closed history.recovery)) [
        | inl c ↦ rw c (outstanding_from_lem limit kept histories h)
        | inr c ↦ elim (Bool-cases (kept == limit)) [
          | inl full ↦ rw (c, full) (inr (ground arith, refl))
          | inr room ↦ elim (outstanding_from_lem limit (kept + 1) histories (ground arith)) [
            | inl all ↦ rw (c, room, all.1) (inl (ground arith, refl))
            | inr more ↦ rw (c, room, more.1) (inr (ground arith, refl))
          ]
        ]
      ]

  -- For a limit from 1 to 128 the listing answers with the open recoveries, all of them in the order
  -- of the histories, where they are no more than the limit, and with an error where they are more.
  pub outstanding_recoveries-WithinLimit :
      (limit : ℕ) (histories : List (History B))
      → 1 ≤ limit
      → limit ≤ maximum_records
      → WithinLimit (still_open histories) limit (outstanding_recoveries histories limit)
  unfolding outstanding_recoveries WithinLimit
  outstanding_recoveries-WithinLimit limit histories low high =
      let fits : (ltb 0 limit && leb limit maximum_records) ≡ true = ground arith in
      rw fits (elim (outstanding_from_lem limit 0 histories (omega arith)) [
        | inl all ↦ inl (omega arith, all.1)
        | inr more ↦ inr (omega arith, more.1)
      ])
