-- ===== src/Ledger/Histories/Unique.antt =====
-- `findOutstandingRecovery` of internal/state/recovery_ledger.go where no two open recoveries have
-- one source.
use linux_deep_clean.Prelude.{
  ◌≡◌, ◌⊎◌, refl, ap, arith, true, false, not, Bool-cases, inl, inr, different, List, [], ◌∷◌, ◌++◌,
  All, Option, none, some, Bytes, bytes_equal, bytes_equal_iff, ok, bind-eq-ok, require,
  require-eq-ok, not-eq-true,
}
use linux_deep_clean.Pathbytes.BytePath.{BytePath, path_equal}
use linux_deep_clean.Pathbytes.BytePath.Names.{path_equal_iff}
use linux_deep_clean.Domain.Plan.{has_key}
use linux_deep_clean.Ledger.Frame.{Recovery, Bindings, closed}
use linux_deep_clean.Ledger.Sources.{Identities, source_key}
use linux_deep_clean.Ledger.Histories.{
  Record, History, ensure_unique_from, replay_ledger_records, retains, find_from, find_outstanding,
  key_of_source,
}
use linux_deep_clean.Ledger.Histories.Total.{replay_ledger_records-Replayed}

module _ (b : Bindings) (i : Identities b) where
  open b use {Binding}

  -- No recovery of the list is open for the source.
  abbrev pub Free : Bytes → BytePath → List (History Binding) → Type 0
  Free at path = All (λ h. retains b i at path h.recovery ≡ false)

  -- `none` where no recovery is open for the source, else the one that is.
  abbrev pub Lookup : Bytes → BytePath → List (History Binding) → Option (Recovery Binding) → Type 0
  Lookup at path histories none = Free at path histories
  Lookup at path histories (some r) =
      (before : List (History Binding)) × (h : History Binding) × (after : List (History Binding))
      × (histories ≡ before ++ h ∷ after)
      × (r ≡ h.recovery)
      × (retains b i at path r ≡ true)
      × Free at path before
      × Free at path after

  -- A recovery that the search takes is open, and has the key of the source.
  pub retains-key :
      (at : Bytes) (path : BytePath) (r : Recovery Binding)
      → retains b i at path r ≡ true
      → (closed r ≡ false) × (key_of_source b i r ≡ source_key at path)
  unfolding retains
  retains-key at path r h =
      let open_is : closed r ≡ false = ground arith in
      let roots : bytes_equal (i.root r.binding) at ≡ true = ground arith in
      let paths : path_equal (i.source r.binding) path ≡ true = ground arith in
      (
        open_is,
        rw
            (
              (bytes_equal_iff (i.root r.binding) at).0 roots,
              (path_equal_iff (i.source r.binding) path).0 paths,
            )
            refl,
      )

  has_key_self : (k : Bytes) (keys : List Bytes) → has_key k (k ∷ keys) ≡ true
  unfolding has_key
  has_key_self k keys = rw ((bytes_equal_iff k k).1 refl) refl

  has_key-cons :
      (k l : Bytes) (keys : List Bytes) → has_key k keys ≡ true → has_key k (l ∷ keys) ≡ true
  unfolding has_key
  has_key-cons k l keys h = ground arith

  -- The tests on the rest, from the keys seen by then.
  ensure_unique-tail :
      (seen : List Bytes) (h : History Binding) (histories : List (History Binding))
      → ensure_unique_from b i seen (h ∷ histories) ≡ ok tt
      → (closed h.recovery ≡ true) × (ensure_unique_from b i seen histories ≡ ok tt)
        ⊎ (closed h.recovery ≡ false)
          × (has_key (key_of_source b i h.recovery) seen ≡ false)
          × (ensure_unique_from b i (key_of_source b i h.recovery ∷ seen) histories ≡ ok tt)
  unfolding ensure_unique_from
  ensure_unique-tail seen h histories e = elim (Bool-cases (closed h.recovery)) [
    | inl c ↦ inl (c, rw c at e)
    | inr c ↦
        let (_, new, rest) =
          bind-eq-ok (require (not (has_key (key_of_source b i h.recovery) seen)) _) _
            (rw c at e) in
        inr (c, not-eq-true _ (require-eq-ok _ _ new), rest)
  ]

  closed_not_retained :
      (at : Bytes) (path : BytePath) (r : Recovery Binding)
      → closed r ≡ true
      → retains b i at path r ≡ false
  unfolding retains
  closed_not_retained at path r c = rw c refl

  new_not_retained :
      (at : Bytes) (path : BytePath) (seen : List Bytes) (r : Recovery Binding)
      → has_key (source_key at path) seen ≡ true
      → has_key (key_of_source b i r) seen ≡ false
      → retains b i at path r ≡ false
  new_not_retained at path seen r k new = elim (Bool-cases (retains b i at path r)) [
    | inl t ↦ let (_, key) = retains-key at path r t in absurd (different k (rw key at new))
    | inr f ↦ f
  ]

  -- A recovery whose key is seen already is not taken.
  seen-Free :
      (at : Bytes) (path : BytePath) (seen : List Bytes) (histories : List (History Binding))
      → has_key (source_key at path) seen ≡ true
      → ensure_unique_from b i seen histories ≡ ok tt
      → Free at path histories
  seen-Free at path seen [] k e = tt
  seen-Free at path seen (h ∷ histories) k e = elim (ensure_unique-tail seen h histories e) [
    | inl (c, rest) ↦
        (closed_not_retained at path h.recovery c, seen-Free at path seen histories k rest)
    | inr (c, new, rest) ↦ (
      new_not_retained at path seen h.recovery k new,
      seen-Free at path (key_of_source b i h.recovery ∷ seen) histories
          (has_key-cons (source_key at path) (key_of_source b i h.recovery) seen k) rest,
    )
  ]

  find_from-Free :
      (at : Bytes) (path : BytePath) (found : Option (Recovery Binding))
      (histories : List (History Binding))
      → Free at path histories
      → find_from b i at path found histories ≡ ok found
  unfolding find_from
  find_from-Free at path found [] _ = refl
  find_from-Free at path found (h ∷ histories) (free, rest) =
      rw free (find_from-Free at path found histories rest)

  Lookup-cons :
      (at : Bytes) (path : BytePath) (h : History Binding) (histories : List (History Binding))
      (o : Option (Recovery Binding))
      → retains b i at path h.recovery ≡ false
      → Lookup at path histories o
      → Lookup at path (h ∷ histories) o
  Lookup-cons at path h histories none free l = (free, l)
  Lookup-cons at path h histories (some r) free (before, g, after, splits, is, takes, left, right) =
      (h ∷ before, g, after, ap (λ hs. h ∷ hs) splits, is, takes, (free, left), right)

  find_from-Lookup :
      (at : Bytes) (path : BytePath) (seen : List Bytes) (histories : List (History Binding))
      → ensure_unique_from b i seen histories ≡ ok tt
      → (o : Option (Recovery Binding)) × (find_from b i at path none histories ≡ ok o)
        × Lookup at path histories o
  unfolding find_from
  find_from-Lookup at path seen [] e = (none, refl, tt)
  find_from-Lookup at path seen (h ∷ histories) e =
      elim (Bool-cases (retains b i at path h.recovery)) [
        | inl t ↦
            let (open_is, key) = retains-key at path h.recovery t in
            elim (ensure_unique-tail seen h histories e) [
              | inl (c, rest) ↦ absurd (different c open_is)
              | inr (c, new, rest) ↦
                  let known : has_key (source_key at path) (key_of_source b i h.recovery ∷ seen)
                      ≡ true =
                    rw key (has_key_self (source_key at path) seen) in
                  let free = seen-Free at path _ histories known rest in
                  (
                    some h.recovery,
                    rw t (find_from-Free at path (some h.recovery) histories free),
                    ([], h, histories, refl, refl, t, tt, free),
                  )
            ]
        | inr f ↦
            let (later, rest) : (later : List Bytes) × (ensure_unique_from b i later histories
                  ≡ ok tt) =
              elim (ensure_unique-tail seen h histories e) [
                | inl (c, rest) ↦ (seen, rest)
                | inr (c, new, rest) ↦ (_, rest)
              ] in
            let (o, found, l) = find_from-Lookup at path later histories rest in
            (o, rw f found, Lookup-cons at path h histories o f l)
      ]

  -- Where the retained records replay, the search for a source is never ambiguous: it finds no
  -- recovery where none is open for the source, and else the only one that is.
  pub find_outstanding-Lookup :
      (records : List Record) (histories : List (History Binding)) (at : Bytes) (path : BytePath)
      → replay_ledger_records b i records ≡ ok histories
      → (o : Option (Recovery Binding)) × (find_outstanding b i histories at path ≡ ok o)
        × Lookup at path histories o
  unfolding find_outstanding
  find_outstanding-Lookup records histories at path h =
      let is = replay_ledger_records-Replayed b i records histories h in
      find_from-Lookup at path [] histories is.unique
