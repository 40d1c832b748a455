-- ===== src/Domain/Graph/Search.antt =====
-- `sort.Search` as internal/domain/transaction_graph.go uses it: the binary search for the first
-- index at which a test holds.
use linux_deep_clean.Prelude.{
  ℕ, zero, suc, ◌+◌, ◌/◌, ◌≤◌, ◌<◌, ◌≡◌, arith, Bool, true, false, ltb, if◌then◌else◌, inl, inr,
  Bool-cases, ltb→lt,
}

-- The loop `for i < j`, at most as many times as there are indexes between.
unfoldable pub search_between : ℕ → (ℕ → Bool) → ℕ → ℕ → ℕ
search_between zero f i j = i
search_between (suc fuel) f i j =
    let h = (i + j) / 2 in
    let rest = search_between fuel f (if f h then i else h + 1) (if f h then h else j) in
    if ltb i j then rest else i

unfoldable pub search : ℕ → (ℕ → Bool) → ℕ
search n f = search_between n f 0 n

-- The first index between `i` and `j` at which `f` holds, or `j`.
pub record IsFirst (f : ℕ → Bool) (i j r : ℕ) : Type 0 where
  pub from : i ≤ r
  pub within : r ≤ j
  pub below : (k : ℕ) → i ≤ k → k < r → f k ≡ false
  pub holds : r < j → f r ≡ true

-- Once the test holds it holds further on, below `n`.
abbrev pub Monotone : ℕ → (ℕ → Bool) → Type 0
Monotone n f = (a b : ℕ) → a ≤ b → b < n → f a ≡ true → f b ≡ true

module _ (n : ℕ) (f : ℕ → Bool) (mono : Monotone n f) where
  IsFirst-before : {i h j r : ℕ} → h < j → j ≤ n → f h ≡ true → IsFirst f i h r → IsFirst f i j r
  IsFirst-before {i} {h} {j} {r} p q e x = record {
    from = x.from;
    within = omega (arith, x.within);
    below = x.below;
    holds = λ inside. ground (arith, x.holds, x.within);
  }

  IsFirst-after :
      {i h j r : ℕ} → i ≤ h → h < n → f h ≡ false → IsFirst f (h + 1) j r → IsFirst f i j r
  IsFirst-after {i} {h} {j} {r} p q e x = record {
    from = omega (arith, x.from);
    within = x.within;
    below = λ k a b. ground (arith, x.below k, mono k h);
    holds = x.holds;
  }

  search_between-IsFirst :
      (fuel i j : ℕ) → i ≤ j → j ≤ n → j ≤ i + fuel → IsFirst f i j (search_between fuel f i j)
  unfolding search_between
  search_between-IsFirst zero i j h q k = record {
    from = omega arith;
    within = omega arith;
    below = λ k p q. absurd (omega arith);
    holds = λ p. absurd (omega arith);
  }
  search_between-IsFirst (suc fuel) i j h q k =
      let m = (i + j) / 2 in
      elim (Bool-cases (ltb i j)) [
        | inr e ↦ rw e (record {
          from = omega arith;
          within = h;
          below = λ k p q. absurd (omega arith);
          holds = λ p. absurd (ground arith);
        })
        | inl e ↦ rw e (elim (Bool-cases (f m)) [
          | inl t ↦ rw t (
              IsFirst-before (omega (arith, ltb→lt i j e)) q t (
                search_between-IsFirst fuel i m (omega (arith, ltb→lt i j e))
                  (omega (arith, ltb→lt i j e)) (omega (arith, ltb→lt i j e))))
          | inr t ↦ rw t (
              IsFirst-after (omega (arith, ltb→lt i j e)) (omega (arith, ltb→lt i j e)) t (
                search_between-IsFirst fuel (m + 1) j (omega (arith, ltb→lt i j e)) q
                  (omega (arith, ltb→lt i j e))))
        ])
      ]

  -- The search finds the first index.
  pub search-IsFirst : IsFirst f 0 n (search n f)
  unfolding search
  search-IsFirst = search_between-IsFirst n 0 n (omega arith) (omega arith) (omega arith)
