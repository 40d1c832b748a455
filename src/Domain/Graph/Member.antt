-- ===== src/Domain/Graph/Member.antt =====
-- The binary search of `hasNode` of internal/domain/transaction_graph.go finds every node.
use mathlib.Core.Path.{subst}
use linux_deep_clean.Prelude.{
  different, ℕ, ◌≤◌, ◌≡◌, ◌↔◌, refl, sym, ◌∙◌, ap, arith, Bool, true, not, List, Option, none, some,
  length, ltb, ltb→lt, lt→ltb, inl, inr, and-eq-true, Bool-cases,
}
use linux_deep_clean.Domain.Graph.{
  Ref, Node, reference, compare_ref, is_less, nth, not_below, is_at, has_node,
}
use linux_deep_clean.Domain.Graph.Search.{search, Monotone, search-IsFirst}
use linux_deep_clean.Domain.Graph.Order.{
  Before, Before-trans, compare_ref_self, ref_equal_iff, Ascending, Ascending-Before, nth-lt,
  lt-nth, some-injective,
}

-- Some node has the reference.
pub record Present (nodes : List Node) (r : Ref) : Type 0 where
  pub index : ℕ
  pub node : Node
  pub stands : nth nodes index ≡ some node
  pub named : reference node ≡ r

not_below-ge :
    (r : Ref) (o : Option Node) (x : Node)
    → o ≡ some x
    → not_below r o ≡ not (is_less (compare_ref (reference x) r))
unfolding not_below
not_below-ge r o x e = rw e refl

contradiction : {b c : Bool} → c ≡ not b → c ≡ true → b ≡ true → ⊥
contradiction h k l = ground arith

module _ (nodes : List Node) (r : Ref) (ascends : Ascending none nodes) where
  abbrev test : ℕ → Bool
  test i = not_below r (nth nodes i)

  -- A node before the reference has only such nodes before it.
  earlier-Before :
      (a b : ℕ) (x y : Node)
      → a ≤ b
      → nth nodes a ≡ some x
      → nth nodes b ≡ some y
      → Before (reference y) r
      → Before (reference x) r
  earlier-Before a b x y h ex ey below = elim (Bool-cases (ltb a b)) [
    | inl l ↦
        Before-trans (reference x) (reference y) r
          (Ascending-Before none nodes a b x y ascends (ltb→lt a b l) ex ey) below
    | inr e ↦
        let at : b ≡ a = ground arith in
        let same_node : y ≡ x = some-injective (sym ey ∙ ap (λ i. nth nodes i) at ∙ ex) in
        subst (λ z. Before (reference z) r) same_node below
  ]

  test-Monotone : Monotone (length nodes) test
  test-Monotone a b h k t =
      let (x, ex) = nth-lt nodes a (omega arith) in
      let (y, ey) = nth-lt nodes b k in
      let tx = not_below-ge r _ x ex in
      let ty = not_below-ge r _ y ey in
      elim (Bool-cases (is_less (compare_ref (reference y) r))) [
        | inl bad ↦ absurd (contradiction tx t (earlier-Before a b x y h ex ey bad))
        | inr good ↦ rw (ty, good) refl
      ]

  Present-test : (p : Present nodes r) → test p.index ≡ true
  Present-test p =
      not_below-ge r _ p.node p.stands
      ∙ subst (λ z. not (is_less (compare_ref z r)) ≡ true) (sym p.named)
          (rw (compare_ref_self r) refl)

  -- The search stops at the node that is named so.
  search-Present : (p : Present nodes r) → search (length nodes) test ≡ p.index
  search-Present p =
      let first = search-IsFirst (length nodes) test test-Monotone in
      let inside = lt-nth nodes p.index p.stands in
      let named = Present-test p in
      let not_behind : search (length nodes) test ≤ p.index =
        elim (Bool-cases (ltb p.index (search (length nodes) test))) [
          | inl l ↦ absurd (different named (first.below p.index (omega arith) (ltb→lt _ _ l)))
          | inr e ↦ ground arith
        ] in
      let (y, ey) = nth-lt nodes (search (length nodes) test) (omega arith) in
      let at_test = sym (not_below-ge r _ y ey) ∙ first.holds (omega arith) in
      elim (Bool-cases (ltb (search (length nodes) test) p.index)) [
        | inl l ↦ absurd (
            contradiction refl at_test (
              subst (λ z. Before (reference y) z) p.named
                (Ascending-Before none nodes _ p.index y p.node ascends (ltb→lt _ _ l) ey
                  p.stands)))
        | inr e ↦ ground arith
      ]

  -- For nodes in strictly ascending order, as `Validate` has checked them, the binary search of
  -- `hasNode` answers true exactly when some node has the reference.
  pub has_node-Present : (has_node nodes r ≡ true) ↔ Present nodes r
  unfolding has_node is_at
  has_node-Present = (
    (λ h.
        let (l, at) = and-eq-true _ _ h in
        let (y, ey) = nth-lt nodes (search (length nodes) test) (ltb→lt _ _ l) in
        record {
          index = search (length nodes) test;
          node = y;
          stands = ey;
          named = (ref_equal_iff (reference y) r).0 (rw ey at at);
        }),
    (λ p.
        let inside = lt-nth nodes p.index p.stands in
        rw (search-Present p, lt→ltb _ _ inside, p.stands)
          ((ref_equal_iff (reference p.node) r).1 p.named)),
  )
