-- ===== src/Domain/Graph/Order.antt =====
-- `compareManagerObjectRef` of internal/domain/transaction_graph.go is an order, and nodes that pass
-- `Validate` ascend in it.
use mathlib.Core.Path.{subst}
use linux_deep_clean.Prelude.{
  ℕ, zero, suc, ◌<◌, ◌≡◌, ◌↔◌, refl, arith, true, List, [], ◌∷◌, Option, some, length,
  bytes_equal_iff, same, bytes_compare_self, bytes_compare-same, bytes_compare_trans, ok, require,
  require-eq-ok, bind-eq-ok,
}
use linux_deep_clean.Domain.Graph.{
  Ref, Node, reference, compare_ref, ref_equal, is_less, behind, validate_node, validate_nodes, nth,
}

pub compare_ref_self : (r : Ref) → compare_ref r r ≡ same
unfolding compare_ref
compare_ref_self r = rw (bytes_compare_self r.id, bytes_compare_self r.scope) refl

pub ref_equal_iff : (a b : Ref) → (ref_equal a b ≡ true) ↔ (a ≡ b)
unfolding ref_equal
ref_equal_iff a b = ground (arith, bytes_equal_iff a.id b.id, bytes_equal_iff a.scope b.scope)

-- `a` comes before `b`.
abbrev pub Before : Ref → Ref → Type 0
Before a b = is_less (compare_ref a b) ≡ true

pub Before-trans : (a b c : Ref) → Before a b → Before b c → Before a c
unfolding compare_ref
Before-trans a b c h k = ground (
  arith,
  bytes_compare_trans a.id b.id c.id,
  bytes_compare_trans a.scope b.scope c.scope,
  bytes_compare-same a.id b.id,
  bytes_compare-same b.id c.id,
)

-- Each node comes before the next one.
abbrev pub Ascending : Option Node → List Node → Type 0
Ascending previous [] = Unit {0}
Ascending previous (node ∷ rest) =
    (behind (λ a b. compare_ref (reference a) (reference b)) previous node ≡ true)
    × Ascending (some node) rest

pub validate_nodes-Ascending :
    (previous : Option Node) (nodes : List Node)
    → validate_nodes previous nodes ≡ ok tt
    → Ascending previous nodes
unfolding validate_nodes
validate_nodes-Ascending previous [] h = tt
validate_nodes-Ascending previous (node ∷ rest) h =
    let (_, _, h1) = bind-eq-ok (validate_node node) _ h in
    let (_, ascends, h2) =
      bind-eq-ok (require (behind (λ a b. compare_ref (reference a) (reference b)) previous node) _)
        _ h1 in
    (require-eq-ok _ _ ascends, validate_nodes-Ascending (some node) rest h2)

pub nth-lt : {A : Type 0} (xs : List A) (i : ℕ) → i < length xs → (x : A) × (nth xs i ≡ some x)
nth-lt [] i h = absurd (omega (arith, h))
nth-lt (x ∷ xs) zero h = (x, refl)
nth-lt (x ∷ xs) (suc i) h = nth-lt xs i (omega arith)

pub lt-nth : {A : Type 0} (xs : List A) (i : ℕ) {x : A} → nth xs i ≡ some x → i < length xs
lt-nth [] i h = cc
lt-nth (y ∷ xs) zero h = omega arith
lt-nth (y ∷ xs) (suc i) h = omega (arith, lt-nth xs i h)

pub some-injective {ℓ} : {A : Type ℓ} {a b : A} → ◌≡◌ {A = Option A} (some a) (some b) → a ≡ b
some-injective h = cc

Ascending-after :
    (p : Node) (nodes : List Node) (i : ℕ) (x : Node)
    → Ascending (some p) nodes
    → nth nodes i ≡ some x
    → Before (reference p) (reference x)
unfolding behind
Ascending-after p [] i x h e = cc
Ascending-after p (q ∷ nodes) zero x (h, k) e =
    subst (λ z. Before (reference p) (reference z)) (some-injective e) h
Ascending-after p (q ∷ nodes) (suc i) x (h, k) e =
    Before-trans (reference p) (reference q) (reference x) h (Ascending-after q nodes i x k e)

-- Nodes at two indexes are in the order of the indexes.
pub Ascending-Before :
    (previous : Option Node) (nodes : List Node) (i j : ℕ) (x y : Node)
    → Ascending previous nodes
    → i < j
    → nth nodes i ≡ some x
    → nth nodes j ≡ some y
    → Before (reference x) (reference y)
Ascending-Before previous [] i j x y h l e f = cc
Ascending-Before previous (q ∷ nodes) zero zero x y h l e f = absurd (omega (arith, l))
Ascending-Before previous (q ∷ nodes) zero (suc j) x y (h, k) l e f =
    subst (λ z. Before (reference z) (reference y)) (some-injective e)
      (Ascending-after q nodes j y k f)
Ascending-Before previous (q ∷ nodes) (suc i) zero x y h l e f = absurd (omega (arith, l))
Ascending-Before previous (q ∷ nodes) (suc i) (suc j) x y (h, k) l e f =
    Ascending-Before (some q) nodes i j x y k (omega (arith, l)) e f
