-- ===== src/Domain/Graph/Closed.antt =====
-- What a graph is that `TransactionGraph.Validate` of internal/domain/transaction_graph.go accepts.
use linux_deep_clean.Prelude.{
  different, ◌≡◌, ◌≢◌, refl, true, not, ◌&&◌, List, [], ◌∷◌, Option, none, some, length, ◌==◌, All,
  and-eq-true, not-eq-true, ok, require, require-eq-ok, bind-eq-ok,
}
use linux_deep_clean.Domain.Identifiers.{validate_stable_id, validate_digest}
use linux_deep_clean.Domain.Graph.{
  Ref, Node, Edge, Graph, GuaranteeKind, exact_graph, reference, ref_equal, behind, compare_edge,
  validate_ref, validate_reason, validate_nodes, validate_edges, validate_guarantee,
  covered_present, same_node_set, validate_exact, validate_graph, has_node, lift,
}
use linux_deep_clean.Domain.Graph.Order.{Ascending, ref_equal_iff, validate_nodes-Ascending}
use linux_deep_clean.Domain.Graph.Member.{Present, has_node-Present}

-- An edge between two nodes of the graph.
pub record Joins (nodes : List Node) (edge : Edge) : Type 0 where
  pub from : Present nodes edge.from
  pub to : Present nodes edge.to
  pub apart : edge.from ≢ edge.to

abbrev pub references : List Node → List Ref
references [] = []
references (node ∷ nodes) = reference node ∷ references nodes

pub record IsClosedGraph (graph : Graph) : Type 0 where
  pub some_node : graph.nodes ≢ []
  pub ascends : Ascending none graph.nodes
  pub joins : All (Joins graph.nodes) graph.edges
  pub covers : All (Present graph.nodes) graph.guarantee.covered
  pub exact : graph.guarantee.kind ≡ exact_graph → graph.guarantee.covered ≡ references graph.nodes

empty_nodes : (nodes : List Node) → nodes ≡ [] → not (length nodes == 0) ≡ true → ⊥
empty_nodes [] e h = cc
empty_nodes (node ∷ nodes) e h = cc

validate_exact-same :
    (graph : Graph) (kind : GuaranteeKind)
    → kind ≡ exact_graph
    → validate_exact graph kind ≡ ok tt
    → same_node_set graph.nodes graph.guarantee.covered ≡ true
unfolding validate_exact
validate_exact-same graph exact_graph e h = require-eq-ok _ _ h
validate_exact-same graph _ e h = cc

module _ (nodes : List Node) (ascends : Ascending none nodes) where
  validate_edges-Joins :
      (previous : Option Edge) (edges : List Edge)
      → validate_edges nodes previous edges ≡ ok tt
      → All (Joins nodes) edges
  unfolding validate_edges
  validate_edges-Joins previous [] h = tt
  validate_edges-Joins previous (edge ∷ rest) h =
      let (_, _, h1) = bind-eq-ok (validate_ref edge.from) _ h in
      let (_, _, h2) = bind-eq-ok (validate_ref edge.to) _ h1 in
      let (_, apart, h3) = bind-eq-ok (require (not (ref_equal edge.from edge.to)) _) _ h2 in
      let (_, _, h4) = bind-eq-ok (validate_reason edge.reason) _ h3 in
      let (_, both, h5) =
        bind-eq-ok (require (has_node nodes edge.from && has_node nodes edge.to) _) _ h4 in
      let (_, _, h6) = bind-eq-ok (require (behind compare_edge previous edge) _) _ h5 in
      let (from, to) = and-eq-true _ _ (require-eq-ok _ _ both) in
      let unequal = not-eq-true _ (require-eq-ok _ _ apart) in
      (
        record {
          from = (has_node-Present nodes edge.from ascends).0 from;
          to = (has_node-Present nodes edge.to ascends).0 to;
          apart = λ e. different ((ref_equal_iff edge.from edge.to).1 e) unequal;
        },
        validate_edges-Joins (some edge) rest h6,
      )

  covered_present-All :
      (covered : List Ref) → covered_present nodes covered ≡ ok tt → All (Present nodes) covered
  unfolding covered_present
  covered_present-All [] h = tt
  covered_present-All (r ∷ rest) h =
      let (_, has, h1) = bind-eq-ok (require (has_node nodes r) _) _ h in
      ((has_node-Present nodes r ascends).0 (require-eq-ok _ _ has), covered_present-All rest h1)

same_node_set-references :
    (nodes : List Node) (covered : List Ref)
    → same_node_set nodes covered ≡ true
    → covered ≡ references nodes
unfolding same_node_set
same_node_set-references [] [] h = refl
same_node_set-references (node ∷ nodes) (r ∷ covered) h =
    let (one, more) = and-eq-true _ _ h in
    let first = (ref_equal_iff (reference node) r).0 one in
    let others = same_node_set-references nodes covered more in cc
same_node_set-references _ _ h = cc

-- An accepted graph has some node, its nodes ascend strictly by name and scope, every edge joins
-- two different nodes of the graph, every covered object is a node, and an exact-graph guarantee
-- covers exactly the nodes, in their order.
pub validate_graph-IsClosedGraph :
    (graph : Graph) → validate_graph graph ≡ ok tt → IsClosedGraph graph
unfolding validate_graph validate_exact
validate_graph-IsClosedGraph graph h =
    let (_, _, h1) = bind-eq-ok (lift (validate_stable_id graph.provider)) _ h in
    let (_, some_node, h2) = bind-eq-ok (require (not (length graph.nodes == 0)) _) _ h1 in
    let (_, _, h3) = bind-eq-ok (lift (validate_digest graph.evidence_digest)) _ h2 in
    let (_, sorted, h4) = bind-eq-ok (validate_nodes none graph.nodes) _ h3 in
    let (_, edges, h5) = bind-eq-ok (validate_edges graph.nodes none graph.edges) _ h4 in
    let (_, _, h6) = bind-eq-ok (validate_guarantee graph.guarantee) _ h5 in
    let (_, covers, h7) = bind-eq-ok (covered_present graph.nodes graph.guarantee.covered) _ h6 in
    let ascends = validate_nodes-Ascending none graph.nodes sorted in
    let not_empty = require-eq-ok _ _ some_node in
    record {
      some_node = λ e. empty_nodes graph.nodes e not_empty;
      ascends = ascends;
      joins = validate_edges-Joins graph.nodes ascends none graph.edges edges;
      covers = covered_present-All graph.nodes ascends graph.guarantee.covered covers;
      exact = λ e.
          same_node_set-references graph.nodes graph.guarantee.covered
            (validate_exact-same graph graph.guarantee.kind e h7);
    }
