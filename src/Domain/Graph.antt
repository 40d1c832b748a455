-- ===== src/Domain/Graph.antt =====
-- internal/domain/transaction_graph.go: the graph of package-manager objects of a preview.
-- A Go string is its bytes. A copy of a graph is the graph, since slices are values here.
pub mod Search
pub mod Order
pub mod Member
pub mod Closed
use linux_deep_clean.Prelude.{
  ℕ, zero, suc, Bool, true, false, not, ◌&&◌, ◌||◌, List, [], ◌∷◌, Option, none, some, ltb, ◌==◌,
  if◌then◌else◌, Bytes, bytes_equal, codes, length, Comparison, less, same, greater, bytes_compare,
  Result, ok, err, ◌>>=◌, ◌>>◌, require,
}
use linux_deep_clean.Domain.Identifiers.{
  IdError, validate_stable_id, validate_manager_object_id, validate_digest,
}
use linux_deep_clean.Domain.Graph.Search.{search}

pub data GraphError : Type 0 where
  identifier : IdError → GraphError
  unknown_scope unknown_kind unknown_reason : GraphError
  covers_something covers_nothing covers_not_one : GraphError
  unsorted_covered no_version no_nodes unsorted_nodes self_edge dangling_edge : GraphError
  unsorted_edges covers_absent covers_less : GraphError

-- The error of an identifier, with the context that the caller adds.
unfoldable pub lift : {A : Type 0} → Result IdError A → Result GraphError A
lift (ok a) = ok a
lift (err e) = err (identifier e)

-- `ManagerScope` and `TransactionEdgeReason` are strings, which are also compared as such.
unfoldable pub validate_scope : Bytes → Result GraphError (Unit {0})
validate_scope scope =
    require (bytes_equal scope (codes "system") || bytes_equal scope (codes "user")) unknown_scope

unfoldable pub validate_reason : Bytes → Result GraphError (Unit {0})
validate_reason reason =
    require
      (bytes_equal reason (codes "dependency")
        || bytes_equal reason (codes "replacement")
        || bytes_equal reason (codes "conflict")
        || bytes_equal reason (codes "removal"))
      unknown_reason

-- `ManagerObjectRef`
pub record Ref : Type 0 where
  pub id : Bytes
  pub scope : Bytes

unfoldable pub validate_ref : Ref → Result GraphError (Unit {0})
validate_ref r = do lift (validate_manager_object_id r.id); validate_scope r.scope

abbrev pub then_compare : Comparison → Comparison → Comparison
then_compare less next = less
then_compare same next = next
then_compare greater next = greater

-- `compareManagerObjectRef`
unfoldable pub compare_ref : Ref → Ref → Comparison
compare_ref left right =
    then_compare (bytes_compare left.id right.id) (bytes_compare left.scope right.scope)

-- `==` of two references
unfoldable pub ref_equal : Ref → Ref → Bool
ref_equal left right = bytes_equal left.id right.id && bytes_equal left.scope right.scope

pub data GuaranteeKind : Type 0 where
  read_only_inventory bounded_effect_only exact_target exact_graph : GuaranteeKind
  other_kind : Bytes → GuaranteeKind

pub record Guarantee : Type 0 where
  pub kind : GuaranteeKind
  pub covered : List Ref

-- `TransactionNode`; the flags are carried along and read by nothing here.
pub record Node : Type 0 where
  pub id : Bytes
  pub version : Bytes
  pub scope : Bytes
  pub protected : Bool
  pub essential : Bool
  pub maintainer_scripts : Bool
  pub restart_required : Bool
  pub network_required : Bool

abbrev pub reference : Node → Ref
reference node = record { id = node.id; scope = node.scope }

pub record Edge : Type 0 where
  pub from : Ref
  pub to : Ref
  pub reason : Bytes

pub record Graph : Type 0 where
  pub provider : Bytes
  pub nodes : List Node
  pub edges : List Edge
  pub evidence_digest : Bytes
  pub guarantee : Guarantee

unfoldable pub compare_edge : Edge → Edge → Comparison
compare_edge left right =
    then_compare (compare_ref left.from right.from)
      (then_compare (compare_ref left.to right.to) (bytes_compare left.reason right.reason))

abbrev pub is_less : Comparison → Bool
is_less less = true
is_less same = false
is_less greater = false

-- The test `compare(previous, current) >= 0` fails, or there is no previous one.
unfoldable pub behind : {A : Type 0} → (A → A → Comparison) → Option A → A → Bool
behind compare none current = true
behind compare (some previous) current = is_less (compare previous current)

-- The loop over the covered objects.
unfoldable pub validate_covered : Option Ref → List Ref → Result GraphError (Unit {0})
validate_covered previous [] = ok tt
validate_covered previous (object ∷ rest) = do
  validate_ref object
  require (behind compare_ref previous object) unsorted_covered
  validate_covered (some object) rest

-- The `switch guarantee.Kind`
unfoldable pub validate_count : GuaranteeKind → ℕ → Result GraphError (Unit {0})
validate_count read_only_inventory count = require (count == 0) covers_something
validate_count bounded_effect_only count = require (not (count == 0)) covers_nothing
validate_count exact_graph count = require (not (count == 0)) covers_nothing
validate_count exact_target count = require (count == 1) covers_not_one
validate_count (other_kind _) count = err unknown_kind

unfoldable pub validate_guarantee : Guarantee → Result GraphError (Unit {0})
validate_guarantee g = do validate_count g.kind (length g.covered); validate_covered none g.covered

unfoldable pub validate_node : Node → Result GraphError (Unit {0})
validate_node node = do
  validate_ref (reference node)
  require (not (length node.version == 0)) no_version

-- The loop over the nodes.
unfoldable pub validate_nodes : Option Node → List Node → Result GraphError (Unit {0})
validate_nodes previous [] = ok tt
validate_nodes previous (node ∷ rest) = do
  validate_node node
  require (behind (λ a b. compare_ref (reference a) (reference b)) previous node) unsorted_nodes
  validate_nodes (some node) rest

-- `graph.Nodes[index]`
abbrev pub nth : {A : Type 0} → List A → ℕ → Option A
nth [] index = none
nth (a ∷ rest) zero = some a
nth (a ∷ rest) (suc index) = nth rest index

-- The function that `sort.Search` calls; it calls it at indexes of nodes only.
unfoldable pub not_below : Ref → Option Node → Bool
not_below r none = false
not_below r (some node) = not (is_less (compare_ref (reference node) r))

unfoldable pub is_at : Ref → Option Node → Bool
is_at r none = false
is_at r (some node) = ref_equal (reference node) r

-- `hasNode`
unfoldable pub has_node : List Node → Ref → Bool
has_node nodes r =
    let index = search (length nodes) (λ i. not_below r (nth nodes i)) in
    ltb index (length nodes) && is_at r (nth nodes index)

-- The loop over the edges.
unfoldable pub validate_edges : List Node → Option Edge → List Edge → Result GraphError (Unit {0})
validate_edges nodes previous [] = ok tt
validate_edges nodes previous (edge ∷ rest) = do
  validate_ref edge.from
  validate_ref edge.to
  require (not (ref_equal edge.from edge.to)) self_edge
  validate_reason edge.reason
  require (has_node nodes edge.from && has_node nodes edge.to) dangling_edge
  require (behind compare_edge previous edge) unsorted_edges
  validate_edges nodes (some edge) rest

unfoldable pub covered_present : List Node → List Ref → Result GraphError (Unit {0})
covered_present nodes [] = ok tt
covered_present nodes (object ∷ rest) = do
  require (has_node nodes object) covers_absent
  covered_present nodes rest

-- `sameNodeSet`: equal lengths, then the loop
unfoldable pub same_node_set : List Node → List Ref → Bool
same_node_set [] [] = true
same_node_set (node ∷ nodes) (object ∷ covered) =
    ref_equal (reference node) object && same_node_set nodes covered
same_node_set _ _ = false

-- The last test: an exact-graph guarantee covers every node.
unfoldable pub validate_exact : Graph → GuaranteeKind → Result GraphError (Unit {0})
validate_exact graph exact_graph =
    require (same_node_set graph.nodes graph.guarantee.covered) covers_less
validate_exact graph kind = ok tt

-- `TransactionGraph.Validate`
unfoldable pub validate_graph : Graph → Result GraphError (Unit {0})
validate_graph graph = do
  lift (validate_stable_id graph.provider)
  require (not (length graph.nodes == 0)) no_nodes
  lift (validate_digest graph.evidence_digest)
  validate_nodes none graph.nodes
  validate_edges graph.nodes none graph.edges
  validate_guarantee graph.guarantee
  covered_present graph.nodes graph.guarantee.covered
  validate_exact graph graph.guarantee.kind
