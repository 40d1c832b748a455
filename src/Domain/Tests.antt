-- ===== src/Domain/Tests.antt =====
-- Runs of the domain checks at concrete values.
use linux_deep_clean.Prelude.{
  ℕ, ◌≡◌, ◌↔◌, refl, arith, true, false, [], ◌∷◌, none, Bytes, bytes_equal, bytes_compare, codes,
  replicate, ok,
}
use linux_deep_clean.Pathbytes.BytePath.Names.{IsName}
use linux_deep_clean.Pathbytes.TrashCodec.{encode_component}
use linux_deep_clean.Domain.Size.{
  ByteQuantity, SizeFacts, validate_fact, validate_quantity, validate_effect, validate_ownership,
  validate_size_facts, unavailable, unknown_fact, add_byte_quantity, add_size_facts,
}
use linux_deep_clean.Domain.Size.Sum.{
  Words, Adds, add_size_facts-Adds, add_size_facts-Representable,
}
use linux_deep_clean.Domain.Identifiers.{
  stable_byte, stable_bytes, validate_stable_id, contains_twice, contains_byte, object_byte,
  object_bytes, validate_manager_object_id, new_manager_object_id, validate_digest,
}
use linux_deep_clean.Domain.Identifiers.Names.{validate_stable_id-IsName}
use linux_deep_clean.Domain.Graph.{
  Node, Graph, exact_graph, reference, lift, validate_scope, validate_reason, validate_ref,
  compare_ref, ref_equal, compare_edge, behind, validate_covered, validate_count,
  validate_guarantee, validate_node, validate_nodes, not_below, is_at, has_node, validate_edges,
  covered_present, same_node_set, validate_exact, validate_graph,
}
use linux_deep_clean.Domain.Graph.Search.{search, search_between}
use linux_deep_clean.Domain.Graph.Order.{Ascending}
use linux_deep_clean.Domain.Graph.Member.{Present, has_node-Present}
use linux_deep_clean.Domain.Graph.Closed.{IsClosedGraph, validate_graph-IsClosedGraph}

abbrev measured : ℕ → ByteQuantity
measured bytes = record { available = true; bytes = bytes }

-- One file with one link, of which 4096 bytes are allocated.
abbrev one_file : SizeFacts
one_file = record {
  apparent = measured 100;
  allocated = measured 4096;
  estimated = record { apparent = measured 100; allocated = measured 4096 };
  verified = record { apparent = unavailable; allocated = unavailable };
  link_count = record { known = true; value = 1 };
  aggregate = false;
}

abbrev two_files : SizeFacts
two_files = record {
  apparent = measured 200;
  allocated = measured 8192;
  estimated = record { apparent = measured 200; allocated = unavailable };
  verified = record { apparent = unavailable; allocated = unavailable };
  link_count = unknown_fact;
  aggregate = true;
}

one_file_valid : validate_size_facts one_file ≡ ok tt
unfolding validate_size_facts validate_quantity validate_effect validate_fact validate_ownership
one_file_valid = refl

twice : add_size_facts one_file one_file ≡ ok two_files
unfolding add_size_facts add_byte_quantity validate_size_facts validate_quantity validate_effect
    validate_fact validate_ownership
twice = refl

one_file-Words : Words one_file
one_file-Words = record {
  apparent = omega arith;
  allocated = omega arith;
  estimated = omega arith;
  verified = omega arith;
}

add_size_facts-Adds_example : Adds one_file one_file two_files
add_size_facts-Adds_example = add_size_facts-Adds one_file one_file two_files one_file-Words twice

add_size_facts-Representable_example :
    (result : SizeFacts) × (add_size_facts one_file one_file ≡ ok result)
add_size_facts-Representable_example =
    add_size_facts-Representable one_file one_file one_file_valid one_file_valid
      (λ _ _. omega arith) (λ _ _. omega arith) (λ _ _. omega arith) (λ e. cc)

token_valid : validate_stable_id (codes "run-1.a") ≡ ok tt
unfolding validate_stable_id stable_bytes stable_byte
token_valid = refl

validate_stable_id-IsName_example :
    IsName (codes "run-1.a") × (encode_component (codes "run-1.a") ≡ codes "run-1.a")
validate_stable_id-IsName_example = validate_stable_id-IsName (codes "run-1.a") token_valid

object_valid : new_manager_object_id (codes "libc6:amd64") ≡ ok (codes "libc6:amd64")
unfolding new_manager_object_id validate_manager_object_id contains_twice object_bytes object_byte
    contains_byte
object_valid = refl

abbrev packaged : Bytes → Node
packaged name = record {
  id = name;
  version = codes "1.0";
  scope = codes "system";
  protected = false;
  essential = false;
  maintainer_scripts = true;
  restart_required = false;
  network_required = false;
}

abbrev tool : Node
tool = packaged (codes "tool")

abbrev library : Node
library = packaged (codes "libtool")

abbrev small_graph : Graph
small_graph = record {
  provider = codes "apt";
  nodes = library ∷ tool ∷ [];
  edges =
      record { from = reference tool; to = reference library; reason = codes "dependency" } ∷ [];
  evidence_digest = replicate 32 7;
  guarantee = record { kind = exact_graph; covered = reference library ∷ reference tool ∷ [] };
}

nodes-Ascending : Ascending none small_graph.nodes
unfolding behind compare_ref bytes_compare
nodes-Ascending = (refl, (refl, tt))

has_node-Present_example :
    (has_node small_graph.nodes (reference tool) ≡ true)
    ↔ Present small_graph.nodes (reference tool)
has_node-Present_example = has_node-Present small_graph.nodes (reference tool) nodes-Ascending

small_graph_valid : validate_graph small_graph ≡ ok tt
unfolding validate_graph lift validate_stable_id stable_bytes stable_byte validate_digest
    bytes_equal validate_nodes validate_node validate_ref validate_manager_object_id contains_twice
    object_bytes object_byte contains_byte validate_scope behind compare_ref bytes_compare
    validate_edges ref_equal validate_reason has_node search search_between not_below is_at
    compare_edge validate_guarantee validate_count validate_covered covered_present validate_exact
    same_node_set
small_graph_valid = refl

validate_graph-IsClosedGraph_example : IsClosedGraph small_graph
validate_graph-IsClosedGraph_example = validate_graph-IsClosedGraph small_graph small_graph_valid
