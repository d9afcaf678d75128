-- ===== src/RepoGraph/Codec.antt =====
-- The codec of graph.json: what `to_dict` writes, `from_dict` reads.
use agents_universe.Prelude.{
  ℕ, zero, suc, ◌≡◌, refl, ◌≢◌, Option, none, some, List, [], ◌∷◌, map, All,
}
use agents_universe.Prelude.Text.{Text}
use agents_universe.Prelude.Fallible.{each}
use agents_universe.RepoGraph.{
  GraphNode, GraphEdge, RepoGraph, node_to_dict, node_from_dict, edge_to_dict, edge_from_dict,
  truthy, truthy_text, get_or, graph_to_dict, graph_from_dict,
}

get_or-truthy : (n : ℕ) → get_or (truthy n) 0 ≡ n
unfolding get_or truthy
get_or-truthy zero = refl
get_or-truthy (suc n) = refl

truthy_text_kept : (o : Option Text) → o ≢ some [] → truthy_text o ≡ o
unfolding truthy_text
truthy_text_kept none h = refl
truthy_text_kept (some []) h = absurd (h refl)
truthy_text_kept (some (c ∷ t)) h = refl

node_from_dict-node_to_dict :
    (n : GraphNode) → n.lang ≢ some [] → node_from_dict (node_to_dict n) ≡ some n
unfolding node_from_dict node_to_dict
node_from_dict-node_to_dict n h =
    rw (get_or-truthy n.line, get_or-truthy n.lines, truthy_text_kept n.lang h) refl

nodes_read :
    (ns : List GraphNode)
    → All (λ n. n.lang ≢ some []) ns
    → each node_from_dict (map node_to_dict ns) ≡ some ns
unfolding each
nodes_read [] h = refl
nodes_read (n ∷ ns) h = rw (node_from_dict-node_to_dict n h.0, nodes_read ns h.1) refl

edges_read : (es : List GraphEdge) → each edge_from_dict (map edge_to_dict es) ≡ some es
unfolding each edge_from_dict edge_to_dict
edges_read [] = refl
edges_read (e ∷ es) = rw (edges_read es) refl

-- A graph is read back as it was written, with its nodes and edges in their order, whatever is left
-- out of the dicts, where no node's language is the empty text.
pub graph_from_dict-graph_to_dict :
    {Time Stats : Type 0} (midnight : Time) (nothing : Stats) (g : RepoGraph Time Stats)
    → All (λ n. n.lang ≢ some []) g.nodes
    → graph_from_dict midnight nothing (graph_to_dict g) ≡ some g
unfolding graph_from_dict graph_to_dict get_or
graph_from_dict-graph_to_dict midnight nothing g h =
    rw (nodes_read g.nodes h, edges_read g.edges) refl
