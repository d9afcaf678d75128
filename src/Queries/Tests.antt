-- ===== src/Queries/Tests.antt =====
-- Runs of the graph queries on a small repository.
use agents_universe.Prelude.{ℕ, ◌≡◌, refl, true, false, none, some, [], ◌∷◌}
use agents_universe.Prelude.Text.{strip, Text, codes}
use agents_universe.Prelude.TextSet.{same, elem, insert, subset}
use agents_universe.RepoGraph.{
  GraphNode, RepoGraph, file, symbol, posix, file_id, symbol_id, parse_node_id, graph_to_dict,
  graph_from_dict,
}
use agents_universe.RepoGraph.Ids.{parse-symbol_id}
use agents_universe.RepoGraph.Codec.{graph_from_dict-graph_to_dict}
use agents_universe.Queries.{Impact, Resolution, resolve_node, found, done, impact_set}
use agents_universe.Prelude.Int.{pos}
use agents_universe.Queries.Neighbors.{Neighborhood, incoming, neighbors}
use agents_universe.Queries.Neighbors.Found.{is_whole}
use agents_universe.Queries.Neighbors.Complete.{IsNeighborhood, neighbors-IsNeighborhood}
use agents_universe.Queries.Resolve.{IsAnswer, resolve_node-IsAnswer}
use agents_universe.Queries.Answers.{is_closed, IsImpact, impact_set_returns, impact_set-IsImpact}

a_id : Text
a_id = codes "f:a.py"

abbrev a_file : GraphNode
a_file = record {
  id = codes "f:a.py";
  type = codes "file";
  name = codes "a.py";
  line = 0;
  lang = some (codes "python");
  lines = 12;
}

abbrev b_run : GraphNode
b_run = record {
  id = codes "s:b.py:B.run";
  type = codes "function";
  name = codes "B.run";
  line = 7;
  lang = none;
  lines = 0;
}

abbrev c_main : GraphNode
c_main = record {
  id = codes "s:c.py:main";
  type = codes "function";
  name = codes "main";
  line = 3;
  lang = none;
  lines = 0;
}

-- main calls run, run imports a.py, and a.py imports itself.
abbrev repository : RepoGraph ℕ Unit
repository = record {
  repo = record { name = codes "demo"; head_sha = codes "abc"; langs = []; built_at = 5 };
  stats = tt;
  nodes = a_file ∷ b_run ∷ c_main ∷ [];
  edges =
      record { src = codes "s:c.py:main"; dst = codes "s:b.py:B.run"; type = codes "calls" }
      ∷ record { src = codes "s:b.py:B.run"; dst = codes "f:a.py"; type = codes "imports" }
      ∷ record { src = codes "f:a.py"; dst = codes "f:a.py"; type = codes "imports" }
      ∷ [];
  schema_version = 2;
}

parse-symbol_id_example :
    (parse_node_id (symbol_id (codes "a\\b:c.py") (codes "B.run"))
      ≡ (symbol, (posix (codes "a\\b:c.py"), some (codes "B.run"))))
    × (parse_node_id (file_id (codes "a\\b:c.py")) ≡ (file, (posix (codes "a\\b:c.py"), none)))
parse-symbol_id_example = parse-symbol_id (codes "a\\b:c.py") (codes "B.run") refl (λ e. cc)

codec_example : graph_from_dict 0 tt (graph_to_dict repository) ≡ some repository
codec_example =
    graph_from_dict-graph_to_dict 0 tt repository ((λ e. cc), ((λ e. cc), ((λ e. cc), tt)))

abbrev blast : Impact
blast = record {
  node_id = codes "f:a.py";
  affected_nodes =
      record {
        node_id = b_run.id;
        name = b_run.name;
        type = b_run.type;
        rel = codes "b.py";
        line = 7;
        extra = codes "imports";
      }
      ∷ record {
        node_id = c_main.id;
        name = c_main.name;
        type = c_main.type;
        rel = codes "c.py";
        line = 3;
        extra = codes "calls";
      }
      ∷ [];
  affected_files = codes "b.py" ∷ codes "c.py" ∷ [];
  count = 2;
  truncated = false;
}

run_impact : impact_set repository (codes "f:a.py") ≡ done blast
unfolding impact_set same elem insert
run_impact = refl

is_closed-repository : is_closed repository ≡ true
unfolding is_closed subset elem same
is_closed-repository = refl

impact_set_returns_example : (r : Impact) × (impact_set repository (codes "f:a.py") ≡ done r)
impact_set_returns_example = impact_set_returns repository (codes "f:a.py") is_closed-repository

impact_set-IsImpact_example : IsImpact repository (codes "f:a.py") blast
impact_set-IsImpact_example = impact_set-IsImpact repository (codes "f:a.py") blast run_impact

-- The repository's only symbol whose name ends in `.run`.
resolve_node-IsAnswer_example :
    (r : Resolution) × (resolve_node repository (codes " run ") ≡ some r)
    × IsAnswer repository (strip (codes " run ")) r
resolve_node-IsAnswer_example = resolve_node-IsAnswer repository (codes " run ")

resolve_suffix :
    resolve_node repository (codes " run ")
    ≡ some (
        found (record {
          node_id = b_run.id;
          name = b_run.name;
          type = b_run.type;
          rel = codes "b.py";
          line = 7;
          extra = tt;
        }))
unfolding resolve_node same
resolve_suffix = refl

is_whole-repository : is_whole repository ≡ true
unfolding is_whole is_closed subset elem same
is_whole-repository = refl

neighbors-IsNeighborhood_example :
    (r : Neighborhood) × (neighbors repository (codes "f:a.py") (pos 5) ≡ some r)
    × IsNeighborhood repository (codes "f:a.py") (pos 5) r
neighbors-IsNeighborhood_example =
    neighbors-IsNeighborhood repository (codes "f:a.py") (pos 5) is_whole-repository

abbrev around : Neighborhood
around = record {
  node_id = codes "f:a.py";
  depth = 2;
  neighbors =
      record {
        node_id = b_run.id;
        name = b_run.name;
        type = b_run.type;
        rel = codes "b.py";
        line = 7;
        extra = record { direction = incoming; via = codes "imports"; depth = 1 };
      }
      ∷ record {
        node_id = c_main.id;
        name = c_main.name;
        type = c_main.type;
        rel = codes "c.py";
        line = 3;
        extra = record { direction = incoming; via = codes "calls"; depth = 2 };
      }
      ∷ [];
  count = 2;
  truncated = false;
}

run_neighbors : neighbors repository (codes "f:a.py") (pos 5) ≡ some around
unfolding neighbors same elem insert
run_neighbors = refl
