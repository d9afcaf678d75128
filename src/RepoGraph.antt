-- ===== src/RepoGraph.antt =====
-- The repository graph: packages/agent-core/src/agent_core/knowledge/graph/model.py.
-- The indexes that the graph builds on its first use are functions of its nodes and edges here. A
-- dict that the codec reads is a record with `none` for a key that is missing.
use agents_universe.Prelude.{
  ℕ, zero, suc, ◌≡◌, Bool, true, false, Option, none, some, List, [], ◌∷◌, ◌++◌, map, ◌==◌,
  if◌then◌else◌, take, drop,
}
use agents_universe.Prelude.Text.{Text, codes, starts_with, rpartition}
use agents_universe.Prelude.TextSet.{same}
use agents_universe.Prelude.Fallible.{◌>>=◌, each}
pub mod Ids
pub mod Codec

pub record GraphNode : Type 0 where
  pub id : Text
  pub type : Text
  pub name : Text
  pub line : ℕ
  pub lang : Option Text
  pub lines : ℕ

pub record GraphEdge : Type 0 where
  pub src : Text
  pub dst : Text
  pub type : Text

-- What `GraphNode.to_dict` writes: a line, a language and a length only where they are not falsy.
pub record NodeDict : Type 0 where
  pub id : Option Text
  pub type : Option Text
  pub name : Option Text
  pub line : Option ℕ
  pub lang : Option Text
  pub lines : Option ℕ

pub record EdgeDict : Type 0 where
  pub src : Option Text
  pub dst : Option Text
  pub type : Option Text

-- `x if x else nothing` for a number and for a text.
unfoldable pub truthy : ℕ → Option ℕ
truthy zero = none
truthy (suc n) = some (suc n)

unfoldable pub truthy_text : Option Text → Option Text
truthy_text none = none
truthy_text (some []) = none
truthy_text (some (c ∷ t)) = some (c ∷ t)

-- data.get(key, default)
unfoldable pub get_or {ℓ} : {A : Type ℓ} → Option A → A → A
get_or none d = d
get_or (some a) d = a

unfoldable pub node_to_dict : GraphNode → NodeDict
unfolding truthy truthy_text
node_to_dict n = record {
  id = some n.id;
  type = some n.type;
  name = some n.name;
  line = truthy n.line;
  lang = truthy_text n.lang;
  lines = truthy n.lines;
}

-- `none` is the KeyError of a dict without id, type or name.
unfoldable pub node_from_dict : NodeDict → Option GraphNode
unfolding get_or
node_from_dict d = do
  i ← d.id
  t ← d.type
  n ← d.name
  some (record {
    id = i;
    type = t;
    name = n;
    line = get_or d.line 0;
    lang = d.lang;
    lines = get_or d.lines 0;
  })

unfoldable pub edge_to_dict : GraphEdge → EdgeDict
edge_to_dict e = record { src = some e.src; dst = some e.dst; type = some e.type }

unfoldable pub edge_from_dict : EdgeDict → Option GraphEdge
edge_from_dict d = do s ← d.src; t ← d.dst; k ← d.type; some (record { src = s; dst = t; type = k })

-- `Time` is the type of a float, and `Stats` that of the statistics, which the graph only carries.
pub record RepoMeta (Time : Type 0) : Type 0 where
  pub name : Text
  pub head_sha : Text
  pub langs : List Text
  pub built_at : Time

pub record RepoGraph (Time Stats : Type 0) : Type 0 where
  pub repo : RepoMeta Time
  pub stats : Stats
  pub nodes : List GraphNode
  pub edges : List GraphEdge
  pub schema_version : ℕ

pub record RepoDict (Time : Type 0) : Type 0 where
  pub name : Option Text
  pub head_sha : Option Text
  pub langs : Option (List Text)
  pub built_at : Option Time

pub record GraphDict (Time Stats : Type 0) : Type 0 where
  pub schema_version : Option ℕ
  pub repo : Option (RepoDict Time)
  pub stats : Option Stats
  pub nodes : Option (List NodeDict)
  pub edges : Option (List EdgeDict)

abbrev pub schema_version : ℕ
schema_version = 2

-- The dict of the nodes by id keeps the last of each id.
unfoldable pub last_node : List GraphNode → Text → Option GraphNode
last_node [] i = none
last_node (n ∷ ns) i = elim (last_node ns i) [
  | some m ↦ some m
  | none ↦ if same n.id i then some n else none
]

module _ {Time Stats : Type 0} where
  unfoldable pub graph_to_dict : RepoGraph Time Stats → GraphDict Time Stats
  unfolding node_to_dict edge_to_dict
  graph_to_dict g = record {
    schema_version = some g.schema_version;
    repo = some (record {
      name = some g.repo.name;
      head_sha = some g.repo.head_sha;
      langs = some g.repo.langs;
      built_at = some g.repo.built_at;
    });
    stats = some g.stats;
    nodes = some (map node_to_dict g.nodes);
    edges = some (map edge_to_dict g.edges);
  }

  -- `midnight` is 0.0 and `nothing` is {}; `none` is the KeyError of a dict that misses a key.
  unfoldable pub graph_from_dict :
      Time → Stats → GraphDict Time Stats → Option (RepoGraph Time Stats)
  unfolding get_or each node_from_dict edge_from_dict
  graph_from_dict midnight nothing d = do
    r ← d.repo
    n ← r.name
    vs ← each node_from_dict (get_or d.nodes [])
    es ← each edge_from_dict (get_or d.edges [])
    some (record {
      repo = record {
        name = n;
        head_sha = get_or r.head_sha [];
        langs = get_or r.langs [];
        built_at = get_or r.built_at midnight;
      };
      stats = get_or d.stats nothing;
      nodes = vs;
      edges = es;
      schema_version = get_or d.schema_version schema_version;
    })

  -- graph.node(node_id)
  unfoldable pub node : RepoGraph Time Stats → Text → Option GraphNode
  unfolding last_node
  node g i = last_node g.nodes i

-- The lists of the two maps of `adjacency`, with the edges in their order.
unfoldable pub fwd : List GraphEdge → Text → List (Text × Text)
fwd [] i = []
fwd (e ∷ es) i = let rest = fwd es i in if same e.src i then (e.type, e.dst) ∷ rest else rest

unfoldable pub rev : List GraphEdge → Text → List (Text × Text)
rev [] i = []
rev (e ∷ es) i = let rest = rev es i in if same e.dst i then (e.type, e.src) ∷ rest else rest

-- rel.replace("\\", "/")
unfoldable pub posix : Text → Text
posix [] = []
posix (c ∷ t) = (if c == b'\\' then b'/' else c) ∷ posix t

unfoldable pub file_id : Text → Text
unfolding posix
file_id rel = codes "f:" ++ posix rel

unfoldable pub symbol_id : Text → Text → Text
unfolding posix
symbol_id rel qname = codes "s:" ++ (posix rel ++ (codes ":" ++ qname))

pub data Kind : Type 0 where
  file : Kind
  symbol : Kind

-- `qname or None`
unfoldable pub or_none : Text → Option Text
or_none [] = none
or_none (c ∷ t) = some (c ∷ t)

unfoldable pub parse_node_id : Text → Kind × (Text × Option Text)
unfolding rpartition or_none
parse_node_id i =
    let kind = take 1 i in
    let rest = drop 2 i in
    let (rel, qname) = rpartition b':' rest in
    if same kind (codes "f") then (file, (rest, none)) else (symbol, (rel, or_none qname))

unfoldable pub is_symbol_id : Text → Bool
unfolding starts_with
is_symbol_id i = starts_with (codes "s:") i
