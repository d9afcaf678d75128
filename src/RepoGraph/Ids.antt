-- ===== src/RepoGraph/Ids.antt =====
-- Ids of the graph's nodes: what is put into one is read from it.
use agents_universe.Prelude.{ℕ, ◌≡◌, refl, ◌≢◌, true, false, none, some, [], ◌∷◌, ◌++◌, arith}
use agents_universe.Prelude.Text.{Text, has_char, rpartition}
use agents_universe.Prelude.TextSet.{same}
use agents_universe.RepoGraph.{file, symbol, posix, file_id, symbol_id, or_none, parse_node_id}

has_char-append : (c : ℕ) (r q : Text) → has_char c (r ++ c ∷ q) ≡ true
has_char-append c [] q = ground arith
has_char-append c (d ∷ r) q = ground (arith, has_char-append c r q)

rpartition-append : (c : ℕ) (r q : Text) → has_char c q ≡ false → rpartition c (r ++ c ∷ q) ≡ (r, q)
unfolding rpartition
rpartition-append c [] q h = ground arith
rpartition-append c (d ∷ r) q h = ground (arith, rpartition-append c r q h, has_char-append c r q)

-- The id of a file holds its path, and the id of a symbol, whose name is not empty and has no
-- colon, its file's path and its name: both are read back from it, the path with forward slashes,
-- whatever colons the path has.
pub parse-symbol_id :
    (rel qname : Text)
    → has_char b':' qname ≡ false
    → qname ≢ []
    → (parse_node_id (symbol_id rel qname) ≡ (symbol, (posix rel, some qname)))
      × (parse_node_id (file_id rel) ≡ (file, (posix rel, none)))
unfolding parse_node_id symbol_id file_id or_none same
parse-symbol_id rel [] plain named = absurd (named refl)
parse-symbol_id rel (c ∷ q) plain named =
    (rw (rpartition-append b':' (posix rel) (c ∷ q) plain) refl, refl)
