-- ===== src/Archive/Tree.antt =====
-- A tree of files as src/archive.rs sees it: what stands at each path. Links are never followed
-- here: every parent of a path is checked before the path is used.
use terrence_agent.Prelude.{
  ℕ, ◌+◌, String, ◌≡◌, refl, Bool, true, false, ◌&&◌, ◌||◌, Option, none, some, List, [], ◌∷◌, ◌++◌,
  arith, length, if◌then◌else◌, str_eq, eq_iff,
}

abbrev pub FilePath : Type 0
FilePath = List String

unfoldable pub same_path : FilePath → FilePath → Bool
same_path [] [] = true
same_path [] (d ∷ q) = false
same_path (c ∷ p) [] = false
same_path (c ∷ p) (d ∷ q) = str_eq c d && same_path p q

-- `Path::starts_with`
unfoldable pub starts_with : FilePath → FilePath → Bool
starts_with p [] = true
starts_with [] (d ∷ q) = false
starts_with (c ∷ p) (d ∷ q) = str_eq c d && starts_with p q

-- A file with its bytes, and whether it is executable.
pub data Node : Type 0 where
  directory symlink : Node
  file : List ℕ → Bool → Node

abbrev pub Tree : Type 0
Tree = List (FilePath × Node)

unfoldable pub node_at : FilePath → Tree → Option Node
node_at p [] = none
node_at p ((q, n) ∷ t) = if same_path q p then some n else node_at p t

abbrev pub node_bytes : Node → ℕ
node_bytes directory = 0
node_bytes symlink = 0
node_bytes (file b x) = length b

-- The bytes of all files.
abbrev pub tree_bytes : Tree → ℕ
tree_bytes [] = 0
tree_bytes ((p, n) ∷ t) = node_bytes n + tree_bytes t

unfoldable pub contains_path : List FilePath → FilePath → Bool
contains_path [] p = false
contains_path (q ∷ l) p = same_path q p || contains_path l p

pub same_path-eq : (p q : FilePath) → same_path p q ≡ true → p ≡ q
unfolding same_path
same_path-eq [] [] h = refl
same_path-eq [] (d ∷ q) h = ground arith
same_path-eq (c ∷ p) [] h = ground arith
same_path-eq (c ∷ p) (d ∷ q) h = ground (arith, eq_iff c d, same_path-eq p q)

pub starts_with-append : (p q : FilePath) → starts_with (p ++ q) p ≡ true
unfolding starts_with
starts_with-append [] q = refl
starts_with-append (c ∷ p) q = ground (arith, eq_iff c c, starts_with-append p q)
