-- ===== src/Archive/Below.antt =====
-- Where a path may appear in the tree that src/archive.rs extracts into: below the destination, with
-- real directories, and no links, in between.
use terrence_agent.Prelude.{
  All, String, ◌≡◌, refl, sym, ◌∙◌, true, false, none, some, [], ◌∷◌, ◌++◌, arith, ◌⊎◌, inl, inr,
  Bool-cases, append_assoc,
}
use mathlib.Core.Path.{subst}
use text.Mathlib.TextPositions.{eq_refl}
use terrence_agent.Archive.Tree.{FilePath, Node, directory, Tree, node_at, same_path, same_path-eq}
use terrence_agent.Archive.Extract.{ExtractionState, Step, and_then}

-- Between `q` and its descendant `r` stand directories only.
abbrev pub OnDirectories : Tree → FilePath → FilePath → Type 0
OnDirectories t q [] = Unit
OnDirectories t q (c ∷ []) = Unit
OnDirectories t q (c ∷ d ∷ l) =
    (node_at (q ++ (c ∷ [])) t ≡ some directory) × OnDirectories t (q ++ (c ∷ [])) (d ∷ l)

abbrev pub Stays : Tree → Tree → Type 0
Stays t t' = (p : FilePath) (n : Node) → node_at p t ≡ some n → node_at p t' ≡ some n

pub OnDirectories-Stays :
    (t t' : Tree) (q r : FilePath) → Stays t t' → OnDirectories t q r → OnDirectories t' q r
OnDirectories-Stays t t' q [] s h = tt
OnDirectories-Stays t t' q (c ∷ []) s h = tt
OnDirectories-Stays t t' q (c ∷ d ∷ l) s h =
    (s _ _ h.0, OnDirectories-Stays t t' (q ++ (c ∷ [])) (d ∷ l) s h.1)

-- The last component becomes a parent.
pub OnDirectories-append :
    (t : Tree) (q l : FilePath) (c d : String)
    → OnDirectories t q (l ++ (c ∷ []))
    → node_at (q ++ (l ++ (c ∷ []))) t ≡ some directory
    → OnDirectories t q ((l ++ (c ∷ [])) ++ (d ∷ []))
OnDirectories-append t q [] c d h there = (there, tt)
OnDirectories-append t q (x ∷ []) c d h there = (
  h.0,
  OnDirectories-append t (q ++ (x ∷ [])) [] c d tt (rw (append_assoc q (x ∷ []) (c ∷ [])) there),
)
OnDirectories-append t q (x ∷ y ∷ l) c d h there = (
  h.0,
  OnDirectories-append t (q ++ (x ∷ [])) (y ∷ l) c d h.1
      (rw (append_assoc q (x ∷ []) ((y ∷ l) ++ (c ∷ []))) there),
)

-- A path below the destination: its names there are as `N` asks, and on directories.
pub record Below (N : String → Type 0) (destination : FilePath) (t : Tree) (p : FilePath)
    : Type 0 where
  pub relative : FilePath
  pub path : p ≡ destination ++ relative
  pub names : All N relative
  pub parents : OnDirectories t destination relative

-- At a path the trees agree, or nothing was there and the path is below the destination.
abbrev pub IsKept : (String → Type 0) → FilePath → Tree → Tree → FilePath → Type 0
IsKept N destination t t' p =
    (node_at p t' ≡ node_at p t) ⊎ ((node_at p t ≡ none) × Below N destination t' p)

-- What every step does to a state.
pub record Extends (N : String → Type 0) (s v : ExtractionState) : Type 0 where
  pub same : v.destination ≡ s.destination
  pub kept : (p : FilePath) → IsKept N s.destination s.tree v.tree p

abbrev pub SameTree : ExtractionState → ExtractionState → Type 0
SameTree s v = (v.destination ≡ s.destination) × (v.tree ≡ s.tree)

pub Extends-same : (N : String → Type 0) (s v : ExtractionState) → SameTree s v → Extends N s v
Extends-same N s v (d, t) = record { same = d; kept = λ p. inl (rw t refl) }

kept-Stays :
    (N : String → Type 0) (d : FilePath) (t t' : Tree)
    → ((p : FilePath) → IsKept N d t t' p)
    → Stays t t'
kept-Stays N d t t' k p n there = elim (k p) [
  | inl same ↦ same ∙ there
  | inr (absent, _) ↦ ground (arith, absent, there)
]

-- What stands at a path stays there.
pub Extends-some :
    (N : String → Type 0) (s v : ExtractionState) (p : FilePath) (n : Node)
    → Extends N s v
    → node_at p s.tree ≡ some n
    → node_at p v.tree ≡ some n
Extends-some N s v p n ext there = kept-Stays N s.destination s.tree v.tree ext.kept p n there

pub Below-Stays :
    (N : String → Type 0) (d : FilePath) (t t' : Tree) (p : FilePath)
    → Stays t t'
    → Below N d t p
    → Below N d t' p
Below-Stays N d t t' p s b = record {
  relative = b.relative;
  path = b.path;
  names = b.names;
  parents = OnDirectories-Stays t t' d b.relative s b.parents;
}

kept-trans :
    (N : String → Type 0) (d : FilePath) (t t' t'' : Tree) (p : FilePath)
    → ((q : FilePath) → IsKept N d t' t'' q)
    → IsKept N d t t' p
    → IsKept N d t' t'' p
    → IsKept N d t t'' p
kept-trans N d t t' t'' p k (inl a) (inl b) = inl (b ∙ a)
kept-trans N d t t' t'' p k (inl a) (inr (absent, below)) = inr (sym a ∙ absent, below)
kept-trans N d t t' t'' p k (inr (a, below)) b =
    inr (a, Below-Stays N d t' t'' p (kept-Stays N d t' t'' k) below)

pub Extends-trans :
    (N : String → Type 0) (s v w : ExtractionState) → Extends N s v → Extends N v w → Extends N s w
Extends-trans N s v w a b =
    let k : (q : FilePath) → IsKept N s.destination v.tree w.tree q = rw (← a.same) b.kept in
    record {
      same = b.same ∙ a.same;
      kept = λ p. kept-trans N s.destination s.tree v.tree w.tree p k (a.kept p) (k p);
    }

same_path_refl : (p : FilePath) → same_path p p ≡ true
unfolding same_path
same_path_refl [] = refl
same_path_refl (c ∷ p) = rw (same_path, eq_refl, same_path_refl p) refl

pub added-node_at : (p : FilePath) (n : Node) (t : Tree) → node_at p ((p, n) ∷ t) ≡ some n
unfolding node_at
added-node_at p n t = rw (node_at, same_path_refl p) refl

added-Stays : (p : FilePath) (n : Node) (t : Tree) → node_at p t ≡ none → Stays t ((p, n) ∷ t)
unfolding node_at
added-Stays p n t absent q m there = elim (Bool-cases (same_path p q)) [
  | inr other ↦ rw other there
  | inl same ↦
      (let e = same_path-eq p q same in let gone = rw e at absent in ground (arith, gone, there))
]

kept-added :
    (N : String → Type 0) (d p q : FilePath) (n : Node) (t : Tree)
    → node_at p t ≡ none
    → Below N d t p
    → IsKept N d t ((p, n) ∷ t) q
unfolding node_at
kept-added N d p q n t absent below = elim (Bool-cases (same_path p q)) [
  | inr other ↦ inl (rw other refl)
  | inl same ↦
      (let e = same_path-eq p q same in
        let beneath = Below-Stays N d t ((p, n) ∷ t) p (added-Stays p n t absent) below in
        inr (rw e at absent, subst (λ (x : FilePath). Below N d ((p, n) ∷ t) x) e beneath))
]

pub added-Extends :
    (N : String → Type 0) (s v : ExtractionState) (p : FilePath) (n : Node)
    → node_at p s.tree ≡ none
    → Below N s.destination s.tree p
    → v.destination ≡ s.destination
    → v.tree ≡ (p, n) ∷ s.tree
    → Extends N s v
added-Extends N s v p n absent below d t = record {
  same = d;
  kept = λ q. rw t (kept-added N s.destination p q n s.tree absent below);
}

pub and_then-Extends :
    (N : String → Type 0) (s : ExtractionState) (m : Step) (f : ExtractionState → Step)
    → Extends N s m.1
    → (m.0 ≡ true → Extends N m.1 (f m.1).1)
    → Extends N s (and_then m f).1
unfolding and_then
and_then-Extends N s (true, v) f a b = Extends-trans N s v (f v).1 a (b refl)
and_then-Extends N s (false, v) f a b = a

pub and_then-true :
    (m : Step) (f : ExtractionState → Step)
    → (and_then m f).0 ≡ true
    → (m.0 ≡ true) × ((f m.1).0 ≡ true) × (and_then m f ≡ f m.1)
unfolding and_then
and_then-true (true, v) f h = (refl, h, refl)
and_then-true (false, v) f h = ground arith
