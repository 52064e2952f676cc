-- ===== src/Archive/Parents.antt =====
-- The parents that the extraction of src/archive.rs ensures before it writes.
use terrence_agent.Prelude.{
  ◌+◌, ◌≡◌, refl, true, none, some, [], ◌∷◌, ◌++◌, arith, ◌⊎◌, inl, inr, All, String, append_assoc,
}
use terrence_agent.Archive.Tree.{FilePath, Node, directory, starts_with-append, node_at}
use mathlib.Core.Path.{subst}
use terrence_agent.Archive.Below.{
  OnDirectories, OnDirectories-append, OnDirectories-Stays, Below, Extends, SameTree, Extends-same,
  Extends-some, added-Extends, added-node_at, and_then-Extends, and_then-true,
}
use terrence_agent.Archive.Extract.{
  Env, ExtractionState, output_path, insert_directory, create_directory, ensure_directory_path,
  ensure_path, ensure_below,
}

insert_directory-SameTree :
    (r : FilePath) (s : ExtractionState) → SameTree s (insert_directory r s).1
unfolding insert_directory
insert_directory-SameTree r s = ground arith

-- The tree is as it was, or has one new node where there was none.
abbrev pub Grown : FilePath → Node → ExtractionState → ExtractionState → Type 0
Grown p n s v =
    (v.destination ≡ s.destination)
    × ((v.tree ≡ s.tree) ⊎ ((node_at p s.tree ≡ none) × (v.tree ≡ (p, n) ∷ s.tree)))

pub Grown-Extends :
    (N : String → Type 0) (p : FilePath) (n : Node) (s v : ExtractionState)
    → Below N s.destination s.tree p
    → Grown p n s v
    → Extends N s v
Grown-Extends N p n s v below (d, inl t) = Extends-same N s v (d, t)
Grown-Extends N p n s v below (d, inr (absent, t)) = added-Extends N s v p n absent below d t

pub ensure_directory_path-Grown :
    (e : Env) (r p : FilePath) (s : ExtractionState)
    → Grown p directory s (ensure_directory_path e r p s).1
unfolding ensure_directory_path create_directory insert_directory
ensure_directory_path-Grown e r p s = (ground arith, ground arith)

pub output_path-append :
    (s : ExtractionState) (r : FilePath) → output_path s r ≡ some (s.destination ++ r)
unfolding output_path
output_path-append s r = rw (output_path, starts_with-append s.destination r) refl

insert_directory-there :
    (r p : FilePath) (n : Node) (s : ExtractionState)
    → node_at p s.tree ≡ some n
    → node_at p (insert_directory r s).1.tree ≡ some n
insert_directory-there r p n s there = rw ((insert_directory-SameTree r s).1) there

ensure_directory_path-directory :
    (e : Env) (r p : FilePath) (s : ExtractionState)
    → (ensure_directory_path e r p s).0 ≡ true
    → node_at p (ensure_directory_path e r p s).1.tree ≡ some directory
unfolding ensure_directory_path create_directory
ensure_directory_path-directory e r p s h =
    let counted = record s { calls = s.calls + 1 } in
    let made = record s { tree = (p, directory) ∷ s.tree; calls = s.calls + 1 + 1 } in
    let found = insert_directory-there r p directory counted in
    let new = insert_directory-there r p directory made (added-node_at p directory s.tree) in
    ground (arith, found, new, h)

-- A path that was ensured is a directory.
ensure_path-directory :
    (e : Env) (r : FilePath) (s : ExtractionState)
    → (ensure_path e r s).0 ≡ true
    → node_at (s.destination ++ r) (ensure_path e r s).1.tree ≡ some directory
unfolding ensure_path
ensure_path-directory e r s h =
    let is_p = output_path-append s r in
    rw (ensure_path, is_p)
      (ensure_directory_path-directory e r (s.destination ++ r) s (rw (ensure_path, is_p) at h))

module _ (N : String → Type 0) where
  ensure_path-Extends :
      (e : Env) (r : FilePath) (s : ExtractionState)
      → All N r
      → OnDirectories s.tree s.destination r
      → Extends N s (ensure_path e r s).1
  unfolding ensure_path
  ensure_path-Extends e r s names on =
      rw (ensure_path, output_path-append s r)
        (Grown-Extends N (s.destination ++ r) directory s _
          (record { relative = r; path = refl; names = names; parents = on })
          (ensure_directory_path-Grown e r (s.destination ++ r) s))

  All-append : (a b : FilePath) → All N a → All N b → All N (a ++ b)
  All-append [] b h k = k
  All-append (c ∷ a) b h k = (h.0, All-append a b h.1 k)

  -- The next component is on directories, too.
  ensure_path-next :
      (e : Env) (a : FilePath) (c d : String) (s : ExtractionState)
      → All N (a ++ (c ∷ []))
      → OnDirectories s.tree s.destination (a ++ (c ∷ []))
      → (ensure_path e (a ++ (c ∷ [])) s).0 ≡ true
      → OnDirectories
          (ensure_path e (a ++ (c ∷ [])) s).1.tree
          s.destination
          ((a ++ (c ∷ [])) ++ (d ∷ []))
  ensure_path-next e a c d s names on done =
      let v = (ensure_path e (a ++ (c ∷ [])) s).1 in
      let ext = ensure_path-Extends e (a ++ (c ∷ [])) s names on in
      OnDirectories-append v.tree s.destination a c d
        (OnDirectories-Stays s.tree v.tree s.destination (a ++ (c ∷ []))
          (λ p n. Extends-some N s v p n ext) on)
        (ensure_path-directory e (a ++ (c ∷ [])) s done)

  pub ensure_below-Extends :
      (e : Env) (a : FilePath) (c : String) (l : FilePath) (s : ExtractionState)
      → All N a
      → All N (c ∷ l)
      → OnDirectories s.tree s.destination (a ++ (c ∷ []))
      → Extends N s (ensure_below e a (c ∷ l) s).1
  unfolding ensure_below
  ensure_below-Extends e a c [] s names more on = Extends-same N s s (refl, refl)
  ensure_below-Extends e a c (d ∷ l) s names more on =
      let b = a ++ (c ∷ []) in
      let names' = All-append a (c ∷ []) names (more.0, tt) in
      let ext = ensure_path-Extends e b s names' on in
      and_then-Extends N s _ _ ext (λ done.
        ensure_below-Extends e b d l (ensure_path e b s).1 names' more.1
          (rw ext.same (ensure_path-next e a c d s names' on done)))

  ensure_below-parents :
      (e : Env) (a : FilePath) (c : String) (l : FilePath) (s : ExtractionState)
      → All N a
      → All N (c ∷ l)
      → OnDirectories s.tree s.destination (a ++ (c ∷ []))
      → (ensure_below e a (c ∷ l) s).0 ≡ true
      → OnDirectories (ensure_below e a (c ∷ l) s).1.tree s.destination (a ++ (c ∷ l))
  unfolding ensure_below
  ensure_below-parents e a c [] s names more on h = on
  ensure_below-parents e a c (d ∷ l) s names more on h =
      let b = a ++ (c ∷ []) in
      let v = (ensure_path e b s).1 in
      let names' = All-append a (c ∷ []) names (more.0, tt) in
      let ext = ensure_path-Extends e b s names' on in
      let (done, rest, is_last) = and_then-true (ensure_path e b s) (ensure_below e b (d ∷ l)) h in
      let got =
        ensure_below-parents e b d l v names' more.1
          (rw ext.same (ensure_path-next e a c d s names' on done)) rest in
      let tree = (ensure_below e b (d ∷ l) v).1.tree in
      rw (is_last, ← append_assoc a (c ∷ []) (d ∷ l))
        (subst (λ (q : FilePath). OnDirectories tree q (b ++ (d ∷ l))) ext.same got)

  -- Once its parents are ensured, a path is below the destination.
  pub ensured-Below :
      (e : Env) (c : String) (l : FilePath) (s : ExtractionState)
      → All N (c ∷ l)
      → (ensure_below e [] (c ∷ l) s).0 ≡ true
      → Below N s.destination (ensure_below e [] (c ∷ l) s).1.tree (s.destination ++ (c ∷ l))
  ensured-Below e c l s names h = record {
    relative = c ∷ l;
    path = refl;
    names = names;
    parents = ensure_below-parents e [] c l s tt names tt h;
  }
