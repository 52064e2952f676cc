-- ===== src/Archive/Names.antt =====
-- The names in the paths of an archive's entries, in the extraction of src/archive.rs.
use terrence_agent.Prelude.{
  str_eq, ℕ, ◌+◌, ◌≡◌, false, some, List, [], ◌∷◌, arith, ltb, inl, inr, All, String, Bool-cases,
  Option-cases,
}
use terrence_agent.Archive.Tree.{FilePath}
use mathlib.Core.Path.{subst}
use terrence_agent.Archive.Extract.{
  Component, normal, cur_dir, root_dir, prefix_dir, parent_dir, clean_components,
  max_archive_path_depth, Item, entry, unreadable, validate_entry_path,
}

module _ (N : String → Type 0) where
  -- The names of an entry's path are as `N` asks.
  abbrev pub NamedComponent : Component → Type 0
  NamedComponent (normal value) = N value
  NamedComponent cur_dir = Unit
  NamedComponent root_dir = Unit
  NamedComponent prefix_dir = Unit
  NamedComponent parent_dir = Unit

  abbrev pub NamedItem : Item → Type 0
  NamedItem (entry x) = All NamedComponent x.components
  NamedItem unreadable = Unit

  clean_components-All :
      (depth : ℕ) (l : List Component) (r : FilePath)
      → All NamedComponent l
      → clean_components depth l ≡ some r
      → All N r
  unfolding clean_components
  clean_components-All depth [] [] names h = tt
  clean_components-All depth [] (c ∷ r) names h = ground (arith, h)
  clean_components-All depth (cur_dir ∷ l) r names h = clean_components-All depth l r names.1 h
  clean_components-All depth (root_dir ∷ l) r names h = ground (arith, h)
  clean_components-All depth (prefix_dir ∷ l) r names h = ground (arith, h)
  clean_components-All depth (parent_dir ∷ l) r names h = ground (arith, h)
  clean_components-All depth (normal value ∷ l) r names h =
      elim (Bool-cases (ltb max_archive_path_depth (depth + 1))) [
        | inl deep ↦ ground (arith, h, deep)
        | inr fits ↦ elim (Option-cases (clean_components (depth + 1) l)) [
          | inl bad ↦ ground (arith, h, fits, bad)
          | inr (clean, is_clean) ↦
              (let is_r : value ∷ clean ≡ r = ground (arith, h, fits, is_clean) in
                subst (λ (q : FilePath). All N q) is_r
                  (names.0, clean_components-All (depth + 1) l clean names.1 is_clean))
        ]
      ]

  pub validate_entry_path-All :
      (n : ℕ) (l : List Component) (r : FilePath)
      → All NamedComponent l
      → validate_entry_path n l ≡ some r
      → All N r
  unfolding validate_entry_path
  validate_entry_path-All n l r names h = clean_components-All 0 l r names (ground (arith, h))

-- Any names.
abbrev pub AnyName : String → Type 0
AnyName c = Unit

AnyName-component : (c : Component) → NamedComponent AnyName c
AnyName-component (normal value) = tt
AnyName-component cur_dir = tt
AnyName-component root_dir = tt
AnyName-component prefix_dir = tt
AnyName-component parent_dir = tt

pub AnyName-components : (l : List Component) → All (NamedComponent AnyName) l
AnyName-components [] = tt
AnyName-components (c ∷ l) = (AnyName-component c, AnyName-components l)

pub AnyName-items : (l : List Item) → All (NamedItem AnyName) l
AnyName-items [] = tt
AnyName-items (unreadable ∷ l) = (tt, AnyName-items l)
AnyName-items (entry x ∷ l) = (AnyName-components x.components, AnyName-items l)

-- What `Component::Normal` never holds.
abbrev pub ProperName : String → Type 0
ProperName c = str_eq c ".." ≡ false
