-- ===== src/Runner/Paths.antt =====
-- The directories that src/runner.rs creates, works in and removes.
use terrence_agent.Prelude.{
  ℕ, zero, suc, ◌+◌, ◌≤◌, ◌<◌, String, ◌≡◌, refl, sym, ap, ◌∙◌, Bool, true, false, Option, none,
  some, List, [], ◌∷◌, ◌++◌, arith, str_eq, eq_iff, if◌then◌else◌, ◌⊎◌, inl, inr, Bool-cases,
  Option-cases, append_assoc, append-nil, ◌↔◌,
}
use terrence_agent.Archive.Tree.{FilePath}
use terrence_agent.Archive.Extract.{Component, normal, cur_dir, root_dir, prefix_dir, parent_dir}
use terrence_agent.Runner.Inputs.{push_components, working_directory}
use terrence_agent.Runner.Directory.{
  CreateOutcome, made, exists, refused, create, strip_prefix, assert_cleanup_target, RootStat,
  is_symlink, is_there, is_missing, no_stat, CleanupEnv, removed, is_one, remove_dir,
  remove_checked, cleanup, cleanup_root, cleanup_path,
}

strip_prefix_sound :
    (root target rest : FilePath) → strip_prefix root target ≡ some rest → target ≡ root ++ rest
unfolding strip_prefix
strip_prefix_sound [] target rest h = ground (arith, h)
strip_prefix_sound (c ∷ root) [] rest h = ground (arith, h)
strip_prefix_sound (c ∷ root) (d ∷ target) rest h = elim (Bool-cases (str_eq c d)) [
  | inl same ↦
      (let below : target ≡ root ++ rest = strip_prefix_sound root target rest (rw same at h) in
        let head : c ≡ d = (eq_iff c d).0 same in cc)
  | inr other ↦ ground (arith, other, h)
]

-- A path is a direct child of a directory, under a name that is no `..`.
abbrev pub IsChild : FilePath → FilePath → Type 0
IsChild root path = (name : String) × (path ≡ root ++ (name ∷ [])) × (str_eq name ".." ≡ false)

one_left :
    (o : Option FilePath)
    → is_one o ≡ true
    → (name : String) × (o ≡ some (name ∷ [])) × (str_eq name ".." ≡ false)
one_left none h = ground (arith, h)
one_left (some []) h = ground (arith, h)
one_left (some (name ∷ [])) h = (name, refl, ground arith)
one_left (some (name ∷ d ∷ l)) h = ground (arith, h)

assert_cleanup_target-IsChild :
    (root path : FilePath) → assert_cleanup_target root path ≡ true → IsChild root path
unfolding assert_cleanup_target
assert_cleanup_target-IsChild root path h =
    let found = one_left (strip_prefix root path) h in
    (found.0, strip_prefix_sound root path _ found.1, found.2)

CreateOutcome-cases : (o : CreateOutcome) → (o ≡ made) ⊎ ((o ≡ exists) ⊎ (o ≡ refused))
CreateOutcome-cases made = inl refl
CreateOutcome-cases exists = inr (inl refl)
CreateOutcome-cases refused = inr (inr refl)

-- A directory of a run is new, one of eight names below the root, and the names before are taken.
abbrev pub IsNew : (ℕ → String) → (ℕ → CreateOutcome) → FilePath → ℕ → ℕ → FilePath → Type 0
IsNew name outcome root first last path =
    (k : ℕ) × (first ≤ k)
    × (k < last)
    × (outcome k ≡ made)
    × (path ≡ root ++ (name k ∷ []))
    × ((j : ℕ) → first ≤ j → j < k → outcome j ≡ exists)

from_some : {A : Type 0} {a b : A} → some a ≡ some b → a ≡ b
from_some h = cc

same_or_later : (first j : ℕ) → first ≤ j → (first ≡ j) ⊎ (first + 1 ≤ j)
same_or_later first j h = omega arith

later :
    (name : ℕ → String) (outcome : ℕ → CreateOutcome) (root path : FilePath) (first left : ℕ)
    → outcome first ≡ exists
    → IsNew name outcome root (first + 1) (first + 1 + left) path
    → IsNew name outcome root first (first + suc left) path
later name outcome root path first left taken h = (
  h.0,
  ground (arith, h.1),
  ground (arith, h.2),
  h.3,
  h.4,
  λ j low high. elim (same_or_later first j low) [
    | inl same ↦ rw (sym same) taken
    | inr more ↦ h.5 j more high
  ],
)

create-IsNew :
    (name : ℕ → String) (outcome : ℕ → CreateOutcome) (root path : FilePath) (first left : ℕ)
    → create name outcome root first left ≡ some path
    → IsNew name outcome root first (first + left) path
unfolding create
create-IsNew name outcome root path first zero h = ground (arith, h)
create-IsNew name outcome root path first (suc left) h =
    elim (CreateOutcome-cases (outcome first)) [
      | inl is_made ↦ (
        first,
        ground arith,
        ground arith,
        is_made,
        (sym (from_some (rw (create, is_made) at h))),
        λ j low high. ground (arith, low, high),
      )
      | inr (inl is_taken) ↦
          later name outcome root path first left is_taken
            (create-IsNew name outcome root path (first + 1) left (rw (create, is_taken) at h))
      | inr (inr is_lost) ↦ ground (arith, is_lost, h)
    ]

IsNew-create :
    (name : ℕ → String) (outcome : ℕ → CreateOutcome) (root path : FilePath) (first left : ℕ)
    → IsNew name outcome root first (first + left) path
    → create name outcome root first left ≡ some path
unfolding create
IsNew-create name outcome root path first zero h = ground (arith, h.1, h.2)
IsNew-create name outcome root path first (suc left) h = elim (same_or_later first h.0 h.1) [
  | inl same ↦
      rw (create, ap outcome same ∙ h.3)
        (ap some (sym (h.4 ∙ ap (λ k. root ++ (name k ∷ [])) (sym same))))
  | inr more ↦
      rw (create, h.5 first (omega arith) (omega arith))
        (IsNew-create name outcome root path (first + 1) left
          (h.0, more, ground (arith, h.2), h.3, h.4, λ j low high. h.5 j (omega arith) high))
]

-- A removal is of the path itself, a direct child of the resolved root, which is no link and resolves
-- to a direct child as well.
abbrev pub Removes : CleanupEnv → FilePath → FilePath → Type 0
Removes e path target =
    (target ≡ path)
    × ((root : FilePath) × (e.root ≡ some root)
        × IsChild root path
        × ((real : FilePath) × (e.canonical ≡ some real) × IsChild root real))
    × (e.runs ≡ is_there)
    × (e.is_link ≡ some false)

remove_checked-removed :
    (e : CleanupEnv) (path target : FilePath) (o : Option Bool)
    → remove_checked e path o ≡ removed target
    → (target ≡ path) × (o ≡ some false)
unfolding remove_checked remove_dir
remove_checked-removed e path target none h = ground (arith, h)
remove_checked-removed e path target (some true) h = ground (arith, h)
remove_checked-removed e path target (some false) h = ground (arith, h)

RootStat-cases :
    (r : RootStat) → (r ≡ is_there) ⊎ ((r ≡ is_symlink) ⊎ ((r ≡ is_missing) ⊎ (r ≡ no_stat)))
RootStat-cases is_there = inl refl
RootStat-cases is_symlink = inr (inl refl)
RootStat-cases is_missing = inr (inr (inl refl))
RootStat-cases no_stat = inr (inr (inr refl))

cleanup-removed :
    (e : CleanupEnv) (root path target : FilePath)
    → cleanup e root path ≡ removed target
    → (target ≡ path)
      × (e.is_link ≡ some false)
      × IsChild root path
      × ((real : FilePath) × (e.canonical ≡ some real) × IsChild root real)
unfolding cleanup
cleanup-removed e root path target h = elim (Bool-cases (assert_cleanup_target root path)) [
  | inr bad ↦ ground (arith, bad, h)
  | inl child ↦ elim (Option-cases e.canonical) [
    | inl gone ↦ ground (arith, child, gone, h)
    | inr (real, found) ↦ elim (Bool-cases (assert_cleanup_target root real)) [
      | inr bad ↦ ground (arith, child, found, bad, h)
      | inl inside ↦
          (let done =
              remove_checked-removed e path target e.is_link (rw (child, found, inside) at h) in
            (
              done.0,
              done.1,
              assert_cleanup_target-IsChild root path child,
              (real, found, assert_cleanup_target-IsChild root real inside),
            ))
    ]
  ]
]

-- A cleanup removes nothing but the path that it was given, which is a direct child of the resolved
-- directory of the runs, is no link, and resolves to a direct child of that directory.
pub cleanup_path-Removes :
    (e : CleanupEnv) (path target : FilePath)
    → cleanup_path e path ≡ removed target
    → Removes e path target
unfolding cleanup_path cleanup_root cleanup remove_checked remove_dir
cleanup_path-Removes e path target h = elim (RootStat-cases e.runs) [
  | inr bad ↦ ground (arith, bad, h)
  | inl there ↦ elim (Option-cases e.root) [
    | inl gone ↦ ground (arith, there, gone, h)
    | inr (root, found) ↦
        (let done = cleanup-removed e root path target (rw (there, found) at h) in
          (done.0, (root, found, done.2, done.3), there, done.1))
  ]
]

-- The attempts to create a directory for a run end with a path just when it is the first of the
-- names, within the attempts that are left, that is not taken, and its creation succeeds.
pub create_iff :
    (name : ℕ → String) (outcome : ℕ → CreateOutcome) (root path : FilePath) (first left : ℕ)
    → (create name outcome root first left ≡ some path)
      ↔ IsNew name outcome root first (first + left) path
create_iff name outcome root path first left =
    (create-IsNew name outcome root path first left, IsNew-create name outcome root path first left)

-- The names of the components, and whether one of them leads out of the directory.
abbrev pub names_of : List Component → FilePath
names_of [] = []
names_of (normal c ∷ l) = c ∷ names_of l
names_of (_ ∷ l) = names_of l

abbrev pub leaves : List Component → Bool
leaves [] = false
leaves (normal c ∷ l) = leaves l
leaves (cur_dir ∷ l) = leaves l
leaves (_ ∷ l) = true

push_components_lem :
    (l : List Component) (w : FilePath)
    → push_components w l ≡ (if leaves l then none else some (w ++ names_of l))
unfolding push_components
push_components_lem [] w = ap some (sym (append-nil w))
push_components_lem (normal c ∷ l) w =
    push_components_lem l (w ++ (c ∷ []))
    ∙ ap (λ r. if leaves l then none else some r) (append_assoc w (c ∷ []) (names_of l))
push_components_lem (cur_dir ∷ l) w = push_components_lem l w
push_components_lem (root_dir ∷ l) w = refl
push_components_lem (prefix_dir ∷ l) w = refl
push_components_lem (parent_dir ∷ l) w = refl

-- The directory that commands run in is refused just when a component of it is absolute or leads
-- upward, and else lies below the run's directory, under the names of the components in their order.
pub working_directory_lem :
    (w : FilePath) (l : List Component)
    → working_directory w l ≡ (if leaves l then none else some (w ++ names_of l))
unfolding working_directory
working_directory_lem w l = push_components_lem l w
