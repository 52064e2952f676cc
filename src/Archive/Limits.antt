-- ===== src/Archive/Limits.antt =====
-- How much the extraction of src/archive.rs writes.
use terrence_agent.Prelude.{
  ℕ, ◌+◌, ◌-◌, ◌≤◌, ◌≡◌, refl, Bool, true, false, Option, none, some, List, [], ◌∷◌, ◌++◌, arith,
  length, length-append, ltb, inl, inr, Bool-cases, Option-cases, saturating_add,
}
use terrence_agent.Archive.Tree.{FilePath, Tree, node_at, tree_bytes}
use terrence_agent.Archive.Extract.{
  Entry, EntryType, dir_entry, regular, extension, unsupported, Item, entry, unreadable, Env,
  ExtractionState, Step, and_then, output_path, insert_directory, create_directory,
  ensure_directory_path, ensure_path, ensure_below, ensure_parents, ensure_directory, insert_seen,
  copy_limited, finish_file, write_file, create_file, extract_file, extract_at, is_extension,
  extract_relative, extract_entry, extract_entries, check_ratio, new_state, extract_tar_gz_reader,
  validate_entry_path, max_extracted_bytes, max_archive_entries, max_archive_file_bytes,
}

copy_limited-le :
    (remaining : ℕ) (complete : Bool) (cs : List (List ℕ)) (total : ℕ) (out : List ℕ)
    → remaining ≤ max_extracted_bytes
    → total ≡ length out
    → total ≤ remaining
    → (length (copy_limited remaining complete cs total out).1 ≤ remaining)
      × ((w : ℕ)
          → (copy_limited remaining complete cs total out).0 ≡ some w
          → length (copy_limited remaining complete cs total out).1 ≡ w)
unfolding copy_limited
copy_limited-le remaining complete [] total out small same le =
    (omega (arith, same), λ w h. ground arith)
copy_limited-le remaining complete ([] ∷ cs) total out small same le =
    (omega (arith, same), λ w h. ground arith)
copy_limited-le remaining complete ((x ∷ c) ∷ cs) total out small same le =
    elim (Bool-cases (ltb remaining (saturating_add total (length (x ∷ c))))) [
      | inl over ↦ rw (copy_limited, over) (omega (arith, same), λ w h. ground arith)
      | inr fits ↦
          rw (copy_limited, fits)
            (copy_limited-le remaining complete cs (total + length (x ∷ c)) (out ++ (x ∷ c)) small
              (ground (arith, length-append out (x ∷ c))) (ground arith))
    ]

module _ (base : ℕ) where
  -- On success the files grew by what was counted, and on failure by no more than the limit.
  abbrev Fit : ExtractionState → Type 0
  Fit s = (tree_bytes s.tree ≡ base + s.extracted_bytes) × (s.extracted_bytes ≤ max_extracted_bytes)

  abbrev FitStep : Step → Type 0
  FitStep (true, v) = Fit v
  FitStep (false, v) = tree_bytes v.tree ≤ base + max_extracted_bytes

  and_then-FitStep :
      (m : Step) (f : ExtractionState → Step)
      → FitStep m
      → ((v : ExtractionState) → Fit v → FitStep (f v))
      → FitStep (and_then m f)
  unfolding and_then
  and_then-FitStep (true, v) f a b = b v a
  and_then-FitStep (false, v) f a b = a

  abbrev SameBytes : ExtractionState → Step → Type 0
  SameBytes s m =
      (tree_bytes m.1.tree ≡ tree_bytes s.tree) × (m.1.extracted_bytes ≡ s.extracted_bytes)

  SameBytes-FitStep : (s : ExtractionState) (m : Step) → Fit s → SameBytes s m → FitStep m
  SameBytes-FitStep s (true, v) fit (t, x) = (omega (arith, fit.0, t, x), omega (arith, fit.1, x))
  SameBytes-FitStep s (false, v) fit (t, x) = omega (arith, fit.0, fit.1, t)

  ensure_directory_path-FitStep :
      (e : Env) (r p : FilePath) (s : ExtractionState)
      → Fit s
      → FitStep (ensure_directory_path e r p s)
  unfolding ensure_directory_path create_directory insert_directory
  ensure_directory_path-FitStep e r p s fit =
      SameBytes-FitStep s (ensure_directory_path e r p s) fit (ground arith, ground arith)

  ensure_path-FitStep :
      (e : Env) (r : FilePath) (s : ExtractionState) → Fit s → FitStep (ensure_path e r s)
  unfolding ensure_path
  ensure_path-FitStep e r s fit = elim (Option-cases (output_path s r)) [
    | inl none' ↦ rw (ensure_path, none') (SameBytes-FitStep s (false, s) fit (refl, refl))
    | inr (p, is_p) ↦ rw (ensure_path, is_p) (ensure_directory_path-FitStep e r p s fit)
  ]

  ensure_below-FitStep :
      (e : Env) (current l : FilePath) (s : ExtractionState)
      → Fit s
      → FitStep (ensure_below e current l s)
  unfolding ensure_below
  ensure_below-FitStep e current [] s fit = fit
  ensure_below-FitStep e current (c ∷ []) s fit = fit
  ensure_below-FitStep e current (c ∷ d ∷ l) s fit =
      and_then-FitStep (ensure_path e (current ++ (c ∷ [])) s) _
        (ensure_path-FitStep e (current ++ (c ∷ [])) s fit)
        (ensure_below-FitStep e (current ++ (c ∷ [])) (d ∷ l))

  insert_seen-FitStep : (r : FilePath) (s : ExtractionState) → Fit s → FitStep (insert_seen r s)
  unfolding insert_seen
  insert_seen-FitStep r s fit =
      SameBytes-FitStep s (insert_seen r s) fit (ground arith, ground arith)

  -- A file of the bytes that were copied.
  finish_file-FitStep :
      (e : Env) (w : Option ℕ) (v s : ExtractionState) (n : ℕ)
      → Fit s
      → tree_bytes v.tree ≡ n + tree_bytes s.tree
      → v.extracted_bytes ≡ s.extracted_bytes
      → n ≤ max_extracted_bytes - s.extracted_bytes
      → ((k : ℕ) → w ≡ some k → n ≡ k)
      → FitStep (finish_file e w v)
  unfolding finish_file
  finish_file-FitStep e none v s n fit t x le count = omega (arith, fit.0, fit.1, t)
  finish_file-FitStep e (some k) v s n fit t x le count =
      let is_k = count k refl in
      elim (Bool-cases (e.syncs v.calls)) [
        | inl done ↦
            rw (finish_file, done)
              (omega (arith, fit.0, fit.1, t, x, is_k), omega (arith, fit.0, fit.1, t, x, is_k))
        | inr lost ↦ rw (finish_file, lost) (omega (arith, fit.0, fit.1, t))
      ]

  write_file-FitStep :
      (e : Env) (x : Entry) (p : FilePath) (s : ExtractionState)
      → Fit s
      → FitStep (write_file e x p s)
  unfolding write_file
  write_file-FitStep e x p s fit =
      let (le, count) =
        copy_limited-le (max_extracted_bytes - s.extracted_bytes) x.complete x.reads 0 []
          (omega arith) refl (omega arith) in
      finish_file-FitStep e _ _ s _ fit refl refl le count

  create_file-FitStep :
      (e : Env) (x : Entry) (p : FilePath) (s : ExtractionState)
      → Fit s
      → FitStep (create_file e x p s)
  unfolding create_file
  create_file-FitStep e x p s fit =
      let fails = SameBytes-FitStep s (false, record s { calls = s.calls + 1 }) fit (refl, refl) in
      elim (Option-cases (node_at p s.tree)) [
        | inr (n, there) ↦ rw (create_file, there) fails
        | inl free ↦ elim (Bool-cases (e.creates_file s.calls)) [
          | inl fine ↦ rw (create_file, free, fine) (write_file-FitStep e x p s fit)
          | inr fault ↦ rw (create_file, free, fault) fails
        ]
      ]

  extract_file-FitStep :
      (e : Env) (x : Entry) (r p : FilePath) (s : ExtractionState)
      → Fit s
      → FitStep (extract_file e x r p s)
  unfolding extract_file ensure_parents
  extract_file-FitStep e x r p s fit =
      elim (Bool-cases (ltb max_extracted_bytes (saturating_add s.extracted_bytes x.size))) [
        | inl big ↦ rw (extract_file, big) (SameBytes-FitStep s (false, s) fit (refl, refl))
        | inr small ↦
            rw (extract_file, small)
              (and_then-FitStep _ _
                (and_then-FitStep _ _ (ensure_below-FitStep e [] r s fit) (insert_seen-FitStep r))
                (create_file-FitStep e x p))
      ]

  extract_at-FitStep :
      (e : Env) (x : Entry) (r p : FilePath) (s : ExtractionState)
      → Fit s
      → (k : EntryType) → x.kind ≡ k
      → FitStep (extract_at e x r p s)
  unfolding extract_at ensure_directory ensure_parents
  extract_at-FitStep e x r p s fit dir_entry k =
      rw (extract_at, k)
        (and_then-FitStep (ensure_directory e r p s) (insert_seen r)
          (and_then-FitStep _ _ (ensure_below-FitStep e [] r s fit)
            (ensure_directory_path-FitStep e r p))
          (insert_seen-FitStep r))
  extract_at-FitStep e x r p s fit regular k =
      rw (extract_at, k) (extract_file-FitStep e x r p s fit)
  extract_at-FitStep e x r p s fit extension k = rw (extract_at, k) fit
  extract_at-FitStep e x r p s fit unsupported k =
      rw (extract_at, k) (SameBytes-FitStep s (false, s) fit (refl, refl))

  extract_relative-FitStep :
      (e : Env) (x : Entry) (r : FilePath) (s : ExtractionState)
      → Fit s
      → FitStep (extract_relative e x r s)
  unfolding extract_relative
  extract_relative-FitStep e x [] s fit = fit
  extract_relative-FitStep e x (c ∷ l) s fit = elim (Option-cases (output_path s (c ∷ l))) [
    | inl none' ↦ rw (extract_relative, none') (SameBytes-FitStep s (false, s) fit (refl, refl))
    | inr (p, is_p) ↦
        rw (extract_relative, is_p) (extract_at-FitStep e x (c ∷ l) p s fit x.kind refl)
  ]

  extract_entry-FitStep :
      (e : Env) (x : Entry) (s : ExtractionState) → Fit s → FitStep (extract_entry e x s)
  unfolding extract_entry
  extract_entry-FitStep e x s fit =
      let s' = record s { entries = s.entries + 1 } in
      let fails = SameBytes-FitStep s (false, s') fit (refl, refl) in
      elim (Bool-cases (ltb max_archive_entries (s.entries + 1))) [
        | inl many ↦ rw (extract_entry, many) fails
        | inr few ↦ elim (Option-cases (validate_entry_path x.path_bytes x.components)) [
          | inl bad ↦ rw (extract_entry, few, bad) fails
          | inr (r, is_r) ↦ elim (Bool-cases (ltb max_archive_file_bytes x.size)) [
            | inl big ↦ rw (extract_entry, few, is_r, big) fails
            | inr small ↦ elim (Bool-cases (is_extension x.kind)) [
              | inl skipped ↦ rw (extract_entry, few, is_r, small, skipped) fit
              | inr used ↦
                  rw (extract_entry, few, is_r, small, used) (extract_relative-FitStep e x r s' fit)
            ]
          ]
        ]
      ]

  extract_entries-FitStep :
      (e : Env) (l : List Item) (s : ExtractionState) → Fit s → FitStep (extract_entries e l s)
  unfolding extract_entries
  extract_entries-FitStep e [] s fit = fit
  extract_entries-FitStep e (unreadable ∷ l) s fit = SameBytes-FitStep s (false, s) fit (refl, refl)
  extract_entries-FitStep e (entry x ∷ l) s fit =
      and_then-FitStep _ _ (extract_entry-FitStep e x s fit) (extract_entries-FitStep e l)

  FitStep-le : (m : Step) → FitStep m → tree_bytes m.1.tree ≤ base + max_extracted_bytes
  FitStep-le (true, v) fit = omega (arith, fit.0, fit.1)
  FitStep-le (false, v) le = le

-- Whether it succeeds or fails, an extraction adds at most the limit to the bytes of the files.
pub extract_tar_gz_reader-le-max :
    (e : Env) (l : List Item) (compressed decompressed : ℕ) (destination : FilePath) (t : Tree)
    → tree_bytes (extract_tar_gz_reader e l compressed decompressed destination t).1.tree
      ≤ tree_bytes t + max_extracted_bytes
unfolding extract_tar_gz_reader check_ratio
extract_tar_gz_reader-le-max e l compressed decompressed destination t =
    let base = tree_bytes t in
    FitStep-le base (extract_tar_gz_reader e l compressed decompressed destination t) (
      and_then-FitStep base _ (check_ratio compressed decompressed)
        (extract_entries-FitStep base e l (new_state destination t) (omega arith, omega arith))
        (λ v fit.
          SameBytes-FitStep base v (check_ratio compressed decompressed v) fit (refl, refl)))
