-- ===== src/Archive/Contained.antt =====
-- Where the extraction of src/archive.rs writes.
use terrence_agent.Prelude.{
  ℕ, ◌+◌, ◌-◌, ◌≡◌, refl, true, List, [], ◌∷◌, ◌++◌, arith, ltb, saturating_add, inl, inr, All,
  String, Bool-cases, Option-cases,
}
use terrence_agent.Archive.Tree.{FilePath, directory, file, Tree}
use terrence_agent.Archive.Below.{
  Below, IsKept, Extends, SameTree, Extends-same, Extends-trans, and_then-Extends, and_then-true,
}
use terrence_agent.Archive.Extract.{
  Entry, EntryType, dir_entry, regular, extension, unsupported, Item, entry, unreadable, Env,
  ExtractionState, and_then, ensure_below, ensure_parents, ensure_directory, insert_seen,
  copy_limited, finish_file, write_file, create_file, extract_file, extract_at, is_extension,
  extract_relative, extract_entry, extract_entries, check_ratio, new_state, extract_tar_gz_reader,
  validate_entry_path, max_extracted_bytes, max_archive_entries, max_archive_file_bytes,
}
use terrence_agent.Archive.Names.{NamedComponent, NamedItem, validate_entry_path-All, ProperName}
use terrence_agent.Archive.Parents.{
  Grown, Grown-Extends, ensure_directory_path-Grown, output_path-append, ensure_below-Extends,
  ensured-Below,
}

insert_seen-SameTree : (r : FilePath) (s : ExtractionState) → SameTree s (insert_seen r s).1
unfolding insert_seen
insert_seen-SameTree r s = ground arith

create_file-Grown :
    (e : Env) (x : Entry) (p : FilePath) (s : ExtractionState)
    → (b : List ℕ) × Grown p (file b x.executable) s (create_file e x p s).1
unfolding create_file write_file finish_file
create_file-Grown e x p s =
    let bytes =
      (copy_limited (max_extracted_bytes - s.extracted_bytes) x.complete x.reads 0 []).1 in
    (bytes, (ground arith, ground arith))

module _ (N : String → Type 0) where
  ensure_directory-Extends :
      (e : Env) (c : String) (l : FilePath) (s : ExtractionState)
      → All N (c ∷ l)
      → Extends N s (ensure_directory e (c ∷ l) (s.destination ++ (c ∷ l)) s).1
  unfolding ensure_directory ensure_parents
  ensure_directory-Extends e c l s names =
      let ext = ensure_below-Extends N e [] c l s tt names tt in
      and_then-Extends N s _ _ ext (λ done.
        Grown-Extends N _ directory _ _ (rw ext.same (ensured-Below N e c l s names done))
          (ensure_directory_path-Grown e (c ∷ l) (s.destination ++ (c ∷ l)) _))

  seen-Extends : (r : FilePath) (v : ExtractionState) → Extends N v (insert_seen r v).1
  seen-Extends r v = Extends-same N v (insert_seen r v).1 (insert_seen-SameTree r v)

  -- The parents of a file and its path's being new, which come before its creation.
  prepared-Extends :
      (e : Env) (c : String) (l : FilePath) (s : ExtractionState)
      → All N (c ∷ l)
      → Extends N s (and_then (ensure_parents e (c ∷ l) s) (insert_seen (c ∷ l))).1
  unfolding ensure_parents
  prepared-Extends e c l s names =
      and_then-Extends N s _ _ (ensure_below-Extends N e [] c l s tt names tt)
        (λ _. seen-Extends (c ∷ l) _)

  prepared-Below :
      (e : Env) (c : String) (l : FilePath) (s : ExtractionState)
      → All N (c ∷ l)
      → (and_then (ensure_parents e (c ∷ l) s) (insert_seen (c ∷ l))).0 ≡ true
      → Below N s.destination
          (and_then (ensure_parents e (c ∷ l) s) (insert_seen (c ∷ l))).1.tree
          (s.destination ++ (c ∷ l))
  unfolding ensure_parents
  prepared-Below e c l s names h =
      let (done, _, is_last) =
        and_then-true (ensure_below e [] (c ∷ l) s) (insert_seen (c ∷ l)) h in
      rw (is_last, (insert_seen-SameTree (c ∷ l) (ensure_below e [] (c ∷ l) s).1).1)
        (ensured-Below N e c l s names done)

  extract_file-Extends :
      (e : Env) (x : Entry) (c : String) (l : FilePath) (s : ExtractionState)
      → All N (c ∷ l)
      → Extends N s (extract_file e x (c ∷ l) (s.destination ++ (c ∷ l)) s).1
  unfolding extract_file
  extract_file-Extends e x c l s names =
      let p = s.destination ++ (c ∷ l) in
      elim (Bool-cases (ltb max_extracted_bytes (saturating_add s.extracted_bytes x.size))) [
        | inl big ↦ rw (extract_file, big) (Extends-same N s s (refl, refl))
        | inr fits ↦
            (let ext = prepared-Extends e c l s names in
              rw (extract_file, fits)
                (and_then-Extends N s _ _ ext (λ done.
                  let (b, grown) = create_file-Grown e x p _ in
                  Grown-Extends N p (file b x.executable) _ _
                    (rw ext.same (prepared-Below e c l s names done)) grown)))
      ]

  extract_at-Extends :
      (e : Env) (x : Entry) (c : String) (l : FilePath) (s : ExtractionState)
      → All N (c ∷ l)
      → (k : EntryType) → x.kind ≡ k
      → Extends N s (extract_at e x (c ∷ l) (s.destination ++ (c ∷ l)) s).1
  unfolding extract_at
  extract_at-Extends e x c l s names dir_entry k =
      rw (extract_at, k)
        (and_then-Extends N s _ (insert_seen (c ∷ l)) (ensure_directory-Extends e c l s names)
          (λ _. seen-Extends (c ∷ l) _))
  extract_at-Extends e x c l s names regular k =
      rw (extract_at, k) (extract_file-Extends e x c l s names)
  extract_at-Extends e x c l s names extension k =
      rw (extract_at, k) (Extends-same N s s (refl, refl))
  extract_at-Extends e x c l s names unsupported k =
      rw (extract_at, k) (Extends-same N s s (refl, refl))

  extract_relative-Extends :
      (e : Env) (x : Entry) (r : FilePath) (s : ExtractionState)
      → All N r
      → Extends N s (extract_relative e x r s).1
  unfolding extract_relative
  extract_relative-Extends e x [] s names = Extends-same N s s (refl, refl)
  extract_relative-Extends e x (c ∷ l) s names =
      rw (extract_relative, output_path-append s (c ∷ l))
        (extract_at-Extends e x c l s names x.kind refl)

  pub extract_entry-Extends :
      (e : Env) (x : Entry) (s : ExtractionState)
      → All (NamedComponent N) x.components
      → Extends N s (extract_entry e x s).1
  unfolding extract_entry
  extract_entry-Extends e x s names =
      let s' = record s { entries = s.entries + 1 } in
      let same = Extends-same N s s' (refl, refl) in
      elim (Bool-cases (ltb max_archive_entries (s.entries + 1))) [
        | inl many ↦ rw (extract_entry, many) same
        | inr few ↦ elim (Option-cases (validate_entry_path x.path_bytes x.components)) [
          | inl bad ↦ rw (extract_entry, few, bad) same
          | inr (r, is_r) ↦ elim (Bool-cases (ltb max_archive_file_bytes x.size)) [
            | inl big ↦ rw (extract_entry, few, is_r, big) same
            | inr small ↦ elim (Bool-cases (is_extension x.kind)) [
              | inl skipped ↦ rw (extract_entry, few, is_r, small, skipped) same
              | inr used ↦
                  rw (extract_entry, few, is_r, small, used)
                    (Extends-trans N s s' _ same (
                      extract_relative-Extends e x r s'
                        (validate_entry_path-All N x.path_bytes x.components r names is_r)))
            ]
          ]
        ]
      ]

  pub extract_entries-Extends :
      (e : Env) (l : List Item) (s : ExtractionState)
      → All (NamedItem N) l
      → Extends N s (extract_entries e l s).1
  unfolding extract_entries
  extract_entries-Extends e [] s names = Extends-same N s s (refl, refl)
  extract_entries-Extends e (unreadable ∷ l) s names = Extends-same N s s (refl, refl)
  extract_entries-Extends e (entry x ∷ l) s names =
      and_then-Extends N s _ _ (extract_entry-Extends e x s names.0)
        (λ _. extract_entries-Extends e l _ names.1)

-- Whether it succeeds or fails, an extraction leaves each path as it was, unless nothing was there,
-- the path lies below the destination by names other than "..", and each parent between is a real
-- directory, if no normal component of an entry's path is "..": nothing is overwritten, and nothing
-- is written through a link.
pub extract_tar_gz_reader-kept :
    (e : Env) (l : List Item) (compressed decompressed : ℕ) (destination : FilePath) (t : Tree)
    (p : FilePath)
    → All (NamedItem ProperName) l
    → IsKept ProperName destination t
        (extract_tar_gz_reader e l compressed decompressed destination t).1.tree
        p
unfolding extract_tar_gz_reader check_ratio
extract_tar_gz_reader-kept e l compressed decompressed destination t p names =
    (and_then-Extends ProperName (new_state destination t) _ (check_ratio compressed decompressed)
        (extract_entries-Extends ProperName e l (new_state destination t) names)
        (λ _. Extends-same ProperName _ _ (refl, refl))).kept
      p
