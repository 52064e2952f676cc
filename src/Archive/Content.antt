-- ===== src/Archive/Content.antt =====
-- What a successful extraction of src/archive.rs leaves at the path of a file.
use terrence_agent.Prelude.{
  ℕ, ◌+◌, ◌-◌, String, ◌≡◌, refl, sym, Bool, true, false, Option, none, some, List, [], ◌∷◌, ◌++◌,
  arith, length, ltb, append-nil, append_assoc, inl, inr, Bool-cases, Option-cases, saturating_add,
}
use terrence_agent.Archive.Tree.{FilePath, file, Tree, node_at}
use terrence_agent.Archive.Extract.{
  Entry, regular, Item, entry, unreadable, Env, ExtractionState, and_then, ensure_parents,
  insert_seen, copy_limited, finish_file, write_file, create_file, extract_file, extract_at,
  is_extension, extract_relative, extract_entry, extract_entries, check_ratio, new_state,
  extract_tar_gz_reader, validate_entry_path, max_extracted_bytes, max_archive_entries,
  max_archive_file_bytes,
}
use terrence_agent.Archive.Below.{and_then-true, Extends-some, added-node_at}
use terrence_agent.Archive.Names.{AnyName, AnyName-components, AnyName-items}
use terrence_agent.Archive.Parents.{output_path-append}
use terrence_agent.Archive.Contained.{extract_entry-Extends, extract_entries-Extends}

-- What reading an entry yields until its end.
abbrev pub all_read : List (List ℕ) → List ℕ
all_read [] = []
all_read ([] ∷ cs) = []
all_read ((x ∷ c) ∷ cs) = (x ∷ c) ++ all_read cs

copy_limited-all_read :
    (remaining : ℕ) (complete : Bool) (cs : List (List ℕ)) (total : ℕ) (out : List ℕ) (w : ℕ)
    → (copy_limited remaining complete cs total out).0 ≡ some w
    → (copy_limited remaining complete cs total out).1 ≡ out ++ all_read cs
unfolding copy_limited
copy_limited-all_read remaining complete [] total out w h = sym (append-nil out)
copy_limited-all_read remaining complete ([] ∷ cs) total out w h = sym (append-nil out)
copy_limited-all_read remaining complete ((x ∷ c) ∷ cs) total out w h =
    elim (Bool-cases (ltb remaining (saturating_add total (length (x ∷ c))))) [
      | inl over ↦ ground arith
      | inr fits ↦
          (let rest =
              copy_limited-all_read remaining complete cs (total + length (x ∷ c)) (out ++ (x ∷ c))
                w (ground arith) in
            rw (copy_limited, fits, rest) (append_assoc out (x ∷ c) (all_read cs)))
    ]

finish_file-tree :
    (e : Env) (w : Option ℕ) (v : ExtractionState) → (finish_file e w v).1.tree ≡ v.tree
unfolding finish_file
finish_file-tree e none v = refl
finish_file-tree e (some k) v = refl

finish_file-some :
    (e : Env) (w : Option ℕ) (v : ExtractionState)
    → (finish_file e w v).0 ≡ true
    → (k : ℕ) × (w ≡ some k)
unfolding finish_file
finish_file-some e none v h = ground arith
finish_file-some e (some k) v h = (k, refl)

write_file-content :
    (e : Env) (x : Entry) (p : FilePath) (s : ExtractionState)
    → (write_file e x p s).0 ≡ true
    → node_at p (write_file e x p s).1.tree ≡ some (file (all_read x.reads) x.executable)
unfolding write_file
write_file-content e x p s h =
    let remaining = max_extracted_bytes - s.extracted_bytes in
    let (k, done) = finish_file-some e _ _ h in
    let content = copy_limited-all_read remaining x.complete x.reads 0 [] k done in
    rw (finish_file-tree, content) (added-node_at p _ s.tree)

create_file-content :
    (e : Env) (x : Entry) (p : FilePath) (s : ExtractionState)
    → (create_file e x p s).0 ≡ true
    → node_at p (create_file e x p s).1.tree ≡ some (file (all_read x.reads) x.executable)
unfolding create_file
create_file-content e x p s h = elim (Option-cases (node_at p s.tree)) [
  | inr (n, there) ↦ ground (arith, there)
  | inl free ↦ elim (Bool-cases (e.creates_file s.calls)) [
    | inl fine ↦
        rw (create_file, free, fine)
          (write_file-content e x p s (rw (create_file, free, fine) at h))
    | inr fault ↦ ground (arith, free, fault)
  ]
]

extract_file-content :
    (e : Env) (x : Entry) (r p : FilePath) (s : ExtractionState)
    → (extract_file e x r p s).0 ≡ true
    → node_at p (extract_file e x r p s).1.tree ≡ some (file (all_read x.reads) x.executable)
unfolding extract_file
extract_file-content e x r p s h =
    elim (Bool-cases (ltb max_extracted_bytes (saturating_add s.extracted_bytes x.size))) [
      | inl big ↦ ground (arith, big)
      | inr small ↦
          (let (_, created, is_last) =
              and_then-true (and_then (ensure_parents e r s) (insert_seen r)) (create_file e x p)
                (rw (extract_file, small) at h) in
            rw (extract_file, small, is_last) (create_file-content e x p _ created))
    ]

extract_relative-content :
    (e : Env) (x : Entry) (c : String) (l : FilePath) (s : ExtractionState)
    → x.kind ≡ regular
    → (extract_relative e x (c ∷ l) s).0 ≡ true
    → node_at (s.destination ++ (c ∷ l)) (extract_relative e x (c ∷ l) s).1.tree
      ≡ some (file (all_read x.reads) x.executable)
unfolding extract_relative extract_at
extract_relative-content e x c l s kind h =
    let is_p = output_path-append s (c ∷ l) in
    rw (extract_relative, is_p, extract_at, kind)
      (extract_file-content e x (c ∷ l) (s.destination ++ (c ∷ l)) s
        (rw (extract_relative, is_p, extract_at, kind) at h))

regular_used : (x : Entry) → x.kind ≡ regular → is_extension x.kind ≡ false
unfolding is_extension
regular_used x kind = rw kind refl

extract_entry-content :
    (e : Env) (x : Entry) (c : String) (l : FilePath) (s : ExtractionState)
    → x.kind ≡ regular
    → validate_entry_path x.path_bytes x.components ≡ some (c ∷ l)
    → (extract_entry e x s).0 ≡ true
    → node_at (s.destination ++ (c ∷ l)) (extract_entry e x s).1.tree
      ≡ some (file (all_read x.reads) x.executable)
unfolding extract_entry
extract_entry-content e x c l s kind valid h =
    let s' = record s { entries = s.entries + 1 } in
    let used = regular_used x kind in
    elim (Bool-cases (ltb max_archive_entries (s.entries + 1))) [
      | inl many ↦ ground (arith, many)
      | inr few ↦ elim (Bool-cases (ltb max_archive_file_bytes x.size)) [
        | inl big ↦ ground (arith, few, valid, big)
        | inr small ↦
            rw (extract_entry, few, valid, small, used)
              (extract_relative-content e x c l s' kind
                (rw (extract_entry, few, valid, small, used) at h))
      ]
    ]

extract_entries-content :
    (e : Env) (l l' : List Item) (x : Entry) (c : String) (r : FilePath) (s : ExtractionState)
    → x.kind ≡ regular
    → validate_entry_path x.path_bytes x.components ≡ some (c ∷ r)
    → (extract_entries e (l ++ (entry x ∷ l')) s).0 ≡ true
    → node_at (s.destination ++ (c ∷ r)) (extract_entries e (l ++ (entry x ∷ l')) s).1.tree
      ≡ some (file (all_read x.reads) x.executable)
unfolding extract_entries
extract_entries-content e [] l' x c r s kind valid h =
    let (done, _, rest) = and_then-true (extract_entry e x s) (extract_entries e l') h in
    rw rest (
      Extends-some AnyName _ _ _ _
        (extract_entries-Extends AnyName e l' (extract_entry e x s).1 (AnyName-items l'))
        (extract_entry-content e x c r s kind valid done))
extract_entries-content e (unreadable ∷ l) l' x c r s kind valid h = ground arith
extract_entries-content e (entry y ∷ l) l' x c r s kind valid h =
    let (_, more, rest) =
      and_then-true (extract_entry e y s) (extract_entries e (l ++ (entry x ∷ l'))) h in
    let there = extract_entries-content e l l' x c r (extract_entry e y s).1 kind valid more in
    rw rest
      (rw ((extract_entry-Extends AnyName e y s (AnyName-components y.components)).same) at there)

-- After a successful extraction, at the path of every regular entry stands a file of what reading
-- the entry yields, executable if the entry is. (The path is not the destination itself.)
pub extract_tar_gz_reader-content :
    (e : Env) (l l' : List Item) (x : Entry) (c : String) (r : FilePath)
    (compressed decompressed : ℕ) (destination : FilePath) (t : Tree)
    → x.kind ≡ regular
    → validate_entry_path x.path_bytes x.components ≡ some (c ∷ r)
    → (extract_tar_gz_reader e (l ++ (entry x ∷ l')) compressed decompressed destination t).0 ≡ true
    → node_at
        (destination ++ (c ∷ r))
        (extract_tar_gz_reader e (l ++ (entry x ∷ l')) compressed decompressed destination t).1.tree
      ≡ some (file (all_read x.reads) x.executable)
unfolding extract_tar_gz_reader check_ratio
extract_tar_gz_reader-content e l l' x c r compressed decompressed destination t kind valid h =
    let (done, _, rest) =
      and_then-true (extract_entries e (l ++ (entry x ∷ l')) (new_state destination t))
        (check_ratio compressed decompressed) h in
    rw rest (extract_entries-content e l l' x c r (new_state destination t) kind valid done)
