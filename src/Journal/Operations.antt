-- ===== src/Journal/Operations.antt =====
-- The operations of `Journal` in src/journal.rs, as actions on a `World` that may fail (`none`).
-- What the operating system and the libraries decide is an `Env`: which calls succeed (`stats` is
-- what `exists` answers on what lies under the name, `items` whether a scan reads its items up to the
-- named one), the size of an encoded record, and what the encoded record decodes to.
use Prim.Native.String.{compare as compare_texts}
use Prim.Native.Nat.{Ordering}
use terrence_agent.Prelude.{
  ℕ, ◌+◌, ◌-◌, String, Bool, true, false, not, ◌&&◌, Option, none, some, List, [], ◌∷◌, ltb,
  if◌then◌else◌, str_eq,
}
use terrence_agent.Protocol.Completion.{CompletionJob}
use terrence_agent.Journal.Disk.{Files, lookup, insert}
use terrence_agent.Journal.Record.{
  ExecutionManifest, with_work_dir, JournalState, claimed, executing, completion_pending,
  completion_acked, cleanup_done, StoredCompletion, JournalFile, JournalEntry, from_completion,
  to_entry, Node, max_journal_record_bytes, journal_retention,
}

-- `runs`, `reports` and `cleanups` are what was done so far, the newest first: the files of the
-- jobs that were executed with the times, the acknowledged completions, the removed directories.
-- `digest` is the SHA-256 of a job's identifier in hexadecimal, which names its file; it never changes.
pub record World : Type 0 where
  pub digest : String → String
  pub disk : Files Node
  pub now : ℕ
  pub calls : ℕ
  pub runs : List (String × ℕ)
  pub reports : List (String × CompletionJob)
  pub cleanups : List String

pub record Env : Type 0 where
  pub encoded_size : JournalFile → ℕ
  pub decoded : JournalFile → Option JournalFile
  pub creates : ℕ → Bool
  pub protects : ℕ → Bool
  pub stats : ℕ → Node → Bool
  pub writes : ℕ → Bool
  pub lists : ℕ → Bool
  pub items : ℕ → String → Bool
  pub opens : ℕ → String → Bool
  pub removes : ℕ → String → Bool

-- An action: its result, or `none` for an error, and the world that it leaves.
abbrev pub M : Type 0 → Type 0
M A = World → Option A × World

infixl 5 ◌>>=◌ ◌>>◌
unfoldable pub bind_result : {A B : Type 0} → Option A → World → (A → M B) → Option B × World
bind_result none w f = (none, w)
bind_result (some a) w f = f a w

unfoldable pub ◌>>=◌ : {A B : Type 0} → M A → (A → M B) → M B
unfolding bind_result
◌>>=◌ m f w = bind_result (m w).0 (m w).1 f

abbrev pub ◌>>◌ : {A B : Type 0} → M A → M B → M B
m >> n = m >>= λ _. n

unfoldable pub pure : {A : Type 0} → A → M A
pure a w = (some a, w)

unfoldable pub fail : {A : Type 0} → M A
fail w = (none, w)

unfoldable pub lift : {A : Type 0} → Option A → M A
lift o w = (o, w)

-- Reads the world, and whether the next call succeeds.
unfoldable pub gets : {A : Type 0} → (World → A) → M A
gets f w = (some (f w), record w { calls = w.calls + 1 })

-- `path_for_job`
unfoldable pub path_for_job : World → String → String
path_for_job w job_id = w.digest job_id

-- `read`, over the node: a link, a file that is too large or that does not decode is an error.
unfoldable pub read_node : Bool → Node → Option JournalEntry
read_node opens n =
    if n.is_symlink
    then none
    else if not opens
    then none
    else if ltb max_journal_record_bytes n.size
    then none
    else (elim n.file [ none ↦ none | some f ↦ to_entry f ])

abbrev pub node_of : Env → World → JournalFile → Node
node_of e w f = record {
  is_symlink = false;
  size = e.encoded_size f;
  modified = w.now;
  file = e.decoded f;
}

-- `write`: a temporary file, synced, then renamed; a failure leaves the old record.
unfoldable pub write : Env → String → JournalFile → M (Unit {0})
write e p f w =
    if e.writes w.calls
    then (some tt, record w { disk = insert p (node_of e w f) w.disk; calls = w.calls + 1 })
    else (none, record w { calls = w.calls + 1 })

-- The record's file is written, and read back as an entry.
unfoldable pub write_entry : Env → JournalFile → M JournalEntry
write_entry e file w =
    (do write e (path_for_job w file.manifest.job_id) file; lift (to_entry file)) w

unfoldable pub update : Env → JournalEntry → JournalState → Option StoredCompletion → M JournalEntry
update e entry state completion = write_entry e (record {
  manifest = entry.manifest;
  state = state;
  retain_work_dir = entry.retain_work_dir;
  completion = completion;
})

-- The test of `prune_expired` on one file; a file that cannot be read or removed is kept.
unfoldable pub is_finished : Option JournalEntry → Bool
is_finished none = false
is_finished (some entry) = elim entry.state [ cleanup_done ↦ not entry.retain_work_dir | _ ↦ false ]

unfoldable pub is_pruned : Env → World → String → Node → Bool
is_pruned e w p n =
    not n.is_symlink
    && (ltb journal_retention (w.now - n.modified)
        && (is_finished (read_node (e.opens w.calls p) n) && e.removes w.calls p))

-- The loop of `prune_expired`: an item that cannot be read ends it.
unfoldable pub prune_items : Env → World → Files Node → Option (Unit {0}) × Files Node
prune_items e w [] = (some tt, [])
prune_items e w ((p, n) ∷ d) =
    let rest = prune_items e w d in
    if not (e.items w.calls p)
    then (none, (p, n) ∷ d)
    else (rest.0, if is_pruned e w p n then rest.1 else (p, n) ∷ rest.1)

unfoldable pub prune_expired : Env → M (Unit {0})
prune_expired e w =
    let pruned = prune_items e w w.disk in
    if e.lists w.calls
    then (pruned.0, record w { disk = pruned.1; calls = w.calls + 1 })
    else (none, record w { calls = w.calls + 1 })

-- `Journal::open`: the directory is created and made private, and old records are pruned.
unfoldable pub open_journal : Env → M (Unit {0})
open_journal e = do
  created ← gets (λ w. e.creates w.calls)
  private ← gets (λ w. e.protects w.calls)
  if created && private then prune_expired e else fail

-- What `path.exists()` finds: nothing, too, where the test of the file fails.
unfoldable pub exists_at : (Node → Bool) → Option Node → Option Node
exists_at stats none = none
exists_at stats (some n) = if stats n then some n else none

-- `start`, over what `path.exists()` finds.
unfoldable pub start_at : Env → ExecutionManifest → Option Node → Bool → M JournalEntry
start_at e manifest (some n) opens = do
  existing ← lift (read_node opens n)
  if not (str_eq existing.manifest.fingerprint manifest.fingerprint) then fail else pure existing
start_at e manifest none opens =
    write_entry e
      (record { manifest = manifest; state = claimed; retain_work_dir = false; completion = none })

unfoldable pub start : Env → ExecutionManifest → M JournalEntry
start e manifest w =
    start_at e manifest
      (exists_at (e.stats w.calls) (lookup (path_for_job w manifest.job_id) w.disk))
      (e.opens w.calls (path_for_job w manifest.job_id)) (record w { calls = w.calls + 1 })

unfoldable pub mark_executing : Env → JournalEntry → M JournalEntry
mark_executing e entry = update e entry executing none

unfoldable pub record_completion :
    Env → JournalEntry → CompletionJob → Option String → Bool → M JournalEntry
record_completion e entry completion work_dir retain_work_dir =
    update e
      (record entry {
        manifest = with_work_dir entry.manifest work_dir;
        retain_work_dir = retain_work_dir;
      })
      completion_pending (some (from_completion completion))

unfoldable pub mark_completion_acked : Env → JournalEntry → M JournalEntry
mark_completion_acked e entry = update e entry completion_acked none

unfoldable pub mark_cleanup_done : Env → JournalEntry → M JournalEntry
mark_cleanup_done e entry = do done ← update e entry cleanup_done none; prune_expired e; pure done

-- The order of `job_id`s, by bytes.
abbrev text_leb : String → String → Bool
text_leb a b = elim (compare_texts a b) [ Ordering.gt ↦ false | _ ↦ true ]

unfoldable pub insert_entry : JournalEntry → List JournalEntry → List JournalEntry
insert_entry x [] = x ∷ []
insert_entry x (y ∷ l) =
    if text_leb x.manifest.job_id y.manifest.job_id then x ∷ y ∷ l else y ∷ insert_entry x l

unfoldable pub sort_entries : List JournalEntry → List JournalEntry
sort_entries [] = []
sort_entries (x ∷ l) = insert_entry x (sort_entries l)

-- Links are no files, and are skipped; a record that cannot be read fails the scan.
unfoldable pub read_all : (String → Bool) → Files Node → Option (List JournalEntry)
read_all opens [] = some []
read_all opens ((p, n) ∷ d) =
    let rest = read_all opens d in
    if n.is_symlink then rest else (elim (read_node (opens p) n) [
      | none ↦ none
      | some x ↦ elim rest [ none ↦ none | some l ↦ some (x ∷ l) ]
    ])

-- The filter of `unfinished`.
unfoldable pub is_unfinished : JournalEntry → Bool
is_unfinished x = elim x.state [
  | claimed ↦ false
  | executing ↦ true
  | completion_pending ↦ true
  | completion_acked ↦ not x.retain_work_dir
  | cleanup_done ↦ false
]

unfoldable pub keep_unfinished : List JournalEntry → List JournalEntry
keep_unfinished [] = []
keep_unfinished (x ∷ l) = let rest = keep_unfinished l in if is_unfinished x then x ∷ rest else rest

abbrev unfinished_of : Option (List JournalEntry) → Option (List JournalEntry)
unfinished_of none = none
unfinished_of (some l) = some (keep_unfinished (sort_entries l))

unfoldable pub unfinished : Env → M (List JournalEntry)
unfinished e w =
    let found = unfinished_of (read_all (e.opens w.calls) w.disk) in
    (if e.lists w.calls then found else none, record w { calls = w.calls + 1 })
