-- ===== src/Journal/Limits.antt =====
-- The size limit on the records of src/journal.rs, in `write` and in `read`.
use terrence_agent.Prelude.{
  ◌<◌, String, ◌≡◌, refl, inl, inr, Bool, false, none, some, [], ◌∷◌, arith, str_eq, Bool-cases,
}
use text.Mathlib.TextPositions.{eq_refl}
use terrence_agent.Journal.Disk.{Files, lookup, lookup-insert}
use terrence_agent.Journal.Record.{JournalFile, JournalEntry, Node, max_journal_record_bytes}
use terrence_agent.Journal.Operations.{World, Env, read_node, read_all, write_entry, unfinished}
use terrence_agent.Journal.Entries.{write_entry-some}

-- One record that cannot be read fails the whole scan.
read_all-oversize :
    (opens : String → Bool) (p : String) (d : Files Node) (n : Node)
    → lookup p d ≡ some n
    → n.is_symlink ≡ false
    → max_journal_record_bytes < n.size
    → read_all opens d ≡ none
unfolding lookup read_all read_node
read_all-oversize opens p [] n at link big = cc
read_all-oversize opens p ((q, m) ∷ d) n at link big = elim (Bool-cases (str_eq q p)) [
  | inl same ↦ (let first : some m ≡ some n = rw same at at in ground arith)
  | inr other ↦
      (let rest = read_all-oversize opens p d n (rw other at at) link big in ground (arith, rest))
]

-- A successful write of a record that encodes to more than the read limit makes every later
-- `unfinished` fail, in every environment, as long as the disk stays as the write left it.
pub unfinished-oversize :
    (e e' : Env) (f : JournalFile) (w : World) (x : JournalEntry)
    → (write_entry e f w).0 ≡ some x
    → max_journal_record_bytes < e.encoded_size f
    → (unfinished e' (write_entry e f w).1).0 ≡ none
unfolding unfinished
unfinished-oversize e e' f w x ok big =
    let wrote = (write_entry-some e f w x ok).1 in
    let p = w.digest f.manifest.job_id in
    let v = (write_entry e f w).1 in
    let n : Node = record {
      is_symlink = false;
      size = e.encoded_size f;
      modified = w.now;
      file = e.decoded f;
    } in
    let at : lookup p v.disk ≡ some n = rw (wrote, lookup-insert, eq_refl) refl in
    let fails = read_all-oversize (e'.opens v.calls) p v.disk n at refl big in ground (arith, fails)
