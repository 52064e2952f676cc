-- ===== src/Journal/Entries.antt =====
-- What a successful read or write of the journal of src/journal.rs tells of its entry.
use mathlib.Core.Path.{subst}
use terrence_agent.Prelude.{
  ◌+◌, String, ◌≡◌, inl, inr, Bool, false, some, [], ◌∷◌, arith, str_eq, eq_iff, Bool-cases,
  Option-cases,
}
use terrence_agent.Journal.Disk.{Files, lookup, insert}
use terrence_agent.Journal.Record.{JournalFile, JournalEntry, Node, to_entry}
use terrence_agent.Journal.Operations.{
  World, Env, ◌>>=◌, lift, read_node, write, write_entry, path_for_job,
}
use terrence_agent.Journal.Safe.{FiledFile, WellFiled}

-- The entry of a record has the record's manifest, state and flag.
pub record SameRecord (f : JournalFile) (x : JournalEntry) : Type 0 where
  pub manifest : x.manifest ≡ f.manifest
  pub state : x.state ≡ f.state
  pub retain : x.retain_work_dir ≡ f.retain_work_dir

pub to_entry-SameRecord :
    (f : JournalFile) (x : JournalEntry) → to_entry f ≡ some x → SameRecord f x
unfolding to_entry
to_entry-SameRecord f x h = ground arith

pub read_node-file :
    (opens : Bool) (n : Node) (x : JournalEntry)
    → read_node opens n ≡ some x
    → (f : JournalFile) × (n.file ≡ some f) × SameRecord f x
unfolding read_node
read_node-file opens n x h = elim (Option-cases n.file) [
  | inl lost ↦ absurd (ground arith)
  | inr (f, found) ↦ (f, found, to_entry-SameRecord f x (ground arith))
]

-- A successful write puts the record in its file, now.
pub write_entry-some :
    (e : Env) (f : JournalFile) (w : World) (x : JournalEntry)
    → (write_entry e f w).0 ≡ some x
    → SameRecord f x
      × ((write_entry e f w).1 ≡ record w {
        disk =
            insert
              (w.digest f.manifest.job_id)
              (record {
                is_symlink = false;
                size = e.encoded_size f;
                modified = w.now;
                file = e.decoded f;
              })
              w.disk;
        calls = w.calls + 1;
      })
unfolding write_entry path_for_job write lift ◌>>=◌
write_entry-some e f w x h = elim (Bool-cases (e.writes w.calls)) [
  | inr fails ↦ absurd (ground arith)
  | inl writes ↦ (to_entry-SameRecord f x (ground arith), ground arith)
]

pub lookup-FiledFile :
    (digest : String → String) (p : String) (d : Files Node) (n : Node)
    → WellFiled digest d
    → lookup p d ≡ some n
    → FiledFile digest p n.file
unfolding lookup
lookup-FiledFile digest p [] n k h = cc
lookup-FiledFile digest p ((q, m) ∷ d) n k h = elim (Bool-cases (str_eq q p)) [
  | inl same ↦
      (let first : some m ≡ some n = rw same at h in
        let node : m ≡ n = cc in
        subst (λ (x : Node). FiledFile digest p x.file) node
          (subst (λ (r : String). FiledFile digest r m.file) ((eq_iff q p).0 same) k.0))
  | inr other ↦ lookup-FiledFile digest p d n k.1 (rw other at h)
]
