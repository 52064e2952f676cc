-- ===== src/Journal/Prune.antt =====
-- What the pruning of `Journal` in src/journal.rs, at a start and after a cleanup, leaves on disk.

use terrence_agent.Journal.Record.{
  JournalEntry, JournalState, claimed, executing, completion_pending, completion_acked,
  cleanup_done,
}
use terrence_agent.Journal.Operations.{read_node, is_finished, M, gets, fail, ◌>>=◌, bind_result}
use terrence_agent.Prelude.{
  Option, none, ◌&&◌, if◌then◌else◌, Bool, true, false, refl, ◌+◌, ◌-◌, ◌<◌, String, ◌≡◌, refl, ◌⊎◌,
  inl, inr, true, some, [], ◌∷◌, arith, str_eq, eq_iff, Bool-cases,
}
use terrence_agent.Journal.Disk.{Files, lookup}
use terrence_agent.Journal.Record.{Node, journal_retention}
use terrence_agent.Journal.Operations.{
  World, Env, is_pruned, prune_items, prune_expired, open_journal,
}
use terrence_agent.Journal.Safe.{WellFiled, Keeps, Keeps-fail, Keeps-gets, Keeps-bind, Keeps-if}

WellFiled-prune :
    (digest : String → String) (e : Env) (w : World) (d : Files Node)
    → WellFiled digest d
    → WellFiled digest (prune_items e w d).1
unfolding prune_items
WellFiled-prune digest e w [] k = tt
WellFiled-prune digest e w ((q, m) ∷ d) k = elim (Bool-cases (e.items w.calls q)) [
  | inr lost ↦ rw lost k
  | inl read ↦ elim (Bool-cases (is_pruned e w q m)) [
    | inl gone ↦ rw (read, gone) (WellFiled-prune digest e w d k.1)
    | inr kept ↦ rw (read, kept) (k.0, WellFiled-prune digest e w d k.1)
  ]
]

-- A file that is gone was there, and was old.
lookup-prune :
    (e : Env) (w : World) (p : String) (d : Files Node)
    → (lookup p (prune_items e w d).1 ≡ lookup p d)
      ⊎ (n : Node) × (lookup p d ≡ some n) × (is_pruned e w p n ≡ true)
unfolding lookup prune_items
lookup-prune e w p [] = inl refl
lookup-prune e w p ((q, b) ∷ d) = elim (Bool-cases (e.items w.calls q)) [
  | inr lost ↦ inl (rw lost refl)
  | inl read ↦ elim (Bool-cases (str_eq q p)) [
    | inr other ↦ elim (Bool-cases (is_pruned e w q b)) [
      | inr kept ↦ rw (read, kept, other) (lookup-prune e w p d)
      | inl gone ↦ rw (read, gone, other) (lookup-prune e w p d)
    ]
    | inl same ↦ elim (Bool-cases (is_pruned e w q b)) [
      | inr kept ↦ inl (rw (read, kept, same))
      | inl gone ↦ inr (b, rw same, rw ((eq_iff q p).0 same) at gone)
    ]
  ]
]

pruned_old :
    (e : Env) (w : World) (p : String) (n : Node)
    → is_pruned e w p n ≡ true
    → journal_retention < w.now - n.modified
unfolding is_pruned
pruned_old e w p n h = ground arith

pub prune_expired-Keeps : (e : Env) → Keeps (prune_expired e)
unfolding prune_expired
prune_expired-Keeps e = record {
  at = λ w. elim (Bool-cases (e.lists w.calls)) [
    | inr fails ↦ rw fails (record {
      same_digest = refl;
      filed = λ h. h;
      same_now = refl;
      same_runs = refl;
      logged = λ q t h. h;
    })
    | inl lists ↦ rw lists (record {
      same_digest = refl;
      filed = WellFiled-prune w.digest e w w.disk;
      same_now = refl;
      same_runs = refl;
      logged = λ q t h. elim (lookup-prune e w q w.disk) [
        | inl same ↦ rw same h
        | inr (n, at, gone) ↦ (h.0, inl (ground (arith, h, at, pruned_old e w q n gone)))
      ];
    })
  ];
}

pub open_journal-Keeps : (e : Env) → Keeps (open_journal e)
unfolding open_journal
open_journal-Keeps e = search (Keeps-bind, Keeps-gets, Keeps-if, Keeps-fail, prune_expired-Keeps)

-- A record that is done: its cleanup is, and its directory need not be kept.
pub record IsDone (n : Node) : Type 0 where
  pub entry : JournalEntry
  pub is_file : n.is_symlink ≡ false
  pub reads : read_node true n ≡ some entry
  pub cleaned : entry.state ≡ cleanup_done
  pub released : entry.retain_work_dir ≡ false

finished_state :
    (x : JournalEntry) (s : JournalState)
    → x.state ≡ s
    → is_finished (some x) ≡ true
    → (s ≡ cleanup_done) × (x.retain_work_dir ≡ false)
unfolding is_finished
finished_state x claimed is h = ground (arith, is, h)
finished_state x executing is h = ground (arith, is, h)
finished_state x completion_pending is h = ground (arith, is, h)
finished_state x completion_acked is h = ground (arith, is, h)
finished_state x cleanup_done is h = (refl, ground (arith, is, h))

opened_node :
    (opens : Bool) (n : Node) (x : JournalEntry)
    → read_node opens n ≡ some x
    → read_node true n ≡ some x
unfolding read_node
opened_node opens n x h = ground (arith, h)

finished-some :
    (o : Option JournalEntry)
    → is_finished o ≡ true
    → (x : JournalEntry) × (o ≡ some x) × (x.state ≡ cleanup_done) × (x.retain_work_dir ≡ false)
unfolding is_finished
finished-some none h = ground (arith, h)
finished-some (some x) h =
    let (cleaned, released) = finished_state x x.state refl h in (x, refl, cleaned, released)

finished-IsDone :
    (opens : Bool) (n : Node)
    → n.is_symlink ≡ false
    → is_finished (read_node opens n) ≡ true
    → IsDone n
finished-IsDone opens n file h =
    let (x, reads, cleaned, released) = finished-some (read_node opens n) h in
    record {
      entry = x;
      is_file = file;
      reads = opened_node opens n x reads;
      cleaned = cleaned;
      released = released;
    }

-- The file of a name is as it was, or it was a record that was old and done.
abbrev pub Prunes : String → World → World → Type 0
Prunes p w v =
    (lookup p v.disk ≡ lookup p w.disk)
    ⊎ ((n : Node) × (lookup p w.disk ≡ some n)
        × (journal_retention < w.now - n.modified)
        × IsDone n)

pruned-IsDone : (e : Env) (w : World) (p : String) (n : Node) → is_pruned e w p n ≡ true → IsDone n
unfolding is_pruned
pruned-IsDone e w p n h =
    finished-IsDone (e.opens w.calls p) n (ground (arith, h)) (ground (arith, h))

prune_expired-Prunes : (e : Env) (w : World) (p : String) → Prunes p w (prune_expired e w).1
unfolding prune_expired
prune_expired-Prunes e w p = elim (Bool-cases (e.lists w.calls)) [
  | inr fails ↦ inl (rw fails refl)
  | inl lists ↦ elim (lookup-prune e w p w.disk) [
    | inl same ↦ inl (rw lists same)
    | inr (n, at, gone) ↦ inr (n, at, pruned_old e w p n gone, pruned-IsDone e w p n gone)
  ]
]

if-Prunes :
    (b : Bool) (m m' : M (Unit {0})) (w : World) (p : String)
    → Prunes p w (m w).1
    → Prunes p w (m' w).1
    → Prunes p w ((if b then m else m') w).1
if-Prunes true m m' w p h k = h
if-Prunes false m m' w p h k = k

-- Opening the journal, whatever fails in it, leaves the file of every name as it was, unless the file
-- is a regular one, older than the retention time, and holds a record that can be read, whose cleanup
-- is done and whose directory need not be kept.
pub open_journal-Prunes : (e : Env) (w : World) (p : String) → Prunes p w (open_journal e w).1
unfolding open_journal gets ◌>>=◌ bind_result fail
open_journal-Prunes e w p =
    let v = record w { calls = w.calls + 1 + 1 } in
    if-Prunes (e.creates w.calls && e.protects (w.calls + 1)) (prune_expired e) fail v p
      (prune_expired-Prunes e v p) (inl refl)
