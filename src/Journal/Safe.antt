-- ===== src/Journal/Safe.antt =====
-- What the actions of the journal leave true of the jobs that were executed: the record of a job
-- that ran stays on disk, past `claimed`, until it is older than the retention time.

use terrence_agent.Prelude.{
  All, ℕ, ◌+◌, ◌≤◌, ◌<◌, String, ◌≡◌, refl, ◌∙◌, ◌⊎◌, Bool, true, false, Option, none, some, arith,
  if◌then◌else◌,
}
use terrence_agent.Journal.Disk.{Files, lookup}
use terrence_agent.Journal.Record.{is_claimed, JournalFile, Node, journal_retention}
use terrence_agent.Journal.Operations.{World, Env, M, ◌>>=◌, bind_result, pure, fail, lift, gets}

abbrev pub IsPast : Option JournalFile → Type 0
IsPast none = Unit
IsPast (some f) = is_claimed f.state ≡ false

-- A record past `claimed` that was written at `t` or later.
abbrev pub RanRecord : ℕ → Option Node → Type 0
RanRecord t none = ⊥
RanRecord t (some n) = (n.is_symlink ≡ false) × (t ≤ n.modified) × IsPast n.file

-- The existence test finds every file that is no link, and an encoded record decodes to one of the
-- same job in the same state, if it decodes.
pub record IsReliable (e : Env) : Type 0 where
  pub stats : (k : ℕ) (n : Node) → n.is_symlink ≡ false → e.stats k n ≡ true
  pub decoded :
      (f g : JournalFile)
      → e.decoded f ≡ some g
      → (g.manifest.job_id ≡ f.manifest.job_id) × (g.state ≡ f.state)

-- No record lies there; a link may.
abbrev pub Vacant : Option Node → Type 0
Vacant none = Unit
Vacant (some n) = n.is_symlink ≡ true

pub Vacant-RanRecord : (t : ℕ) (o : Option Node) → Vacant o → RanRecord t o → ⊥
Vacant-RanRecord t none v r = r
Vacant-RanRecord t (some n) v r = ground (arith, v, r.0)

-- A run of the job of file `p` at time `t` is on record, or its retention time is over.
abbrev pub Logged : String → ℕ → World → Type 0
Logged p t w = (t ≤ w.now) × ((t + journal_retention < w.now) ⊎ RanRecord t (lookup p w.disk))

-- Every record lies in the file that its job's identifier names.
abbrev pub FiledFile : (String → String) → String → Option JournalFile → Type 0
FiledFile digest p none = Unit
FiledFile digest p (some f) = digest f.manifest.job_id ≡ p

abbrev pub WellFiled : (String → String) → Files Node → Type 0
WellFiled digest d = All (λ r. FiledFile digest r.0 r.1.file) d

pub record Safe (w v : World) : Type 0 where
  pub same_digest : v.digest ≡ w.digest
  pub filed : WellFiled w.digest w.disk → WellFiled v.digest v.disk
  pub same_now : v.now ≡ w.now
  pub same_runs : v.runs ≡ w.runs
  pub logged : (p : String) (t : ℕ) → Logged p t w → Logged p t v

pub record Keeps {A : Type 0} (m : M A) : Type 0 where
  pub at : (w : World) → Safe w (m w).1

pub Safe-refl : (w : World) → Safe w w
Safe-refl w = record {
  same_digest = refl;
  filed = λ h. h;
  same_now = refl;
  same_runs = refl;
  logged = λ p t h. h;
}

pub Safe-trans : {u v w : World} → Safe u v → Safe v w → Safe u w
Safe-trans a b = record {
  same_digest = b.same_digest ∙ a.same_digest;
  filed = λ h. b.filed (a.filed h);
  same_now = b.same_now ∙ a.same_now;
  same_runs = b.same_runs ∙ a.same_runs;
  logged = λ p t h. b.logged p t (a.logged p t h);
}

pub Keeps-pure : {A : Type 0} (a : A) → Keeps (pure a)
unfolding pure
Keeps-pure a = record { at = Safe-refl }

pub Keeps-fail : {A : Type 0} → Keeps (fail {A = A})
unfolding fail
Keeps-fail = record { at = Safe-refl }

pub Keeps-lift : {A : Type 0} (o : Option A) → Keeps (lift o)
unfolding lift
Keeps-lift o = record { at = Safe-refl }

pub Keeps-gets : {A : Type 0} (f : World → A) → Keeps (gets f)
unfolding gets
Keeps-gets f = record {
  at = λ w. record {
    same_digest = refl;
    filed = λ h. h;
    same_now = refl;
    same_runs = refl;
    logged = λ p t h. h;
  };
}

pub bind_result-Safe :
    {A B : Type 0} (o : Option A) (w : World) (f : A → M B)
    → ((a : A) → Keeps (f a))
    → Safe w (bind_result o w f).1
unfolding bind_result
bind_result-Safe none w f k = Safe-refl w
bind_result-Safe (some a) w f k = (k a).at w

pub Keeps-bind :
    {A B : Type 0} (m : M A) (f : A → M B) → Keeps m → ((a : A) → Keeps (f a)) → Keeps (m >>= f)
unfolding ◌>>=◌
Keeps-bind m f km kf = record {
  at = λ w. Safe-trans (km.at w) (bind_result-Safe (m w).0 (m w).1 f kf);
}

pub Keeps-if : {A : Type 0} (b : Bool) (m n : M A) → Keeps m → Keeps n → Keeps (if b then m else n)
Keeps-if true m n km kn = km
Keeps-if false m n km kn = kn
