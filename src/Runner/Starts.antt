-- ===== src/Runner/Starts.antt =====
-- Rules for the number of applies that the actions of src/runner.rs start.
use terrence_agent.Prelude.{◌+◌, ◌≡◌, refl, ◌∙◌, ◌⊎◌, inl, inr}
use terrence_agent.Runner.Control.{Result, ok, err, RunState, R, ◌>>=◌, bind_outcome}
use terrence_agent.Runner.Rules.{applies, Still, Idle}

-- Either no apply is started from a state to the next, or one, and then a fact holds.
abbrev pub Starts : Type 0 → RunState → RunState → Type 0
Starts V s s' =
    (applies s'.commands ≡ applies s.commands)
    ⊎ (V × (applies s'.commands ≡ applies s.commands + 1))

Starts-after :
    (V : Type 0) (s t u : RunState)
    → applies t.commands ≡ applies s.commands
    → Starts V t u
    → Starts V s u
Starts-after V s t u e (inl same) = inl (same ∙ e)
Starts-after V s t u e (inr (v, more)) = inr (v, rw e at more)

Starts-before :
    (V : Type 0) (s t u : RunState)
    → Starts V s t
    → applies u.commands ≡ applies t.commands
    → Starts V s u
Starts-before V s t u (inl same) e = inl (e ∙ same)
Starts-before V s t u (inr (v, more)) e = inr (v, e ∙ more)

outcome-Starts :
    {A B : Type 0} (V : Type 0) (r : Result A) (s : RunState) (f : A → R B)
    → ((a : A) → r ≡ ok a → Starts V s (f a s).1)
    → Starts V s (bind_outcome r s f).1
unfolding bind_outcome
outcome-Starts V (ok a) s f h = h a refl
outcome-Starts V (err e) s f h = inl refl

outcome-Idle :
    {A B : Type 0} (r : Result A) (s : RunState) (f : A → R B)
    → ((a : A) → Idle (f a))
    → applies (bind_outcome r s f).1.commands ≡ applies s.commands
unfolding bind_outcome
outcome-Idle (ok a) s f h = (h a).at s
outcome-Idle (err e) s f h = refl

module _ (V : Type 0) where
  pub Idle-then :
      {A B : Type 0} (m : R A) (f : A → R B) (s : RunState)
      → Idle m
      → ((a : A) → (m s).0 ≡ ok a → Starts V (m s).1 (f a (m s).1).1)
      → Starts V s ((m >>= f) s).1
  unfolding ◌>>=◌
  Idle-then m f s i h =
      Starts-after V s (m s).1 (bind_outcome (m s).0 (m s).1 f).1 (i.at s)
        (outcome-Starts V (m s).0 (m s).1 f h)

  pub then-Idle :
      {A B : Type 0} (m : R A) (f : A → R B) (s : RunState)
      → Starts V s (m s).1
      → ((a : A) → Idle (f a))
      → Starts V s ((m >>= f) s).1
  unfolding ◌>>=◌
  then-Idle m f s st i =
      Starts-before V s (m s).1 (bind_outcome (m s).0 (m s).1 f).1 st
        (outcome-Idle (m s).0 (m s).1 f i)

  pub Still-then :
      {A B : Type 0} (m : R A) (f : A → R B) (s : RunState)
      → Still m
      → ((a : A) → (m s).0 ≡ ok a → Starts V s (f a s).1)
      → Starts V s ((m >>= f) s).1
  unfolding ◌>>=◌
  Still-then m f s i h = rw (i.at s) (outcome-Starts V (m s).0 s f h)
