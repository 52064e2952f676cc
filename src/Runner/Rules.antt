-- ===== src/Runner/Rules.antt =====
-- Rules for the actions of src/runner.rs: what they return, and which commands they start.
use terrence_agent.Prelude.{
  ℕ, ◌+◌, String, ◌≡◌, refl, ◌∙◌, Bool, true, false, Option, none, some, List, [], ◌∷◌, str_eq,
  if◌then◌else◌,
}
use terrence_agent.Runner.Control.{
  RunError, failed, Result, ok, err, Argument, word, RunState, R, bind_outcome, ◌>>=◌, pure, raise,
  lift, require, bail_if, catch, at_call,
}

-- A result, if there is one, satisfies a predicate.
abbrev pub Returns : {A : Type 0} → (A → Type 0) → Result A → Type 0
Returns Q (ok a) = Q a
Returns Q (err e) = Unit

bind_outcome-Returns :
    {A B : Type 0} (Q : B → Type 0) (r : Result A) (s : RunState) (f : A → R B)
    → ((a : A) → r ≡ ok a → Returns Q (f a s).0)
    → Returns Q (bind_outcome r s f).0
unfolding bind_outcome
bind_outcome-Returns Q (ok a) s f h = h a refl
bind_outcome-Returns Q (err e) s f h = tt

-- The rest of an action runs only after a result.
pub bind-Returns :
    {A B : Type 0} (Q : B → Type 0) (m : R A) (f : A → R B) (s : RunState)
    → ((a : A) → (m s).0 ≡ ok a → Returns Q (f a (m s).1).0)
    → Returns Q ((m >>= f) s).0
unfolding ◌>>=◌
bind-Returns Q m f s h = bind_outcome-Returns Q (m s).0 (m s).1 f h

pub Returns-ok : {A : Type 0} (Q : A → Type 0) (r : Result A) (a : A) → r ≡ ok a → Returns Q r → Q a
Returns-ok Q r a e h = rw e at h

pub Returns-weaken :
    {A : Type 0} (P Q : A → Type 0) (r : Result A)
    → ((a : A) → P a → Q a)
    → Returns P r
    → Returns Q r
Returns-weaken P Q (ok a) f h = f a h
Returns-weaken P Q (err e) f h = tt

pub Returns-all : {A : Type 0} (Q : A → Type 0) (r : Result A) → ((a : A) → Q a) → Returns Q r
Returns-all Q (ok a) f = f a
Returns-all Q (err e) f = tt

-- The same of the result and the state with it.
abbrev pub Ends : {A : Type 0} → (A → RunState → Type 0) → Result A × RunState → Type 0
Ends Q r = Returns (λ a. Q a r.1) r.0

bind_outcome-Ends :
    {A B : Type 0} (Q : B → RunState → Type 0) (r : Result A) (s : RunState) (f : A → R B)
    → ((a : A) → r ≡ ok a → Ends Q (f a s))
    → Ends Q (bind_outcome r s f)
unfolding bind_outcome
bind_outcome-Ends Q (ok a) s f h = h a refl
bind_outcome-Ends Q (err e) s f h = tt

pub bind-Ends :
    {A B : Type 0} (Q : B → RunState → Type 0) (m : R A) (f : A → R B) (s : RunState)
    → ((a : A) → (m s).0 ≡ ok a → Ends Q (f a (m s).1))
    → Ends Q ((m >>= f) s)
unfolding ◌>>=◌
bind-Ends Q m f s h = bind_outcome-Ends Q (m s).0 (m s).1 f h

-- How many of the commands are applies.
abbrev pub is_apply_word : Argument → Bool
is_apply_word (word w) = str_eq w "apply"
is_apply_word _ = false

abbrev pub is_apply_command : List Argument → Bool
is_apply_command [] = false
is_apply_command (a ∷ l) = is_apply_word a

abbrev pub applies : List (List Argument) → ℕ
applies [] = 0
applies (c ∷ l) = if is_apply_command c then applies l + 1 else applies l

-- An action that starts no apply.
pub record Idle {A : Type 0} (m : R A) : Type 0 where
  pub at : (s : RunState) → applies (m s).1.commands ≡ applies s.commands

bind_outcome-Idle :
    {A B : Type 0} (r : Result A) (s : RunState) (f : A → R B)
    → ((a : A) → Idle (f a))
    → applies (bind_outcome r s f).1.commands ≡ applies s.commands
unfolding bind_outcome
bind_outcome-Idle (ok a) s f h = (h a).at s
bind_outcome-Idle (err e) s f h = refl

pub Idle-bind :
    {A B : Type 0} (m : R A) (f : A → R B) → Idle m → ((a : A) → Idle (f a)) → Idle (m >>= f)
unfolding ◌>>=◌
Idle-bind m f im if' = record { at = λ s. bind_outcome-Idle (m s).0 (m s).1 f if' ∙ im.at s }

pub Idle-pure : {A : Type 0} (a : A) → Idle (pure a)
unfolding pure
Idle-pure a = record { at = λ s. refl }

pub Idle-raise : {A : Type 0} (e : RunError) → Idle (raise {A = A} e)
unfolding raise
Idle-raise e = record { at = λ s. refl }

pub Idle-lift : {A : Type 0} (r : Result A) → Idle (lift r)
unfolding lift
Idle-lift r = record { at = λ s. refl }

pub Idle-at_call : {A : Type 0} (f : ℕ → A) → Idle (at_call f)
unfolding at_call
Idle-at_call f = record { at = λ s. refl }

pub Idle-require : {A : Type 0} (o : Option A) (m : String) → Idle (require o m)
unfolding require
Idle-require none m = Idle-raise (failed m)
Idle-require (some a) m = Idle-pure a

pub Idle-bail_if : (b : Bool) (m : String) → Idle (bail_if b m)
unfolding bail_if
Idle-bail_if true m = Idle-raise (failed m)
Idle-bail_if false m = Idle-pure tt

pub Idle-catch : {A : Type 0} (m : R A) → Idle m → Idle (catch m)
unfolding catch
Idle-catch m i = record { at = λ s. i.at s }

pub ruleset idle_rules = (
  Idle-bind, Idle-pure, Idle-raise, Idle-lift, Idle-at_call, Idle-require, Idle-bail_if, Idle-catch,
)

-- An action that changes nothing.
pub record Still {A : Type 0} (m : R A) : Type 0 where
  pub at : (s : RunState) → (m s).1 ≡ s

bind_outcome-Still :
    {A B : Type 0} (r : Result A) (s : RunState) (f : A → R B)
    → ((a : A) → Still (f a))
    → (bind_outcome r s f).1 ≡ s
unfolding bind_outcome
bind_outcome-Still (ok a) s f h = (h a).at s
bind_outcome-Still (err e) s f h = refl

pub Still-bind :
    {A B : Type 0} (m : R A) (f : A → R B) → Still m → ((a : A) → Still (f a)) → Still (m >>= f)
unfolding ◌>>=◌
Still-bind m f i h = record { at = λ s. bind_outcome-Still (m s).0 (m s).1 f h ∙ i.at s }

pub Still-lift : {A : Type 0} (r : Result A) → Still (lift r)
unfolding lift
Still-lift r = record { at = λ s. refl }

pub Still-pure : {A : Type 0} (a : A) → Still (pure a)
unfolding pure
Still-pure a = record { at = λ s. refl }

pub Still-require : {A : Type 0} (o : Option A) (m : String) → Still (require o m)
unfolding require raise pure
Still-require none m = record { at = λ s. refl }
Still-require (some a) m = record { at = λ s. refl }

pub Still-bail_if : (b : Bool) (m : String) → Still (bail_if b m)
unfolding bail_if raise pure
Still-bail_if true m = record { at = λ s. refl }
Still-bail_if false m = record { at = λ s. refl }

pub ruleset still_rules = (Still-bind, Still-lift, Still-pure, Still-require, Still-bail_if)
