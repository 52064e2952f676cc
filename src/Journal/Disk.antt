-- ===== src/Journal/Disk.antt =====
-- The journal's directory: the `.json` files by name. (Both scans of src/journal.rs skip all other
-- files, among them the `.json.tmp` files that an interrupted write leaves.)
use terrence_agent.Prelude.{
  String, ◌≡◌, refl, Option, none, some, List, [], ◌∷◌, arith, if◌then◌else◌, str_eq, eq_iff,
}

abbrev pub Files {ℓ} : Type ℓ → Type ℓ
Files A = List (String × A)

module _ {ℓ} {A : Type ℓ} where
  unfoldable pub lookup : String → Files A → Option A
  lookup p [] = none
  lookup p ((q, a) ∷ d) = if str_eq q p then some a else lookup p d

  -- A rename onto the name replaces what was there.
  unfoldable pub insert : String → A → Files A → Files A
  insert p a [] = (p, a) ∷ []
  insert p a ((q, b) ∷ d) = if str_eq q p then (p, a) ∷ d else (q, b) ∷ insert p a d

  pub lookup-insert :
      (p q : String) (a : A) (d : Files A)
      → lookup q (insert p a d) ≡ (if str_eq p q then some a else lookup q d)
  unfolding lookup insert
  lookup-insert p q a [] = refl
  lookup-insert p q a ((r, b) ∷ d) =
      ground (arith, eq_iff p q, eq_iff r p, eq_iff r q, lookup-insert p q a d)
