-- ===== src/Protocol/Counts.antt =====
-- What `PlanCounts::from_plan` of src/protocol.rs counts.
use terrence_agent.Prelude.{
  ℕ, ◌+◌, ◌^◌, ◌<◌, ◌≤◌, ◌%◌, String, ◌≡◌, refl, ap, ◌∙◌, Bool, true, false, not, ◌&&◌, ◌||◌,
  Option, none, some, arith, if◌then◌else◌, ltb, inl, inr, Bool-cases,
}
use terrence_agent.Protocol.Job.{PlanCounts, no_counts, has_changes}
use terrence_agent.Protocol.Json.{
  Value, Values, no_values, value, as_array, get, get_in, is_text, is_present, has_action, add_if,
  count_resource, count_resources, count_all, from_plan,
}

-- A resource that is managed, and whose change is an import or has an action.
abbrev pub is_managed : Value → Bool
is_managed r = not (is_text "data" (get "mode" r))

abbrev pub is_import : Value → Bool
is_import r = is_managed r && is_present (get_in "importing" (get "change" r))

abbrev pub has : String → Value → Bool
has action r = is_managed r && has_action action (as_array (get_in "actions" (get "change" r)))

abbrev pub tally : (Value → Bool) → Values → ℕ
tally t no_values = 0
tally t (value r l) = if t r then 1 + tally t l else tally t l

abbrev pub tally_all : (Value → Bool) → Option Values → ℕ
tally_all t none = 0
tally_all t (some l) = tally t l

abbrev pub entries : Option Values → ℕ
entries o = tally_all (λ r. true) o

-- The fields grow by what the tests say.
count_resource-fields :
    (r : Value) (c : PlanCounts)
    → ((count_resource r c).additions ≡ add_if (has "create" r) c.additions)
      × ((count_resource r c).changes ≡ add_if (has "update" r) c.changes)
      × ((count_resource r c).destructions ≡ add_if (has "delete" r) c.destructions)
      × ((count_resource r c).imports ≡ add_if (is_import r) c.imports)
unfolding count_resource
count_resource-fields r c = elim (Bool-cases (is_text "data" (get "mode" r))) [
  | inl data_source ↦ rw (count_resource, data_source) (refl, refl, refl, refl)
  | inr managed ↦ rw (count_resource, managed) (refl, refl, refl, refl)
]

add_if-tally :
    (t : Value → Bool) (r : Value) (l : Values) (n : ℕ)
    → add_if (t r) n + tally t l ≡ n + tally t (value r l)
add_if-tally t r l n = elim (Bool-cases (t r)) [
  | inl yes_it ↦ rw yes_it (omega arith)
  | inr no_it ↦ rw no_it refl
]

abbrev Sums : Values → PlanCounts → PlanCounts → Type 0
Sums l c d =
    (d.additions ≡ c.additions + tally (has "create") l)
    × (d.changes ≡ c.changes + tally (has "update") l)
    × (d.destructions ≡ c.destructions + tally (has "delete") l)
    × (d.imports ≡ c.imports + tally is_import l)

count_resources-Sums : (l : Values) (c : PlanCounts) → Sums l c (count_resources l c)
unfolding count_resources
count_resources-Sums no_values c = (omega arith, omega arith, omega arith, omega arith)
count_resources-Sums (value r l) c =
    let now = count_resource-fields r c in
    let later = count_resources-Sums l (count_resource r c) in
    (
      later.0 ∙ (ap (λ n. n + tally (has "create") l) now.0 ∙ add_if-tally (has "create") r l _),
      later.1 ∙ (ap (λ n. n + tally (has "update") l) now.1 ∙ add_if-tally (has "update") r l _),
      later.2 ∙ (ap (λ n. n + tally (has "delete") l) now.2 ∙ add_if-tally (has "delete") r l _),
      later.3 ∙ (ap (λ n. n + tally is_import l) now.3 ∙ add_if-tally is_import r l _),
    )

-- The tallies of the resources of a plan.
abbrev pub tallies : Option Values → PlanCounts
tallies o = record {
  additions = tally_all (has "create") o;
  changes = tally_all (has "update") o;
  destructions = tally_all (has "delete") o;
  imports = tally_all is_import o;
}

count_all-tallies : (o : Option Values) → count_all o ≡ tallies o
count_all-tallies none = refl
count_all-tallies (some l) = let sums = count_resources-Sums l no_counts in ground (arith, sums)

-- The counts of a plan are those of its managed resources with each action, and of the imports.
pub from_plan-tallies : (v : Value) → from_plan v ≡ tallies (as_array (get "resource_changes" v))
unfolding from_plan
from_plan-tallies v = count_all-tallies (as_array (get "resource_changes" v))

abbrev pub is_changed : Value → Bool
is_changed r = has "create" r || (has "update" r || (has "delete" r || is_import r))

abbrev pub any_of : (Value → Bool) → Values → Bool
any_of t no_values = false
any_of t (value r l) = t r || any_of t l

abbrev pub any_of_all : (Value → Bool) → Option Values → Bool
any_of_all t none = false
any_of_all t (some l) = any_of t l

tally-le : (t : Value → Bool) (l : Values) → tally t l ≤ tally (λ r. true) l
tally-le t no_values = omega arith
tally-le t (value r l) = elim (Bool-cases (t r)) [
  | inl counts ↦ rw counts (ground (arith, tally-le t l))
  | inr other ↦ rw other (ground (arith, tally-le t l))
]

abbrev total : Values → ℕ
total l =
    tally (has "create") l + tally (has "update") l + tally (has "delete") l + tally is_import l

add_flags :
    (a b c d : Bool) (m n k j : ℕ)
    → ltb 0 (
        (if a then 1 + m else m)
        + (if b then 1 + n else n)
        + (if c then 1 + k else k)
        + (if d then 1 + j else j))
      ≡ (a || (b || (c || d))) || ltb 0 (m + n + k + j)
add_flags a b c d m n k j = ground arith

total-any : (l : Values) → ltb 0 (total l) ≡ any_of is_changed l
total-any no_values = ground arith
total-any (value r l) =
    add_flags (has "create" r) (has "update" r) (has "delete" r) (is_import r) _ _ _ _
    ∙ ap (λ b. is_changed r || b) (total-any l)

small_total : (l : Values) → tally (λ r. true) l < 2 ^ 62 → total l % 2 ^ 64 ≡ total l
small_total l h = ground (
  arith,
  tally-le (has "create") l,
  tally-le (has "update") l,
  tally-le (has "delete") l,
  tally-le is_import l,
  h,
)

has_changes-tallies :
    (o : Option Values) → entries o < 2 ^ 62 → has_changes (tallies o) ≡ any_of_all is_changed o
unfolding has_changes
has_changes-tallies none h = refl
has_changes-tallies (some l) h = ap (λ n. ltb 0 n) (small_total l h) ∙ total-any l

-- A plan of fewer than 2 ^ 62 resources has changes just when one of them is managed and is created,
-- updated, deleted or imported.
pub has_changes-from_plan :
    (v : Value)
    → entries (as_array (get "resource_changes" v)) < 2 ^ 62
    → has_changes (from_plan v) ≡ any_of_all is_changed (as_array (get "resource_changes" v))
has_changes-from_plan v h =
    ap has_changes (from_plan-tallies v)
    ∙ has_changes-tallies (as_array (get "resource_changes" v)) h
