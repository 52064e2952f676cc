-- ===== src/Protocol/Json.antt =====
-- JSON values (`serde_json::Value`), and `PlanCounts::from_plan` of src/protocol.rs.
use terrence_agent.Prelude.{
  ℕ, ◌+◌, String, Bool, true, false, ◌||◌, Option, none, some, if◌then◌else◌, str_eq,
}
use terrence_agent.Protocol.Job.{PlanCounts, no_counts}

-- A number is kept as its text. An object lists its fields.
mutual
  pub data Value : Type 0 where
    null : Value
    bool : Bool → Value
    number : String → Value
    text : String → Value
    array : Values → Value
    object : Fields → Value

  pub data Values : Type 0 where
    no_values : Values
    value : Value → Values → Values

  pub data Fields : Type 0 where
    no_fields : Fields
    field : String → Value → Fields → Fields

abbrev pub field_of : String → Fields → Option Value
field_of key no_fields = none
field_of key (field k v l) = if str_eq k key then some v else field_of key l

-- `Value::get`
unfoldable pub get : String → Value → Option Value
get key (object l) = field_of key l
get key _ = none

unfoldable pub get_in : String → Option Value → Option Value
get_in key none = none
get_in key (some v) = get key v

-- `Value::as_array`
unfoldable pub as_array : Option Value → Option Values
as_array (some (array l)) = some l
as_array _ = none

unfoldable pub is_text : String → Option Value → Bool
is_text expected (some (text s)) = str_eq s expected
is_text expected _ = false

unfoldable pub any_text : String → Values → Bool
any_text expected no_values = false
any_text expected (value v l) = is_text expected (some v) || any_text expected l

abbrev pub has_action : String → Option Values → Bool
has_action action none = false
has_action action (some l) = any_text action l

-- `is_some_and(|value| !value.is_null())`
unfoldable pub is_present : Option Value → Bool
is_present none = false
is_present (some null) = false
is_present (some v) = true

abbrev pub add_if : Bool → ℕ → ℕ
add_if true n = n + 1
add_if false n = n

-- One round of the loop of `from_plan`.
unfoldable pub count_resource : Value → PlanCounts → PlanCounts
count_resource resource c =
    let change = get "change" resource in
    let actions = as_array (get_in "actions" change) in
    if is_text "data" (get "mode" resource) then c else record {
      imports = add_if (is_present (get_in "importing" change)) c.imports;
      additions = add_if (has_action "create" actions) c.additions;
      changes = add_if (has_action "update" actions) c.changes;
      destructions = add_if (has_action "delete" actions) c.destructions;
    }

unfoldable pub count_resources : Values → PlanCounts → PlanCounts
count_resources no_values c = c
count_resources (value r l) c = count_resources l (count_resource r c)

abbrev pub count_all : Option Values → PlanCounts
count_all none = no_counts
count_all (some l) = count_resources l no_counts

unfoldable pub from_plan : Value → PlanCounts
from_plan v = count_all (as_array (get "resource_changes" v))
