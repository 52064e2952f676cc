-- ===== src/Protocol/Checks.antt =====
-- The checks of src/protocol.rs on the parts of a payload. A part is what the JSON decoder yields of
-- it; parsing a URL is a parameter, with the scheme and whether there is a host.
use Prim.Native.String.{len}
use text.Mathlib.Text.{starts_with}
use terrence_agent.Prelude.{
  ℕ, ◌+◌, ◌*◌, String, Bool, true, false, not, ◌&&◌, ◌||◌, Option, none, some, List, [], ◌∷◌, ◌++◌,
  if◌then◌else◌, str_eq, ltb, leb, ◌==◌, min, u64_max, codes, is_alphabetic, is_alphanumeric,
  all_of, length,
}

abbrev pub max_name_length : ℕ
max_name_length = 256

abbrev pub max_url_length : ℕ
max_url_length = 8 * 1024

abbrev pub max_token_length : ℕ
max_token_length = 16 * 1024

abbrev pub max_address_length : ℕ
max_address_length = 512

abbrev pub max_address_count : ℕ
max_address_count = 256

abbrev pub max_environment_count : ℕ
max_environment_count = 256

abbrev pub max_variable_count : ℕ
max_variable_count = 512

abbrev pub max_environment_key_length : ℕ
max_environment_key_length = 256

abbrev pub max_environment_value_length : ℕ
max_environment_value_length = 64 * 1024

abbrev pub max_environment_bytes : ℕ
max_environment_bytes = 4 * 1024 * 1024

abbrev pub max_parallelism : ℕ
max_parallelism = 64

-- `char::is_control`
abbrev pub is_control : ℕ → Bool
is_control c = ltb c 32 || (leb 127 c && ltb c 160)

abbrev pub is_no_control : ℕ → Bool
is_no_control c = not (is_control c)

abbrev pub is_blank : String → Bool
is_blank s = len s == 0

unfoldable pub validate_text : String → ℕ → Bool → Bool
validate_text value max allow_empty = not (
    (not allow_empty && is_blank value)
    || (ltb max (len value) || not (all_of is_no_control (codes value))))

unfoldable pub validate_name : String → Bool
validate_name value = validate_text value max_name_length false

abbrev pub is_http : Option (String × Bool) → Bool
is_http none = false
is_http (some (scheme, has_host)) = (str_eq scheme "http" || str_eq scheme "https") && has_host

unfoldable pub validate_url : (String → Option (String × Bool)) → String → Bool → Bool
validate_url parse value allow_empty =
    validate_text value max_url_length allow_empty
    && (is_blank value || (starts_with value "/" || is_http (parse value)))

abbrev pub accept : Bool → String → Option String
accept b value = if b then some value else none

unfoldable pub deserialize_name : String → Option String
deserialize_name value = accept (validate_name value) value

unfoldable pub deserialize_text : String → Option String
deserialize_text value = accept (validate_text value max_token_length false) value

unfoldable pub deserialize_text_or_empty : String → Option String
deserialize_text_or_empty value = accept (validate_text value max_token_length true) value

unfoldable pub deserialize_optional_text : Option String → Option (Option String)
deserialize_optional_text none = some none
deserialize_optional_text (some value) =
    if validate_text value max_token_length false then some (some value) else none

unfoldable pub deserialize_url : (String → Option (String × Bool)) → String → Option String
deserialize_url parse value = accept (validate_url parse value false) value

unfoldable pub deserialize_url_or_empty : (String → Option (String × Bool)) → String → Option String
deserialize_url_or_empty parse value = accept (validate_url parse value true) value

unfoldable pub deserialize_optional_url :
    (String → Option (String × Bool)) → Option String → Option (Option String)
deserialize_optional_url parse none = some none
deserialize_optional_url parse (some value) =
    if validate_url parse value false then some (some value) else none

-- An empty text stands for none.
unfoldable pub deserialize_optional_url_or_empty :
    (String → Option (String × Bool)) → Option String → Option (Option String)
deserialize_optional_url_or_empty parse none = some none
deserialize_optional_url_or_empty parse (some value) =
    if is_blank value
    then some none
    else if validate_url parse value false
    then some (some value)
    else none

-- `visit_seq` of `deserialize_address_list`, with the values so far.
unfoldable pub visit_seq : List String → List String → Option (List String)
visit_seq [] values = some values
visit_seq (value ∷ sequence) values =
    let rest = visit_seq sequence (values ++ (value ∷ [])) in
    if leb max_address_count (length values)
    then none
    else if validate_text value max_address_length false
    then rest
    else none

unfoldable pub deserialize_address_list : List String → Option (List String)
deserialize_address_list sequence = visit_seq sequence []

-- The settings of a `Strings` visitor.
pub record Strings : Type 0 where
  pub max_count : ℕ
  pub environment : Bool

abbrev pub is_key_byte : ℕ → Bool
is_key_byte c = is_alphanumeric c || c == b'_'

abbrev pub is_key : List ℕ → Bool
is_key [] = true
is_key (c ∷ s) = (is_alphabetic c || c == b'_') && all_of is_key_byte s

abbrev pub key_limit : Strings → ℕ
key_limit v = if v.environment then max_environment_key_length else max_name_length

abbrev pub value_limit : Strings → ℕ
value_limit v = if v.environment then max_environment_value_length else max_token_length

-- The checks on one entry.
unfoldable pub is_entry : Strings → String × String → Bool
is_entry v (key, value) =
    validate_text key (key_limit v) false
    && (validate_text value (value_limit v) true && (not v.environment || is_key (codes key)))

abbrev pub entry_bytes : String × String → ℕ
entry_bytes (key, value) = len key + len value

abbrev pub has_key : String → List (String × String) → Bool
has_key key [] = false
has_key key (e ∷ l) = str_eq e.0 key || has_key key l

-- `visit_map` of `deserialize_string_map`, with the values and the bytes so far.
unfoldable pub visit_map :
    Strings → List (String × String) → List (String × String) → ℕ → Option (List (String × String))
visit_map v [] values bytes = some values
visit_map v (e ∷ entries) values bytes =
    let total = bytes + entry_bytes e in
    let rest = visit_map v entries (values ++ (e ∷ [])) total in
    if leb v.max_count (length values)
    then none
    else if not (is_entry v e)
    then none
    else if ltb u64_max total
    then none
    else if ltb max_environment_bytes total
    then none
    else if has_key e.0 values
    then none
    else rest

unfoldable pub deserialize_string_map :
    List (String × String) → ℕ → Bool → Option (List (String × String))
deserialize_string_map entries max_count environment =
    visit_map (record { max_count = max_count; environment = environment }) entries [] 0

unfoldable pub deserialize_environment : List (String × String) → Option (List (String × String))
deserialize_environment entries = deserialize_string_map entries max_environment_count true

unfoldable pub deserialize_variables : List (String × String) → Option (List (String × String))
deserialize_variables entries = deserialize_string_map entries max_variable_count false

-- Zero is refused, anything above the limit is cut down to it.
unfoldable pub deserialize_parallelism : Option ℕ → Option (Option ℕ)
deserialize_parallelism none = some none
deserialize_parallelism (some n) = if n == 0 then none else some (some (min n max_parallelism))
