-- ===== src/Protocol/Accepted.antt =====
-- What the maps and lists of a payload that src/protocol.rs accepts are.

use terrence_agent.Prelude.{
  All, ℕ, ◌+◌, ◌≤◌, ◌<◌, String, ◌≡◌, refl, sym, ap, ◌∙◌, Bool, true, false, some, List, [], ◌∷◌,
  ◌++◌, append_assoc, append-nil, str_eq, eq_iff, ltb, leb, length, length-append, arith,
  Bool-cases, inl, inr,
}
use terrence_agent.Protocol.Checks.{
  Strings, is_entry, entry_bytes, has_key, visit_map, deserialize_string_map, max_environment_bytes,
}

abbrev pub map_bytes : List (String × String) → ℕ
map_bytes [] = 0
map_bytes (e ∷ l) = entry_bytes e + map_bytes l

-- No key stands twice.
abbrev pub IsDistinct : List (String × String) → Type 0
IsDistinct [] = Unit
IsDistinct (e ∷ l) = (has_key e.0 l ≡ false) × IsDistinct l

-- One round of the loop that does not fail.
visit_map-step :
    (v : Strings) (e : String × String) (entries values out : List (String × String)) (bytes : ℕ)
    → visit_map v (e ∷ entries) values bytes ≡ some out
    → (visit_map v entries (values ++ (e ∷ [])) (bytes + entry_bytes e) ≡ some out)
      × (length values < v.max_count)
      × (is_entry v e ≡ true)
      × (bytes + entry_bytes e ≤ max_environment_bytes)
      × (has_key e.0 values ≡ false)
unfolding visit_map
visit_map-step v e entries values out bytes h =
    elim (Bool-cases (leb v.max_count (length values))) [
      | inl full ↦ ground (arith, full, h)
      | inr free ↦ elim (Bool-cases (is_entry v e)) [
        | inr bad ↦ ground (arith, free, bad, h)
        | inl good ↦ elim (Bool-cases (ltb max_environment_bytes (bytes + entry_bytes e))) [
          | inl big ↦ ground (arith, free, good, big, h)
          | inr fits ↦ elim (Bool-cases (has_key e.0 values)) [
            | inl twice ↦ ground (arith, free, good, fits, twice, h)
            | inr once ↦ (
              ground (arith, free, good, fits, once, h),
              ground (arith, free),
              good,
              ground (arith, fits),
              once,
            )
          ]
        ]
      ]
    ]

-- A map that is accepted.
pub record IsAccepted (v : Strings) (l : List (String × String)) : Type 0 where
  pub count : length l ≤ v.max_count
  pub bytes : map_bytes l ≤ max_environment_bytes
  pub entries : All (λ e. is_entry v e ≡ true) l
  pub distinct : IsDistinct l

map_bytes-append :
    (l : List (String × String)) (e : String × String)
    → map_bytes (l ++ (e ∷ [])) ≡ map_bytes l + entry_bytes e
map_bytes-append [] e = omega arith
map_bytes-append (d ∷ l) e = omega (arith, map_bytes-append l e)

All-append :
    (v : Strings) (l : List (String × String)) (e : String × String)
    → All (λ d. is_entry v d ≡ true) l
    → is_entry v e ≡ true
    → All (λ d. is_entry v d ≡ true) (l ++ (e ∷ []))
All-append v [] e h k = (k, tt)
All-append v (d ∷ l) e h k = (h.0, All-append v l e h.1 k)

has_key-append :
    (key : String) (l : List (String × String)) (e : String × String)
    → has_key key l ≡ false
    → str_eq e.0 key ≡ false
    → has_key key (l ++ (e ∷ [])) ≡ false
has_key-append key [] e h k = ground (arith, k)
has_key-append key (d ∷ l) e h k = ground (arith, h, has_key-append key l e (ground (arith, h)) k)

str_eq-sym : (a b : String) → str_eq a b ≡ false → str_eq b a ≡ false
str_eq-sym a b h = ground (arith, eq_iff a b, eq_iff b a, h)

IsDistinct-append :
    (l : List (String × String)) (e : String × String)
    → IsDistinct l
    → has_key e.0 l ≡ false
    → IsDistinct (l ++ (e ∷ []))
IsDistinct-append [] e h k = (refl, tt)
IsDistinct-append (d ∷ l) e h k = (
  has_key-append d.0 l e h.0 (str_eq-sym d.0 e.0 (ground (arith, k))),
  IsDistinct-append l e h.1 (ground (arith, k)),
)

from_some : {A : Type 0} {a b : A} → some a ≡ some b → a ≡ b
from_some h = cc

visit_map-IsAccepted :
    (v : Strings) (entries values out : List (String × String)) (bytes : ℕ)
    → bytes ≡ map_bytes values
    → IsAccepted v values
    → visit_map v entries values bytes ≡ some out
    → (out ≡ values ++ entries) × IsAccepted v out
unfolding visit_map
visit_map-IsAccepted v [] values out bytes e a h =
    (sym (from_some h) ∙ sym (append-nil values), rw (sym (from_some h)) a)
visit_map-IsAccepted v (d ∷ entries) values out bytes e a h =
    let now = visit_map-step v d entries values out bytes h in
    let more =
      visit_map-IsAccepted v entries (values ++ (d ∷ [])) out (bytes + entry_bytes d)
        (ap (λ n. n + entry_bytes d) e ∙ sym (map_bytes-append values d))
        (record {
          count = rw (length-append values (d ∷ [])) (ground (arith, now.1));
          bytes = rw (map_bytes-append values d) (ground (arith, e, now.3));
          entries = All-append v values d a.entries now.2;
          distinct = IsDistinct-append values d a.distinct now.4;
        })
        now.0 in
    (more.0 ∙ append_assoc values (d ∷ []) entries, more.1)

-- A map of a payload that is accepted is the map that was sent; it has at most the entries allowed,
-- no key twice, at most 4 MiB, and each entry passes the checks.
pub deserialize_string_map-IsAccepted :
    (entries out : List (String × String)) (max_count : ℕ) (environment : Bool)
    → deserialize_string_map entries max_count environment ≡ some out
    → (out ≡ entries) × IsAccepted (record { max_count = max_count; environment = environment }) out
unfolding deserialize_string_map
deserialize_string_map-IsAccepted entries out max_count environment h =
    visit_map-IsAccepted (record { max_count = max_count; environment = environment }) entries []
      out 0 refl (record { count = omega arith; bytes = omega arith; entries = tt; distinct = tt })
      h
