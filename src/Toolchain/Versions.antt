-- ===== src/Toolchain/Versions.antt =====
-- Versions and checksums of src/toolchain.rs, as texts of code points.
use terrence_agent.Prelude.{
  ℕ, ◌+◌, Bool, true, false, ◌&&◌, ◌||◌, Option, none, some, List, [], ◌∷◌, if◌then◌else◌, leb,
  ◌==◌, length, all_of, is_digit,
}

abbrev pub same_codes : List ℕ → List ℕ → Bool
same_codes [] [] = true
same_codes (c ∷ s) (d ∷ t) = c == d && same_codes s t
same_codes _ _ = false

abbrev pub is_white : ℕ → Bool
is_white c =
    (leb 9 c && leb c 13)
    || (c == 32
        || (c == 133
            || (c == 160
                || (c == 5760
                    || ((leb 8192 c && leb c 8202)
                        || (c == 8232
                            || (c == 8233 || (c == 8239 || (c == 8287 || c == 12288)))))))))

abbrev pub has_no_codes : List ℕ → Bool
has_no_codes [] = true
has_no_codes (c ∷ s) = false

unfoldable pub trim_start : (ℕ → Bool) → List ℕ → List ℕ
trim_start t [] = []
trim_start t (c ∷ s) = if t c then trim_start t s else c ∷ s

unfoldable pub trim_end : (ℕ → Bool) → List ℕ → List ℕ
trim_end t [] = []
trim_end t (c ∷ s) = let rest = trim_end t s in if t c && has_no_codes rest then [] else c ∷ rest

abbrev pub trim : List ℕ → List ℕ
trim s = trim_end is_white (trim_start is_white s)

abbrev pub to_lower : ℕ → ℕ
to_lower c = if leb b'A' c && leb c b'Z' then c + 32 else c

abbrev pub lower : List ℕ → List ℕ
lower [] = []
lower (c ∷ s) = to_lower c ∷ lower s

abbrev pub latest : List ℕ
latest = b'l' ∷ b'a' ∷ b't' ∷ b'e' ∷ b's' ∷ b't' ∷ []

abbrev pub is_v : ℕ → Bool
is_v c = c == b'v'

-- Any version will do.
abbrev pub is_any : List ℕ → Bool
is_any s = has_no_codes s || same_codes (lower s) latest

unfoldable pub versions_match : List ℕ → List ℕ → Bool
versions_match requested actual =
    let wanted = trim_start is_v (trim requested) in
    is_any wanted || same_codes wanted (trim_start is_v (trim actual))

-- `binary_version` yields a version or fails.
unfoldable pub version_matches : List ℕ → Option (List ℕ) → Bool
version_matches requested none = false
version_matches requested (some actual) = is_any requested || versions_match requested actual

abbrev pub is_hex_digit : ℕ → Bool
is_hex_digit c = is_digit c || ((leb b'a' c && leb c b'f') || (leb b'A' c && leb c b'F'))

-- The length is in bytes: a digit is one.
unfoldable pub normalize_checksum : List ℕ → Option (List ℕ)
normalize_checksum s =
    let value = lower (trim s) in
    if length value == 64 && all_of is_hex_digit value then some value else none
