-- ===== src/Logs/Names.antt =====
-- The text of a spool file's name in src/logs.rs: `format!("{sequence:020}.{suffix}")` of
-- `Spool::store`, and `parse_name` with `str::parse::<u64>`. A name is its bytes.
use native.Mathlib.Nat.{pow-suc}
use terrence_agent.Prelude.{append_assoc, append-nil}
use terrence_agent.Prelude.{
  All, ◌≢◌, ℕ, zero, suc, ◌+◌, ◌-◌, ◌*◌, ◌/◌, ◌%◌, ◌^◌, ◌≤◌, ◌<◌, ◌≡◌, refl, sym, ap, ◌∙◌, Bool,
  true, false, ◌&&◌, Option, some, none, List, [], ◌∷◌, ◌++◌, arith, leb, ◌==◌, if◌then◌else◌,
  u64_max,
}
use terrence_agent.Logs.Spool.{ChunkKind, chunk, terminator}

-- The last `k` decimal digits, the first one first; 20 digits hold every u64.
unfoldable pub pad_digits : ℕ → ℕ → List ℕ
pad_digits zero n = []
pad_digits (suc k) n = pad_digits k (n / 10) ++ (b'0' + n % 10) ∷ []

abbrev pub chunk_suffix : List ℕ
chunk_suffix = b'c' ∷ b'h' ∷ b'u' ∷ b'n' ∷ b'k' ∷ []

abbrev pub terminator_suffix : List ℕ
terminator_suffix = b't' ∷ b'e' ∷ b'r' ∷ b'm' ∷ b'i' ∷ b'n' ∷ b'a' ∷ b't' ∷ b'o' ∷ b'r' ∷ []

abbrev pub suffix : ChunkKind → List ℕ
suffix chunk = chunk_suffix
suffix terminator = terminator_suffix

unfoldable pub file_name : ℕ → ChunkKind → List ℕ
file_name sequence kind = pad_digits 20 sequence ++ b'.' ∷ suffix kind

-- `str::split_once('.')`
unfoldable pub split_once : List ℕ → Option (List ℕ × List ℕ)
split_once [] = none
split_once (c ∷ s) =
    let rest = split_once s in
    if c == b'.' then some ([], s) else (elim rest [ none ↦ none | some (a, b) ↦ some (c ∷ a, b) ])

-- `str::parse::<u64>` on digits: each step may overflow. `acc` is the value so far.
unfoldable pub parse_digits : ℕ → List ℕ → Option ℕ
parse_digits acc [] = some acc
parse_digits acc (c ∷ s) =
    let rest = parse_digits (acc * 10 + (c - b'0')) s in
    if leb b'0' c && leb c b'9' && leb (acc * 10 + (c - b'0')) u64_max then rest else none

-- An empty text is no number, and one leading `+` is allowed before a digit.
unfoldable pub parse_u64 : List ℕ → Option ℕ
parse_u64 [] = none
parse_u64 (c ∷ []) = if c == b'+' then none else parse_digits 0 (c ∷ [])
parse_u64 (c ∷ d ∷ s) = if c == b'+' then parse_digits 0 (d ∷ s) else parse_digits 0 (c ∷ d ∷ s)

abbrev pub same_bytes : List ℕ → List ℕ → Bool
same_bytes [] [] = true
same_bytes (x ∷ xs) (y ∷ ys) = x == y && same_bytes xs ys
same_bytes _ _ = false

unfoldable pub parse_kind : List ℕ → Option ChunkKind
parse_kind s =
    if same_bytes s chunk_suffix
    then some chunk
    else if same_bytes s terminator_suffix
    then some terminator
    else none

abbrev with_kind : Option ℕ → Option ChunkKind → Option (ℕ × ChunkKind)
with_kind (some n) (some k) = some (n, k)
with_kind _ _ = none

unfoldable pub parse_name : List ℕ → Option (ℕ × ChunkKind)
parse_name name = elim (split_once name) [
  | none ↦ none
  | some (sequence, kind) ↦ with_kind (parse_u64 sequence) (parse_kind kind)
]

-- Digits are neither a dot nor a sign.
AtLeast0-append :
    (xs ys : List ℕ)
    → All (λ x. b'0' ≤ x) xs
    → All (λ x. b'0' ≤ x) ys
    → All (λ x. b'0' ≤ x) (xs ++ ys)
AtLeast0-append [] ys h k = k
AtLeast0-append (x ∷ xs) ys h k = (h.0, AtLeast0-append xs ys h.1 k)

AtLeast0-pad_digits : (k n : ℕ) → All (λ x. b'0' ≤ x) (pad_digits k n)
unfolding pad_digits
AtLeast0-pad_digits zero n = tt
AtLeast0-pad_digits (suc k) n =
    AtLeast0-append (pad_digits k (n / 10)) ((b'0' + n % 10) ∷ []) (AtLeast0-pad_digits k (n / 10))
      (omega arith, tt)

split_once-append :
    (xs rest : List ℕ) → All (λ x. b'0' ≤ x) xs → split_once (xs ++ b'.' ∷ rest) ≡ some (xs, rest)
unfolding split_once
split_once-append [] rest h = refl
split_once-append (x ∷ xs) rest h = ground (arith, split_once-append xs rest h.1)

digit_step :
    (acc d v : ℕ) (rest : List ℕ)
    → acc * 10 + (b'0' + d - b'0') ≡ v
    → d < 10
    → v ≤ u64_max
    → parse_digits acc ((b'0' + d) ∷ rest) ≡ parse_digits v rest
unfolding parse_digits
digit_step acc d v rest e l h = rw e (ground arith)

-- Parsing goes through the digits from the left, below the bound throughout.
parse_digits-pad :
    (k n acc : ℕ) (rest : List ℕ)
    → acc * 10 ^ k + n ≤ u64_max
    → n < 10 ^ k
    → parse_digits acc (pad_digits k n ++ rest) ≡ parse_digits (acc * 10 ^ k + n) rest
unfolding parse_digits pad_digits
parse_digits-pad zero n acc rest h l = ap (λ (x : ℕ). parse_digits x rest) (omega arith)
parse_digits-pad (suc k) n acc rest h l =
    let p : 10 ^ suc k ≡ 10 ^ k * 10 = pow-suc 10 k in
    let q : acc * 10 ^ suc k ≡ acc * 10 ^ k * 10 = omega (arith, ap (λ (t : ℕ). acc * t) p) in
    let ih = parse_digits-pad k (n / 10) acc ((b'0' + n % 10) ∷ rest) (omega arith) (omega arith) in
    let value : (acc * 10 ^ k + n / 10) * 10 + (b'0' + n % 10 - b'0') ≡ acc * 10 ^ suc k + n =
      omega arith in
    let step : parse_digits (acc * 10 ^ k + n / 10) ((b'0' + n % 10) ∷ rest)
        ≡ parse_digits (acc * 10 ^ suc k + n) rest =
      digit_step (acc * 10 ^ k + n / 10) (n % 10) (acc * 10 ^ suc k + n) rest value (omega arith)
        h in
    rw append_assoc (ih ∙ step)

parse_u64-digits :
    (xs : List ℕ) → All (λ x. b'0' ≤ x) xs → xs ≢ [] → parse_u64 xs ≡ parse_digits 0 xs
unfolding parse_u64
parse_u64-digits [] h ne = absurd (ne refl)
parse_u64-digits (c ∷ []) h ne = ground arith
parse_u64-digits (c ∷ d ∷ xs) h ne = ground arith

pad_digits-ne-nil : (k n : ℕ) → pad_digits (suc k) n ≢ []
unfolding pad_digits
pad_digits-ne-nil k n e = go (pad_digits k (n / 10)) (b'0' + n % 10) e
  where
    go : (xs : List ℕ) (x : ℕ) → xs ++ x ∷ [] ≢ []
    go [] x e = cc
    go (y ∷ xs) x e = cc

all_read : (n : ℕ) → parse_digits (0 * 10 ^ 20 + n) [] ≡ some n
unfolding parse_digits
all_read n = ap some (omega arith)

parse_u64-pad : (n : ℕ) → n ≤ u64_max → parse_u64 (pad_digits 20 n) ≡ some n
parse_u64-pad n h =
    parse_u64-digits (pad_digits 20 n) (AtLeast0-pad_digits 20 n) (pad_digits-ne-nil 19 n)
    ∙ sym (ap (parse_digits 0) (append-nil (pad_digits 20 n)))
    ∙ parse_digits-pad 20 n 0 [] (omega arith) (omega arith)
    ∙ all_read n

parse_kind-suffix : (k : ChunkKind) → parse_kind (suffix k) ≡ some k
unfolding parse_kind
parse_kind-suffix chunk = refl
parse_kind-suffix terminator = refl

-- A name that the spool writes is read back, for every u64 sequence.
pub parse_name-file_name :
    (sequence : ℕ) (kind : ChunkKind)
    → sequence ≤ u64_max
    → parse_name (file_name sequence kind) ≡ some (sequence, kind)
unfolding parse_name file_name
parse_name-file_name n k h = rw (
  file_name,
  parse_name,
  split_once-append (pad_digits 20 n) (suffix k) (AtLeast0-pad_digits 20 n),
  parse_u64-pad n h,
  parse_kind-suffix k,
)
