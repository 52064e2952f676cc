-- ===== src/Runner/Limits.antt =====
-- The identifiers and time limits that src/runner.rs accepts.
use terrence_agent.Prelude.{
  ℕ, ◌*◌, ◌≤◌, ◌≡◌, ◌≢◌, Bool, true, Option, none, some, List, [], ◌∷◌, arith, length, min, u64_max,
  all_of, inl, inr, Option-cases,
}
use terrence_agent.Logs.Names.{parse_u64}
use terrence_agent.Runner.Inputs.{
  is_identifier_byte, validate_identifier, split_last, multiplier, clamp_timeout, scale_timeout,
  parse_job_timeout,
}

clamp_timeout-bounds : (n : ℕ) → (1 ≤ clamp_timeout n) × (clamp_timeout n ≤ 604800)
clamp_timeout-bounds n = (omega arith, omega arith)

-- A limit of at least a second and at most a week.
abbrev pub IsLimit : ℕ → Type 0
IsLimit n = (1 ≤ n) × (n ≤ 604800)

scale_timeout-IsLimit : (o : Option ℕ) (m n : ℕ) → scale_timeout o m ≡ some n → IsLimit n
scale_timeout-IsLimit none m n h = ground (arith, h)
scale_timeout-IsLimit (some k) m n h = ground (arith, clamp_timeout-bounds (min (k * m) u64_max), h)

multiplied-IsLimit :
    (number : List ℕ) (o : Option ℕ) (n : ℕ)
    → elim o [ none ↦ none | some m ↦ scale_timeout (parse_u64 number) m ] ≡ some n
    → IsLimit n
multiplied-IsLimit number none n h = ground (arith, h)
multiplied-IsLimit number (some m) n h = scale_timeout-IsLimit (parse_u64 number) m n h

-- The limit of a job is at least a second and at most seven days.
pub parse_job_timeout-IsLimit : (s : List ℕ) (n : ℕ) → parse_job_timeout s ≡ some n → IsLimit n
unfolding parse_job_timeout
parse_job_timeout-IsLimit [] n h = ground (arith, h)
parse_job_timeout-IsLimit (c ∷ s) n h = elim (Option-cases (split_last (c ∷ s))) [
  | inl lost ↦ ground (arith, lost, h)
  | inr ((number, suffix), found) ↦
      multiplied-IsLimit number (multiplier suffix) n (rw (parse_job_timeout, found) at h)
]

-- What an identifier must be for a part of a path or a URL: not empty, short, no dots alone, and of
-- letters, digits and three marks only.
abbrev pub Holds : (ℕ → Type 0) → List ℕ → Type 0
Holds P [] = Unit
Holds P (c ∷ s) = P c × Holds P s

abbrev pub IsPlain : ℕ → Type 0
IsPlain c = (c ≢ b'/') × (c ≢ b'\\') × (c ≢ b':') × (c ≢ b'%') × (33 ≤ c) × (c ≤ 126)

all_of-Holds :
    (t : ℕ → Bool) (P : ℕ → Type 0) (s : List ℕ)
    → ((c : ℕ) → t c ≡ true → P c)
    → all_of t s ≡ true
    → Holds P s
all_of-Holds t P [] each h = tt
all_of-Holds t P (c ∷ s) each h =
    (each c (ground (arith, h)), all_of-Holds t P s each (ground (arith, h)))

is_identifier_byte-IsPlain : (c : ℕ) → is_identifier_byte c ≡ true → IsPlain c
is_identifier_byte-IsPlain c h = ground (arith, h)

-- An identifier that is accepted is not empty, has at most 200 bytes, is neither "." nor "..", and
-- has no separator of paths, colon, percent sign, space or control character.
pub validate_identifier-IsPlain :
    (s : List ℕ)
    → validate_identifier s ≡ true
    → (s ≢ []) × (length s ≤ 200) × (s ≢ b'.' ∷ []) × (s ≢ b'.' ∷ b'.' ∷ []) × Holds IsPlain s
unfolding validate_identifier
validate_identifier-IsPlain s h = (
  λ e. ground (arith, (rw e at h)),
  ground (arith, h),
  λ e. ground (arith, (rw e at h)),
  λ e. ground (arith, (rw e at h)),
  all_of-Holds is_identifier_byte IsPlain s is_identifier_byte-IsPlain (ground (arith, h)),
)
