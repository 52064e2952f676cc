-- ===== src/Net/Honest.antt =====
-- What a download of src/client.rs returns.
use terrence_agent.Prelude.{
  ℕ, zero, suc, ◌+◌, ◌≤◌, ◌≡◌, refl, Bool, true, false, not, ◌||◌, Option, none, some, List, [],
  ◌∷◌, ◌++◌, arith, length, drop, length-append, append-nil, append_assoc, ltb, ◌==◌, ◌⊎◌, inl, inr,
  Option-cases, Bool-cases, sym,
}
use terrence_agent.Net.Download.{
  max_artifact_bytes, Response, Exchange, no_response, response, Server, Failure, http, network,
  Download, downloaded, failed, is_success, is_transient, has_bytes, range_of, kept, is_bad_range,
  receive, finish_body, read_body, exceeds, on_response, on_exchange, attempt_download,
  get_artifact_retry,
}

abbrev pub concat : List (List ℕ) → List ℕ
concat [] = []
concat (c ∷ cs) = c ++ concat cs

-- What a download returned satisfies a predicate.
abbrev Returns : (List ℕ → Type 0) → Download → Type 0
Returns Q (downloaded b) = Q b
Returns Q (failed e) = Unit

abbrev Body : (List ℕ → Type 0) → (List ℕ → Type 0) → Response → Option (List ℕ) → Type 0
Body I Q r none = Unit
Body I Q r (some b) = I b × (r.complete ≡ true → Q b)

module _ (I Q : List ℕ → Type 0) (again : List ℕ → Failure → Download)
    (next : (o : List ℕ) (e : Failure) → I o → Returns Q (again o e)) where
  finish_body-Returns :
      (r : Response) (b : Option (List ℕ)) → Body I Q r b → Returns Q (finish_body again r b)
  unfolding finish_body
  finish_body-Returns r none h = tt
  finish_body-Returns r (some b) (i, q) = elim (Bool-cases r.complete) [
    | inl whole ↦ rw (whole) (q whole)
    | inr part ↦ rw (part) (next b network i)
  ]

  read_body-Returns :
      (r : Response) (o : List ℕ)
      → (is_bad_range r o ≡ false → Body I Q r (receive r.chunks o))
      → Returns Q (read_body again r o)
  unfolding read_body
  read_body-Returns r o h = elim (Bool-cases (is_bad_range r o)) [
    | inl bad ↦ rw bad tt
    | inr good ↦ elim (Bool-cases (exceeds r.content_length (length o))) [
      | inl big ↦ rw (good, big) tt
      | inr small ↦ rw (good, small) (finish_body-Returns r (receive r.chunks o) (h good))
    ]
  ]

  on_exchange-Returns :
      (is_last : Bool) (x : Exchange) (o : List ℕ)
      → I o
      → ((r : Response)
          → x ≡ response r
          → is_success r.status ≡ true
          → is_bad_range r (kept r.status o) ≡ false
          → Body I Q r (receive r.chunks (kept r.status o)))
      → Returns Q (on_exchange is_last again x o)
  unfolding on_exchange on_response
  on_exchange-Returns is_last no_response o i h = next o network i
  on_exchange-Returns is_last (response r) o i h = elim (Bool-cases (r.status == 401)) [
    | inl denied ↦ rw denied tt
    | inr other ↦ elim (Bool-cases (is_success r.status)) [
      | inl fine ↦
          rw (other, fine) (read_body-Returns r (kept r.status o) (λ good. h r refl fine good))
      | inr error ↦ elim (Bool-cases (not (is_transient r.status) || is_last)) [
        | inl final ↦ rw (other, error, final) tt
        | inr later ↦ rw (other, error, later) (next o (http r.status) i)
      ]
    ]
  ]

module _ (I Q : List ℕ → Type 0) (s : Server)
    (step : (a : ℕ) (o : List ℕ) (r : Response)
      → I o
      → s a (range_of o) ≡ response r
      → is_success r.status ≡ true
      → is_bad_range r (kept r.status o) ≡ false
      → Body I Q r (receive r.chunks (kept r.status o))) where
  attempt_download-Returns :
      (a n : ℕ) (o : List ℕ) (e : Failure) → I o → Returns Q (attempt_download s a n o e)
  unfolding attempt_download
  attempt_download-Returns a zero o e i = tt
  attempt_download-Returns a (suc n) o e i =
      on_exchange-Returns I Q (attempt_download s (suc a) n)
        (λ o' e' i'. attempt_download-Returns (suc a) n o' e' i') (n == 0) (s a (range_of o)) o i
        (λ r. step a o r i)

receive-le-max :
    (cs : List (List ℕ)) (o b : List ℕ)
    → length o ≤ max_artifact_bytes
    → receive cs o ≡ some b
    → length b ≤ max_artifact_bytes
unfolding receive
receive-le-max [] o b le h = ground arith
receive-le-max (c ∷ cs) o b le h =
    elim (Bool-cases (ltb max_artifact_bytes (length o + length c))) [
      | inl big ↦ ground arith
      | inr small ↦ receive-le-max cs (o ++ c) b (ground (arith, length-append o c)) (ground arith)
    ]

pub receive-append :
    (cs : List (List ℕ)) (o b : List ℕ) → receive cs o ≡ some b → b ≡ o ++ concat cs
unfolding receive
receive-append [] o b h = rw append-nil (ground arith)
receive-append (c ∷ cs) o b h = elim (Bool-cases (ltb max_artifact_bytes (length o + length c))) [
  | inl big ↦ ground arith
  | inr small ↦ (let rest = receive-append cs (o ++ c) b (ground arith) in rw append_assoc at rest)
]

Returns-downloaded :
    (Q : List ℕ → Type 0) (d : Download) (b : List ℕ) → Returns Q d → d ≡ downloaded b → Q b
Returns-downloaded Q d b q h = rw h at q

abbrev IsSmall : List ℕ → Type 0
IsSmall b = length b ≤ max_artifact_bytes

IsSmall-Body : (r : Response) (o : List ℕ) → IsSmall o → Body IsSmall IsSmall r (receive r.chunks o)
IsSmall-Body r o le = elim (Option-cases (receive r.chunks o)) [
  | inl big ↦ rw big tt
  | inr got ↦
      (let fits = receive-le-max r.chunks o got.0 le got.1 in rw got.1 (fits, λ whole. fits))
]

kept-IsSmall : (status : ℕ) (o : List ℕ) → IsSmall o → IsSmall (kept status o)
unfolding kept
kept-IsSmall status o le = ground arith

-- A download returns at most the limit of bytes, whatever the server answers.
pub get_artifact_retry-le-max :
    (s : Server) (b : List ℕ) → get_artifact_retry s ≡ downloaded b → length b ≤ max_artifact_bytes
unfolding get_artifact_retry
get_artifact_retry-le-max s b h =
    Returns-downloaded IsSmall (get_artifact_retry s) b
      (attempt_download-Returns IsSmall IsSmall s
        (λ a o r le _ _ _. IsSmall-Body r (kept r.status o) (kept-IsSmall r.status o le)) 0 3 [] _
        (omega arith))
      h

-- The chunks of a body are a prefix of the bytes, and all of them if it is complete.
abbrev pub Sends : List ℕ → Response → Type 0
Sends c r = (rest : List ℕ) × (concat r.chunks ++ rest ≡ c) × (r.complete ≡ true → rest ≡ [])

-- A success is an OK with the artifact from its start, or a partial content from the offset that
-- the header names.
abbrev pub SendsFrom : List ℕ → Response → Type 0
SendsFrom c r =
    ((r.status ≡ 200) × Sends c r)
    ⊎ ((n : ℕ) × (r.status ≡ 206) × (r.range_start ≡ some n) × Sends (drop n c) r)

abbrev pub IsHonestExchange : List ℕ → Option ℕ → Exchange → Type 0
IsHonestExchange c asked no_response = Unit
IsHonestExchange c asked (response r) =
    is_success r.status ≡ true → SendsFrom c r × (asked ≡ none → r.status ≡ 200)

-- A server of one artifact, which answers with a range only where one was asked for.
abbrev pub IsHonest : List ℕ → Server → Type 0
IsHonest c s = (a : ℕ) (asked : Option ℕ) → IsHonestExchange c asked (s a asked)

pub drop-append : (a b : List ℕ) → drop (length a) (a ++ b) ≡ b
drop-append [] b = refl
drop-append (x ∷ a) b = drop-append a b

abbrev pub IsPrefix : List ℕ → List ℕ → Type 0
IsPrefix c o = (rest : List ℕ) × (o ++ rest ≡ c)

Sends-Body :
    (c : List ℕ) (r : Response) (o rest : List ℕ)
    → o ++ rest ≡ c
    → Sends rest r
    → Body (IsPrefix c) (λ b. b ≡ c) r (receive r.chunks o)
Sends-Body c r o rest p (left, sum, whole) = elim (Option-cases (receive r.chunks o)) [
  | inl big ↦ rw big tt
  | inr (b, got) ↦
      (let app = receive-append r.chunks o b got in
        let total : b ++ left ≡ c = rw (app, append_assoc, sum) p in
        rw got (
          (left, total),
          λ w. (let none_left : b ++ [] ≡ c = rw (whole w) at total in rw append-nil at none_left),
        ))
]

-- A range that passes the check starts where the output ends.
good_range :
    (r : Response) (o : List ℕ) (n : ℕ)
    → r.status ≡ 206
    → r.range_start ≡ some n
    → has_bytes o ≡ true
    → is_bad_range r o ≡ false
    → n ≡ length o
unfolding is_bad_range
good_range r o n partial start more good = ground arith

asked_none : (o : List ℕ) → has_bytes o ≡ false → range_of o ≡ none
unfolding range_of
asked_none [] h = refl
asked_none (x ∷ o) h = ground arith

pub kept-ok : (status : ℕ) (o : List ℕ) → status ≡ 200 → kept status o ≡ []
unfolding kept
kept-ok status o ok = ground arith

pub kept-partial : (status : ℕ) (o : List ℕ) → status ≡ 206 → kept status o ≡ o
unfolding kept
kept-partial status o partial = ground arith

-- A partial content is the answer to a request for the rest.
asked_rest :
    (o : List ℕ) (status : ℕ)
    → (range_of o ≡ none → status ≡ 200)
    → status ≡ 206
    → has_bytes o ≡ true
asked_rest o status all partial = elim (Bool-cases (has_bytes o)) [
  | inl more ↦ more
  | inr empty ↦ (let ok = all (asked_none o empty) in ground arith)
]

honest-Body :
    (c : List ℕ) (s : Server)
    → IsHonest c s
    → (a : ℕ) (o : List ℕ) (r : Response) → IsPrefix c o
    → s a (range_of o) ≡ response r
    → is_success r.status ≡ true
    → is_bad_range r (kept r.status o) ≡ false
    → Body (IsPrefix c) (λ b. b ≡ c) r (receive r.chunks (kept r.status o))
honest-Body c s honest a o r (rest, p) is_at fine good =
    let answer : IsHonestExchange c (range_of o) (response r) =
      rw is_at at (honest a (range_of o)) in
    elim ((answer fine).0) [
      | inl (ok, sends) ↦ rw (kept-ok r.status o ok) (Sends-Body c r [] c refl sends)
      | inr (n, partial, start, sends) ↦
          (let more = asked_rest o r.status (answer fine).1 partial in
            let same = kept-partial r.status o partial in
            let begins = good_range r o n partial start more (rw same at good) in
            let tail : drop n c ≡ rest = rw (begins, sym p) (drop-append o rest) in
            rw same (Sends-Body c r o rest p (rw tail at sends)))
    ]

-- From a server that sends parts of one artifact, in whatever pieces and with whatever failures,
-- a download that succeeds returns that artifact.
pub get_artifact_retry-honest :
    (c : List ℕ) (s : Server) (b : List ℕ)
    → IsHonest c s
    → get_artifact_retry s ≡ downloaded b
    → b ≡ c
unfolding get_artifact_retry
get_artifact_retry-honest c s b honest h =
    Returns-downloaded (λ o. o ≡ c) (get_artifact_retry s) b
      (attempt_download-Returns (IsPrefix c) (λ o. o ≡ c) s (honest-Body c s honest) 0 3 [] _
        (c, refl))
      h
