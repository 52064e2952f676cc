-- ===== src/Net/Recovers.antt =====
-- Downloads of src/client.rs that break off and are resumed.
use terrence_agent.Prelude.{
  ℕ, suc, ◌+◌, ◌≤◌, ◌≡◌, refl, sym, ap, ◌∙◌, Bool, true, false, Option, some, List, [], ◌∷◌, ◌++◌,
  arith, length, drop, length-append, append-nil, append_assoc, ltb, ◌==◌, ◌⊎◌, inl, inr,
  Bool-cases, Option-cases,
}
use terrence_agent.Net.Download.{
  max_artifact_bytes, Response, Exchange, no_response, response, Server, Failure, http, network,
  Download, downloaded, is_success, is_transient, range_of, kept, is_bad_range, exceeds, receive,
  finish_body, read_body, on_response, on_exchange, attempt_download, get_artifact_retry,
}
use terrence_agent.Net.Honest.{concat, Sends, IsPrefix, kept-ok, kept-partial, drop-append}

-- The body is announced as no longer than what is sent.
abbrev pub Announces : List ℕ → Response → Type 0
Announces c r = (m : ℕ) → r.content_length ≡ some m → m ≤ length c

-- A success is an OK with the artifact, or a partial content from the offset that was asked for.
abbrev pub AnswersWith : List ℕ → Option ℕ → Response → Type 0
AnswersWith c asked r =
    ((r.status ≡ 200) × Sends c r × Announces c r)
    ⊎ ((n : ℕ) × (asked ≡ some n)
        × (r.status ≡ 206)
        × (r.range_start ≡ some n)
        × Sends (drop n c) r
        × Announces (drop n c) r)

-- A network error, a transient status, or a success.
abbrev pub IsReliableExchange : List ℕ → Option ℕ → Exchange → Type 0
IsReliableExchange c asked no_response = Unit
IsReliableExchange c asked (response r) =
    (is_transient r.status ≡ true) ⊎ ((is_success r.status ≡ true) × AnswersWith c asked r)

abbrev pub IsReliable : List ℕ → Server → Type 0
IsReliable c s = (a : ℕ) (asked : Option ℕ) → IsReliableExchange c asked (s a asked)

-- A success whose body does not break off.
abbrev pub IsWhole : Exchange → Type 0
IsWhole no_response = ⊥
IsWhole (response r) = (is_success r.status ≡ true) × (r.complete ≡ true)

receive-some :
    (cs : List (List ℕ)) (o : List ℕ)
    → length o + length (concat cs) ≤ max_artifact_bytes
    → receive cs o ≡ some (o ++ concat cs)
unfolding receive
receive-some [] o le = rw append-nil refl
receive-some (c ∷ cs) o le =
    let whole = length-append c (concat cs) in
    let rest = receive-some cs (o ++ c) (omega (arith, length-append o c, whole, le)) in
    elim (Bool-cases (ltb max_artifact_bytes (length o + length c))) [
      | inl big ↦ ground (arith, whole)
      | inr small ↦ rw (receive, small, rest, append_assoc) refl
    ]

-- What a response continues: the bytes that are kept, and those that follow.
record Continues (c o : List ℕ) (r : Response) : Type 0 where
  rest : List ℕ
  prefix : kept r.status o ++ rest ≡ c
  sends : Sends rest r
  range : is_bad_range r (kept r.status o) ≡ false
  announced : Announces rest r

range_of-length : (o : List ℕ) (n : ℕ) → range_of o ≡ some n → length o ≡ n
unfolding range_of
range_of-length [] n h = ground arith
range_of-length (x ∷ o) n h = ground arith

ok_range : (r : Response) → is_bad_range r [] ≡ false
unfolding is_bad_range
ok_range r = refl

partial_range :
    (r : Response) (o : List ℕ) → r.range_start ≡ some (length o) → is_bad_range r o ≡ false
unfolding is_bad_range
partial_range r o h = ground arith

answer-Continues :
    (c o : List ℕ) (r : Response) → IsPrefix c o → AnswersWith c (range_of o) r → Continues c o r
answer-Continues c o r p (inl (ok, sends, announced)) =
    let none_kept = kept-ok r.status o ok in
    record {
      rest = c;
      prefix = rw none_kept refl;
      sends = sends;
      range = rw none_kept (ok_range r);
      announced = announced;
    }
answer-Continues c o r (rest, p) (inr (n, asked, partial, start, sends, announced)) =
    let all_kept = kept-partial r.status o partial in
    let len = range_of-length o n asked in
    let tail : drop n c ≡ rest = rw (sym len, sym p) (drop-append o rest) in
    record {
      rest = rest;
      prefix = rw all_kept p;
      sends = rw tail at sends;
      range = rw all_kept (partial_range r o (rw len start));
      announced = rw tail at announced;
    }

-- Either the artifact was downloaded, or the next attempt starts from a part of it.
abbrev Settles : List ℕ → (List ℕ → Failure → Download) → Download → Type 0
Settles c again d =
    (d ≡ downloaded c) ⊎ ((b : List ℕ) × (e : Failure) × IsPrefix c b × (d ≡ again b e))

Continues-exceeds :
    (c o : List ℕ) (r : Response)
    → length c ≤ max_artifact_bytes
    → (k : Continues c o r) → exceeds r.content_length (length (kept r.status o)) ≡ false
Continues-exceeds c o r small k = elim (Option-cases r.content_length) [
  | inl unknown ↦ rw unknown refl
  | inr (m, known) ↦
      (let len = length-append (kept r.status o) k.rest in
        let total : length (kept r.status o) + length k.rest ≤ max_artifact_bytes =
          omega (arith, len, ap length k.prefix, small) in
        let le = k.announced m known in rw known (ground (arith, total, le)))
]

Continues-receive :
    (c o : List ℕ) (r : Response)
    → length c ≤ max_artifact_bytes
    → (k : Continues c o r)
    → (b : List ℕ) × (receive r.chunks (kept r.status o) ≡ some b)
      × IsPrefix c b
      × (r.complete ≡ true → b ≡ c)
Continues-receive c o r small k =
    let (left, sum, whole) = k.sends in
    let start = kept r.status o in
    let total : (start ++ concat r.chunks) ++ left ≡ c = rw (append_assoc, sum) k.prefix in
    let len = length-append (start ++ concat r.chunks) left in
    let len' = length-append start (concat r.chunks) in
    let fits : length start + length (concat r.chunks) ≤ max_artifact_bytes =
      omega (arith, len, len', ap length total, small) in
    (
      start ++ concat r.chunks,
      receive-some r.chunks start fits,
      (left, total),
      λ w. (let done = rw (whole w) at total in rw append-nil at done),
    )

module _ (c : List ℕ) (small : length c ≤ max_artifact_bytes)
    (again : List ℕ → Failure → Download) where
  read_body-Settles :
      (r : Response) (o : List ℕ)
      → Continues c o r
      → Settles c again (read_body again r (kept r.status o))
        × (r.complete ≡ true → read_body again r (kept r.status o) ≡ downloaded c)
  unfolding read_body finish_body
  read_body-Settles r o k =
      let (b, got, part, all) = Continues-receive c o r small k in
      let fits = Continues-exceeds c o r small k in
      rw (read_body, k.range, fits, got)
        (elim (Bool-cases r.complete) [
          | inl whole ↦
              (let same = all whole in rw (finish_body, whole, same) (inl refl, λ w. refl))
          | inr broken ↦ rw (finish_body, broken) (inr (b, network, part, refl), λ w. ground arith)
        ])

  on_response-Continues :
      (is_last : Bool) (r : Response) (o : List ℕ)
      → is_success r.status ≡ true
      → on_response is_last again r o ≡ read_body again r (kept r.status o)
  unfolding on_response
  on_response-Continues is_last r o fine = ground arith

  on_response-transient :
      (r : Response) (o : List ℕ)
      → is_transient r.status ≡ true
      → on_response false again r o ≡ again o (http r.status)
  unfolding on_response is_transient
  on_response-transient r o transient = ground arith

  on_exchange-Settles :
      (x : Exchange) (o : List ℕ)
      → IsPrefix c o
      → IsReliableExchange c (range_of o) x
      → Settles c again (on_exchange false again x o)
  unfolding on_exchange
  on_exchange-Settles no_response o p h = inr (o, network, p, refl)
  on_exchange-Settles (response r) o p (inl transient) =
      inr (o, http r.status, p, on_response-transient r o transient)
  on_exchange-Settles (response r) o p (inr (fine, answer)) =
      rw (on_response-Continues false r o fine)
        (read_body-Settles r o (answer-Continues c o r p answer)).0

  on_exchange-IsWhole :
      (is_last : Bool) (x : Exchange) (o : List ℕ)
      → IsPrefix c o
      → IsReliableExchange c (range_of o) x
      → IsWhole x
      → on_exchange is_last again x o ≡ downloaded c
  unfolding on_exchange is_transient
  on_exchange-IsWhole is_last no_response o p h whole = elim whole [ ]
  on_exchange-IsWhole is_last (response r) o p (inl transient) (fine, complete) = ground arith
  on_exchange-IsWhole is_last (response r) o p (inr (fine, answer)) (_, complete) =
      rw (on_response-Continues is_last r o fine)
        ((read_body-Settles r o (answer-Continues c o r p answer)).1 complete)

module _ (c : List ℕ) (small : length c ≤ max_artifact_bytes) (s : Server)
    (reliable : IsReliable c s) where
  last-downloaded :
      (o : List ℕ) (e : Failure)
      → ((asked : Option ℕ) → IsWhole (s 2 asked))
      → IsPrefix c o
      → attempt_download s 2 1 o e ≡ downloaded c
  unfolding attempt_download
  last-downloaded o e whole p =
      on_exchange-IsWhole c small _ true (s 2 (range_of o)) o p (reliable 2 (range_of o))
        (whole (range_of o))

  not_last : (n : ℕ) → (suc n == 0) ≡ false
  not_last n = ground arith

  earlier-downloaded :
      (a n : ℕ) (o : List ℕ) (e : Failure)
      → ((b : List ℕ) (f : Failure)
          → IsPrefix c b
          → attempt_download s (suc a) (suc n) b f ≡ downloaded c)
      → IsPrefix c o
      → attempt_download s a (suc (suc n)) o e ≡ downloaded c
  unfolding attempt_download
  earlier-downloaded a n o e next p =
      rw (attempt_download, not_last n)
        (elim (on_exchange-Settles c small (attempt_download s (suc a) (suc n)) (s a (range_of o)) o
          p (reliable a (range_of o))) [
            | inl done ↦ done
            | inr (b, f, part, again) ↦ again ∙ next b f part
          ])

-- A download of an artifact within the limit succeeds, and returns the artifact, if the server
-- answers the last of the three attempts in full: each earlier one may meet a network error, a
-- transient status or a body that breaks off anywhere.
pub get_artifact_retry-recovers :
    (c : List ℕ) (s : Server)
    → length c ≤ max_artifact_bytes
    → IsReliable c s
    → ((asked : Option ℕ) → IsWhole (s 2 asked))
    → get_artifact_retry s ≡ downloaded c
unfolding get_artifact_retry
get_artifact_retry-recovers c s small reliable whole =
    earlier-downloaded c small s reliable 0 1 [] _
      (λ b f p.
        earlier-downloaded c small s reliable 1 0 b f
          (λ b' f' p'. last-downloaded c small s reliable b' f' whole p') p)
      (c, refl)
