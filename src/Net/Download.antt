-- ===== src/Net/Download.antt =====
-- `get_artifact_retry` of src/client.rs. What the server answers is an argument; the delays
-- between attempts, and the header that sets them, change no result.
use terrence_agent.Prelude.{
  ℕ, zero, suc, ◌+◌, ◌*◌, Bool, true, false, not, ◌&&◌, ◌||◌, Option, none, some, List, [], ◌∷◌,
  ◌++◌, length, ltb, leb, ◌==◌, if◌then◌else◌, saturating_add,
}

abbrev pub max_artifact_bytes : ℕ
max_artifact_bytes = 256 * 1024 * 1024

-- `chunks` are what the body yields; `complete` is false where it then times out or fails.
-- `range_start` is `n` where the Content-Range header starts with `bytes n-`.
pub record Response : Type 0 where
  pub status : ℕ
  pub range_start : Option ℕ
  pub content_length : Option ℕ
  pub chunks : List (List ℕ)
  pub complete : Bool

pub data Exchange : Type 0 where
  no_response : Exchange
  response : Response → Exchange

-- The answer at an attempt to a request for the bytes from an offset on, or for all.
abbrev pub Server : Type 0
Server = ℕ → Option ℕ → Exchange

pub data Failure : Type 0 where
  auth : Failure
  http : ℕ → Failure
  network transport too_large : Failure

pub data Download : Type 0 where
  downloaded : List ℕ → Download
  failed : Failure → Download

abbrev pub is_success : ℕ → Bool
is_success status = leb 200 status && ltb status 300

unfoldable pub is_transient : ℕ → Bool
is_transient status =
    status == 408
    || (status == 425
        || (status == 429
            || (status == 500 || (status == 502 || (status == 503 || status == 504)))))

abbrev pub has_bytes : List ℕ → Bool
has_bytes [] = false
has_bytes (x ∷ l) = true

-- The Range header.
unfoldable pub range_of : List ℕ → Option ℕ
range_of [] = none
range_of (x ∷ l) = some (length (x ∷ l))

-- An OK answers with the whole artifact.
unfoldable pub kept : ℕ → List ℕ → List ℕ
kept status output = if status == 200 then [] else output

abbrev pub starts_at : Option ℕ → ℕ → Bool
starts_at none n = false
starts_at (some m) n = m == n

unfoldable pub is_bad_range : Response → List ℕ → Bool
is_bad_range r output =
    has_bytes output && (r.status == 206 && not (starts_at r.range_start (length output)))

abbrev pub exceeds : Option ℕ → ℕ → Bool
exceeds none n = false
exceeds (some m) n = ltb max_artifact_bytes (saturating_add n m)

-- The loop over the body; `none` where the artifact becomes too large.
unfoldable pub receive : List (List ℕ) → List ℕ → Option (List ℕ)
receive [] output = some output
receive (c ∷ cs) output =
    let rest = receive cs (output ++ c) in
    if ltb max_artifact_bytes (length output + length c) then none else rest

-- After the body; `again` is the next attempt, from what was received and with the last error.
unfoldable pub finish_body : (List ℕ → Failure → Download) → Response → Option (List ℕ) → Download
finish_body again r none = failed too_large
finish_body again r (some output) = if r.complete then downloaded output else again output network

unfoldable pub read_body : (List ℕ → Failure → Download) → Response → List ℕ → Download
read_body again r output =
    if is_bad_range r output
    then failed transport
    else if exceeds r.content_length (length output)
    then failed too_large
    else finish_body again r (receive r.chunks output)

unfoldable pub on_response : Bool → (List ℕ → Failure → Download) → Response → List ℕ → Download
on_response is_last again r output =
    if r.status == 401
    then failed auth
    else if not (is_success r.status)
    then (if not (is_transient r.status) || is_last
        then failed (http r.status)
        else again output (http r.status))
    else read_body again r (kept r.status output)

unfoldable pub on_exchange : Bool → (List ℕ → Failure → Download) → Exchange → List ℕ → Download
on_exchange is_last again no_response output = again output network
on_exchange is_last again (response r) output = on_response is_last again r output

-- The attempts that are left, from what was received so far and the last error.
unfoldable pub attempt_download : Server → ℕ → ℕ → List ℕ → Failure → Download
attempt_download s attempt zero output last_error = failed last_error
attempt_download s attempt (suc left) output last_error =
    on_exchange (left == 0) (attempt_download s (suc attempt) left) (s attempt (range_of output))
      output

-- Three attempts.
unfoldable pub get_artifact_retry : Server → Download
get_artifact_retry s = attempt_download s 0 3 [] transport
