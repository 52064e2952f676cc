-- ===== src/Net/File.antt =====
-- `get_artifact_file` of src/client.rs: the download of an artifact into a file.
use terrence_agent.Prelude.{
  ℕ, zero, suc, ◌+◌, Bool, not, Option, none, some, List, [], ◌∷◌, ◌++◌, length, take, ltb, ◌==◌,
  if◌then◌else◌,
}
use terrence_agent.Net.Download.{
  Response, Exchange, no_response, response, Server, Failure, auth, http, network, transport,
  too_large, is_success, kept, range_of, max_artifact_bytes,
}

-- What the disk does, at an attempt: whether the file opens, whether it is synchronised, and at a
-- chunk of it, how many bytes a write that fails still leaves.
pub record Disk : Type 0 where
  pub opens : ℕ → Bool
  pub syncs : ℕ → Bool
  pub torn : ℕ → ℕ → Option ℕ

-- The result, and the bytes of the file, if there is one.
pub data FileResult : Type 0 where
  saved : List ℕ → FileResult
  not_saved : Failure → Option (List ℕ) → FileResult
  io_error : Option (List ℕ) → FileResult

-- How the loop over the body ends, with the bytes of the file.
pub data Written : Type 0 where
  written : List ℕ → Written
  over : List ℕ → Written
  broken : List ℕ → Written

abbrev pub bytes_of : Option (List ℕ) → List ℕ
bytes_of none = []
bytes_of (some l) = l

abbrev pub tear : Option ℕ → List ℕ → List ℕ → Written → Written
tear none content c rest = rest
tear (some n) content c rest = broken (content ++ take n c)

-- The loop over the chunks of the body.
unfoldable pub write_chunks : Disk → ℕ → ℕ → List (List ℕ) → List ℕ → Written
write_chunks d attempt index [] content = written content
write_chunks d attempt index (c ∷ cs) content =
    let rest = write_chunks d attempt (index + 1) cs (content ++ c) in
    if ltb max_artifact_bytes (length content + length c)
    then over content
    else tear (d.torn attempt index) content c rest

-- After the body: the file is synchronised; `again` is the next attempt.
unfoldable pub finish_chunks :
    Disk → ℕ → (Option (List ℕ) → Failure → FileResult) → Response → Written → FileResult
finish_chunks d attempt again r (over content) = not_saved too_large (some content)
finish_chunks d attempt again r (broken content) = io_error (some content)
finish_chunks d attempt again r (written content) =
    if not (d.syncs attempt)
    then io_error (some content)
    else if r.complete
    then saved content
    else again (some content) network

-- A body that is accepted: an OK truncates the file, anything else is appended.
unfoldable pub save_body :
    Disk → ℕ → (Option (List ℕ) → Failure → FileResult) → Response → Option (List ℕ) → FileResult
save_body d attempt again r file =
    if d.opens attempt
    then finish_chunks d attempt again r
        (write_chunks d attempt 0 r.chunks (kept r.status (bytes_of file)))
    else io_error file

unfoldable pub on_file_response :
    Disk
    → ℕ
    → Bool
    → (Option (List ℕ) → Failure → FileResult)
    → Response
    → Option (List ℕ)
    → FileResult
on_file_response d attempt is_last again r file =
    if r.status == 401
    then not_saved auth file
    else if not (is_success r.status)
    then (if is_last then not_saved (http r.status) file else again file (http r.status))
    else save_body d attempt again r file

unfoldable pub on_file_exchange :
    Disk
    → ℕ
    → Bool
    → (Option (List ℕ) → Failure → FileResult)
    → Exchange
    → Option (List ℕ)
    → FileResult
on_file_exchange d attempt is_last again no_response file = again file network
on_file_exchange d attempt is_last again (response r) file =
    on_file_response d attempt is_last again r file

-- The attempts that are left, from the file as it is and the last error.
unfoldable pub attempt_file : Server → Disk → ℕ → ℕ → Option (List ℕ) → Failure → FileResult
attempt_file s d attempt zero file last_error = not_saved last_error file
attempt_file s d attempt (suc left) file last_error =
    on_file_exchange d attempt (left == 0) (attempt_file s d (suc attempt) left)
      (s attempt (range_of (bytes_of file))) file

-- Three attempts, from a file that may be there.
unfoldable pub get_artifact_file : Server → Disk → Option (List ℕ) → FileResult
get_artifact_file s d file = attempt_file s d 0 3 file transport
