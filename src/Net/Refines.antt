-- ===== src/Net/Refines.antt =====
-- The download into a file and the download into memory of src/client.rs.
use terrence_agent.Prelude.{
  ℕ, zero, suc, ◌+◌, ◌≡◌, refl, sym, ap, arith, Bool, true, Option, none, some, List, [], ◌∷◌, ◌++◌,
  length, ltb, ◌==◌, Bool-cases, inl, inr,
}
use terrence_agent.Net.Download.{
  Response, Exchange, no_response, response, Server, Failure, http, network, transport, Download,
  downloaded, is_success, is_transient, kept, range_of, is_bad_range, exceeds, receive, finish_body,
  read_body, on_response, on_exchange, attempt_download, get_artifact_retry, max_artifact_bytes,
}
use terrence_agent.Net.File.{
  Disk, FileResult, saved, Written, written, bytes_of, write_chunks, finish_chunks, save_body,
  on_file_response, on_file_exchange, attempt_file, get_artifact_file,
}

-- Every file operation succeeds.
pub record IsHealthy (d : Disk) : Type 0 where
  pub opens : (a : ℕ) → d.opens a ≡ true
  pub syncs : (a : ℕ) → d.syncs a ≡ true
  pub whole : (a i : ℕ) → d.torn a i ≡ none

module _ (d : Disk) (healthy : IsHealthy d) where
  write_chunks-receive :
      (attempt index : ℕ) (cs : List (List ℕ)) (content out : List ℕ)
      → receive cs content ≡ some out
      → write_chunks d attempt index cs content ≡ written out
  unfolding write_chunks receive
  write_chunks-receive attempt index [] content out h = ground (arith, h)
  write_chunks-receive attempt index (c ∷ cs) content out h =
      elim (Bool-cases (ltb max_artifact_bytes (length content + length c))) [
        | inl big ↦ ground (arith, big, h)
        | inr fits ↦
            rw (write_chunks, fits, healthy.whole attempt index)
              (write_chunks-receive attempt (index + 1) cs (content ++ c) out
                (rw (receive, fits) at h))
      ]

  saved_same : {a b : List ℕ} → downloaded a ≡ downloaded b → a ≡ b
  saved_same h = cc

  -- What the attempts that are left download, they also save.
  abbrev Follows :
      (List ℕ → Failure → Download) → (Option (List ℕ) → Failure → FileResult) → List ℕ → Type 0
  Follows again again_file out =
      (output : List ℕ) (file : Option (List ℕ)) (e f : Failure)
      → bytes_of file ≡ output
      → again output e ≡ downloaded out
      → again_file file f ≡ saved out

  module _ (attempt : ℕ) (again : List ℕ → Failure → Download)
      (again_file : Option (List ℕ) → Failure → FileResult) (out : List ℕ)
      (follows : Follows again again_file out) where
    finish_chunks-finish_body :
        (r : Response) (o : Option (List ℕ)) (w : Written)
        → ((l : List ℕ) → o ≡ some l → w ≡ written l)
        → finish_body again r o ≡ downloaded out
        → finish_chunks d attempt again_file r w ≡ saved out
    unfolding finish_body finish_chunks
    finish_chunks-finish_body r none w same h = ground (arith, h)
    finish_chunks-finish_body r (some output) w same h = elim (Bool-cases r.complete) [
      | inl whole ↦
          rw (same output refl) (
            rw (finish_chunks, healthy.syncs attempt, whole)
              (ap saved (saved_same (rw whole at h))))
      | inr part ↦ rw (same output refl) (
          rw (finish_chunks, healthy.syncs attempt, part)
            (follows output (some output) network network refl (rw part at h)))
    ]

    save_body-read_body :
        (r : Response) (file : Option (List ℕ))
        → read_body again r (kept r.status (bytes_of file)) ≡ downloaded out
        → save_body d attempt again_file r file ≡ saved out
    unfolding read_body save_body
    save_body-read_body r file h =
        let before : List ℕ = kept r.status (bytes_of file) in
        elim (Bool-cases (is_bad_range r before)) [
          | inl bad ↦ ground (arith, bad, h)
          | inr good ↦ elim (Bool-cases (exceeds r.content_length (length before))) [
            | inl big ↦ ground (arith, good, big, h)
            | inr fits ↦ rw (healthy.opens attempt) (
                finish_chunks-finish_body r (receive r.chunks before) _
                  (λ l got. write_chunks-receive attempt 0 r.chunks before l got)
                  (rw (good, fits) at h))
          ]
        ]

    on_file_response-on_response :
        (is_last : Bool) (r : Response) (file : Option (List ℕ))
        → on_response is_last again r (bytes_of file) ≡ downloaded out
        → on_file_response d attempt is_last again_file r file ≡ saved out
    unfolding on_response on_file_response
    on_file_response-on_response is_last r file h = elim (Bool-cases (r.status == 401)) [
      | inl denied ↦ ground (arith, denied, h)
      | inr allowed ↦ elim (Bool-cases (is_success r.status)) [
        | inl good ↦ rw (allowed, good) (save_body-read_body r file (rw (allowed, good) at h))
        | inr bad ↦ elim (Bool-cases is_last) [
          | inl ends ↦ ground (arith, allowed, bad, ends, h)
          | inr more ↦ elim (Bool-cases (is_transient r.status)) [
            | inl later ↦
                rw (allowed, bad, more)
                  (follows (bytes_of file) file (http r.status) (http r.status) refl
                    (rw (allowed, bad, more, later) at h))
            | inr never ↦ ground (arith, allowed, bad, never, h)
          ]
        ]
      ]
    ]

    on_file_exchange-on_exchange :
        (is_last : Bool) (x : Exchange) (file : Option (List ℕ))
        → on_exchange is_last again x (bytes_of file) ≡ downloaded out
        → on_file_exchange d attempt is_last again_file x file ≡ saved out
    unfolding on_exchange on_file_exchange
    on_file_exchange-on_exchange is_last no_response file h =
        follows (bytes_of file) file network network refl h
    on_file_exchange-on_exchange is_last (response r) file h =
        on_file_response-on_response is_last r file h

  attempt_file-attempt_download :
      (s : Server) (out : List ℕ) (left attempt : ℕ)
      → Follows (attempt_download s attempt left) (attempt_file s d attempt left) out
  unfolding attempt_file attempt_download
  attempt_file-attempt_download s out zero attempt output file e f same h = ground (arith, h)
  attempt_file-attempt_download s out (suc left) attempt output file e f same h =
      on_file_exchange-on_exchange attempt (attempt_download s (suc attempt) left)
        (attempt_file s d (suc attempt) left) out
        (attempt_file-attempt_download s out left (suc attempt)) (left == 0)
        (s attempt (range_of (bytes_of file))) file (rw (sym same) at h)

-- Where the download into memory returns an artifact, the download into a file that is not there
-- yet or is empty saves the same artifact, if every file operation succeeds.
pub get_artifact_file-get_artifact_retry :
    (s : Server) (d : Disk) (file : Option (List ℕ)) (out : List ℕ)
    → IsHealthy d
    → bytes_of file ≡ []
    → get_artifact_retry s ≡ downloaded out
    → get_artifact_file s d file ≡ saved out
unfolding get_artifact_retry get_artifact_file
get_artifact_file-get_artifact_retry s d file out healthy empty h =
    attempt_file-attempt_download d healthy s out 3 0 [] file transport transport empty h
