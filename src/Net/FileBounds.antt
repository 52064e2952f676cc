-- ===== src/Net/FileBounds.antt =====
-- The size of the file that `get_artifact_file` of src/client.rs leaves.
use terrence_agent.Prelude.{
  ℕ, zero, suc, ◌+◌, ◌≤◌, arith, Bool, Option, none, some, List, [], ◌∷◌, ◌++◌, length,
  length-append, take, ltb, ◌==◌, Bool-cases, inl, inr,
}
use terrence_agent.Net.Download.{
  Response, Exchange, no_response, response, Server, Failure, http, network, transport, is_success,
  kept, range_of, max_artifact_bytes,
}
use terrence_agent.Net.File.{
  Disk, FileResult, saved, not_saved, io_error, Written, written, over, broken, bytes_of, tear,
  write_chunks, finish_chunks, save_body, on_file_response, on_file_exchange, attempt_file,
  get_artifact_file,
}

-- The bytes of the file that a download leaves.
abbrev pub left_bytes : FileResult → List ℕ
left_bytes (saved l) = l
left_bytes (not_saved e o) = bytes_of o
left_bytes (io_error o) = bytes_of o

abbrev pub written_bytes : Written → List ℕ
written_bytes (written l) = l
written_bytes (over l) = l
written_bytes (broken l) = l

abbrev pub Fits : List ℕ → Type 0
Fits l = length l ≤ max_artifact_bytes

length-take-le : (n : ℕ) (l : List ℕ) → length (take n l) ≤ length l
length-take-le zero l = omega arith
length-take-le (suc n) [] = omega arith
length-take-le (suc n) (x ∷ l) = ground (arith, length-take-le n l)

tear-Fits :
    (o : Option ℕ) (content c : List ℕ) (w : Written)
    → length content + length c ≤ max_artifact_bytes
    → Fits (written_bytes w)
    → Fits (written_bytes (tear o content c w))
tear-Fits none content c w small h = h
tear-Fits (some n) content c w small h =
    rw (length-append content (take n c)) (ground (arith, length-take-le n c, small))

write_chunks-Fits :
    (d : Disk) (attempt index : ℕ) (cs : List (List ℕ)) (content : List ℕ)
    → Fits content
    → Fits (written_bytes (write_chunks d attempt index cs content))
unfolding write_chunks
write_chunks-Fits d attempt index [] content h = h
write_chunks-Fits d attempt index (c ∷ cs) content h =
    elim (Bool-cases (ltb max_artifact_bytes (length content + length c))) [
      | inl big ↦ rw (write_chunks, big) h
      | inr small ↦
          rw (write_chunks, small)
            (tear-Fits (d.torn attempt index) content c _ (ground (arith, small)) (
              write_chunks-Fits d attempt (index + 1) cs (content ++ c)
                (rw (length-append content c) (ground (arith, small)))))
    ]

kept-Fits : (status : ℕ) (l : List ℕ) → Fits l → Fits (kept status l)
unfolding kept
kept-Fits status l h = elim (Bool-cases (status == 200)) [
  | inl all ↦ rw (kept, all) (omega arith)
  | inr part ↦ rw (kept, part) h
]

-- Attempts from a file within the limit leave one within the limit.
abbrev Bounded : (Option (List ℕ) → Failure → FileResult) → Type 0
Bounded again =
    (file : Option (List ℕ)) (e : Failure) → Fits (bytes_of file) → Fits (left_bytes (again file e))

module _ (d : Disk) (attempt : ℕ) (again : Option (List ℕ) → Failure → FileResult)
    (bounded : Bounded again) where
  finish_chunks-Fits :
      (r : Response) (w : Written)
      → Fits (written_bytes w)
      → Fits (left_bytes (finish_chunks d attempt again r w))
  unfolding finish_chunks
  finish_chunks-Fits r (over l) h = h
  finish_chunks-Fits r (broken l) h = h
  finish_chunks-Fits r (written l) h = elim (Bool-cases (d.syncs attempt)) [
    | inr lost ↦ rw (finish_chunks, lost) h
    | inl synced ↦ elim (Bool-cases r.complete) [
      | inl whole ↦ rw (finish_chunks, synced, whole) h
      | inr part ↦ rw (finish_chunks, synced, part) (bounded (some l) network h)
    ]
  ]

  save_body-Fits :
      (r : Response) (file : Option (List ℕ))
      → Fits (bytes_of file)
      → Fits (left_bytes (save_body d attempt again r file))
  unfolding save_body
  save_body-Fits r file h = elim (Bool-cases (d.opens attempt)) [
    | inl opened ↦
        rw (save_body, opened)
          (finish_chunks-Fits r _
            (write_chunks-Fits d attempt 0 r.chunks _ (kept-Fits r.status (bytes_of file) h)))
    | inr shut ↦ rw (save_body, shut) h
  ]

  on_file_response-Fits :
      (is_last : Bool) (r : Response) (file : Option (List ℕ))
      → Fits (bytes_of file)
      → Fits (left_bytes (on_file_response d attempt is_last again r file))
  unfolding on_file_response
  on_file_response-Fits is_last r file h = elim (Bool-cases (r.status == 401)) [
    | inl denied ↦ rw (on_file_response, denied) h
    | inr allowed ↦ elim (Bool-cases (is_success r.status)) [
      | inl good ↦ rw (on_file_response, allowed, good) (save_body-Fits r file h)
      | inr bad ↦ elim (Bool-cases is_last) [
        | inl ends ↦ rw (on_file_response, allowed, bad, ends) h
        | inr more ↦ rw (on_file_response, allowed, bad, more) (bounded file (http r.status) h)
      ]
    ]
  ]

  on_file_exchange-Fits :
      (is_last : Bool) (x : Exchange) (file : Option (List ℕ))
      → Fits (bytes_of file)
      → Fits (left_bytes (on_file_exchange d attempt is_last again x file))
  unfolding on_file_exchange
  on_file_exchange-Fits is_last no_response file h = bounded file network h
  on_file_exchange-Fits is_last (response r) file h = on_file_response-Fits is_last r file h

attempt_file-Fits :
    (s : Server) (d : Disk) (left attempt : ℕ) → Bounded (attempt_file s d attempt left)
unfolding attempt_file
attempt_file-Fits s d zero attempt file e h = h
attempt_file-Fits s d (suc left) attempt file e h =
    on_file_exchange-Fits d attempt (attempt_file s d (suc attempt) left)
      (attempt_file-Fits s d left (suc attempt)) (left == 0) (s attempt (range_of (bytes_of file)))
      file h

-- A download into a file within the limit leaves a file within the limit, whether it succeeds or
-- fails, and whatever the server answers and the disk does.
pub get_artifact_file-Fits :
    (s : Server) (d : Disk) (file : Option (List ℕ))
    → Fits (bytes_of file)
    → Fits (left_bytes (get_artifact_file s d file))
unfolding get_artifact_file
get_artifact_file-Fits s d file h = attempt_file-Fits s d 3 0 file transport h
