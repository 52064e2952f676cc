-- ===== src/Net/Misplaced.antt =====
-- What the two downloads of src/client.rs do with a partial content that starts at a wrong byte.
use terrence_agent.Prelude.{
  ℕ, ◌+◌, ◌≤◌, ◌≡◌, arith, true, false, none, some, List, [], ◌∷◌, length, ltb,
}
use terrence_agent.Net.Download.{Response, Download, max_artifact_bytes}

-- An OK whose body breaks off after some bytes.
abbrev pub broken_off : List ℕ → Response
broken_off p = record {
  status = 200;
  range_start = none;
  content_length = none;
  chunks = p ∷ [];
  complete = false;
}

-- A partial content from a byte on.
abbrev pub part_from : ℕ → List ℕ → Response
part_from n q = record {
  status = 206;
  range_start = some n;
  content_length = none;
  chunks = q ∷ [];
  complete = true;
}

module _ (x : ℕ) (p : List ℕ) where
  small :
      (q : List ℕ)
      → length (x ∷ p) + length q ≤ max_artifact_bytes
      → ltb max_artifact_bytes (length (x ∷ p)) ≡ false
  small q fits = ground (arith, fits)
