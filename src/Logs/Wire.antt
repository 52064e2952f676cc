-- ===== src/Logs/Wire.antt =====
-- What a sequence of log requests has delivered, and what `retry_log` of src/logs.rs adds to it.
use terrence_agent.Prelude.{
  ℕ, zero, suc, ◌≤◌, ◌≡◌, refl, Bool, true, false, ◌&&◌, List, [], ◌∷◌, ◌++◌, arith, if◌then◌else◌,
  Bool-cases, inl, inr,
}
use terrence_agent.Logs.Upload.{
  Method, patch, put, Upload, Env, Uploader, confirms, attempts, retry_log, sent,
}

abbrev pub is_patch : Method → Bool
is_patch patch = true
is_patch put = false

-- An acknowledged chunk.
abbrev pub counts : Upload → Bool
counts x = is_patch x.method && x.confirmed

-- The bytes of the acknowledged chunks, the oldest first.
abbrev pub delivered : List Upload → List ℕ
delivered [] = []
delivered (x ∷ w) = if counts x then delivered w ++ x.bytes else delivered w

-- One more than the sequence that was acknowledged last.
abbrev pub top : List Upload → ℕ
top [] = 0
top (x ∷ w) = if counts x then suc x.sequence else top w

-- Each acknowledged chunk has a larger sequence than those before it.
abbrev pub Rising : List Upload → Type 0
Rising [] = Unit
Rising (x ∷ w) = (counts x ≡ true → top w ≤ x.sequence) × Rising w

-- The parts of the uploader that a request leaves alone.
pub record SameSpool (u v : Uploader) : Type 0 where
  pub opened : v.spool_open ≡ u.spool_open
  pub spool : v.spool ≡ u.spool
  pub buffer : v.buffer ≡ u.buffer
  pub incomplete : v.incomplete ≡ u.incomplete
  pub last_acked : v.last_acked ≡ u.last_acked

attempts-SameSpool :
    (e : Env) (n : ℕ) (m : Method) (q : ℕ) (b : List ℕ) (u : Uploader)
    → SameSpool u (attempts e n m q b u).0
unfolding attempts
attempts-SameSpool e zero m q b u = ground arith
attempts-SameSpool e (suc n) m q b u =
    ground (arith, attempts-SameSpool e n m q b (sent m q b false u))

pub retry_log-SameSpool :
    (e : Env) (m : Method) (q : ℕ) (b : List ℕ) (u : Uploader) → SameSpool u (retry_log e m q b u).0
unfolding retry_log
retry_log-SameSpool e m q b u = attempts-SameSpool e 3 m q b u

-- The wire after a chunk was sent from `w`.
pub record PatchSent (q : ℕ) (b : List ℕ) (w : List Upload) (ok : Bool) (w' : List Upload)
    : Type 0 where
  pub rising : Rising w'
  pub bytes : delivered w' ≡ (if ok then delivered w ++ b else delivered w)
  pub last : top w' ≡ (if ok then suc q else top w)

attempts-PatchSent :
    (e : Env) (n q : ℕ) (b : List ℕ) (u : Uploader)
    → Rising u.wire
    → top u.wire ≤ q
    → PatchSent q b u.wire (attempts e n patch q b u).1 (attempts e n patch q b u).0.wire
unfolding attempts
attempts-PatchSent e zero q b u r t = record { rising = r; bytes = refl; last = refl }
attempts-PatchSent e (suc n) q b u r t = elim (Bool-cases (confirms q (e.reply u.calls))) [
  | inl y ↦ rw (y, attempts) (record { rising = (λ _. t, r); bytes = refl; last = refl })
  | inr x ↦
      rw (x, attempts)
        (let rec = attempts-PatchSent e n q b (sent patch q b false u) ((λ h. cc), r) t in
          record { rising = rec.rising; bytes = rec.bytes; last = rec.last })
]

pub retry_log-PatchSent :
    (e : Env) (q : ℕ) (b : List ℕ) (u : Uploader)
    → Rising u.wire
    → top u.wire ≤ q
    → PatchSent q b u.wire (retry_log e patch q b u).1 (retry_log e patch q b u).0.wire
unfolding retry_log
retry_log-PatchSent e q b u r t = attempts-PatchSent e 3 q b u r t

-- The terminator's request delivers no chunk.
pub record PutSent (w : List Upload) (w' : List Upload) : Type 0 where
  pub rising : Rising w'
  pub bytes : delivered w' ≡ delivered w
  pub last : top w' ≡ top w

attempts-PutSent :
    (e : Env) (n q : ℕ) (b : List ℕ) (u : Uploader)
    → Rising u.wire
    → PutSent u.wire (attempts e n put q b u).0.wire
unfolding attempts
attempts-PutSent e zero q b u r = record { rising = r; bytes = refl; last = refl }
attempts-PutSent e (suc n) q b u r = elim (Bool-cases (confirms q (e.reply u.calls))) [
  | inl y ↦ rw (y, attempts) (record { rising = ((λ h. cc), r); bytes = refl; last = refl })
  | inr x ↦
      rw (x, attempts)
        (let rec = attempts-PutSent e n q b (sent put q b false u) ((λ h. cc), r) in
          record { rising = rec.rising; bytes = rec.bytes; last = rec.last })
]

pub retry_log-PutSent :
    (e : Env) (q : ℕ) (b : List ℕ) (u : Uploader)
    → Rising u.wire
    → PutSent u.wire (retry_log e put q b u).0.wire
unfolding retry_log
retry_log-PutSent e q b u r = attempts-PutSent e 3 q b u r

-- An acknowledged request: three failures end with `false`, and success shows on the wire.
pub attempts-Confirmed :
    (e : Env) (n : ℕ) (m : Method) (q : ℕ) (b : List ℕ) (u : Uploader)
    → (attempts e n m q b u).1 ≡ true
    → (w : List Upload) × ((attempts e n m q b u).0.wire
        ≡ record { method = m; sequence = q; bytes = b; confirmed = true } ∷ w)
unfolding attempts
attempts-Confirmed e zero m q b u h = cc
attempts-Confirmed e (suc n) m q b u h = elim (Bool-cases (confirms q (e.reply u.calls))) [
  | inl y ↦ (u.wire, rw (y, attempts) refl)
  | inr x ↦
      rw (x, attempts) (attempts-Confirmed e n m q b (sent m q b false u) (rw (x, attempts) at h))
]
