-- ===== src/Runner/Given.antt =====
-- Where the variables of the environment of src/runner.rs come from.
use terrence_agent.Prelude.{
  All, ℕ, ◌*◌, ◌≤◌, String, ◌≡◌, ◌≢◌, refl, sym, ◌∙◌, Bool, true, false, ◌||◌, Option, none, some,
  List, [], ◌∷◌, ◌++◌, append_assoc, if◌then◌else◌, str_eq, eq_iff, ltb, length, arith, Bool-cases,
  ◌⊎◌, inl, inr,
}
use text.Mathlib.Text.{is_le}
use Prim.Native.String.{compare}
use terrence_agent.Runner.Control.{Result, ok, err}
use terrence_agent.Runner.Rules.{Returns, Returns-ok}
use terrence_agent.Runner.Environment.{
  Variable, validate_environment_entry, is_reserved, put, put_new, delete, copy_variables,
  add_address, apply_cache, place, sort_values, total_bytes, exceeds_arg_max, check_size, then_ok,
  execution_environment,
}

module _ (P : Variable → Type 0) where
  put-All : (e : Variable) (l : List Variable) → P e → All P l → All P (put e l)
  unfolding put
  put-All e [] p h = (p, tt)
  put-All e (d ∷ l) p h = elim (Bool-cases (str_eq d.0 e.0)) [
    | inl same ↦ rw (put, same) (p, h.1)
    | inr other ↦ rw (put, other) (h.0, put-All e l p h.1)
  ]

  put_new-All : (e : Variable) (l : List Variable) → P e → All P l → All P (put_new e l)
  unfolding put_new
  put_new-All e [] p h = (p, tt)
  put_new-All e (d ∷ l) p h = elim (Bool-cases (str_eq d.0 e.0)) [
    | inl same ↦ rw (put_new, same) h
    | inr other ↦ rw (put_new, other) (h.0, put_new-All e l p h.1)
  ]

  place-All : (e : Variable) (l : List Variable) → P e → All P l → All P (place e l)
  unfolding place
  place-All e [] p h = (p, tt)
  place-All e (d ∷ l) p h = elim (Bool-cases (is_le (compare e.0 d.0))) [
    | inl here ↦ rw (place, here) (p, h)
    | inr later ↦ rw (place, later) (h.0, place-All e l p h.1)
  ]

  sort_values-All : (l : List Variable) → All P l → All P (sort_values l)
  unfolding sort_values
  sort_values-All [] h = tt
  sort_values-All (e ∷ l) h = place-All e (sort_values l) h.0 (sort_values-All l h.1)

  -- What is left after a deletion has another name.
  delete-All :
      (Q : Variable → Type 0) (key : String) (l : List Variable)
      → ((e : Variable) → P e → e.0 ≢ key → Q e)
      → All P l
      → All Q (delete key l)
  unfolding delete
  delete-All Q key [] keep h = tt
  delete-All Q key (d ∷ l) keep h = elim (Bool-cases (str_eq d.0 key)) [
    | inl same ↦ rw (delete, same) (delete-All Q key l keep h.1)
    | inr other ↦
        rw (delete, other)
          (
            keep d h.0 (λ e. ground (arith, (eq_iff d.0 key).1 e, other)),
            delete-All Q key l keep h.1,
          )
  ]

then_ok-Returns :
    {A B : Type 0} (P : A → Type 0) (Q : B → Type 0) (r : Result A) (f : A → Result B)
    → Returns P r
    → ((a : A) → P a → Returns Q (f a))
    → Returns Q (then_ok r f)
then_ok-Returns P Q (ok a) f p h = h a p
then_ok-Returns P Q (err e) f p h = tt

module _ (variables : List Variable) (address : Option String) (config_file : String)
    (cache : Result (Option String)) where
  -- A variable of the job that is valid and that a job may set.
  abbrev pub IsJobs : Variable → Type 0
  IsJobs e =
      (validate_environment_entry e ≡ true)
      × (is_reserved e.0 ≡ false)
      × ((before after : List Variable) × (variables ≡ before ++ (e ∷ after)))

  -- The agent's own variables: the configuration file and the address.
  abbrev pub IsAgents : Variable → Type 0
  IsAgents e =
      ((e.0 ≡ "TF_CLI_CONFIG_FILE") × (e.1 ≡ config_file))
      ⊎ ((e.0 ≡ "TERRENCE_ADDRESS") × (address ≡ some e.1))

  abbrev IsEarly : Variable → Type 0
  IsEarly e = IsJobs e ⊎ IsAgents e

  -- A variable that commands may see.
  abbrev pub IsGiven : Variable → Type 0
  IsGiven e =
      (IsEarly e × (e.0 ≢ "TF_PLUGIN_CACHE_DIR"))
      ⊎ ((e.0 ≡ "TF_PLUGIN_CACHE_DIR") × (cache ≡ ok (some e.1)))

  copied :
      (e : Variable) (env : List Variable) (b : Bool)
      → is_reserved e.0 ≡ b
      → (is_reserved e.0 ≡ false → IsJobs e)
      → All IsEarly env
      → All IsEarly (if b then env else put e env)
  copied e env true kind fine h = h
  copied e env false kind fine h = put-All IsEarly e env (inl (fine kind)) h

  copy_variables-All :
      (before l env : List Variable)
      → variables ≡ before ++ l
      → All IsEarly env
      → Returns (All IsEarly) (copy_variables l env)
  unfolding copy_variables
  copy_variables-All before [] env whole h = h
  copy_variables-All before (e ∷ l) env whole h = elim (Bool-cases (validate_environment_entry e)) [
    | inr bad ↦ rw (copy_variables, bad) tt
    | inl valid ↦
        rw (copy_variables, valid)
          (copy_variables-All (before ++ (e ∷ [])) l _
            (whole ∙ sym (append_assoc before (e ∷ []) l))
            (copied e env (is_reserved e.0) refl (λ free. (valid, free, (before, l, whole))) h))
  ]

  add_address-All :
      (o : Option String) (env : List Variable)
      → address ≡ o
      → All IsEarly env
      → Returns (All IsEarly) (add_address o env)
  unfolding add_address
  add_address-All none env is_it h = h
  add_address-All (some a) env is_it h =
      elim (Bool-cases (validate_environment_entry ("TERRENCE_ADDRESS", a))) [
        | inr bad ↦ rw (add_address, bad) tt
        | inl valid ↦
            rw (add_address, valid)
              (put_new-All IsEarly ("TERRENCE_ADDRESS", a) env (inr (inr (refl, is_it))) h)
      ]

  left_over :
      (env : List Variable) → All IsEarly env → All IsGiven (delete "TF_PLUGIN_CACHE_DIR" env)
  left_over env h =
      delete-All IsEarly IsGiven "TF_PLUGIN_CACHE_DIR" env (λ e early other. inl (early, other)) h

  apply_cache-All :
      (sandbox : Bool) (r : Result (Option String)) (env : List Variable)
      → cache ≡ r
      → All IsEarly env
      → Returns (All IsGiven) (apply_cache sandbox r env)
  unfolding apply_cache
  apply_cache-All sandbox (err e) env is_it h = tt
  apply_cache-All sandbox (ok none) env is_it h = left_over env h
  apply_cache-All true (ok (some root)) env is_it h =
      put-All IsGiven ("TF_PLUGIN_CACHE_DIR", root) _ (inr (refl, is_it)) (left_over env h)
  apply_cache-All false (ok (some root)) env is_it h = tt

check_size-Returns :
    (P : Variable → Type 0) (arg_max : Option ℕ) (l : List Variable)
    → All P l
    → Returns
        (λ v. All P v × (length v ≤ 260) × (total_bytes v ≤ 512 * 1024))
        (check_size arg_max l)
unfolding check_size
check_size-Returns P arg_max l h =
    elim (Bool-cases (ltb 260 (length l) || ltb (512 * 1024) (total_bytes l))) [
      | inl big ↦ rw (check_size, big) tt
      | inr fits ↦ elim (Bool-cases (exceeds_arg_max arg_max (total_bytes l))) [
        | inl big ↦ rw (check_size, fits, big) tt
        | inr small ↦ rw (check_size, fits, small) (h, ground (arith, fits), ground (arith, fits))
      ]
    ]

-- Of an environment that is built, each variable is one of the job that is valid, no loader
-- variable and not one of the agent's names; or the agent's configuration file, the job's address,
-- or the agent's provider cache. There are at most 260 of them, of at most 512 KiB.
pub execution_environment-IsGiven :
    (variables : List Variable) (address : Option String) (config_file : String) (sandbox : Bool)
    (cache : Result (Option String)) (arg_max : Option ℕ) (values : List Variable)
    → execution_environment variables address config_file sandbox cache arg_max ≡ ok values
    → All (IsGiven variables address config_file cache) values
      × (length values ≤ 260)
      × (total_bytes values ≤ 512 * 1024)
unfolding execution_environment
execution_environment-IsGiven variables address config_file sandbox cache arg_max values h =
    elim (Bool-cases (ltb 256 (length variables))) [
      | inl many ↦ ground (arith, many, h)
      | inr few ↦ Returns-ok _ _ values (rw (execution_environment, few) at h) (
          let E = IsEarly variables address config_file cache in
          let G = IsGiven variables address config_file cache in
          then_ok-Returns (All E) _ _ _
            (copy_variables-All variables address config_file cache [] variables [] refl tt)
            λ env early.
              then_ok-Returns (All E) _ _ _
                (add_address-All variables address config_file cache address _ refl (
                  put-All E ("TF_CLI_CONFIG_FILE", config_file) env (inr (inl (refl, refl))) early))
                λ with_address early_address.
                  then_ok-Returns (All G) _ _ _
                    (apply_cache-All variables address config_file cache sandbox cache with_address
                      refl early_address)
                    λ with_cache given.
                      check_size-Returns G arg_max _ (sort_values-All G with_cache given))
    ]
