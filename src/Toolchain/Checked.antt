-- ===== src/Toolchain/Checked.antt =====
-- What the tools that src/toolchain.rs resolves were checked for.
use terrence_agent.Prelude.{
  ℕ, String, ◌≡◌, refl, sym, ap, Bool, true, false, not, ◌&&◌, ◌||◌, Option, none, some, List, [],
  ◌∷◌, if◌then◌else◌, eq_iff, arith, Bool-cases, ◌⊎◌, inl, inr,
}
use terrence_agent.Toolchain.Versions.{same_codes, version_matches}
use terrence_agent.Toolchain.Resolve.{
  Platform, CacheMetadata, CacheEntry, CacheNode, absent, insecure, unfit, sound, Cached,
  not_cached, bad_entry, cached, is_sound, has_digest, is_requested, check_metadata, check_entry,
  cached_binary, ResolveEnv, Resolved, installed_binary, cache_entry, published, unresolved,
  publish_archive, finish, download, look_again, look_up, checksum_of, resolve_checksum, resolve,
}

same_codes_sound : (s t : List ℕ) → same_codes s t ≡ true → s ≡ t
same_codes_sound [] [] h = refl
same_codes_sound [] (d ∷ t) h = ground (arith, h)
same_codes_sound (c ∷ s) [] h = ground (arith, h)
same_codes_sound (c ∷ s) (d ∷ t) h = grind (arith, same_codes_sound s t, h)

has_digest-some : (o : Option (List ℕ)) (x : List ℕ) → has_digest o x ≡ true → o ≡ some x
has_digest-some none x h = ground (arith, h)
has_digest-some (some d) x h = ap some (same_codes_sound d x h)

-- The entry was made for the product, the platform and the archive; its executable has the digest
-- that was recorded, and reports the version.
pub record IsChecked (platform : Platform) (product : String) (requested checksum : List ℕ)
    (e : CacheEntry) : Type 0 where
  pub metadata : CacheMetadata
  pub is_metadata : e.metadata ≡ some metadata
  pub product_of : metadata.product ≡ product
  pub os_of : metadata.os ≡ platform.os
  pub arch_of : metadata.arch ≡ platform.arch
  pub archive_of : metadata.archive_sha256 ≡ checksum
  pub digest_of : e.digest ≡ some metadata.executable_sha256
  pub version_of : version_matches requested e.version ≡ true
  pub is_directory : e.directory ≡ sound
  pub is_executable : e.executable ≡ sound

is_sound-sound : (n : CacheNode) → is_sound n ≡ true → n ≡ sound
is_sound-sound absent h = ground (arith, h)
is_sound-sound insecure h = ground (arith, h)
is_sound-sound unfit h = ground (arith, h)
is_sound-sound sound h = refl

same_entry : {a b : CacheEntry} → cached a ≡ cached b → a ≡ b
same_entry h = cc

module _ (platform : Platform) (product : String) (requested checksum : List ℕ) where
  check_metadata-IsChecked :
      (e f : CacheEntry) (o : Option CacheMetadata)
      → e.metadata ≡ o
      → e.directory ≡ sound
      → e.executable ≡ sound
      → check_metadata platform product requested checksum e o ≡ cached f
      → IsChecked platform product requested checksum f
  unfolding check_metadata is_requested
  check_metadata-IsChecked e f none is_it dir exe h = ground (arith, h)
  check_metadata-IsChecked e f (some m) is_it dir exe h =
      elim (Bool-cases (is_requested platform product checksum m)) [
        | inr other ↦ ground (arith, other, h)
        | inl same ↦ elim (Bool-cases (has_digest e.digest m.executable_sha256)) [
          | inr changed ↦ ground (arith, same, changed, h)
          | inl kept ↦ elim (Bool-cases (version_matches requested e.version)) [
            | inr older ↦ ground (arith, same, kept, older, h)
            | inl matching ↦
                rw (sym (same_entry (rw (check_metadata, same, kept, matching) at h))) (record {
                  metadata = m;
                  is_metadata = is_it;
                  product_of = ground (arith, same, eq_iff m.product product);
                  os_of = ground (arith, same, eq_iff m.os platform.os);
                  arch_of = ground (arith, same, eq_iff m.arch platform.arch);
                  archive_of = same_codes_sound _ _ (ground (arith, same));
                  digest_of = has_digest-some _ _ kept;
                  version_of = matching;
                  is_directory = dir;
                  is_executable = exe;
                })
          ]
        ]
      ]

  check_entry-IsChecked :
      (e f : CacheEntry)
      → e.directory ≡ sound
      → check_entry platform product requested checksum e ≡ cached f
      → IsChecked platform product requested checksum f
  unfolding check_entry
  check_entry-IsChecked e f dir h =
      elim (Bool-cases (is_sound e.executable && is_sound e.metadata_file)) [
        | inr bad ↦ ground (arith, bad, h)
        | inl good ↦
            check_metadata-IsChecked e f e.metadata refl dir
              (is_sound-sound e.executable (ground (arith, good))) (rw (check_entry, good) at h)
      ]

  CacheNode-cases : (n : CacheNode) → (n ≡ sound) ⊎ ((n ≡ absent) ⊎ ((n ≡ insecure) ⊎ (n ≡ unfit)))
  CacheNode-cases sound = inl refl
  CacheNode-cases absent = inr (inl refl)
  CacheNode-cases insecure = inr (inr (inl refl))
  CacheNode-cases unfit = inr (inr (inr refl))

  cached_binary-IsChecked :
      (e f : CacheEntry)
      → cached_binary platform product requested checksum e ≡ cached f
      → IsChecked platform product requested checksum f
  unfolding cached_binary
  cached_binary-IsChecked e f h = elim (CacheNode-cases e.directory) [
    | inr bad ↦ ground (arith, bad, h)
    | inl dir ↦ check_entry-IsChecked e f dir (rw (cached_binary, dir) at h)
  ]

-- What a resolution answers: an installed binary of the version; or a checked entry of the cache; or
-- one that was checked after an archive with the checksum of the release was put there.
abbrev pub IsResolved : Platform → ResolveEnv → Bool → String → List ℕ → Resolved → Type 0
IsResolved platform v installed product requested unresolved = Unit
IsResolved platform v installed product requested installed_binary =
    (installed ≡ true)
    × (v.valid_installed ≡ true)
    × (version_matches requested v.installed_version ≡ true)
IsResolved platform v installed product requested (cache_entry e) =
    (checksum : List ℕ) × (checksum_of v.release ≡ some checksum)
    × IsChecked platform product requested checksum e
IsResolved platform v installed product requested (published e) =
    (checksum : List ℕ) × (checksum_of v.release ≡ some checksum)
    × (v.archive ≡ some checksum)
    × IsChecked platform product requested checksum e

module _ (platform : Platform) (v : ResolveEnv) (installed : Bool) (product : String)
    (requested : List ℕ) where
  Fine : Resolved → Type 0
  Fine r = IsResolved platform v installed product requested r

  unless-IsResolved : (b : Bool) (r : Resolved) → Fine r → Fine (if not b then unresolved else r)
  unfolding Fine
  unless-IsResolved true r fine = fine
  unless-IsResolved false r fine = tt

  module _ (checksum : List ℕ) (release : checksum_of v.release ≡ some checksum) where
    finish-IsResolved :
        (c : Cached)
        → v.archive ≡ some checksum
        → ((f : CacheEntry) → c ≡ cached f → IsChecked platform product requested checksum f)
        → Fine (finish c)
    unfolding finish Fine
    finish-IsResolved not_cached a h = tt
    finish-IsResolved bad_entry a h = tt
    finish-IsResolved (cached e) a h = (checksum, release, a, h e refl)

    download-IsResolved : Fine (download platform v product requested checksum)
    unfolding download Fine
    download-IsResolved = elim (Bool-cases (has_digest v.archive checksum)) [
      | inr other ↦ rw (download, other) tt
      | inl same ↦ elim (Bool-cases (publish_archive requested v.unpacked v.writes_metadata)) [
        | inr lost ↦ rw (download, same, lost) tt
        | inl there ↦ elim (Bool-cases (v.appeared || not v.renames)) [
          | inl late ↦ rw (download, same, there, late) tt
          | inr renamed ↦
              rw (download, same, there, renamed)
                (finish-IsResolved (cached_binary platform product requested checksum v.third)
                  (has_digest-some v.archive checksum same)
                  (λ f. cached_binary-IsChecked platform product requested checksum v.third f))
        ]
      ]
    ]

    look_again-IsResolved :
        (c : Cached)
        → ((f : CacheEntry) → c ≡ cached f → IsChecked platform product requested checksum f)
        → Fine (look_again platform v product requested checksum c)
    unfolding look_again Fine
    look_again-IsResolved not_cached h = download-IsResolved
    look_again-IsResolved bad_entry h = tt
    look_again-IsResolved (cached e) h = (checksum, release, h e refl)

    look_up-IsResolved :
        (c : Cached)
        → ((f : CacheEntry) → c ≡ cached f → IsChecked platform product requested checksum f)
        → Fine (look_up platform v product requested checksum c)
    unfolding look_up Fine
    look_up-IsResolved not_cached h = unless-IsResolved v.locks _ (
        look_again-IsResolved (cached_binary platform product requested checksum v.second)
          (λ f. cached_binary-IsChecked platform product requested checksum v.second f))
    look_up-IsResolved bad_entry h = tt
    look_up-IsResolved (cached e) h = (checksum, release, h e refl)

  resolve_checksum-IsResolved :
      (o : Option (List ℕ))
      → checksum_of v.release ≡ o
      → Fine (resolve_checksum platform v product requested o)
  unfolding resolve_checksum Fine
  resolve_checksum-IsResolved none release = tt
  resolve_checksum-IsResolved (some checksum) release = unless-IsResolved v.directories _ (
      look_up-IsResolved checksum release
        (cached_binary platform product requested checksum v.first)
        (λ f. cached_binary-IsChecked platform product requested checksum v.first f))

-- A tool that is resolved is the installed one, if that is valid and of the version; or an entry of
-- the cache that was made for the product, the platform and the checksum of the release, whose
-- executable has the digest recorded and reports the version; or one like that, put there from an
-- archive with that checksum.
pub resolve-IsResolved :
    (platform : Platform) (v : ResolveEnv) (installed : Bool) (product : String)
    (requested : List ℕ)
    → IsResolved platform v installed product requested
        (resolve platform v installed product requested)
unfolding resolve Fine
resolve-IsResolved platform v installed product requested =
    elim (Bool-cases (installed && not v.valid_installed)) [
      | inl bad ↦ rw (resolve, bad) tt
      | inr fine ↦ elim (Bool-cases (installed && version_matches requested v.installed_version)) [
        | inl there ↦
            rw (resolve, fine, there)
              (ground (arith, there), ground (arith, fine, there), ground (arith, there))
        | inr other ↦
            rw (resolve, fine, other)
              (resolve_checksum-IsResolved platform v installed product requested
                (checksum_of v.release) refl)
      ]
    ]
