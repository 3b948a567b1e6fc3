-- ===== src/Provenance/Verify/Laws.antt =====
-- flightsql/provenance.py, verify: a result is returned only with the evidence for it.
use flightsql_dbapi.Prelude.{
  ℕ, ◌≡◌, refl, sym, ap, ◌∙◌, inl, inr, Bool, true, false, not, ◌||◌, Option, none, some, List, map,
  ◌==◌, eq_of_==, contains, bytes_eq, Bool-cases, if-true, if-false, or_left, or_right, unnegated,
}
use flightsql_dbapi.Prelude.Dict.{lookup}
use flightsql_dbapi.Prelude.Text.{codes, lower}
use flightsql_dbapi.Errors.{ok, ok_injective, bind_ok, passed, taken}
use flightsql_dbapi.Provenance.Hash.{string, DirectUrl, archive_sha256}
use flightsql_dbapi.Provenance.Source.{
  ParsedUrl, Urls, has_text, has_lower_text, verify_archive_source, normalized_repository,
  accepted_archive_urls, verify_vcs_source, verify_local_artifact_file,
}
use flightsql_dbapi.Provenance.Verify.{
  VerificationResult, has_member, text_or_error, object_or_error, verify_git, verify_source_archive,
  verify_local_artifact, verify_other, verify_without_vcs, verify_source,
}
use flightsql_dbapi.Provenance.Verify.Evidence.{Evidence, from_git, from_archive, from_file}
use flightsql_dbapi.Provenance.Verify.Reading.{
  has_text-eq, has_lower_text-Names, text_or_error-eq, object_or_error-eq, verify_archive_source-eq,
  Artifact, checked_artifact-Artifact,
}

module _ (urls : Urls) (repository commit : List ℕ) (hash : Option (List ℕ))
    (is_local_allowed : Bool) (version installer : List ℕ) (direct_url : DirectUrl) where
  verify_git-Evidence :
      (source_url : List ℕ) (r : VerificationResult)
      → verify_git urls repository commit hash is_local_allowed version installer source_url
          direct_url
        ≡ ok r
      → Evidence urls repository commit hash is_local_allowed version installer direct_url
          source_url r
  unfolding verify_git verify_vcs_source
  verify_git-Evidence source_url r e =
      let (info, e0, f0) = bind_ok (object_or_error (lookup (codes "vcs_info") direct_url)) _ r e in
      let (pure_vcs, f1) =
        passed
          (has_member (codes "archive_info") direct_url || has_member (codes "dir_info") direct_url)
          _ _ r f0 in
      let (done, e2, f2) =
        bind_ok (verify_vcs_source urls source_url info repository commit) _ r f1 in
      let (by_git, g0) =
        passed (not (has_text (lookup (codes "vcs") info) (codes "git"))) _ _ done e2 in
      let (source, s0, g1) = bind_ok (normalized_repository urls source_url) _ done g0 in
      let (expected, s1, g2) = bind_ok (normalized_repository urls repository) _ done g1 in
      let (same, g3) = passed (not (source == expected)) _ _ done g2 in
      let (at, g4) =
        passed (not (has_lower_text (lookup (codes "commit_id") info) commit)) _ _ done g3 in
      let (asked, g5) =
        passed (not (has_lower_text (lookup (codes "requested_revision") info) commit)) _ _ done
          g4 in
      from_git
        (record {
          info = info;
          base = expected;
          recorded = object_or_error-eq (lookup (codes "vcs_info") direct_url) info e0;
          not_archive = or_left _ _ pure_vcs;
          not_directory = or_right _ _ pure_vcs;
          by_git = has_text-eq (lookup (codes "vcs") info) (codes "git") (unnegated _ by_git);
          source_base = s0 ∙ ap ok (eq_of_== source expected (unnegated _ same));
          expected_base = s1;
          at_commit = has_lower_text-Names info (codes "commit_id") commit (unnegated _ at);
          requested =
              has_lower_text-Names info (codes "requested_revision") commit (unnegated _ asked);
        })
        (sym (ok_injective _ r f2))

  verify_source_archive-Evidence :
      (source_url : List ℕ) (accepted : List (List ℕ)) (r : VerificationResult)
      → has_member (codes "vcs_info") direct_url ≡ false
      → accepted_archive_urls urls repository commit ≡ ok accepted
      → contains (map lower accepted) (lower source_url) ≡ true
      → verify_source_archive urls repository commit hash is_local_allowed version installer
          direct_url
        ≡ ok r
      → Evidence urls repository commit hash is_local_allowed version installer direct_url
          source_url r
  unfolding verify_source_archive
  verify_source_archive-Evidence source_url accepted r no_vcs archives is_accepted e =
      let (no_dir, e0) = passed (has_member (codes "dir_info") direct_url) _ _ r e in
      let (digest, e1, f1) = bind_ok (verify_archive_source direct_url hash) _ r e0 in
      let (recorded, expected) = verify_archive_source-eq direct_url hash digest e1 in
      from_archive digest
        (record {
          accepted = accepted;
          not_vcs = no_vcs;
          not_directory = no_dir;
          archives = archives;
          is_accepted = is_accepted;
          is_expected = expected;
          recorded = recorded;
        })
        (sym (ok_injective _ r f1))

  local_file-Artifact :
      (source_url digest : List ℕ) (h : Option (List ℕ))
      → verify_local_artifact_file urls source_url h ≡ ok digest
      → (parsed : ParsedUrl) × (urls.urlparse source_url ≡ ok parsed)
        × (h ≡ some digest)
        × Artifact digest digest (urls.local_path parsed.path)
  unfolding verify_local_artifact_file
  local_file-Artifact source_url digest none e = cc
  local_file-Artifact source_url digest (some expected) e =
      let (parsed, e0, f0) = bind_ok (urls.urlparse source_url) _ digest e in
      let (plain, f1) = passed _ _ _ digest f0 in
      let (regular, plain_file, named, hashed, same) =
        checked_artifact-Artifact expected digest (urls.local_path parsed.path) f1 in
      (parsed, e0, ap some same, (regular, plain_file, named, hashed, refl))

  verify_local_artifact-Evidence :
      (source_url : List ℕ) (r : VerificationResult) (parsed : ParsedUrl)
      → has_member (codes "vcs_info") direct_url ≡ false
      → urls.urlparse source_url ≡ ok parsed
      → parsed.scheme ≡ codes "file"
      → verify_local_artifact urls repository commit hash is_local_allowed version installer
          source_url direct_url
        ≡ ok r
      → Evidence urls repository commit hash is_local_allowed version installer direct_url
          source_url r
  unfolding verify_local_artifact
  verify_local_artifact-Evidence source_url r parsed no_vcs parts by_file e =
      let (allowed, e0) = passed (not is_local_allowed) _ _ r e in
      let (no_dir, e1) = passed (has_member (codes "dir_info") direct_url) _ _ r e0 in
      let (recorded, e2, f2) = bind_ok (archive_sha256 direct_url) _ r e1 in
      let (digest, e3, f3) = bind_ok (verify_local_artifact_file urls source_url hash) _ r f2 in
      let (parsed', parts', expected, (regular, plain, named, hashed, same)) =
        local_file-Artifact source_url digest hash e3 in
      from_file digest
        (record {
          parsed = parsed';
          not_vcs = no_vcs;
          not_directory = no_dir;
          is_allowed = unnegated _ allowed;
          url_parts = parts';
          by_file = ap (λ p. p.scheme) (ok_injective parsed' parsed (sym parts' ∙ parts)) ∙ by_file;
          is_regular = regular;
          not_symlink = plain;
          artifact = named;
          is_expected = expected;
          actual = hashed;
        })
        (sym (ok_injective _ r f3))

  verify_other-Evidence :
      (source_url : List ℕ) (r : VerificationResult)
      → has_member (codes "vcs_info") direct_url ≡ false
      → verify_other urls repository commit hash is_local_allowed version installer source_url
          direct_url
        ≡ ok r
      → Evidence urls repository commit hash is_local_allowed version installer direct_url
          source_url r
  unfolding verify_other
  verify_other-Evidence source_url r no_vcs e =
      let (parsed, e0, f0) = bind_ok (urls.urlparse source_url) _ r e in
      let (by_file, f1) = taken (parsed.scheme == codes "file") _ _ r f0 in
      verify_local_artifact-Evidence source_url r parsed no_vcs e0
        (eq_of_== parsed.scheme (codes "file") by_file) f1

  verify_without_vcs-Evidence :
      (source_url : List ℕ) (r : VerificationResult)
      → has_member (codes "vcs_info") direct_url ≡ false
      → verify_without_vcs urls repository commit hash is_local_allowed version installer source_url
          direct_url
        ≡ ok r
      → Evidence urls repository commit hash is_local_allowed version installer direct_url
          source_url r
  unfolding verify_without_vcs
  verify_without_vcs-Evidence source_url r no_vcs e =
      let (accepted, e0, f0) = bind_ok (accepted_archive_urls urls repository commit) _ r e in
      elim (Bool-cases (contains (map lower accepted) (lower source_url))) [
        | inl archive ↦
            verify_source_archive-Evidence source_url accepted r no_vcs e0 archive
              (sym (if-true (contains (map lower accepted) (lower source_url)) _ _ archive) ∙ f0)
        | inr elsewhere ↦
            verify_other-Evidence source_url r no_vcs
              (sym (if-false (contains (map lower accepted) (lower source_url)) _ _ elsewhere) ∙ f0)
      ]

  -- A result is returned only for a recorded source URL with the evidence that its mode asks for,
  -- and claims no more: the commit is verified for a Git checkout of the repository at that
  -- commit and for an archive of it with the expected digest, and not for a local file.
  pub verify_source-Evidence :
      (r : VerificationResult)
      → verify_source urls repository commit hash is_local_allowed version installer direct_url
        ≡ ok r
      → (source_url : List ℕ) × (lookup (codes "url") direct_url ≡ some (string source_url))
        × Evidence urls repository commit hash is_local_allowed version installer direct_url
            source_url r
  unfolding verify_source
  verify_source-Evidence r e =
      let (source_url, e0, f0) = bind_ok (text_or_error (lookup (codes "url") direct_url)) _ r e in
      (
        source_url,
        text_or_error-eq (lookup (codes "url") direct_url) source_url e0,
        elim (Bool-cases (has_member (codes "vcs_info") direct_url)) [
          | inl vcs ↦
              verify_git-Evidence source_url r
                (sym (if-true (has_member (codes "vcs_info") direct_url) _ _ vcs) ∙ f0)
          | inr no_vcs ↦
              verify_without_vcs-Evidence source_url r no_vcs
                (sym (if-false (has_member (codes "vcs_info") direct_url) _ _ no_vcs) ∙ f0)
        ],
      )
