-- ===== src/Provenance/Verify/Reading.antt =====
-- flightsql/provenance.py, verify: what a value that was read with success is.
use flightsql_dbapi.Prelude.{
  ℕ, ◌≡◌, refl, sym, ap, ◌∙◌, true, false, not, ◌||◌, Option, none, some, List, ◌==◌, eq_of_==,
  bytes_eq, or_left, or_right, unnegated,
}
use flightsql_dbapi.Prelude.Dict.{lookup}
use flightsql_dbapi.Prelude.Text.{lower}
use flightsql_dbapi.Errors.{ok, ok_injective, bind_ok, passed}
use flightsql_dbapi.Provenance.Hash.{
  Json, null, string, object, other, Hashes, ArchiveInfo, DirectUrl, archive_sha256,
}
use flightsql_dbapi.Provenance.Source.{
  LocalPath, has_text, has_lower_text, matched, verify_archive_source, is_artifact_name,
  checked_artifact,
}
use flightsql_dbapi.Provenance.Verify.{text_or_error, object_or_error}
use flightsql_dbapi.Provenance.Verify.Evidence.{Names}

pub has_text-eq :
    {O : Type 0} (o : Option (Json O)) (expected : List ℕ)
    → has_text o expected ≡ true
    → o ≡ some (string expected)
unfolding has_text
has_text-eq none expected e = cc
has_text-eq (some null) expected e = cc
has_text-eq (some (object d)) expected e = cc
has_text-eq (some other) expected e = cc
has_text-eq (some (string s)) expected e = ap (λ t. some (string t)) (eq_of_== s expected e)

pub has_lower_text-Names :
    (info : ArchiveInfo) (name expected : List ℕ)
    → has_lower_text (lookup name info) expected ≡ true
    → Names info name expected
has_lower_text-Names info name expected e = step (lookup name info) refl e
  where
    step :
        (o : Option (Json Hashes))
        → lookup name info ≡ o
        → has_lower_text o expected ≡ true
        → Names info name expected
    step none h e = unfold has_lower_text in cc
    step (some null) h e = unfold has_lower_text in cc
    step (some (object d)) h e = unfold has_lower_text in cc
    step (some other) h e = unfold has_lower_text in cc
    step (some (string s)) h e = unfold has_lower_text in (s, h, eq_of_== (lower s) expected e)

pub text_or_error-eq :
    (o : Option (Json ArchiveInfo)) (s : List ℕ) → text_or_error o ≡ ok s → o ≡ some (string s)
text_or_error-eq none s e = cc
text_or_error-eq (some null) s e = cc
text_or_error-eq (some (object d)) s e = cc
text_or_error-eq (some other) s e = cc
text_or_error-eq (some (string t)) s e = ap (λ t. some (string t)) (ok_injective t s e)

pub object_or_error-eq :
    (o : Option (Json ArchiveInfo)) (d : ArchiveInfo)
    → object_or_error o ≡ ok d
    → o ≡ some (object d)
object_or_error-eq none s e = cc
object_or_error-eq (some null) s e = cc
object_or_error-eq (some (string d)) s e = cc
object_or_error-eq (some other) s e = cc
object_or_error-eq (some (object t)) s e = ap (λ t. some (object t)) (ok_injective t s e)

matched-eq :
    (expected digest : List ℕ) (o : Option (List ℕ))
    → matched expected o ≡ ok digest
    → (o ≡ some digest) × (expected ≡ digest)
matched-eq expected digest none e = cc
matched-eq expected digest (some installed) e =
    let (same, e') = passed (not (installed == expected)) _ _ digest e in
    (
      ap some (ok_injective installed digest e'),
      sym (eq_of_== installed expected (unnegated _ same)) ∙ ok_injective installed digest e',
    )

pub verify_archive_source-eq :
    (direct_url : DirectUrl) (hash : Option (List ℕ)) (digest : List ℕ)
    → verify_archive_source direct_url hash ≡ ok digest
    → (archive_sha256 direct_url ≡ ok (some digest)) × (hash ≡ some digest)
unfolding verify_archive_source
verify_archive_source-eq direct_url none digest e = cc
verify_archive_source-eq direct_url (some expected) digest e =
    let (recorded, e0, f0) = bind_ok (archive_sha256 direct_url) (matched expected) digest e in
    let (found, same) = matched-eq expected digest recorded f0 in (e0 ∙ ap ok found, ap some same)

abbrev pub Artifact : List ℕ → List ℕ → LocalPath → Type 0
Artifact expected digest file =
    (file.is_file ≡ true)
    × (file.is_symlink ≡ false)
    × (is_artifact_name file.name ≡ true)
    × (file.file_sha256 ≡ ok digest)
    × (expected ≡ digest)

pub checked_artifact-Artifact :
    (expected digest : List ℕ) (file : LocalPath)
    → checked_artifact expected file ≡ ok digest
    → Artifact expected digest file
checked_artifact-Artifact expected digest file e =
    let (absolute, e0) = passed (not file.is_absolute) _ _ digest e in
    let (regular, e1) = passed (file.is_symlink || not file.is_file) _ _ digest e0 in
    let (named, e2) = passed (not (is_artifact_name file.name)) _ _ digest e1 in
    let (actual, hashed, e3) = bind_ok file.file_sha256 _ digest e2 in
    let (same, e4) = passed (not (actual == expected)) _ _ digest e3 in
    let is_digest : actual ≡ digest = ok_injective actual digest e4 in
    (
      unnegated _ (or_right file.is_symlink (not file.is_file) regular),
      or_left file.is_symlink (not file.is_file) regular,
      unnegated _ named,
      hashed ∙ ap ok is_digest,
      sym (eq_of_== actual expected (unnegated _ same)) ∙ is_digest,
    )
