-- ===== src/Tests/Digest.antt =====
-- A file of two bytes, with an object that keeps what it was given in place of a digest.
use flightsql_dbapi.Prelude.{ℕ, ◌≡◌, refl, some, List, [], ◌∷◌, ◌++◌}
use flightsql_dbapi.Provenance.Digest.{Sha256, read_blocks, file_sha256_of, record_sha256_of}

abbrev keeping : Sha256 (List ℕ)
keeping = record { start = []; update = λ h block. h ++ block; digest = λ h. h; hexdigest = λ h. h }

two_bytes : file_sha256_of keeping (1 ∷ 2 ∷ []) ≡ some (1 ∷ 2 ∷ [])
unfolding file_sha256_of
two_bytes = refl

three_blocks : read_blocks keeping 2 4 [] (1 ∷ 2 ∷ 3 ∷ 4 ∷ 5 ∷ []) ≡ some (1 ∷ 2 ∷ 3 ∷ 4 ∷ 5 ∷ [])
unfolding read_blocks
three_blocks = refl

without_padding :
    record_sha256_of keeping (λ s. s ++ (b'=' ∷ [])) (b'a' ∷ b'b' ∷ []) ≡ some (b'a' ∷ b'b' ∷ [])
unfolding record_sha256_of
without_padding = refl
