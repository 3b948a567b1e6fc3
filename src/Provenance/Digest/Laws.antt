-- ===== src/Provenance/Digest/Laws.antt =====
-- flightsql/provenance.py, _file_sha256: the loop ends, and the blocks do not show in the digest.
use flightsql_dbapi.Prelude.{
  ℕ, suc, zero, ◌<◌, ◌≡◌, sym, ap, ◌∙◌, some, List, [], ◌∷◌, ◌++◌, length, take, drop,
  take-append-drop, length-drop, arith,
}
use mathlib.Core.Option.{map as map_option}
use flightsql_dbapi.Provenance.Digest.{Sha256, read_blocks, hashed_stream, file_sha256_of}

-- hashlib documents that repeated updates are one update with all the data.
pub record Appends {H : Type 0} (sha : Sha256 H) : Type 0 where
  pub nothing : (h : H) → sha.update h [] ≡ h
  pub both : (h : H) (a b : List ℕ) → sha.update (sha.update h a) b ≡ sha.update h (a ++ b)

module _ {H : Type 0} (sha : Sha256 H) (appends : Appends sha) where
  read_blocks-whole :
      (k fuel : ℕ) (h : H) (stream : List ℕ)
      → length stream < fuel
      → read_blocks sha (suc k) fuel h stream ≡ some (sha.update h stream)
  unfolding read_blocks
  read_blocks-whole k (suc fuel) h [] e = ap some (sym (appends.nothing h))
  read_blocks-whole k (suc fuel) h (c ∷ stream) e =
      let shorter = length-drop k stream in
      read_blocks-whole k fuel (sha.update h (c ∷ take k stream)) (drop k stream)
        (omega (arith, shorter, e))
      ∙ ap some (appends.both h (c ∷ take k stream) (drop k stream))
      ∙ ap (λ s. some (sha.update h (c ∷ s))) (take-append-drop k stream)
  read_blocks-whole k zero h stream e = elim (absurd e) [ ]
    where
      absurd : length stream < zero → ⊥
      absurd e = omega (arith, e)

  hashed_stream-whole :
      (stream : List ℕ) → hashed_stream sha stream ≡ some (sha.update sha.start stream)
  unfolding hashed_stream
  hashed_stream-whole stream =
      read_blocks-whole 1048575 (suc (length stream)) sha.start stream (omega arith)

  -- Where repeated updates are one update with all the data, as hashlib documents: reading a file in
  -- blocks ends, and gives the digest of one update with its whole content.
  pub file_sha256_of-whole :
      (stream : List ℕ)
      → file_sha256_of sha stream ≡ some (sha.hexdigest (sha.update sha.start stream))
  unfolding file_sha256_of
  file_sha256_of-whole stream = ap (map_option sha.hexdigest) (hashed_stream-whole stream)
