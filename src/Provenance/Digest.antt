-- ===== src/Provenance/Digest.antt =====
-- flightsql/provenance.py, _record_sha256 and _file_sha256: the digest of a file, read in blocks. A
-- stream is the bytes that are left of it; hashlib and base64 are parameters.
pub mod Laws
use flightsql_dbapi.Prelude.{
  ℕ, suc, zero, Option, none, some, List, [], ◌∷◌, eqb, if◌then◌else◌, length, take, drop,
}
use mathlib.Core.List.{reverse}
use mathlib.Core.Option.{map as map_option}

-- hashlib.sha256() and its object.
pub record Sha256 (H : Type 0) : Type 0 where
  pub start : H
  pub update : H → List ℕ → H
  pub digest : H → List ℕ
  pub hexdigest : H → List ℕ

-- The size of a block, one mebibyte.
abbrev pub block_size : ℕ
block_size = 1048576

-- `rstrip(b"=")`
abbrev drop_equals : List ℕ → List ℕ
drop_equals [] = []
drop_equals (c ∷ s) = let rest = drop_equals s in if eqb c b'=' then rest else c ∷ s

module _ {H : Type 0} (sha : Sha256 H) where
  -- The loop ends with the first empty block.
  abbrev pub after_block : List ℕ → H → Option H → Option H
  after_block [] h rest = some h
  after_block (c ∷ block) h rest = rest

  -- The loop over the blocks of a stream, on fuel: none where that runs out.
  unfoldable pub read_blocks : ℕ → ℕ → H → List ℕ → Option H
  read_blocks size zero h stream = none
  read_blocks size (suc fuel) h stream =
      let rest = read_blocks size fuel (sha.update h (take size stream)) (drop size stream) in
      after_block (take size stream) h rest

  -- One round for each byte and one for the end.
  unfoldable pub hashed_stream : List ℕ → Option H
  unfolding read_blocks
  hashed_stream stream = read_blocks block_size (suc (length stream)) sha.start stream

  -- `_file_sha256`
  unfoldable pub file_sha256_of : List ℕ → Option (List ℕ)
  unfolding hashed_stream
  file_sha256_of stream = map_option sha.hexdigest (hashed_stream stream)

  -- `_record_sha256`
  unfoldable pub record_sha256_of : (List ℕ → List ℕ) → List ℕ → Option (List ℕ)
  unfolding hashed_stream
  record_sha256_of urlsafe_b64encode stream =
      map_option (λ h. reverse (drop_equals (reverse (urlsafe_b64encode (sha.digest h)))))
        (hashed_stream stream)
