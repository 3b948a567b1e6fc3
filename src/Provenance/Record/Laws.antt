-- ===== src/Provenance/Record/Laws.antt =====
-- flightsql/provenance.py, _read_record: what the rows that it returns tell.
use flightsql_dbapi.Prelude.Distinct.{Distinct, NodupKeys-Distinct}
use flightsql_dbapi.Prelude.{
  sym, ap, ◌∙◌, ◌++◌, map, append-nil, append_assoc, ℕ, ◌≡◌, subst, Bool, true, false, not, ◌&&◌,
  List, [], ◌∷◌, contains, bytes_eq, any, or_left, All,
}
use flightsql_dbapi.Prelude.Dict.{Dict, keys, NodupKeys, insert-NodupKeys, All-insert, keys-insert}
use flightsql_dbapi.Errors.{ok, ok_injective, bind_ok, passed, kept}
use flightsql_dbapi.Provenance.Hash.{parse_record_hash}
use flightsql_dbapi.Provenance.Record.{
  RecordRow, is_none, split_slash, is_unsafe_part, record_path, is_decoy, parse_record_size,
  own_record, may_lack_digest, add_row, add_rows, with_own_record, read_record,
}

-- The path of a row, as it is written.
abbrev pub path_of : List (List ℕ) → List ℕ
path_of [] = []
path_of (path ∷ rest) = path

module _ (is_bytecode : List ℕ → Bool) (prefix : List ℕ) where
  -- A path without an empty, "." or ".." part, and a digest unless the file may lack one.
  abbrev pub Recorded : List ℕ × RecordRow → Type 0
  Recorded (path, row) =
      (any is_unsafe_part (split_slash path) ≡ false)
      × ((is_none row.digest && not (may_lack_digest is_bytecode prefix path)) ≡ false)

  abbrev pub Rows : Dict (List ℕ) RecordRow → Type 0
  Rows rows = NodupKeys rows × All Recorded rows

  record_path-safe :
      (path : List ℕ) (parts : List (List ℕ))
      → record_path path ≡ ok parts
      → any is_unsafe_part (split_slash path) ≡ false
  unfolding record_path
  record_path-safe path parts e = or_left _ _ (passed _ _ _ parts (passed _ _ _ parts e).1).0

  add_row-Rows :
      (row : List (List ℕ)) (rows rows' : Dict (List ℕ) RecordRow)
      → Rows rows
      → add_row is_bytecode prefix row rows ≡ ok rows'
      → Rows rows' × (keys rows' ≡ keys rows ++ (path_of row ∷ []))
  unfolding add_row
  add_row-Rows (path ∷ hash ∷ size ∷ []) rows rows' (once, h) e =
      let (parts, e0, f0) = bind_ok (record_path path) _ rows' e in
      let (fresh, f1) = passed (contains (keys rows) path) _ _ rows' f0 in
      let f2 = (passed (is_decoy prefix parts) _ _ rows' f1).1 in
      let (digest, e3, f3) = bind_ok (parse_record_hash hash) _ rows' f2 in
      let (size', e4, f4) = bind_ok (parse_record_size size) _ rows' f3 in
      let (has, f5) =
        passed (is_none digest && not (may_lack_digest is_bytecode prefix path)) _ _ rows' f4 in
      subst (λ d. Rows d × (keys d ≡ keys rows ++ (path ∷ []))) (ok_injective _ rows' f5)
        (
          (
            insert-NodupKeys path (record { digest = digest; size = size' }) rows once,
            All-insert Recorded path (record { digest = digest; size = size' }) rows
                (record_path-safe path parts e0, has) h,
          ),
          keys-insert path (record { digest = digest; size = size' }) rows fresh,
        )
  add_row-Rows _ rows rows' h e = cc

  add_rows-Rows :
      (added : List (List (List ℕ))) (rows rows' : Dict (List ℕ) RecordRow)
      → Rows rows
      → add_rows is_bytecode prefix added rows ≡ ok rows'
      → Rows rows' × (keys rows' ≡ keys rows ++ map path_of added)
  unfolding add_rows
  add_rows-Rows [] rows rows' h e =
      subst (λ d. Rows d × (keys d ≡ keys rows ++ [])) (ok_injective rows rows' e)
        (h, sym (append-nil (keys rows)))
  add_rows-Rows (row ∷ rest) rows rows' h e =
      let (between, e0, f0) =
        bind_ok (add_row is_bytecode prefix row rows) (add_rows is_bytecode prefix rest) rows' e in
      let (kept_between, added_one) = add_row-Rows row rows between h e0 in
      let (kept_all, added_rest) = add_rows-Rows rest between rows' kept_between f0 in
      (
        kept_all,
        added_rest
            ∙ ap (λ ks. ks ++ map path_of rest) added_one
            ∙ append_assoc (keys rows) (path_of row ∷ []) (map path_of rest),
      )

  -- Where RECORD is read, its lines give the paths of the rows in their order, no path stands in two
  -- lines or has an empty, "." or ".." part, its own file is listed, and every file has a SHA-256
  -- but RECORD itself and byte code.
  pub read_record-Rows :
      (lines : List (List (List ℕ))) (rows : Dict (List ℕ) RecordRow)
      → read_record is_bytecode prefix lines ≡ ok rows
      → (keys rows ≡ map path_of lines)
        × Distinct (map path_of lines)
        × (contains (keys rows) (own_record is_bytecode prefix) ≡ true)
        × All Recorded rows
  unfolding read_record
  read_record-Rows [] rows e = cc
  read_record-Rows (line ∷ lines) rows e =
      let (read, e0, f0) =
        bind_ok (add_rows is_bytecode prefix (line ∷ lines) []) (with_own_record is_bytecode prefix)
          rows e in
      let (built, in_order) = add_rows-Rows (line ∷ lines) [] read (tt, tt) e0 in
      let (listed, same) =
        kept (contains (keys read) (own_record is_bytecode prefix)) _ read rows f0 in
      subst
        (λ (d : Dict (List ℕ) RecordRow).
          (keys d ≡ map path_of (line ∷ lines))
          × Distinct (map path_of (line ∷ lines))
          × (contains (keys d) (own_record is_bytecode prefix) ≡ true)
          × All Recorded d)
        same (in_order, subst Distinct in_order (NodupKeys-Distinct read built.0), listed, built.1)
