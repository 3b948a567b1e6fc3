-- ===== src/Lib.antt =====
-- flightsql-dbapi: a Flight SQL client for Python with a DB API 2.0 layer on it.
--
-- The program has these parts. The client (flightsql/client.py) sends Flight SQL commands through
-- pyarrow's Flight client, and keeps prepared statements. The DB API (flightsql/dbapi.py) runs
-- queries through the client, converts Arrow tables to rows, and answers metadata requests for
-- SQLAlchemy. The exceptions (flightsql/exceptions.py) and their translation (flightsql/util.py)
-- stand under both. On top is the SQLAlchemy dialect (flightsql/sqlalchemy.py): it makes a client of
-- a URL, reflects tables through the DB API with a cache, and is initialized by what the server
-- reports. A separate command (flightsql/provenance.py) checks what an installation was made of.
--
-- Prelude: tests on numbers, equality, lists, Python's dict as an association list, bit operations,
-- lists without repetition, Python's methods on ASCII texts as lists of code points, and decimal
-- numerals. Nothing of it is specific to the program.
--
-- Errors: the PEP 249 classes of flightsql/exceptions.py; Errors/Translate: dbapi_error,
-- translate_errors and check_closed of flightsql/util.py. An exception of pyarrow carries the answers
-- of isinstance, since the class hierarchy is pyarrow's.
--
-- Effects: a method is a function from a state to a result and a state. A method that raises gives
-- back the state that it had reached. `using` is Python's `with`.
--
-- Client: flightsql/client.py.
--   Wire: _protobuf_fields and its inner varint, on lists of bytes. A position in the payload is the
--     list of the bytes behind it. The loop has as many rounds of fuel as the payload has bytes.
--   Handle: _updated_prepared_handle; Handle/Carried: the handle that a DoPut result carries.
--   Options: FlightSQLCallOptions and _flight_call_options.
--   Service: the commands that the requests pack, and the Flight client as a record of operations on
--     the state of all that lies behind it.
--   Request: FlightSQLClient with its closed flag. Prepared: PreparedStatement, prepare and
--     _read_ipc_schema. Connect: create_flight_client.
--
-- Dbapi: flightsql/dbapi.py.
--   Cursor: the class of that name against a record of the client's calls.
--   Response: _tables_from_info. Catalog: _catalog_fallback and what it calls, on the configured and
--     the resolved catalog of a connection.
--   Tables: _table_metadata_rows and _table_types; Tables/Parse: _parse_table_schema_rows;
--     Tables/Request: _table_metadata_from_info and _get_table_metadata.
--   Types: _normalized_temporal_type and _contains_nanosecond_temporal on the tree of Arrow types;
--     Types/Sql: resolve_sql_type. Results: column_specs, arrow_column_descriptions and the rows of
--     dbapi_results. Storage: the offsets and values of list, map and fixed size list arrays.
--
--   Connection: the connection's cursors and its life; Connection/Metadata: the metadata methods, as
--     bodies that metadata_method puts behind the closed flag and the translation, and
--     Connection/Keys: those for SQL info and keys.
--   Params: parameters and the names of placeholders; Params/Build: build_parameter_record and
--     ParameterRecordBuilder, with pyarrow's arrays behind a record of operations. A numeral is
--     printed on fuel of its value and one, which is at least the number of its digits.
--
-- Sqlalchemy: flightsql/sqlalchemy.py.
--   Reflection: the column cache, its entries and the warning of degraded reflection;
--     Reflection/Methods: the methods of FlightSQLDialect that read or fill the cache. What
--     SQLAlchemy's reflection.cache keeps beside it in the same dictionary is not modelled.
--   Keys: get_pk_constraint. Url: client_from_url, for the arguments of the client that it makes.
--   Dialect: initialize and create_connect_args of FlightSQLDialect and DataFusionDialect, and
--     is_disconnect. Loader: __init_subclass__, with a function known by a number.
--   Compiler: RawSQLFragmentCompiler and LiteralBindCompiler, with SQLAlchemy's SQLCompiler as a
--     parameter.
--
-- Provenance: flightsql/provenance.py, and its copy scripts/verify-installed-provenance.
--   Hash: the hashes in direct_url.json and RECORD, on JSON to the depth that the code looks into.
--   Record: the paths and rows of RECORD, on the rows that csv.reader made of it.
--   Inventory: the installed files against RECORD, on one snapshot of the site directory.
--   Digest: the digest of a file, read in blocks, on one more round of fuel than it has bytes.
--   Source: the checks of repositories, archives and local artifacts. Verify: verify below the
--     reading of direct_url.json; Verify/Evidence: what a result promises of the source.
--   Installed: the choice of the distribution and the versions; Installed/Layout: what is read of
--     it, and verify as a whole. importlib.metadata, pathlib, ast, csv, json and packaging are
--     parameters. Main: the command, with argparse and json.dumps as parameters.
--
-- Tests: concrete runs, among them each theorem of the list below at an input where its hypotheses
-- hold.
--
-- pyarrow, its Flight client, protobuf and SQLAlchemy are not modelled: their calls are parameters.
-- Text is compared as a sequence of characters, and `encode` gives the code points, so it stands for
-- UTF-8 on ASCII text; strip, lower and upper are those of ASCII texts. Deadlines and metadata of a
-- call are passed on and not interpreted. Not modelled are the walk over the tree of array data in
-- flightsql/dbapi.py, but for the storage of its lists, the depth of the stack at a warning in
-- flightsql/sqlalchemy.py, and the generated flightsql/flightsql_pb2.py.
pub mod Prelude
pub mod Errors
pub mod Effects
pub mod Client
pub mod Dbapi
pub mod Sqlalchemy
pub mod Provenance
pub mod Tests
