-- ===== src/Errors.antt =====
-- flightsql/exceptions.py: the PEP 249 classes; and the exceptions that come from pyarrow and from
-- Python itself.
pub mod Translate
pub mod Translation
use flightsql_dbapi.Prelude.{
  if◌then◌else◌, ◌≡◌, refl, Bool, true, false, ◌||◌, Option, none, some, String,
}
use flightsql_dbapi.Prelude.Tests.{Eq}

pub data ExceptionClass : Type 0 where
  error warning interface_error database_error internal_error operational_error : ExceptionClass
  programming_error integrity_error data_error not_supported_error : ExceptionClass

class_dec : Discrete ExceptionClass
class_dec = hlevel

instance unfoldable pub class_eq : Eq ExceptionClass
unfolding class_dec
class_eq = record { dec = class_dec }

-- The base that the class statement names, other than Exception.
unfoldable pub base : ExceptionClass → Option ExceptionClass
base error = none
base warning = none
base interface_error = some error
base database_error = some error
base internal_error = some database_error
base operational_error = some database_error
base programming_error = some database_error
base integrity_error = some database_error
base data_error = some database_error
base not_supported_error = some database_error

-- The classes of pyarrow and pyarrow.flight that the code tests for. How they derive from one
-- another is pyarrow's, so an exception from outside carries the answers of `isinstance`. The last
-- is ProvenanceError of flightsql/provenance.py, which stands apart from PEP 249.
pub data ForeignClass : Type 0 where
  flight_unavailable flight_timed_out flight_cancelled : ForeignClass
  flight_unauthenticated flight_unauthorized flight_internal flight_server flight_error :
      ForeignClass
  arrow_not_implemented arrow_invalid arrow_type_error arrow_key_error : ForeignClass
  arrow_index_error arrow_exception os_error overflow_error type_error value_error : ForeignClass
  provenance_mismatch : ForeignClass

pub record Foreign : Type 0 where
  pub is_instance : ForeignClass → Bool
  pub message : String

-- An exception with its class and message, and the one that it was raised from.
pub data Exn : Type 0 where
  pep : ExceptionClass → String → Option Foreign → Exn
  foreign : Foreign → Exn

-- What a call that may raise returns.
pub data Result {ℓ} (A : Type ℓ) : Type ℓ where
  ok : A → Result A
  raised : Exn → Result A

infixl 5 ◌>>=◌
abbrev pub ◌>>=◌ : {A B : Type 0} → Result A → (A → Result B) → Result B
ok a >>= f = f a
raised e >>= f = raised e

pub ok_injective : {A : Type 0} (a b : A) → ok a ≡ ok b → a ≡ b
ok_injective a b e = cc

pub bind_ok :
    {A C : Type 0} (r : Result A) (f : A → Result C) (c : C)
    → (r >>= f) ≡ ok c
    → (a : A) × (r ≡ ok a) × (f a ≡ ok c)
bind_ok (ok a) f c e = (a, refl, e)
bind_ok (raised x) f c e = cc

-- A guard that raises was not taken.
pub passed :
    {A : Type 0} (b : Bool) (x : Exn) (r : Result A) (a : A)
    → (if b then raised x else r) ≡ ok a
    → (b ≡ false) × (r ≡ ok a)
passed true x r a e = cc
passed false x r a e = (refl, e)

pub kept :
    {A : Type 0} (b : Bool) (x : Exn) (a a' : A)
    → (if b then ok a else raised x) ≡ ok a'
    → (b ≡ true) × (a ≡ a')
kept true x a a' e = (refl, ok_injective a a' e)
kept false x a a' e = cc

-- A branch that raises was not taken.
pub taken :
    {A : Type 0} (b : Bool) (x : Exn) (r : Result A) (a : A)
    → (if b then r else raised x) ≡ ok a
    → (b ≡ true) × (r ≡ ok a)
taken true x r a e = (refl, e)
taken false x r a e = cc

-- An exception of Python's own, such as IndexError or AttributeError, that no handler tests for.
abbrev pub python_error : String → Foreign
python_error message = record { is_instance = λ _. false; message = message }
