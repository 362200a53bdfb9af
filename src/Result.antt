-- ===== src/Result.antt =====
-- include/colza/ErrorCodes.hpp, include/colza/RequestResult.hpp, include/colza/Exception.hpp: how
-- an RPC reports its outcome, and how the client raises it again.
pub mod Laws
use mochi_colza.Base.{ℕ, Bool, true, false, Option, none, some, String, ℤ, pos, negsuc}

pub data ErrorCode : Type 0 where
  success : ErrorCode
  pipeline_is_active : ErrorCode
  pipeline_not_active : ErrorCode
  invalid_iteration : ErrorCode
  invalid_pipeline_name : ErrorCode
  json_parse_error : ErrorCode
  json_config_error : ErrorCode
  invalid_security_token : ErrorCode
  invalid_library : ErrorCode
  ssg_error : ErrorCode
  invalid_instance : ErrorCode
  empty_dist_pipeline : ErrorCode
  mona_error : ErrorCode
  pipeline_create_error : ErrorCode
  invalid_group_hash : ErrorCode
  other_error : ErrorCode

-- (int) of a code. `negsuc n` is -(n + 1).
unfoldable pub to_int : ErrorCode → ℤ
to_int success = pos 0
to_int pipeline_is_active = negsuc 0
to_int pipeline_not_active = negsuc 1
to_int invalid_iteration = negsuc 2
to_int invalid_pipeline_name = negsuc 3
to_int json_parse_error = negsuc 4
to_int json_config_error = negsuc 5
to_int invalid_security_token = negsuc 6
to_int invalid_library = negsuc 7
to_int ssg_error = negsuc 8
to_int invalid_instance = negsuc 9
to_int empty_dist_pipeline = negsuc 10
to_int mona_error = negsuc 11
to_int pipeline_create_error = negsuc 12
to_int invalid_group_hash = negsuc 13
to_int other_error = negsuc 254

-- `none` is the indeterminate value of a member that no one has written: the class gives
-- `m_success` and `m_error` a default, and `m_value` none.
pub record RequestResult (A : Type 0) : Type 0 where
  pub success : Bool
  pub error : String
  pub value : Option A

-- `RequestResult<T> result;`
unfoldable pub fresh : {A : Type 0} → RequestResult A
fresh = record { success = true; error = ""; value = none }

-- An outcome that carries a value, and the three assignments by which a handler reports an error.
abbrev pub succeed : {A : Type 0} → A → RequestResult A
succeed v = record { success = true; error = ""; value = some v }

abbrev pub refuse : ErrorCode → String → RequestResult ℤ
refuse code message = record { success = false; error = message; value = some (to_int code) }

-- The code is kept as the integer that the enumeration is stored in: `(ErrorCode)response.value()`
-- casts any integer.
pub record Exception : Type 0 where
  pub code : Option ℤ
  pub what : String

abbrev pub exception : ErrorCode → String → Exception
exception code message = record { code = some (to_int code); what = message }

-- What a call that may throw gives back: a `colza::Exception`, or another `std::exception`.
pub data Outcome (A : Type 0) : Type 0 where
  ok : A → Outcome A
  throw : Exception → Outcome A
  throw_std : String → Outcome A

infixl 5 ◌>>=◌
abbrev pub ◌>>=◌ : {A B : Type 0} → Outcome A → (A → Outcome B) → Outcome B
ok a >>= f = f a
throw e >>= f = throw e
throw_std e >>= f = throw_std e

-- How the client reads a response: the value of a success, and the error raised again.
unfoldable pub check_response : RequestResult ℤ → Outcome (Option ℤ)
check_response response = elim response.success [
  | true ↦ ok response.value
  | false ↦ throw (record { code = response.value; what = response.error })
]
