-- ===== src/Parameters.antt =====
-- The library parameters/: values that a process declares, and that others read and set through
-- services.
pub mod Registry
pub mod Client
pub mod Served
mod Tests
use gz_transport.Common.{
  ℕ, ◌+◌, Bool, true, false, Option, none, some, List, [], ◌∷◌, ◌++◌, if◌then◌else◌, Text, bytes,
  text_eq, find_last, take, drop, is_empty,
}

-- `google::protobuf::Any`
pub record AnyMsg : Type 0 where
  pub type_url : Text
  pub value : Text

-- What the parameters ask of protobuf and of the factory of messages: the full name of the type of
-- a message, `PackFrom` with a prefix, `UnpackTo` with the message that it leaves, and
-- `Factory::New`.
pub record Messages (Msg : Type 0) : Type 0 where
  pub full_name : Msg → Text
  pub pack : Text → Msg → Option AnyMsg
  pub unpack : AnyMsg → Msg → Msg × Bool
  pub new_message : Text → Option Msg

-- `ParameterResultType` and `ParameterResult`
pub data ParameterResultType : Type 0 where
  success already_declared invalid_type not_declared : ParameterResultType
  client_timeout unexpected : ParameterResultType

pub record ParameterResult : Type 0 where
  pub result_type : ParameterResultType
  pub param_name : Text
  pub param_type : Text

-- The three constructors.
abbrev pub result_only : ParameterResultType → ParameterResult
result_only r = record { result_type = r; param_name = []; param_type = [] }

abbrev pub result_for : ParameterResultType → Text → ParameterResult
result_for r name = record { result_type = r; param_name = name; param_type = [] }

abbrev pub result_of_type : ParameterResultType → Text → Text → ParameterResult
result_of_type r name type = record { result_type = r; param_name = name; param_type = type }

-- `operator<<`
unfoldable pub describe : ParameterResultType → Text
describe success = bytes "parameter operation succeeded"
describe already_declared = bytes "parameter already declared"
describe not_declared = bytes "parameter not declared"
describe invalid_type = bytes "parameter type is not valid"
describe client_timeout = bytes "parameter client timed out"
describe unexpected = bytes "parameter operation unexpected error"

unfoldable pub print_result : ParameterResult → Text
unfolding describe
print_result r =
    describe r.result_type
    ++ ((if is_empty r.param_name
          then []
          else bytes ", parameter name [" ++ (r.param_name ++ bytes "]"))
        ++ (if is_empty r.param_type
            then []
            else bytes ", parameter type [" ++ (r.param_type ++ bytes "]")))

-- `getGzTypeFromAnyProto`. The prefix has eight characters and a null character, so nine characters
-- of the type are compared with its eight.
unfoldable pub gz_type_from_any : AnyMsg → Option Text
gz_type_from_any a = elim (find_last b'/' a.type_url) [
  | none ↦ none
  | some i ↦
      let type = drop (i + 1) a.type_url in
      if text_eq (take 9 type) (bytes "gz.msgs.") then none else some type
]

-- `ParameterError::Type`
pub data ErrorData : Type 0 where
  success already_declared invalid_type not_declared : ErrorData
