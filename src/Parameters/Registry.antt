-- ===== src/Parameters/Registry.antt =====
-- parameters/src/Registry.cc: the parameters of a process.
use gz_transport.Common.{
  Bool, true, false, not, Option, none, some, List, [], ◌∷◌, if◌then◌else◌, Text, bytes, text_eq,
}
use gz_transport.Common.Map.{Map, lookup, insert, contains}
use gz_transport.Parameters.{
  AnyMsg, Messages, ParameterResult, ParameterResultType, result_only, result_for, result_of_type,
  gz_type_from_any, ErrorData,
}

-- The name and type of a parameter, in an answer of `ListParameters`.
pub record Declaration : Type 0 where
  pub name : Text
  pub type : Text

module _ {Msg : Type 0} where
  -- `unordered_map::emplace`, which keeps what stands under the key.
  unfoldable pub emplace : Text → Msg → Map Msg → Map Msg × Bool
  emplace name m ps = if contains name ps then (ps, false) else (insert name m ps, true)

module _ {Msg : Type 0} ⦃msgs : Messages Msg⦄ where
  open msgs use {full_name, pack, unpack, new_message}

  -- The callbacks of the four services; none stands for the answer false.
  unfoldable pub get_parameter : Text → Map Msg → Option AnyMsg
  get_parameter name ps = elim (lookup name ps) [ none ↦ none | some m ↦ pack (bytes "gz_msgs") m ]

  unfoldable pub list_parameters : Map Msg → List Declaration
  list_parameters [] = []
  list_parameters ((n, m) ∷ ps) = record { name = n; type = full_name m } ∷ list_parameters ps

  unfoldable pub set_parameter_service : Text → AnyMsg → Map Msg → Map Msg × Option ErrorData
  set_parameter_service name value ps = elim (lookup name ps) [
    | none ↦ (ps, some ErrorData.not_declared)
    | some old ↦ elim (gz_type_from_any value) [
      | none ↦ (ps, some ErrorData.invalid_type)
      | some type ↦
          let (m, ok) = unpack value old in
          if not (text_eq (full_name old) type)
          then (ps, some ErrorData.invalid_type)
          else (insert name m ps, if ok then some ErrorData.success else none)
    ]
  ]

  unfoldable pub declare_parameter_service : Text → AnyMsg → Map Msg → Map Msg × Option ErrorData
  unfolding gz_type_from_any emplace
  declare_parameter_service name value ps = elim (gz_type_from_any value) [
    | none ↦ (ps, some ErrorData.invalid_type)
    | some type ↦ elim (new_message type) [
      | none ↦ (ps, some ErrorData.invalid_type)
      | some blank ↦
          let (m, ok) = unpack value blank in
          let (ps', fresh) = emplace name m ps in
          if not ok
          then (ps, none)
          else (ps', some (if fresh then ErrorData.success else ErrorData.already_declared))
    ]
  ]

  -- The methods of the registry. `DeclareParameter` of a pointer, which throws where it is null.
  unfoldable pub declare_parameter :
      Text → Option Msg → Map Msg → Option (Map Msg × ParameterResult)
  unfolding emplace
  declare_parameter name none ps = none
  declare_parameter name (some m) ps =
      let (ps', fresh) = emplace name m ps in
      some (
        ps',
        if fresh
            then result_only ParameterResultType.success
            else result_for ParameterResultType.already_declared name,
      )

  -- `DeclareParameter` of a message, which is copied into a new one. The answer of the method
  -- above is dropped.
  unfoldable pub declare_parameter_copy : Text → Msg → Map Msg → Map Msg × ParameterResult
  unfolding emplace
  declare_parameter_copy name m ps = elim (new_message (full_name m)) [
    | none ↦ (ps, result_of_type ParameterResultType.unexpected name (full_name m))
    | some blank ↦ ((emplace name m ps).0, result_only ParameterResultType.success)
  ]

  -- `Parameter` into a message, which it may change.
  unfoldable pub parameter_into : Text → Msg → Map Msg → Msg × ParameterResult
  parameter_into name target ps = elim (lookup name ps) [
    | none ↦ (target, result_for ParameterResultType.not_declared name)
    | some m ↦
        if not (text_eq (full_name target) (full_name m))
        then (target, result_of_type ParameterResultType.invalid_type name (full_name m))
        else (m, result_only ParameterResultType.success)
  ]

  -- `Parameter` into a pointer.
  unfoldable pub parameter_new : Text → Option Msg → Map Msg → Option Msg × ParameterResult
  parameter_new name target ps = elim (lookup name ps) [
    | none ↦ (target, result_for ParameterResultType.not_declared name)
    | some m ↦ elim (new_message (full_name m)) [
      | none ↦ (none, result_of_type ParameterResultType.invalid_type name (full_name m))
      | some blank ↦ (some m, result_only ParameterResultType.success)
    ]
  ]

  -- `SetParameter` of a pointer that is not null; a type has one descriptor.
  unfoldable pub set_parameter : Text → Msg → Map Msg → Map Msg × ParameterResult
  set_parameter name m ps = elim (lookup name ps) [
    | none ↦ (ps, result_for ParameterResultType.not_declared name)
    | some old ↦
        if not (text_eq (full_name old) (full_name m))
        then (ps, result_of_type ParameterResultType.invalid_type name (full_name old))
        else (insert name m ps, result_only ParameterResultType.success)
  ]

  -- `SetParameter` of a message.
  unfoldable pub set_parameter_copy : Text → Msg → Map Msg → Map Msg × ParameterResult
  set_parameter_copy name m ps = elim (lookup name ps) [
    | none ↦ (ps, result_for ParameterResultType.not_declared name)
    | some old ↦
        if not (text_eq (full_name old) (full_name m))
        then (ps, result_for ParameterResultType.invalid_type name)
        else (insert name m ps, result_only ParameterResultType.success)
  ]
