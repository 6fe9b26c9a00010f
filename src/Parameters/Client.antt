-- ===== src/Parameters/Client.antt =====
-- parameters/src/Client.cc: the parameters of another process. A request is given by the answer of
-- `Node::Request`: none for false, and the response with the result otherwise.
use gz_transport.Common.{
  Bool, not, Option, none, some, List, [], ◌++◌, if◌then◌else◌, Text, bytes, text_eq,
}
use gz_transport.Parameters.{
  AnyMsg, Messages, ParameterResult, ParameterResultType, result_only, result_for, result_of_type,
  gz_type_from_any, ErrorData,
}
use gz_transport.Parameters.Registry.{Declaration}

-- A response that no answer has filled.
abbrev pub blank_any : AnyMsg
blank_any = record { type_url = []; value = [] }

-- The names of the services.
abbrev pub service_name : Text → Text → Text
service_name ns suffix = ns ++ suffix

-- `getParameterCommon`, with the response that it leaves.
unfoldable pub get_parameter_common :
    (Text → Text → Option (AnyMsg × Bool)) → Text → Text → AnyMsg × ParameterResult
get_parameter_common request ns name =
    elim (request (service_name ns (bytes "/get_parameter")) name) [
      | none ↦ (blank_any, result_for ParameterResultType.client_timeout name)
      | some (res, result) ↦ (
        res,
        if not result
            then result_for ParameterResultType.not_declared name
            else result_only ParameterResultType.success,
      )
    ]

-- The rest of `SetParameter` and of `DeclareParameter`, on the answer to the request.
unfoldable pub set_answer : Text → Option (ErrorData × Bool) → ParameterResult
set_answer name none = result_for ParameterResultType.client_timeout name
set_answer name (some (e, result)) =
    if not result then result_for ParameterResultType.unexpected name else elim e [
      | ErrorData.success ↦ result_only ParameterResultType.success
      | ErrorData.not_declared ↦ result_for ParameterResultType.not_declared name
      | ErrorData.invalid_type ↦ result_for ParameterResultType.invalid_type name
      | ErrorData.already_declared ↦ result_for ParameterResultType.unexpected name
    ]

unfoldable pub declare_answer : Text → Text → Option (ErrorData × Bool) → ParameterResult
declare_answer name type none = result_for ParameterResultType.client_timeout name
declare_answer name type (some (e, result)) =
    if not result then result_for ParameterResultType.unexpected name else elim e [
      | ErrorData.success ↦ result_only ParameterResultType.success
      | ErrorData.already_declared ↦ result_for ParameterResultType.already_declared name
      | ErrorData.invalid_type ↦ result_of_type ParameterResultType.invalid_type name type
      | ErrorData.not_declared ↦ result_for ParameterResultType.unexpected name
    ]

module _ {Msg : Type 0} ⦃msgs : Messages Msg⦄ where
  open msgs use {full_name, pack, unpack, new_message}

  -- `Parameter` into a message. The result of `getParameterCommon` is dropped.
  unfoldable pub client_parameter :
      (Text → Text → Option (AnyMsg × Bool)) → Text → Text → Msg → Msg × ParameterResult
  client_parameter request ns name target =
      let res = (get_parameter_common request ns name).0 in
      elim (gz_type_from_any res) [
        | none ↦ (target, result_for ParameterResultType.unexpected name)
        | some type ↦
            let (m, ok) = unpack res target in
            if not (text_eq type (full_name target))
            then (target, result_of_type ParameterResultType.invalid_type name type)
            else (
              m,
              if ok
                  then result_only ParameterResultType.success
                  else result_of_type ParameterResultType.unexpected name type,
            )
      ]

  -- `Parameter` into a pointer.
  unfoldable pub client_parameter_new :
      (Text → Text → Option (AnyMsg × Bool))
      → Text
      → Text
      → Option Msg
      → Option Msg × ParameterResult
  unfolding get_parameter_common gz_type_from_any
  client_parameter_new request ns name target =
      let res = (get_parameter_common request ns name).0 in
      elim (gz_type_from_any res) [
        | none ↦ (target, result_for ParameterResultType.unexpected name)
        | some type ↦ elim (new_message type) [
          | none ↦ (none, result_of_type ParameterResultType.unexpected name type)
          | some blank ↦
              let (m, ok) = unpack res blank in
              (
                some m,
                if ok
                    then result_only ParameterResultType.success
                    else result_of_type ParameterResultType.unexpected name type,
              )
        ]
      ]

  -- `SetParameter` and `DeclareParameter`; the request takes a state `S` of the other process and
  -- gives the next one. `name_of_type` is the name of a type without its package.
  unfoldable pub client_set_parameter :
      {S : Type 0}
      → (Text → Text → AnyMsg → S → S × Option (ErrorData × Bool))
      → Text
      → Text
      → Msg
      → S
      → S × ParameterResult
  unfolding set_answer
  client_set_parameter request ns name m s = elim (pack (bytes "type.googleapis.com/") m) [
    | none ↦ (s, result_for ParameterResultType.unexpected name)
    | some value ↦
        let (s', answer) = request (service_name ns (bytes "/set_parameter")) name value s in
        (s', set_answer name answer)
  ]

  unfoldable pub client_declare_parameter :
      {S : Type 0}
      → (Text → Text → AnyMsg → S → S × Option (ErrorData × Bool))
      → (Msg → Text)
      → Text
      → Text
      → Msg
      → S
      → S × ParameterResult
  unfolding declare_answer
  client_declare_parameter request name_of_type ns name m s =
      elim (pack (bytes "type.googleapis.com/") m) [
        | none ↦ (s, result_for ParameterResultType.unexpected name)
        | some value ↦
            let (s', answer) =
              request (service_name ns (bytes "/declare_parameter")) name value s in
            (s', declare_answer name (name_of_type m) answer)
      ]

-- `ListParameters`, which throws where the request fails or its result is false.
unfoldable pub client_list_parameters :
    (Text → Option (List Declaration × Bool)) → Text → Option (List Declaration)
client_list_parameters request ns = elim (request (service_name ns (bytes "/list_parameters"))) [
  | none ↦ none
  | some (ds, result) ↦ if result then some ds else none
]
