-- ===== src/Handlers/Reply.antt =====
-- include/gz/transport/RepHandler.hh: the handler of a service. The callback is the user's.
use gz_transport.Common.{Bool, true, false, Option, none, some, [], if◌then◌else◌, Text}
use gz_transport.HandlerStorage.{Handles}
use gz_transport.Handlers.{Protobuf}

-- `RepHandler<Req, Rep>`; `none` is an empty `std::function`. The callback takes the request and
-- gives the response that it wrote, and its answer.
pub record RepHandler (Msg : Type 0) : Type 0 where
  pub h_uuid : Text
  pub req_type_name : Text
  pub rep_type_name : Text
  pub cb : Option (Msg → Msg × Bool)

module _ {Msg : Type 0} ⦃pb : Protobuf Msg⦄ where
  open pb use {parse_from_string, serialize_to_string}

  -- The answer of `RunCallback`, and `_rep`, which is empty before the call. A request that cannot
  -- be parsed is handed on as it is.
  unfoldable pub run_callback : Text → RepHandler Msg → Bool × Text
  run_callback req h = elim h.cb [
    | none ↦ (false, [])
    | some cb ↦
        let (msg, ok) = cb (parse_from_string h.req_type_name req).0 in
        if ok
        then elim (serialize_to_string msg) [ none ↦ (false, []) | some rep ↦ (true, rep) ]
        else (false, [])
  ]

instance abbrev pub rep_handles : {Msg : Type 0} → Handles (RepHandler Msg)
rep_handles = record {
  handler_uuid = λ h. h.h_uuid;
  req_type_name = λ h. h.req_type_name;
  rep_type_name = λ h. h.rep_type_name;
  type_name = λ h. [];
}
