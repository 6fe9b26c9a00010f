-- ===== src/Handlers/Request.antt =====
-- include/gz/transport/ReqHandler.hh and src/ReqHandler.cc. What a handler is made of is a record;
-- the members that change while a request travels are another one, since the thread that waits
-- and the storage of the pending requests share the object.
use gz_transport.Common.{Bool, true, false, Option, none, some, List, [], ◌∷◌, Text}
use gz_transport.HandlerStorage.{Handles}
use gz_transport.Handlers.{Protobuf}

-- `ReqHandler<Req, Rep>`, with the types, the request and whether a callback is set; and
-- `ReqHandler<Message, Message>`, with its two pointers.
pub data ReqKind (Msg : Type 0) : Type 0 where
  typed : Text → Text → Msg → Bool → ReqKind Msg
  dynamic : Option Msg → Option Msg → ReqKind Msg

-- `HandlerUuid`, `NodeUuid` and the rest of the object.
pub record ReqHandler (Msg : Type 0) : Type 0 where
  pub h_uuid : Text
  pub n_uuid : Text
  pub kind : ReqKind Msg

-- The members that change.
pub record Progress : Type 0 where
  pub requested : Bool
  pub rep : Text
  pub result : Bool
  pub rep_available : Bool

-- The state that the constructor gives.
abbrev pub fresh : Progress
fresh = record { requested = false; rep = []; result = false; rep_available = false }

-- The call of the user's callback.
pub data Notified (Msg : Type 0) : Type 0 where
  called_back : Text → Msg → Bool → Notified Msg

module _ {Msg : Type 0} where
  -- `SetMessage` and `SetResponse`; `none` is the null pointer.
  unfoldable pub set_message : Option Msg → ReqHandler Msg → ReqHandler Msg
  set_message none h = h
  set_message (some m) h = elim h.kind [
    | typed req rep old cb ↦ record h { kind = typed req rep m cb }
    | dynamic old out ↦ record h { kind = dynamic (some m) out }
  ]

  unfoldable pub set_response : Option Msg → ReqHandler Msg → ReqHandler Msg
  set_response none h = h
  set_response (some m) h = elim h.kind [
    | typed req rep msg cb ↦ h
    | dynamic msg old ↦ record h { kind = dynamic msg (some m) }
  ]

module _ {Msg : Type 0} ⦃pb : Protobuf Msg⦄ where
  open pb use {type_name_of, parse_from_string, serialize_to_string}

  -- The name of the type of a message, and the empty text for the null pointer.
  unfoldable pub message_name : Option Msg → Text
  message_name none = []
  message_name (some m) = type_name_of m

  unfoldable pub req_type : ReqHandler Msg → Text
  unfolding message_name
  req_type h = elim h.kind [ typed req rep msg cb ↦ req | dynamic msg out ↦ message_name msg ]

  unfoldable pub rep_type : ReqHandler Msg → Text
  unfolding message_name
  rep_type h = elim h.kind [ typed req rep msg cb ↦ rep | dynamic msg out ↦ message_name out ]

  -- `Serialize`; `none` is an answer of false.
  unfoldable pub serialize : ReqHandler Msg → Option Text
  serialize h = elim h.kind [
    | typed req rep msg cb ↦ serialize_to_string msg
    | dynamic msg out ↦ elim msg [ none ↦ none | some m ↦ serialize_to_string m ]
  ]

  -- The two ways of `NotifyResult`: the callback, or the members.
  unfoldable pub notify_result :
      Text → Bool → ReqHandler Msg → Progress → Progress × List (Notified Msg)
  notify_result rep res h p =
      let kept = record p { rep = rep; result = res; rep_available = true } in
      elim h.kind [
        | typed req type msg true ↦ (
          record p { rep_available = true },
          called_back h.h_uuid (parse_from_string type rep).0 res ∷ [],
        )
        | typed req type msg false ↦ (kept, [])
        | dynamic msg out ↦ (kept, [])
      ]

instance abbrev pub req_handles : {Msg : Type 0} ⦃pb : Protobuf Msg⦄ → Handles (ReqHandler Msg)
req_handles = record {
  handler_uuid = λ h. h.h_uuid;
  req_type_name = req_type;
  rep_type_name = rep_type;
  type_name = λ h. [];
}
