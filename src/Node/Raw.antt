-- ===== src/Node/Raw.antt =====
-- src/Node.cc: requests whose messages are given by their bytes.
use gz_transport.Common.{Bool, true, false, Option, none, some, if◌then◌else◌, Text}

-- `RequestRaw`: the response, `_result` and the answer, with their values before. `create` is
-- `Factory::New`, `parse` is `ParseFromString` into a new message, `print` is `SerializeToString`,
-- and `request` is `Request`, with the response that it leaves, `_result` and its answer.
unfoldable pub request_raw :
    {Msg : Type 0}
    → (Text → Option Msg)
    → (Text → Msg → Option Msg)
    → (Msg → Option Text)
    → (Msg → Msg → Msg × Bool × Bool)
    → Text
    → Text
    → Text
    → Text
    → Bool
    → Text × Bool × Bool
request_raw create parse print request content req_type rep_type response result =
    elim (create req_type) [
      | none ↦ (response, result, false)
      | some blank ↦ elim (parse content blank) [
        | none ↦ (response, result, false)
        | some req ↦ elim (create rep_type) [
          | none ↦ (response, result, false)
          | some res ↦
              let (filled, ok, executed) = request req res in
              if executed
              then elim (print filled) [
                | none ↦ (response, ok, false)
                | some text ↦ (text, ok, true)
              ]
              else (response, ok, false)
        ]
      ]
    ]
