-- ===== src/HandlerStorage/Tests.antt =====
-- Examples of the storage of include/gz/transport/HandlerStorage.hh.
use gz_transport.Common.{◌≡◌, refl, some, List, [], ◌∷◌, Text, bytes, text_eq, text_lt}
use gz_transport.Common.Map.{insert, lookup, lookup_list, contains, erase}
use gz_transport.HandlerStorage.{
  Handles, HandlerStorage, add_handler, remove_handler, first_message_handler,
}
use gz_transport.HandlerStorage.Histories.{Call, adds, removes, IsFilled, step, run}

-- A handler with nothing but what the storage asks for.
record Echo : Type 0 where
  own_uuid : Text
  types : Text

instance abbrev echo_handles : Handles Echo
echo_handles = record {
  handler_uuid = λ h. h.own_uuid;
  req_type_name = λ h. h.types;
  rep_type_name = λ h. h.types;
  type_name = λ h. h.types;
}

abbrev first : Echo
first = record { own_uuid = bytes "h1"; types = bytes "Int" }

abbrev second : Echo
second = record { own_uuid = bytes "h2"; types = bytes "Float" }

abbrev held : HandlerStorage Echo
held = (bytes "a", (bytes "n", (bytes "h1", first) ∷ (bytes "h2", second) ∷ []) ∷ []) ∷ []

abbrev calls : List (Call Echo)
calls =
    adds (bytes "b") (bytes "n") first
    ∷ adds (bytes "a") (bytes "n") second
    ∷ adds (bytes "a") (bytes "n") first
    ∷ removes (bytes "b") (bytes "n") (bytes "h1")
    ∷ []

held_by_calls : run calls [] ≡ held
unfolding run step remove_handler lookup add_handler insert contains text_eq text_lt lookup_list
    erase
held_by_calls = refl

held_first : first_message_handler (bytes "a") (bytes "Float") held ≡ some second
unfolding first_message_handler lookup text_eq
held_first = refl

held-IsFilled : IsFilled held
held-IsFilled = (record { filled = refl; nodes = (refl, tt) }, tt)
