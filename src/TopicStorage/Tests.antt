-- ===== src/TopicStorage/Tests.antt =====
-- Examples of the storage of include/gz/transport/TopicStorage.hh.
use gz_transport.Common.{◌≡◌, refl, List, [], ◌∷◌, Text, bytes, text_eq, text_lt}
use gz_transport.Common.Map.{IsSorted, lookup_list, insert, contains}
use gz_transport.TopicStorage.{Publishes, TopicStorage, add_publisher}
use gz_transport.TopicStorage.Invariant.{IsWellFormed}
use gz_transport.TopicStorage.Run.{Call, adds, dels_by_proc, step, run, run-IsWellFormed}

-- A publisher with nothing but what the storage asks for.
record Pub : Type 0 where
  at_topic : Text
  at_addr : Text
  proc : Text
  node : Text

instance abbrev pub_publishes : Publishes Pub
pub_publishes = record {
  topic = λ p. p.at_topic;
  addr = λ p. p.at_addr;
  p_uuid = λ p. p.proc;
  n_uuid = λ p. p.node;
}

abbrev first : Pub
first = record { at_topic = bytes "a"; at_addr = bytes "x"; proc = bytes "p"; node = bytes "n" }

abbrev second : Pub
second = record { at_topic = bytes "a"; at_addr = bytes "y"; proc = bytes "p"; node = bytes "m" }

abbrev third : Pub
third = record { at_topic = bytes "b"; at_addr = bytes "x"; proc = bytes "q"; node = bytes "n" }

abbrev held : TopicStorage Pub
held =
    (bytes "a", (bytes "p", first ∷ second ∷ []) ∷ [])
    ∷ (bytes "b", (bytes "q", third ∷ []) ∷ [])
    ∷ []

abbrev calls : List (Call Pub)
calls = adds third ∷ adds first ∷ adds second ∷ adds first ∷ []

held_by_calls : run calls [] ≡ held
unfolding run step add_publisher text_eq text_lt insert lookup_list contains
held_by_calls = refl

held-IsSorted : IsSorted held
unfolding text_lt
held-IsSorted = (refl, tt)

run-IsWellFormed_example : IsWellFormed (run (adds first ∷ dels_by_proc (bytes "p") ∷ calls) [])
run-IsWellFormed_example = run-IsWellFormed (adds first ∷ dels_by_proc (bytes "p") ∷ calls)
