-- ===== src/Log/Playback/Selected.antt =====
-- log/src/Playback.cc: which topics are played back, after any calls.
use gz_transport.Common.{
  ◌≡◌, refl, Bool, false, not, ◌&&◌, ◌||◌, Option, none, some, List, [], ◌∷◌, any-append, is_some,
  Text, text_eq, text_eq_iff, arith,
}
use gz_transport.Common.Map.{Map, lookup}
use gz_transport.Common.Int.{ℤ}
use gz_transport.Log.Playback.{
  Choice, has_name, insert_name, insert_names, erase_if, topics_of, default_to_all_topics,
  add_topic, add_matching, remove_topic, remove_matching, topics_to_play,
}

-- The calls that choose topics, of a log that is valid.
pub data ChoiceCall : Type 0 where
  adds removes : Text → ChoiceCall
  adds_matching removes_matching : (Text → Bool) → ChoiceCall

unfoldable pub make_call : Map (Map ℤ) → ChoiceCall → Choice → Choice
unfolding add_topic add_matching remove_topic remove_matching
make_call m (adds t) c = (add_topic (some m) t c).0
make_call m (removes t) c = (remove_topic m t c).0
make_call m (adds_matching p) c = (add_matching (some m) p c).0
make_call m (removes_matching p) c = (remove_matching m p c).0

unfoldable pub make_calls : Map (Map ℤ) → List ChoiceCall → Choice → Choice
unfolding make_call
make_calls m [] c = c
make_calls m (k ∷ ks) c = make_calls m ks (make_call m k c)

-- What the calls mean for one topic: none while nothing has been chosen, which plays back what the
-- log has.
abbrev pub chosen_or : Bool → Option Bool → Bool
chosen_or logged none = logged
chosen_or logged (some b) = b

abbrev given : Option Bool → Bool
given none = false
given (some b) = b

unfoldable pub meaning : Bool → Text → ChoiceCall → Option Bool → Option Bool
meaning logged t (adds u) o = some (given o || (text_eq u t && logged))
meaning logged t (removes u) o = some (chosen_or logged o && not (text_eq u t))
meaning logged t (adds_matching p) o = some (given o || (p t && logged))
meaning logged t (removes_matching p) o = some (chosen_or logged o && not (p t))

unfoldable pub meanings : Bool → Text → List ChoiceCall → Option Bool → Option Bool
unfolding meaning
meanings logged t [] o = o
meanings logged t (k ∷ ks) o = meanings logged t ks (meaning logged t k o)

has_name-insert_name :
    (t u : Text) (names : List Text)
    → has_name t (insert_name u names) ≡ has_name t names || text_eq u t
unfolding has_name insert_name
has_name-insert_name t u names =
    ground (arith, any-append (λ n. text_eq n t) names (u ∷ []), text_eq_iff u t)

has_name-insert_names :
    (t : Text) (us names : List Text)
    → has_name t (insert_names us names) ≡ has_name t names || has_name t us
unfolding insert_names has_name
has_name-insert_names t [] names = ground arith
has_name-insert_names t (u ∷ us) names =
    ground (arith, has_name-insert_names t us (insert_name u names), has_name-insert_name t u names)

has_name-erase_if :
    (t : Text) (p : Text → Bool) (names : List Text)
    → has_name t (erase_if p names) ≡ has_name t names && not (p t)
unfolding erase_if has_name
has_name-erase_if t p [] = refl
has_name-erase_if t p (n ∷ names) = ground (arith, has_name-erase_if t p names, text_eq_iff n t)

has_name-topics_of : (t : Text) (m : Map (Map ℤ)) → has_name t (topics_of m) ≡ is_some (lookup t m)
unfolding topics_of has_name lookup
has_name-topics_of t [] = refl
has_name-topics_of t ((u, types) ∷ m) = ground (arith, has_name-topics_of t m)

-- The state agrees with what the calls mean for a topic.
abbrev Agrees : Text → Choice → Option Bool → Type 0
Agrees t c o = (c.add_topic_was_used ≡ is_some o) × (has_name t c.topic_names ≡ given o)

default-Agrees :
    (t : Text) (m : Map (Map ℤ)) (c : Choice) (o : Option Bool)
    → Agrees t c o
    → has_name t (default_to_all_topics m c).topic_names ≡ chosen_or (is_some (lookup t m)) o
unfolding default_to_all_topics
default-Agrees t m c none h =
    ground (arith, h, has_name-insert_names t (topics_of m) c.topic_names, has_name-topics_of t m)
default-Agrees t m c (some b) h = ground (arith, h)

make_call-Agrees :
    (t : Text) (m : Map (Map ℤ)) (k : ChoiceCall) (c : Choice) (o : Option Bool)
    → Agrees t c o
    → Agrees t (make_call m k c) (meaning (is_some (lookup t m)) t k o)
unfolding make_call meaning add_topic add_matching remove_topic remove_matching
make_call-Agrees t m (adds u) c o h =
    ground (arith, h, has_name-insert_name t u c.topic_names, text_eq_iff u t)
make_call-Agrees t m (removes u) c o h = ground (
  arith,
  default-Agrees t m c o h,
  has_name-erase_if t (λ n. text_eq n u) (default_to_all_topics m c).topic_names,
  text_eq_iff u t,
  text_eq_iff t u,
)
make_call-Agrees t m (adds_matching p) c o h = ground (
  arith,
  h,
  has_name-insert_names t (erase_if (λ n. not (p n)) (topics_of m)) c.topic_names,
  has_name-erase_if t (λ n. not (p n)) (topics_of m),
  has_name-topics_of t m,
)
make_call-Agrees t m (removes_matching p) c o h =
    ground (
      arith,
      default-Agrees t m c o h,
      has_name-erase_if t p (default_to_all_topics m c).topic_names,
    )

make_calls-Agrees :
    (t : Text) (m : Map (Map ℤ)) (ks : List ChoiceCall) (c : Choice) (o : Option Bool)
    → Agrees t c o
    → Agrees t (make_calls m ks c) (meanings (is_some (lookup t m)) t ks o)
unfolding make_calls meanings
make_calls-Agrees t m [] c o h = h
make_calls-Agrees t m (k ∷ ks) c o h =
    make_calls-Agrees t m ks (make_call m k c) (meaning (is_some (lookup t m)) t k o)
      (make_call-Agrees t m k c o h)

topics_to_play-Agrees :
    (t : Text) (m : Map (Map ℤ)) (c : Choice) (o : Option Bool)
    → Agrees t c o
    → has_name t (topics_to_play m c) ≡ chosen_or (is_some (lookup t m)) o
unfolding topics_to_play has_name
topics_to_play-Agrees t m c none h =
    ground (arith, h, has_name-insert_names t (topics_of m) [], has_name-topics_of t m)
topics_to_play-Agrees t m c (some b) h = ground (arith, h)

abbrev pub new_choice : Choice
new_choice = record { topic_names = []; add_topic_was_used = false }

-- A topic is among those that a playback starts with after some calls, of a log that is valid,
-- exactly if the calls mean it: without a call every topic of the log is; adding a topic, or the
-- topics that match a pattern, first leaves out all others, and removing first takes all in, unless
-- a call has come before; later calls add topics of the log, or remove topics.
pub topics_to_play-meaning :
    (t : Text) (m : Map (Map ℤ)) (ks : List ChoiceCall)
    → let logged = is_some (lookup t m) in
      has_name t (topics_to_play m (make_calls m ks new_choice))
      ≡ chosen_or logged (meanings logged t ks none)
unfolding has_name
topics_to_play-meaning t m ks =
    topics_to_play-Agrees t m (make_calls m ks new_choice)
      (meanings (is_some (lookup t m)) t ks none)
      (make_calls-Agrees t m ks new_choice none (refl, refl))
