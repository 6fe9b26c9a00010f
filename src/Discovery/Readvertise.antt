-- ===== src/Discovery/Readvertise.antt =====
-- What a heartbeat of src/Discovery.hh advertises again.
use gz_transport.Common.{
  ℕ, ◌≤◌, ◌≡◌, sym, subst, ◌⊎◌, inl, inr, true, false, some, List, [], ◌∷◌, ◌++◌, Text, text_eq,
  text_eq_refl, arith, Bool-cases, Option-cases,
}
use gz_transport.Common.Map.{Map, lookup, lookup_list}
use gz_transport.Common.Within.{
  Within, In, Within-self, Within-front, Within-back, Within-trans, In-keep_if,
}
use gz_transport.TopicStorage.{TopicStorage, publishers_by_proc, publishers_by_node}
use gz_transport.TopicStorage.Contents.{stored}
use gz_transport.TopicStorage.Removal.{of_node}
use gz_transport.TopicStorage.Listing.{publishers_by_proc-by_node}
use gz_transport.Publisher.Messages.{advertise, heartbeat}
use gz_transport.Discovery.{
  Wire, wire_publishes, Env, Discovery, Effect, flat_map, send_own, send_pub,
}
use gz_transport.Discovery.Timers.{readvertise, update_heartbeat}

Within-flat_map :
    {A B : Type 0} (f : A → List B) (x : A) (v w : List A) → Within (f x) (flat_map f (v ++ x ∷ w))
Within-flat_map f x [] w = Within-front (f x) (f x) (flat_map f w) (Within-self (f x))
Within-flat_map f x (y ∷ v) w =
    Within-back (f x) (f y) (flat_map f (v ++ x ∷ w)) (Within-flat_map f x v w)

flat_map-In :
    {A B : Type 0} (f : A → List B) (x : A) (xs : List A) → In x xs → Within (f x) (flat_map f xs)
flat_map-In f x xs (v, w, e) = rw e (Within-flat_map f x v w)

entry-In :
    {V : Type 0} (k : Text) (x : V) (m : Map V) → lookup k m ≡ some x → (j : Text) × In (j, x) m
unfolding lookup
entry-In k x [] h = cc
entry-In k x ((j, y) ∷ m) h = elim (Bool-cases (text_eq j k)) [
  | inl e ↦ (j, ([], m, ground arith))
  | inr e ↦
      let (i, p) = entry-In k x m (ground arith) in (i, Within-back ((i, x) ∷ []) ((j, y) ∷ []) m p)
]

In-nil : {A : Type 0} (x : A) → In x [] → false ≡ true
In-nil x ([], w, e) = cc
In-nil x (y ∷ v, w, e) = cc

module _ {P : Type 0} ⦃w : Wire P⦄ where
  open w use {n_uuid}

  here :
      (t u t' : Text) (m : Map (List P)) (s : TopicStorage P)
      → text_eq t' t ≡ true
      → stored ((t', m) ∷ s) t u ≡ lookup_list u m
  unfolding lookup_list lookup
  here t u t' m s e = ground arith

  later :
      (t u t' : Text) (m : Map (List P)) (s : TopicStorage P)
      → text_eq t' t ≡ false
      → stored ((t', m) ∷ s) t u ≡ stored s t u
  unfolding lookup_list lookup
  later t u t' m s e = ground arith

  listed_or_nil :
      (n : Text) (m : Map (List P))
      → (lookup_list n m ≡ []) ⊎ ((v : List P) × (lookup n m ≡ some v) × (lookup_list n m ≡ v))
  unfolding lookup_list
  listed_or_nil n m = elim (Option-cases (lookup n m)) [
    | inl e ↦ inl (ground arith)
    | inr (v, e) ↦ inr (v, e, ground arith)
  ]

  by_node-In :
      (t u : Text) (q : P) (s : TopicStorage P)
      → In q (stored s t u)
      → In q (publishers_by_node u (n_uuid q) s)
  unfolding publishers_by_node lookup_list lookup
  by_node-In t u q [] h = h
  by_node-In t u q ((t', m) ∷ s) h = elim (Bool-cases (text_eq t' t)) [
    | inl e ↦ Within-front (q ∷ []) _ (publishers_by_node u (n_uuid q) s) (
        In-keep_if (of_node (n_uuid q)) q (lookup_list u m) (text_eq_refl (n_uuid q))
          (subst (In q) (here t u t' m s e) h))
    | inr e ↦ Within-back (q ∷ []) _ _ (by_node-In t u q s (subst (In q) (later t u t' m s e) h))
  ]

  proc-In :
      (u : Text) (q : P) (f : P → List (Effect P)) (s : TopicStorage P)
      → In q (publishers_by_node u (n_uuid q) s)
      → Within (f q) (flat_map (λ e. flat_map f e.1) (publishers_by_proc u s))
  proc-In u q f s h =
      let m = publishers_by_proc u s in
      let k : In q (lookup_list (n_uuid q) m) =
        subst (In q) (sym (publishers_by_proc-by_node u (n_uuid q) s)) h in
      elim (listed_or_nil (n_uuid q) m) [
        | inl e ↦ let c : false ≡ true = In-nil q (subst (In q) e k) in absurd (ground arith)
        | inr (v, e, e') ↦
            let (j, p) = entry-In (n_uuid q) v m e in
            Within-trans (f q) (flat_map f v) _ (flat_map-In f q v (subst (In q) e' k))
              (flat_map-In (λ a. flat_map f a.1) (j, v) m p)
      ]

  -- A heartbeat that is due sends a message of its own and then, for each publisher that the
  -- process holds under its own UUID, whatever the scope of the publisher is, the messages that
  -- advertise it.
  pub update_heartbeat-readvertises :
      (env : Env) (now later : ℕ) (d : Discovery P) (t : Text) (q : P)
      → d.time_next_heartbeat ≤ now
      → In q (stored d.info t d.p_uuid)
      → ((update_heartbeat env now later d).1 ≡ send_own env d heartbeat ++ readvertise env d)
        × Within (send_pub env d advertise q) (readvertise env d)
  unfolding update_heartbeat readvertise
  update_heartbeat-readvertises env now later d t q due h = (
    ground arith,
    proc-In d.p_uuid q (send_pub env d advertise) d.info (by_node-In t d.p_uuid q d.info h),
  )
