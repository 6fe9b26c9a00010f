-- ===== src/Parameters/Served.antt =====
-- parameters/: a client and the registry of another process, whose services answer its requests.
use gz_transport.Common.{
  ◌+◌, ◌≡◌, refl, ap, ◌∙◌, sym, subst, Bool, true, false, not, Option, none, some, [], ◌∷◌, ◌++◌,
  append_assoc, length, length-append, if◌then◌else◌, Text, bytes, text_eq, text_eq_refl, has_char,
  ends_with, find_last, take, drop,
}
use gz_transport.Common.Map.{Map, lookup, insert, lookup-insert}
use gz_transport.TopicUtils.Qualified.Search.{find_last-append, drop-append}
use gz_transport.Parameters.{
  AnyMsg, Messages, ParameterResultType, result_only, result_for, gz_type_from_any, ErrorData,
}
use gz_transport.Parameters.Registry.{get_parameter, set_parameter_service}
use gz_transport.Parameters.Client.{
  blank_any, service_name, get_parameter_common, client_parameter, client_set_parameter, set_answer,
}

-- What protobuf documents of `Any`: the address of the type, with a slash between the prefix and the
-- name where the prefix does not end with one, and that unpacking undoes packing.
pub record AnyLaws {Msg : Type 0} (msgs : Messages Msg) : Type 0 where
  pub pack_address :
      (p : Text) (m : Msg) (a : AnyMsg)
      → msgs.pack p m ≡ some a
      → a.type_url
        ≡ (if ends_with b'/' p then p ++ msgs.full_name m else p ++ b'/' ∷ msgs.full_name m)
  pub unpack_pack :
      (p : Text) (m target : Msg) (a : AnyMsg)
      → msgs.pack p m ≡ some a
      → msgs.full_name target ≡ msgs.full_name m
      → msgs.unpack a target ≡ (m, true)
  pub no_slash : (m : Msg) → has_char b'/' (msgs.full_name m) ≡ false

-- The type is what stands behind the last slash, unless this is the bare prefix of the package.
gz_type_from_any_lem :
    (a : AnyMsg) (p type : Text)
    → a.type_url ≡ p ++ b'/' ∷ type
    → has_char b'/' type ≡ false
    → text_eq (take 9 type) (bytes "gz.msgs.") ≡ false
    → gz_type_from_any a ≡ some type
unfolding gz_type_from_any
gz_type_from_any_lem a p type e clean other =
    let cut : drop (length p + 1) (p ++ b'/' ∷ type) ≡ type =
      subst (λ s. drop (length p + 1) s ≡ type) (append_assoc p (b'/' ∷ []) type)
        (subst (λ n. drop n ((p ++ b'/' ∷ []) ++ type) ≡ type) (length-append p (b'/' ∷ []))
          (drop-append (p ++ b'/' ∷ []) type)) in
    subst (λ url. gz_type_from_any (record { type_url = url; value = a.value }) ≡ some type) (sym e)
      (rw (gz_type_from_any, find_last-append b'/' p type clean, cut, other) refl)

module _ {Msg : Type 0} ⦃msgs : Messages Msg⦄ where
  open msgs use {full_name, pack, unpack}

  -- The services of the registry, under its namespace; a false answer leaves the response blank.
  unfoldable pub serve_get : Text → Map Msg → Text → Text → Option (AnyMsg × Bool)
  unfolding get_parameter
  serve_get ns ps service name =
      if not (text_eq service (service_name ns (bytes "/get_parameter")))
      then none
      else some (elim (get_parameter name ps) [ none ↦ (blank_any, false) | some a ↦ (a, true) ])

  unfoldable pub serve_set :
      Text → Text → Text → AnyMsg → Map Msg → Map Msg × Option (ErrorData × Bool)
  unfolding set_parameter_service
  serve_set ns service name value ps =
      let (ps', answer) = set_parameter_service name value ps in
      if not (text_eq service (service_name ns (bytes "/set_parameter")))
      then (ps, none)
      else (ps', some (elim answer [ none ↦ (ErrorData.success, false) | some e ↦ (e, true) ]))

  -- What a request for a parameter is answered.
  serve_get_lem :
      (ns name : Text) (ps : Map Msg)
      → serve_get ns ps (service_name ns (bytes "/get_parameter")) name
        ≡ some (elim (get_parameter name ps) [ none ↦ (blank_any, false) | some a ↦ (a, true) ])
  unfolding serve_get
  serve_get_lem ns name ps = rw (text_eq_refl (service_name ns (bytes "/get_parameter"))) refl

  -- The client's answer is made of the message that it gets.
  client_parameter_lem :
      (request : Text → Text → Option (AnyMsg × Bool)) (ns name type : Text) (target m : Msg)
      (a : AnyMsg) (b : Bool)
      → request (service_name ns (bytes "/get_parameter")) name ≡ some (a, b)
      → gz_type_from_any a ≡ some type
      → text_eq type (full_name target) ≡ true
      → unpack a target ≡ (m, true)
      → client_parameter request ns name target ≡ (m, result_only ParameterResultType.success)
  unfolding client_parameter get_parameter_common
  client_parameter_lem request ns name type target m a b e t same u =
      let got : (get_parameter_common request ns name).0 ≡ a = rw (get_parameter_common, e) refl in
      rw (client_parameter, (ap gz_type_from_any got ∙ t), same, got, u) refl

  -- A client that asks for a parameter which is not declared is told that the answer is unexpected,
  -- as it is when the request times out, and its message stays.
  pub client_parameter-undeclared :
      (ns name : Text) (target : Msg) (ps : Map Msg)
      → lookup name ps ≡ none
      → (client_parameter (serve_get ns ps) ns name target
          ≡ (target, result_for ParameterResultType.unexpected name))
        × (client_parameter (λ service n. none) ns name target
            ≡ (target, result_for ParameterResultType.unexpected name))
  unfolding client_parameter get_parameter_common gz_type_from_any serve_get get_parameter find_last
  client_parameter-undeclared ns name target ps e = (
    rw (client_parameter, get_parameter_common, serve_get_lem ns name ps, get_parameter, e) refl,
    refl,
  )

  module _ (laws : AnyLaws msgs) where
    open laws use {pack_address, unpack_pack, no_slash}

    packed_type :
        (p : Text) (m : Msg) (a : AnyMsg)
        → ends_with b'/' p ≡ false
        → pack p m ≡ some a
        → text_eq (take 9 (full_name m)) (bytes "gz.msgs.") ≡ false
        → gz_type_from_any a ≡ some (full_name m)
    packed_type p m a e packed other =
        gz_type_from_any_lem a p (full_name m) (pack_address p m a packed ∙ rw e refl) (no_slash m)
          other

    sent_type :
        (m : Msg) (a : AnyMsg)
        → pack (bytes "type.googleapis.com/") m ≡ some a
        → text_eq (take 9 (full_name m)) (bytes "gz.msgs.") ≡ false
        → gz_type_from_any a ≡ some (full_name m)
    sent_type m a packed other =
        gz_type_from_any_lem a (bytes "type.googleapis.com") (full_name m)
          (pack_address (bytes "type.googleapis.com/") m a packed ∙ unfold ends_with in refl)
          (no_slash m) other

    set_service_lem :
        (name : Text) (m old : Msg) (sent : AnyMsg) (ps : Map Msg)
        → lookup name ps ≡ some old
        → full_name old ≡ full_name m
        → pack (bytes "type.googleapis.com/") m ≡ some sent
        → text_eq (take 9 (full_name m)) (bytes "gz.msgs.") ≡ false
        → set_parameter_service name sent ps ≡ (insert name m ps, some ErrorData.success)
    unfolding set_parameter_service
    set_service_lem name m old sent ps found e1 s other =
        rw
          (
            set_parameter_service,
            found,
            sent_type m sent s other,
            unpack_pack (bytes "type.googleapis.com/") m old sent s e1,
            e1,
            text_eq_refl (full_name m),
          )
          refl

    -- The registry accepts what the client sends.
    set_lem :
        (ns name : Text) (m old : Msg) (sent : AnyMsg) (ps : Map Msg)
        → lookup name ps ≡ some old
        → full_name old ≡ full_name m
        → pack (bytes "type.googleapis.com/") m ≡ some sent
        → text_eq (take 9 (full_name m)) (bytes "gz.msgs.") ≡ false
        → client_set_parameter (serve_set ns) ns name m ps
          ≡ (insert name m ps, result_only ParameterResultType.success)
    unfolding client_set_parameter serve_set set_answer
    set_lem ns name m old sent ps found e1 s other =
        rw
          (
            client_set_parameter,
            s,
            serve_set,
            set_service_lem name m old sent ps found e1 s other,
            text_eq_refl (service_name ns (bytes "/set_parameter")),
          )
          refl

    -- A parameter that a client sets to a message of its own type is set, and a client that asks
    -- for it afterwards gets that message, where both messages can be packed.
    pub set-then-get :
        (ns name : Text) (m old target : Msg) (sent kept : AnyMsg) (ps : Map Msg)
        → lookup name ps ≡ some old
        → full_name old ≡ full_name m
        → full_name target ≡ full_name m
        → pack (bytes "type.googleapis.com/") m ≡ some sent
        → pack (bytes "gz_msgs") m ≡ some kept
        → text_eq (take 9 (full_name m)) (bytes "gz.msgs.") ≡ false
        → let answer = client_set_parameter (serve_set ns) ns name m ps in
          (answer ≡ (insert name m ps, result_only ParameterResultType.success))
          × (client_parameter (serve_get ns answer.0) ns name target
              ≡ (m, result_only ParameterResultType.success))
    unfolding get_parameter ends_with
    set-then-get ns name m old target sent kept ps found e1 e2 s k other =
        let ps' = insert name m ps in
        let set = set_lem ns name m old sent ps found e1 s other in
        let got =
          client_parameter_lem (serve_get ns ps') ns name (full_name m) target m kept true
            (serve_get_lem ns name ps'
              ∙ rw (get_parameter, lookup-insert name name m ps, text_eq_refl name, k) refl)
            (packed_type (bytes "gz_msgs") m kept refl k other) (rw e2 (text_eq_refl (full_name m)))
            (unpack_pack (bytes "gz_msgs") m target kept k e2) in
        (
          set,
          subst
              (λ st.
                client_parameter (serve_get ns st) ns name target
                ≡ (m, result_only ParameterResultType.success))
              (sym (ap (λ r. r.0) set)) got,
        )
