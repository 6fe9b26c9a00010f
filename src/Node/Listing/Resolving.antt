-- ===== src/Node/Listing/Resolving.antt =====
-- src/Node.cc: the types of a service that a caller left open, `ResolveServiceTypes`.
use gz_transport.Common.{
  Bool, false, not, ◌&&◌, ◌||◌, none, some, List, [], ◌∷◌, any, keep_if, is_empty, if◌then◌else◌,
  Text, text_eq, ◌≡◌, refl, inl, inr, true, subst, All, arith, Bool-cases, Option-cases,
}
use gz_transport.Common.Within.{In, Within-self, Within-front, Within-back}
use gz_transport.TopicUtils.{fully_qualified_name}
use gz_transport.Publisher.{ServicePublisher}
use gz_transport.Node.{Node}

-- `ServiceTypeResolution`
pub data Resolution : Type 0 where
  resolved invalid_service no_providers incompatible_types ambiguous_types : Resolution

-- A provider has the types that the caller gave, where an empty type is left open.
unfoldable pub compatible : Text → Text → ServicePublisher → Bool
compatible req rep p =
    (is_empty req || text_eq p.req_type_name req) && (is_empty rep || text_eq p.rep_type_name rep)

-- The polls of `waitUntil`: each gives what `ServiceInfo` then knows, and the last one stands at
-- the end of the time. The result has whether the last poll made saw a provider, and the
-- compatible ones.
unfoldable pub poll_until :
    (ServicePublisher → Bool) → Bool → List (List ServicePublisher) → Bool × List ServicePublisher
poll_until ok seen [] = (seen, [])
poll_until ok seen (l ∷ ls) =
    let rest = poll_until ok (not (is_empty l)) ls in
    let kept = keep_if ok l in if is_empty kept then rest else (not (is_empty l), kept)

-- The rest of the function, on the compatible providers.
unfoldable pub resolve_from : Text → Text → Bool → List ServicePublisher → Resolution × Text × Text
resolve_from req rep seen [] = (if seen then incompatible_types else no_providers, req, rep)
resolve_from req rep seen (p ∷ ps) =
    let differs : ServicePublisher → Bool = λ q.
      (is_empty req && not (text_eq q.req_type_name p.req_type_name))
      || (is_empty rep && not (text_eq q.rep_type_name p.rep_type_name)) in
    if any differs (p ∷ ps) then (ambiguous_types, req, rep) else (
      resolved,
      if is_empty req then p.req_type_name else req,
      if is_empty rep then p.rep_type_name else rep,
    )

unfoldable pub resolve_service_types :
    Node → Text → Text → Text → List (List ServicePublisher) → Resolution × Text × Text
unfolding compatible poll_until resolve_from
resolve_service_types node service req rep polls =
    if not (is_empty req) && not (is_empty rep)
    then (resolved, req, rep)
    else elim (fully_qualified_name node.options.partition node.options.ns service) [
      | none ↦ (invalid_service, req, rep)
      | some name ↦
          let (seen, kept) = poll_until (compatible req rep) false polls in
          resolve_from req rep seen kept
    ]

-- A provider of just these types.
unfoldable pub offers_types : Text → Text → ServicePublisher → Bool
offers_types req rep p = text_eq p.req_type_name req && text_eq p.rep_type_name rep

-- The compatible providers are those of one of the polls.
poll_until-kept :
    (ok : ServicePublisher → Bool) (seen : Bool) (polls : List (List ServicePublisher))
    → is_empty (poll_until ok seen polls).1 ≡ false
    → (l : List ServicePublisher) × In l polls × ((poll_until ok seen polls).1 ≡ keep_if ok l)
unfolding poll_until
poll_until-kept ok seen [] h = absurd (ground arith)
poll_until-kept ok seen (l ∷ ls) h = elim (Bool-cases (is_empty (keep_if ok l))) [
  | inl e ↦
      let (m, inside, same) = poll_until-kept ok (not (is_empty l)) ls (rw e at h) in
      (m, Within-back (m ∷ []) (l ∷ []) ls inside, rw e same)
  | inr e ↦ (l, Within-front (l ∷ []) (l ∷ []) ls (Within-self (l ∷ [])), rw e refl)
]

keep_if-All :
    (ok : ServicePublisher → Bool) (ps : List ServicePublisher)
    → All (λ p. ok p ≡ true) (keep_if ok ps)
keep_if-All ok [] = tt
keep_if-All ok (p ∷ ps) = elim (Bool-cases (ok p)) [
  | inl e ↦ rw e (e, keep_if-All ok ps)
  | inr e ↦ rw e (keep_if-All ok ps)
]

-- Compatible providers of which none differs from `p` in a type that is open have the types of `p`
-- where they are open.
same_types :
    (req rep : Text) (p : ServicePublisher) (qs : List ServicePublisher)
    → All (λ q. compatible req rep q ≡ true) qs
    → any
        (λ q.
          (is_empty req && not (text_eq q.req_type_name p.req_type_name))
          || (is_empty rep && not (text_eq q.rep_type_name p.rep_type_name)))
        qs
      ≡ false
    → All
        (λ q.
          offers_types
            (if is_empty req then p.req_type_name else req)
            (if is_empty rep then p.rep_type_name else rep)
            q
          ≡ true)
        qs
unfolding compatible offers_types
same_types req rep p [] h none_differs = h
same_types req rep p (q ∷ qs) h none_differs =
    (ground (arith, h.0), same_types req rep p qs h.1 (ground arith))

resolve_from-agrees :
    (req rep req' rep' : Text) (seen : Bool) (kept : List ServicePublisher)
    → All (λ p. compatible req rep p ≡ true) kept
    → resolve_from req rep seen kept ≡ (resolved, req', rep')
    → (is_empty kept ≡ false) × All (λ p. offers_types req' rep' p ≡ true) kept
unfolding resolve_from
resolve_from-agrees req rep req' rep' seen [] h e = absurd (ground arith)
resolve_from-agrees req rep req' rep' seen (p ∷ ps) h e =
    let differs : ServicePublisher → Bool = λ q.
      (is_empty req && not (text_eq q.req_type_name p.req_type_name))
      || (is_empty rep && not (text_eq q.rep_type_name p.rep_type_name)) in
    elim (Bool-cases (any differs (p ∷ ps))) [
      | inl d ↦ absurd (ground arith)
      | inr d ↦
          let agree = same_types req rep p (p ∷ ps) h d in
          let e' = rw d at e in
          let types : Resolution × Text × Text → Type 0 =
            λ r. All (λ q. offers_types r.1 r.2 q ≡ true) (p ∷ ps) in
          (refl, subst types e' agree)
    ]

resolve_from-some :
    (req rep req' rep' : Text) (seen : Bool) (kept : List ServicePublisher)
    → resolve_from req rep seen kept ≡ (resolved, req', rep')
    → is_empty kept ≡ false
unfolding resolve_from
resolve_from-some req rep req' rep' seen [] e = absurd (ground arith)
resolve_from-some req rep req' rep' seen (p ∷ ps) e = refl

-- When `ResolveServiceTypes` has a type to find and answers that it did, the answer rests on one of
-- the polls: some provider of that poll has the types that the caller gave, and every provider of
-- the poll that has these has just the two types that the function gives back.
pub resolve_service_types-agrees :
    (node : Node) (service req rep req' rep' : Text) (polls : List (List ServicePublisher))
    → is_empty req || is_empty rep ≡ true
    → resolve_service_types node service req rep polls ≡ (resolved, req', rep')
    → (l : List ServicePublisher) × In l polls
      × (is_empty (keep_if (compatible req rep) l) ≡ false)
      × All (λ p. offers_types req' rep' p ≡ true) (keep_if (compatible req rep) l)
unfolding resolve_service_types
resolve_service_types-agrees node service req rep req' rep' polls left_open h =
    let ok = compatible req rep in
    let r = poll_until ok false polls in
    elim (Option-cases (fully_qualified_name node.options.partition node.options.ns service)) [
      | inl e ↦ absurd (ground arith)
      | inr (name, e) ↦
          let h' : resolve_from req rep r.0 r.1 ≡ (resolved, req', rep') = ground arith in
          let some_kept = resolve_from-some req rep req' rep' r.0 r.1 h' in
          let (l, inside, same) = poll_until-kept ok false polls some_kept in
          let (some_left, agree) =
            resolve_from-agrees req rep req' rep' r.0 (keep_if ok l) (keep_if-All ok l)
              (rw same at h') in
          (l, inside, some_left, agree)
    ]
