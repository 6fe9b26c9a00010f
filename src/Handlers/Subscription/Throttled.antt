-- ===== src/Handlers/Subscription/Throttled.antt =====
-- src/SubscriptionHandler.cc: how often `UpdateThrottling` lets a callback run.
use gz_transport.Common.{
  ℕ, ◌-◌, ◌*◌, ◌^◌, ◌≤◌, ◌<◌, ◌≡◌, refl, subst, ◌↔◌, ◌⊎◌, inl, inr, Bool-cases, true, false, List,
  [], ◌∷◌, ◌==◌, ltb, if◌then◌else◌, Text, text_eq_refl, arith, ltb→lt,
}
use gz_transport.Common.Map.{insert, lookup-insert}
use gz_transport.Publisher.{unthrottled}
use gz_transport.Handlers.Subscription.{Subscriber, Timestamps, last_cb, update_throttling}

-- The times, of those at which a handler is asked, at which its callback runs.
unfoldable pub let_through : Subscriber → List ℕ → Timestamps → List ℕ
let_through h [] m = []
let_through h (now ∷ times) m =
    let (m', due) = update_throttling now h m in
    let rest = let_through h times m' in if due then now ∷ rest else rest

-- From `t` on, a period of `rate` messages a second passes before each of the times.
abbrev pub Spaced : ℕ → ℕ → List ℕ → Type 0
Spaced rate t [] = Unit {0}
Spaced rate t (now ∷ times) = (10 ^ 9 ≤ (now - t) * rate) × Spaced rate now times

last_cb-insert : (k : Text) (now : ℕ) (m : Timestamps) → last_cb k (insert k now m) ≡ now
unfolding last_cb
last_cb-insert k now m = ground (arith, lookup-insert k k now m, text_eq_refl k)

-- With a rate, either too little time passed and nothing changes, or the callback runs.
update_throttling-cases :
    (now : ℕ) (h : Subscriber) (m : Timestamps)
    → (h.opts.msgs_per_sec == unthrottled) ≡ false
    → let waited = (now - last_cb h.h_uuid m) * h.opts.msgs_per_sec in
      ((update_throttling now h m ≡ (m, false)) × (waited < 10 ^ 9))
      ⊎ ((update_throttling now h m ≡ (insert h.h_uuid now m, true)) × (10 ^ 9 ≤ waited))
unfolding update_throttling
update_throttling-cases now h m e =
    let waited = (now - last_cb h.h_uuid m) * h.opts.msgs_per_sec in
    elim (Bool-cases (ltb waited (10 ^ 9))) [
      | inl l ↦ inl (rw (e, l) (refl, ltb→lt waited (10 ^ 9) l))
      | inr l ↦ inr (rw (e, l) (refl, ground arith))
    ]

let_through-Spaced_of_last :
    (h : Subscriber) (times : List ℕ) (m : Timestamps)
    → (h.opts.msgs_per_sec == unthrottled) ≡ false
    → Spaced h.opts.msgs_per_sec (last_cb h.h_uuid m) (let_through h times m)
unfolding let_through
let_through-Spaced_of_last h [] m e = tt
let_through-Spaced_of_last h (now ∷ times) m e = elim (update_throttling-cases now h m e) [
  | inl (u, short) ↦ rw (u, let_through) (let_through-Spaced_of_last h times m e)
  | inr (u, long) ↦
      let rest = let_through-Spaced_of_last h times (insert h.h_uuid now m) e in
      let at =
        λ (t : ℕ). Spaced h.opts.msgs_per_sec t (let_through h times (insert h.h_uuid now m)) in
      rw (u, let_through) (long, subst at (last_cb-insert h.h_uuid now m) rest)
]

-- When the options of a handler set a rate, its callbacks are at least one period apart, the first
-- of them from the last one before; and whenever it is asked, it runs exactly if a period has
-- passed since its last callback.
pub let_through-Spaced :
    (h : Subscriber) (times : List ℕ) (m : Timestamps)
    → (h.opts.msgs_per_sec == unthrottled) ≡ false
    → Spaced h.opts.msgs_per_sec (last_cb h.h_uuid m) (let_through h times m)
      × ((now : ℕ)
          → ((update_throttling now h m).1 ≡ true)
            ↔ (10 ^ 9 ≤ (now - last_cb h.h_uuid m) * h.opts.msgs_per_sec))
let_through-Spaced h times m e = (
  let_through-Spaced_of_last h times m e,
  λ now. elim (update_throttling-cases now h m e) [
    | inl (u, short) ↦
        (λ due. absurd (ground (arith, u, due)), λ long. absurd (omega (arith, long, short)))
    | inr (u, long) ↦ (λ due. long, λ long. rw u refl)
  ],
)
