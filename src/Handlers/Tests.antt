-- ===== src/Handlers/Tests.antt =====
-- Examples of the handlers of a process.
use gz_transport.Common.{
  ℕ, ◌-◌, ◌*◌, ◌^◌, ◌≤◌, ◌≡◌, refl, ◌↔◌, true, false, List, [], ◌∷◌, bytes, text_eq, text_lt,
}
use gz_transport.Common.Map.{lookup, insert}
use gz_transport.Handlers.Subscription.{Subscriber, typed, last_cb, update_throttling}
use gz_transport.Handlers.Subscription.Throttled.{Spaced, let_through, let_through-Spaced}

-- A subscriber that takes two messages a second.
abbrev slow : Subscriber
slow = record {
  h_uuid = bytes "h1";
  n_uuid = bytes "n1";
  kind = typed (bytes "Int");
  opts = record { msgs_per_sec = 2; ignore_local_messages = false };
  has_cb = true;
}

abbrev asked : List ℕ
asked = 600000000 ∷ 700000000 ∷ 1099999999 ∷ 1100000000 ∷ 2000000000 ∷ []

ran : let_through slow asked [] ≡ 600000000 ∷ 1100000000 ∷ 2000000000 ∷ []
unfolding let_through update_throttling last_cb lookup insert text_eq text_lt
ran = refl

let_through-Spaced_example :
    Spaced 2 (last_cb (bytes "h1") []) (let_through slow asked [])
    × ((now : ℕ)
        → ((update_throttling now slow []).1 ≡ true)
          ↔ (10 ^ 9 ≤ (now - last_cb (bytes "h1") []) * 2))
let_through-Spaced_example = let_through-Spaced slow asked [] refl
