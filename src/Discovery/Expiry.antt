-- ===== src/Discovery/Expiry.antt =====
-- `UpdateActivity` of src/Discovery.hh: which processes expire, and what goes with them.
use gz_transport.Common.{
  ℕ, ◌+◌, ◌*◌, ◌≤◌, ◌≡◌, refl, ◌∙◌, inl, inr, Bool, false, not, none, some, List, [], ◌∷◌, map, any,
  keep_if, ltb, if◌then◌else◌, Text, text_eq, text_eq_iff, arith, Bool-cases, text_lt_irrefl,
}
use gz_transport.Common.Map.{
  Map, Above, IsSorted, lookup, Above-weaken, IsSorted-of_Above, lookup_of_Above,
}
use gz_transport.TopicStorage.{TopicStorage, del_publishers_by_proc}
use gz_transport.TopicStorage.Contents.{stored}
use gz_transport.TopicStorage.Removal.{del_publishers_by_proc-stored}
use gz_transport.TopicStorage.Invariant.{IsWellFormed, del_publishers_by_proc-IsWellFormed}
use gz_transport.Discovery.{Wire, wire_publishes, Discovery, Effect, disconnected}
use gz_transport.Discovery.Timers.{is_expired, sweep, update_activity, ms}

-- The processes of an activity map that are expired, in key order.
unfoldable pub expired_keys : ℕ → ℕ → Map ℕ → List Text
expired_keys silence now [] = []
expired_keys silence now ((u, stamp) ∷ a) =
    if is_expired silence now stamp
    then u ∷ expired_keys silence now a
    else expired_keys silence now a

-- The entries that stay.
abbrev pub live : ℕ → ℕ → Map ℕ → Map ℕ
live silence now = keep_if (λ e. not (is_expired silence now e.1))

Above-live : (b : Text) (silence now : ℕ) (a : Map ℕ) → Above b a → Above b (live silence now a)
Above-live b silence now [] s = tt
Above-live b silence now ((u, stamp) ∷ a) s =
    ground (arith, Above-live u silence now a s.1, Above-weaken b u (live silence now a))

pub live-IsSorted : (silence now : ℕ) (a : Map ℕ) → IsSorted a → IsSorted (live silence now a)
live-IsSorted silence now [] s = tt
live-IsSorted silence now ((u, stamp) ∷ a) s =
    ground (arith, Above-live u silence now a s, IsSorted-of_Above u (live silence now a))

abbrev pub listed : Text → List Text → Bool
listed u = any (λ v. text_eq v u)

unlisted_of_Above :
    (b : Text) (silence now : ℕ) (a : Map ℕ)
    → Above b a
    → listed b (expired_keys silence now a) ≡ false
unfolding expired_keys
unlisted_of_Above b silence now [] s = refl
unlisted_of_Above b silence now ((u, stamp) ∷ a) s = ground (
  arith,
  text_eq_iff u b,
  text_lt_irrefl b,
  unlisted_of_Above b silence now a (Above-weaken b u a s.0 s.1),
)

-- Whether a process has an activity entry that is expired.
abbrev pub expires : ℕ → ℕ → Map ℕ → Text → Bool
expires silence now a u = elim (lookup u a) [
  | none ↦ false
  | some stamp ↦ is_expired silence now stamp
]

listed-expires :
    (silence now : ℕ) (a : Map ℕ) (u : Text)
    → IsSorted a
    → listed u (expired_keys silence now a) ≡ expires silence now a u
unfolding expired_keys lookup
listed-expires silence now [] u s = refl
listed-expires silence now ((v, stamp) ∷ a) u s = ground (
  arith,
  text_eq_iff v u,
  unlisted_of_Above v silence now a s,
  listed-expires silence now a u (IsSorted-of_Above v a s),
)

lookup-live :
    (silence now : ℕ) (a : Map ℕ) (u : Text)
    → IsSorted a
    → lookup u (live silence now a) ≡ (if expires silence now a u then none else lookup u a)
unfolding lookup
lookup-live silence now [] u s = refl
lookup-live silence now ((v, stamp) ∷ a) u s = ground (
  arith,
  text_eq_iff v u,
  lookup_of_Above v a s,
  lookup-live silence now a u (IsSorted-of_Above v a s),
)

module _ {P : Type 0} ⦃w : Wire P⦄ where
  -- The storage after `DelPublishersByProc` for each process of a list.
  unfoldable pub purge : List Text → TopicStorage P → TopicStorage P
  purge [] s = s
  purge (u ∷ us) s = purge us (del_publishers_by_proc u s).0

  pub sweep_eq :
      (silence now : ℕ) (a : Map ℕ) (info remote : TopicStorage P)
      → sweep silence now a info remote ≡ record {
        activity = live silence now a;
        uuids = expired_keys silence now a;
        info = purge (expired_keys silence now a) info;
        remote_subscribers = purge (expired_keys silence now a) remote;
      }
  unfolding sweep expired_keys purge
  sweep_eq silence now [] info remote = refl
  sweep_eq silence now ((u, stamp) ∷ a) info remote =
      elim (Bool-cases (is_expired silence now stamp)) [
        | inl e ↦
            rw (e, sweep)
              (ground (
                arith,
                sweep_eq silence now a (del_publishers_by_proc u info).0
                    (del_publishers_by_proc u remote).0,
              ))
        | inr e ↦ rw (e, sweep) (ground (arith, sweep_eq silence now a info remote))
      ]

  pub purge-IsWellFormed :
      (us : List Text) (s : TopicStorage P) → IsWellFormed s → IsWellFormed (purge us s)
  unfolding purge
  purge-IsWellFormed [] s h = h
  purge-IsWellFormed (u ∷ us) s h =
      purge-IsWellFormed us (del_publishers_by_proc u s).0
        (del_publishers_by_proc-IsWellFormed u s h)

  pub purge-stored :
      (us : List Text) (s : TopicStorage P) (t v : Text)
      → IsWellFormed s
      → stored (purge us s) t v ≡ (if listed v us then [] else stored s t v)
  unfolding purge
  purge-stored [] s t v h = refl
  purge-stored (u ∷ us) s t v h =
      let w' = del_publishers_by_proc-IsWellFormed u s h in
      ground (
        arith,
        purge-stored us (del_publishers_by_proc u s).0 t v w',
        (del_publishers_by_proc-stored u s t v h.sorted).1,
      )

  -- The state and the effects of a check that is due.
  unfoldable pub after_sweep : ℕ → ℕ → Discovery P → Discovery P × List (Effect P)
  after_sweep now later d =
      let us = expired_keys d.silence_interval now d.activity in
      (
        record d {
          info = purge us d.info;
          remote_subscribers = purge us d.remote_subscribers;
          activity = live d.silence_interval now d.activity;
          time_next_activity = later + d.activity_interval * ms;
        },
        if d.disconnection_cb then map (λ u. disconnected (w.bare [] u)) us else [],
      )

  pub update_activity_eq :
      (now later : ℕ) (d : Discovery P)
      → update_activity now later d
        ≡ (if ltb now d.time_next_activity then (d, []) else after_sweep now later d)
  unfolding update_activity after_sweep
  update_activity_eq now later d =
      rw (sweep_eq d.silence_interval now d.activity d.info d.remote_subscribers) refl

  -- Where the activity check is due and the storages and the activity are well formed: for each
  -- process whose last message is older than the silence interval, all its publishers and remote
  -- subscribers go, and its activity entry; of every other process they stay. The disconnection
  -- callback, if there is one, is called once for each expired process, in key order, and the next
  -- check is due an activity interval later.
  pub update_activity-expires :
      (now later : ℕ) (d : Discovery P) (t u : Text)
      → IsWellFormed d.info
      → IsWellFormed d.remote_subscribers
      → IsSorted d.activity
      → d.time_next_activity ≤ now
      → let gone = expires d.silence_interval now d.activity in
        let r = update_activity now later d in
        (stored r.0.info t u ≡ (if gone u then [] else stored d.info t u))
        × (stored r.0.remote_subscribers t u
            ≡ (if gone u then [] else stored d.remote_subscribers t u))
        × (lookup u r.0.activity ≡ (if gone u then none else lookup u d.activity))
        × (r.1 ≡ (
            if d.disconnection_cb
            then map
                (λ v. disconnected (w.bare [] v))
                (expired_keys d.silence_interval now d.activity)
            else []))
        × (listed u (expired_keys d.silence_interval now d.activity) ≡ gone u)
        × (r.0.time_next_activity ≡ later + d.activity_interval * ms)
  unfolding after_sweep
  update_activity-expires now later d t u i r s due =
      let e : ltb now d.time_next_activity ≡ false = ground arith in
      let same = listed-expires d.silence_interval now d.activity u s in
      let us = expired_keys d.silence_interval now d.activity in
      rw (update_activity_eq now later d, e)
        (
          purge-stored us d.info t u i ∙ rw same refl,
          purge-stored us d.remote_subscribers t u r ∙ rw same refl,
          lookup-live d.silence_interval now d.activity u s,
          refl,
          same,
          refl,
        )
