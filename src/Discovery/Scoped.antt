-- ===== src/Discovery/Scoped.antt =====
-- The scopes of src/Discovery.hh: what other processes may put into the storage of a discovery.
use gz_transport.Common.{◌≡◌, List, [], ◌∷◌, All, Text, arith}
use gz_transport.Discovery.{Wire, wire_publishes, Env, Discovery}
use gz_transport.Discovery.Expiry.{update_activity_eq}
use gz_transport.Discovery.Reachable.{
  Event, advertises, unadvertises, receives, checks_activity, beats, starts, IsValid, step, run,
  step-IsValid,
}
use gz_transport.TopicStorage.AllStored.{AllStored}
use gz_transport.Discovery.Kept.{
  IsAllowed, IsKept, dispatch-IsKept, advertise_pub-IsKept, unadvertise_pub-IsKept,
  after_sweep-IsKept, update_heartbeat-IsKept, start-IsKept,
}

module _ {P : Type 0} ⦃w : Wire P⦄ where
  open w use {topic, p_uuid, n_uuid, scope, from_discovery}

  -- An event is fair if it does not advertise in the name of another process.
  abbrev pub IsFair : Text → Event P → Type 0
  IsFair me (advertises p) = p_uuid p ≡ me
  IsFair me (unadvertises t n) = Unit
  IsFair me (receives from now m) = Unit
  IsFair me (checks_activity now later) = Unit
  IsFair me (beats now later) = Unit
  IsFair me (starts now) = Unit

  pub record IsSafe (me : Text) (d : Discovery P) : Type 0 where
    pub valid : IsValid d
    pub mine : d.p_uuid ≡ me
    pub allowed : AllStored (IsAllowed me) d.info

  kept : (me : Text) (d : Discovery P) → IsSafe me d → IsKept me d
  kept me d s = record { mine = s.mine; allowed = s.allowed }

  step-IsKept :
      (me : Text) (env : Env) (e : Event P) (d : Discovery P)
      → IsFair me e
      → IsSafe me d
      → IsKept me (step env e d)
  unfolding step
  step-IsKept me env (advertises p) d f s = advertise_pub-IsKept me env p d f (kept me d s)
  step-IsKept me env (unadvertises t n) d f s = unadvertise_pub-IsKept me env t n d (kept me d s)
  step-IsKept me env (receives from now m) d f s =
      dispatch-IsKept me env from now m d s.valid.info_ok.sorted (kept me d s)
  step-IsKept me env (checks_activity now later) d f s = ground (
    arith,
    kept me d s,
    update_activity_eq now later d,
    after_sweep-IsKept me now later d s.valid.info_ok (kept me d s),
  )
  step-IsKept me env (beats now later) d f s =
      update_heartbeat-IsKept me env now later d (kept me d s)
  step-IsKept me env (starts now) d f s = start-IsKept me now d (kept me d s)

  -- Whatever a discovery object receives, and whatever happens to it in any order, it stays valid
  -- and its storage of publishers never holds a publisher of another process with scope process, if
  -- it was valid and held none at the start, and if the process advertises its own publishers only.
  pub run-IsSafe :
      (me : Text) (env : Env) (es : List (Event P)) (d : Discovery P)
      → All (IsFair me) es
      → IsSafe me d
      → IsSafe me (run env es d)
  unfolding run
  run-IsSafe me env [] d f s = s
  run-IsSafe me env (e ∷ es) d f s =
      let k = step-IsKept me env e d f.0 s in
      run-IsSafe me env es (step env e d) f.1
        (record { valid = step-IsValid env e d s.valid; mine = k.mine; allowed = k.allowed })
