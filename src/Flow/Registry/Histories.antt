-- ===== src/Flow/Registry/Histories.antt =====
-- Observe and Expire of internal/flow/registry.go after any history of calls.
use go_musical_packets.Flow.Registry.Lookup.{observe-evicted}
use go_musical_packets.Packet.{Event}
use go_musical_packets.Flow.Registry.Expiry.{run-IsRegistry, expire-Expired, run, Expired, Call}
use go_musical_packets.Flow.Registry.{
  get, len, expire, observe, ObserveResult, new_registry, Registry, RegistryConfig, Snapshot,
  entry_less,
}
use go_musical_packets.Flow.Key.{Digest}
use go_musical_packets.Prelude.{
  ℕ, ◌<◌, ◌≡◌, ◌⊎◌, inl, inr, true, false, none, some, List, arith, ◌==◌, Bool-cases, ok, Text,
  text_lt,
}

not_less :
    (t s : Snapshot)
    → entry_less t s ≡ false
    → (s.last_seen < t.last_seen) ⊎ ((s.last_seen ≡ t.last_seen) × (text_lt t.id s.id ≡ false))
unfolding entry_less
not_less t s k = elim (Bool-cases (t.last_seen == s.last_seen)) [
  | inl same ↦ inr (ground (arith, same), ground (arith, k, same))
  | inr apart ↦ inl (ground (arith, k, apart))
]

module _ (d : Digest) (c : RegistryConfig) (r : Registry) (calls : List Call)
    (made : new_registry c ≡ ok r) where
  -- After any history of packets and expirations of a registry that NewRegistry made, in any order of
  -- their times, Observe evicts a flow exactly when it meets a new flow in a full registry. The evicted
  -- flow was in the registry, and every other flow there was seen later, or at the same time under an
  -- ID that is not smaller.
  pub run-observe-evicted :
      (e : Event) (out : Registry × ObserveResult)
      → observe d (run d r calls) e ≡ ok out
      → let q = run d r calls in
        ((s : Snapshot)
          → out.1.evicted ≡ some s
          → (out.1.created ≡ true)
            × (len q ≡ q.capacity)
            × (get q s.id ≡ some s)
            × ((j : Text) (t : Snapshot)
                → get q j ≡ some t
                → (s.last_seen < t.last_seen)
                  ⊎ ((s.last_seen ≡ t.last_seen) × (text_lt t.id s.id ≡ false))))
        × (out.1.evicted ≡ none → (out.1.created ≡ true) → len q < q.capacity)
  run-observe-evicted e out h =
      let (evicts, keeps) =
        observe-evicted d (run d r calls) e out (run-IsRegistry d c r calls made) h in
      (
        λ s x.
            let (created, is_full, there, least) = evicts s x in
            (created, is_full, there, λ j t g. not_less t s (least j t g)),
        keeps,
      )

  -- After any such history Expire keeps the registry well formed. It leaves exactly the flows that
  -- were seen less than the TTL before `now`, unchanged; it returns flows of the registry that are
  -- older, as many as it removed.
  pub run-expire-Expired : (now : ℕ) → Expired (run d r calls) now (expire (run d r calls) now)
  run-expire-Expired now = expire-Expired (run d r calls) now (run-IsRegistry d c r calls made)
