-- ===== src/Tests/Flows.antt =====
-- The theorems on packets, flow keys, the selector and the registry at concrete inputs.
use go_musical_packets.Flow.Registry.Histories.{run-expire-Expired, run-observe-evicted}
use Prim.Native.Nat.{max, min}
use go_musical_packets.Flow.Selector.Precedence.{evaluate-Routes, Routes}
use go_musical_packets.Flow.Selector.Rules.{new_selector_iff, IsConfig, of_config}
use go_musical_packets.Packet.Laws.{validate_iff, IsValid}
use go_musical_packets.Flow.Key.Identity.{hash_input_injective}
use go_musical_packets.Flow.Key.Order.{canonicalize-reversed, reversed}
use go_musical_packets.Flow.Selector.Guarantees.{
  evaluate_soloed_out, evaluate-IsSelection, evaluate_ignored, IsSelection,
}
use go_musical_packets.Flow.Registry.Expiry.{step, run-IsRegistry, expires, observes, run, Expired}
use go_musical_packets.Hex.{hex_encode}
use go_musical_packets.Flow.Registry.{
  find, insert_entry, make_room, record_event, new_entry, heap_empty, RegistryError, observe,
  expire, len, ObserveResult, Registry, Snapshot, get,
}
use go_musical_packets.Flow.Registry.Lookup.{
  observe_known, observe-IsRegistry, observe-get, has_id, IsObservable,
}
use go_musical_packets.Flow.Selector.{
  state_play, state_ignore, evaluate, Selection, event_id, new_selector,
}
use go_musical_packets.Flow.Registry.Invariant.{IsRegistry}
use go_musical_packets.Prelude.{
  ◌≤◌, ◌^◌, ◌%◌, ◌+◌, ◌<◌, ◌≡◌, refl, ◌≢◌, ◌↔◌, ◌⊎◌, inl, true, false, none, some, [], ◌∷◌, arith,
  if◌then◌else◌, ok, err, Text, text_eq, text_lt, contains_text, text_eq_refl,
}
use go_musical_packets.Packet.{is_protocol, Error, protocol_tcp, validate}
use go_musical_packets.Flow.Key.{
  compare_text, compare_addr, compare_endpoint, at_most, hash_input, key_id, canonicalize, Key,
}
use go_musical_packets.Tests.Samples.{
  one_packet, syn_packet-IsValid, one_flow_built, one_flow, decided, playing_built,
  second_packet-IsValid, full-IsRegistry, server, empty_registry, no_overlay, client, soloing,
  toy-injective, second_packet, full, playing, muted, guarded, syn_packet, decision, syn_flow, seed,
  toy,
}

validate_iff_example : (validate syn_packet ≡ ok tt) ↔ IsValid syn_packet
validate_iff_example = validate_iff syn_packet

canonicalize-reversed_example :
    ((canonicalize (reversed syn_packet)).0 ≡ (canonicalize syn_packet).0)
    × (at_most (compare_endpoint (canonicalize syn_packet).0.a (canonicalize syn_packet).0.b)
        ≡ true)
    × (key_id toy (canonicalize (reversed syn_packet)).0 seed
        ≡ key_id toy (canonicalize syn_packet).0 seed)
    × (syn_packet.source ≢ syn_packet.destination
        → (canonicalize (reversed syn_packet)).1 ≢ (canonicalize syn_packet).1)
canonicalize-reversed_example = canonicalize-reversed toy seed syn_packet

abbrev syn_key : Key
syn_key = (canonicalize syn_packet).0

abbrev plain_key : Key
plain_key = record { protocol = protocol_tcp; a = client; b = server }

hash_input_injective_example : (seed ≡ seed) × (plain_key ≡ plain_key)
hash_input_injective_example =
    hash_input_injective toy seed seed plain_key plain_key toy-injective (omega arith) (omega arith)
      (omega arith) (omega arith) refl

new_selector_iff_example :
    (new_selector guarded ≡ ok (of_config guarded))
    ↔ (IsConfig guarded × (of_config guarded ≡ of_config guarded))
new_selector_iff_example = new_selector_iff guarded (of_config guarded)

evaluate-Routes_example :
    ((sel : Selection) × (evaluate toy (of_config guarded) syn_packet no_overlay ≡ ok sel)
      × Routes (of_config guarded) no_overlay syn_packet (event_id toy seed syn_packet) sel
      × IsValid syn_packet)
    ⊎ ((x : Error) × (evaluate toy (of_config guarded) syn_packet no_overlay ≡ err x)
        × (¬ IsValid syn_packet))
evaluate-Routes_example = evaluate-Routes toy (of_config guarded) syn_packet no_overlay

evaluate-IsSelection_example : IsSelection (decision playing no_overlay)
evaluate-IsSelection_example =
    evaluate-IsSelection toy playing (of_config playing) playing_built syn_packet no_overlay
      (decision playing no_overlay) (decided playing no_overlay)

syn_muted : contains_text syn_flow muted.muted ≡ true
unfolding contains_text
syn_muted = ground (arith, text_eq_refl syn_flow)

evaluate_ignored_example : (decision playing muted).state ≡ state_ignore
evaluate_ignored_example =
    evaluate_ignored toy playing (of_config playing) playing_built syn_packet muted
      (decision playing muted) (decided playing muted) (inl syn_muted)

syn_not_soloed : contains_text syn_flow soloing.soloed ≡ false
unfolding contains_text event_id key_id hash_input canonicalize compare_endpoint compare_addr
    text_eq hex_encode compare_text text_lt
syn_not_soloed = refl

evaluate_soloed_out_example : (decision playing soloing).state ≢ state_play
evaluate_soloed_out_example =
    evaluate_soloed_out toy playing (of_config playing) playing_built syn_packet soloing
      (decision playing soloing) (decided playing soloing) (λ e. cc) syn_not_soloed

observe-IsRegistry_example :
    (IsObservable second_packet
      → (out : Registry × ObserveResult) × (observe toy full second_packet ≡ ok out)
        × IsRegistry out.0)
    × ((¬ IsObservable second_packet)
        → (x : RegistryError) × (observe toy full second_packet ≡ err x) × (x ≢ heap_empty))
observe-IsRegistry_example = observe-IsRegistry toy full second_packet full-IsRegistry

-- The second flow in a registry for one.
second_seen :
    (out : Registry × ObserveResult) × (observe toy full second_packet ≡ ok out) × IsRegistry out.0
second_seen =
    (observe-IsRegistry toy full second_packet full-IsRegistry).0
      (second_packet-IsValid, omega arith)

observe-get_example : get second_seen.0.0 syn_flow ≡ (
    if text_eq second_seen.0.1.flow.id syn_flow
    then some second_seen.0.1.flow
    else if has_id syn_flow second_seen.0.1.evicted
    then none
    else get full syn_flow)
observe-get_example =
    observe-get toy full second_packet second_seen.0 syn_flow full-IsRegistry second_seen.1

run-observe-evicted_example :
    ((s : Snapshot)
      → second_seen.0.1.evicted ≡ some s
      → (second_seen.0.1.created ≡ true)
        × (len full ≡ full.capacity)
        × (get full s.id ≡ some s)
        × ((j : Text) (t : Snapshot)
            → get full j ≡ some t
            → (s.last_seen < t.last_seen)
              ⊎ ((s.last_seen ≡ t.last_seen) × (text_lt t.id s.id ≡ false))))
    × (second_seen.0.1.evicted ≡ none → (second_seen.0.1.created ≡ true) → len full < full.capacity)
unfolding full
run-observe-evicted_example =
    run-observe-evicted toy one_flow empty_registry one_packet one_flow_built second_packet
      second_seen.0 second_seen.1

run-expire-Expired_example : Expired full 305000000000 (expire full 305000000000)
unfolding full
run-expire-Expired_example =
    run-expire-Expired toy one_flow empty_registry one_packet one_flow_built 305000000000

run-IsRegistry_example :
    IsRegistry
      (run toy empty_registry (observes syn_packet ∷ observes second_packet ∷ expires 9 ∷ []))
run-IsRegistry_example =
    run-IsRegistry toy one_flow empty_registry
      (observes syn_packet ∷ observes second_packet ∷ expires 9 ∷ []) one_flow_built

syn_entry : Snapshot
syn_entry = new_entry syn_flow syn_key syn_packet (canonicalize syn_packet).1

syn_known : get full (key_id toy (canonicalize syn_packet).0 full.seed) ≡ some syn_entry
unfolding full run step observe record_event make_room insert_entry find get validate is_protocol
    new_entry syn_entry text_eq canonicalize compare_endpoint compare_addr key_id hash_input
    hex_encode event_id compare_text text_lt
syn_known = refl

syn_again :
    (out : Registry × ObserveResult) × (observe toy full syn_packet ≡ ok out) × IsRegistry out.0
syn_again =
    (observe-IsRegistry toy full syn_packet full-IsRegistry).0 (syn_packet-IsValid, omega arith)

observe_known_example :
    (syn_again.0.1.created ≡ false)
    × (syn_again.0.1.previous_last_seen ≡ syn_entry.last_seen)
    × (syn_again.0.1.flow.first_seen ≡ min syn_entry.first_seen 5000000000)
    × (syn_again.0.1.flow.last_seen ≡ max syn_entry.last_seen 5000000000)
    × (syn_again.0.1.flow.packets ≡ (syn_entry.packets + 1) % 2 ^ 64)
    × ((5000000000 < syn_entry.last_event.captured_at)
          × (syn_again.0.1.flow.last_event ≡ syn_entry.last_event)
        ⊎ (syn_entry.last_event.captured_at ≤ 5000000000)
          × (syn_again.0.1.flow.last_event ≡ syn_packet))
observe_known_example =
    observe_known toy full syn_packet syn_again.0 syn_entry full-IsRegistry syn_again.1 syn_known
