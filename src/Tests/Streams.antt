-- ===== src/Tests/Streams.antt =====
-- The theorem on the hub at a concrete input.
use go_musical_packets.Tests.Samples.{note}
use go_musical_packets.Stream.Recency.{publish_all-latest, publish_all}
use go_musical_packets.Stream.{note_from_event, new_hub, subscribe, find_client, Hub, Subscription}
use go_musical_packets.Prelude.{◌≡◌, refl, some, [], ◌∷◌, arith}

abbrev viewer : Subscription
viewer = record { id = 1; queue = []; drops = 0 }

abbrev one_viewer : Hub
one_viewer = (subscribe (new_hub 1)).0

subscribed : find_client 1 one_viewer.clients ≡ some viewer
unfolding subscribe new_hub find_client
subscribed = refl

one_place : one_viewer.capacity ≡ 1
unfolding subscribe new_hub
one_place = refl

publish_all-latest_example :
    find_client 1 (publish_all ((9, note) ∷ (12, note) ∷ []) one_viewer).clients
    ≡ some (record viewer { queue = note_from_event 12 note ∷ []; drops = 1 })
unfolding subscribe new_hub
publish_all-latest_example =
    publish_all-latest ((9, note) ∷ (12, note) ∷ []) one_viewer 1 viewer subscribed (omega arith)
      (omega (arith, one_place)) (omega arith)
