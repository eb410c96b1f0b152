-- ===== src/Lib.antt =====
-- A verification library for go-musical-packets, which turns network packets into MIDI notes.
--
-- The program's parts and how they interact. A captured packet is normalized to an event
-- (internal/packet) and waits in a bounded queue of internal/pipeline. The flow package names the
-- conversation that the packet belongs to (key.go), keeps a bounded set of the conversations seen
-- (registry.go) and decides by ordered rules whether the packet is ignored, monitored or played
-- (selector.go); the user's rules come from the configuration (internal/config). A played packet is
-- mapped to a note of a scale (internal/music), which waits in a second queue until the scheduler of
-- internal/midi sends it to a MIDI output within its limits. The viewers in the browser get the notes
-- from the hub of internal/uistream. An edge sends its notes to a host instead (internal/peer), which
-- checks them and hands them to its own scheduler. internal/app builds the parts from the
-- configuration and changes the rules at run time (policy.go), in step with the file on the disk.
--
-- Which file models which part:
-- Packet: internal/packet/event.go. Event.Validate is `validate`.
-- Flow/Key: internal/flow/key.go. Canonicalize, compareEndpoint, writeString, writeEndpoint and
--   Key.ID keep their names; `hash_input` is what Key.ID writes to the hash.
-- Flow/Prefix: what the selector uses of netip.Prefix, as its documentation has it.
-- Flow/Selector: internal/flow/selector.go. NewSelector, its loop over the groups (`check_group`),
--   Evaluate (`evaluate`, `route`), firstMatch, matches, and the validators.
-- Flow/Registry: internal/flow/registry.go. NewRegistry, Observe, Expire, Get, Len.
-- Music/Mode, Music/Note, Music/Identity, Music/Mapper: internal/music, file by file.
-- Midi/Message: internal/midi/midi.go. Midi/Scheduler: internal/midi/scheduler.go, where Write,
--   Panic, Close and the timer callback `stop` are steps on the scheduler and the sender.
-- Pipeline: internal/pipeline/processor.go. One round of capture, processPackets, processNotes,
--   discardPackets or discardNotes is a step; the rounds come in any order.
-- Config/Rules: internal/config/rules.go. Config/Settings and Config/Validation: config.go.
--   Config/Compile: compileSelector of internal/app/policy.go.
-- App/Safety: httpSafetyRules and uniqueRuleID of internal/app/app.go, peerSafetyRules of
--   runtime_peer.go. App/Components: components.go. App/Changes: classifyChanges of policy.go.
-- App/Controller: the rest of policy.go. `transact` is transactContext, the others keep their names;
--   each is a step on the published snapshot and the disk, and `run_calls` is any sequence of them,
--   configureSafety (`configures`) included, which sets the safety callback of the later ones.
-- Stream: internal/uistream/hub.go. Subscribe, Publish, TakeDrops, Close; `receive` is a reader's
--   receive from the channel of Events, and `offer` is what Publish does for one viewer.
-- Peer/Protocol: internal/peer/protocol.go. NoteFromEvent is `note_of_event`, Note.Event is
--   `event_of_note`. Peer/Window, Peer/Nodes, Peer/Host: host.go; duplicate, acceptNote, register,
--   disconnect, touch and record keep their names, and Peer/Calls puts them in any order.
-- Hex and Decimal: encoding/hex and the verb %d of fmt, for the IDs.
-- Prelude: the shared tests, results, byte strings and lemmas. Tests: concrete inputs.
--
-- How Go is modelled. A string is the list of its bytes. An unsigned integer is a natural number and
-- keeps its wrap-around where the source does arithmetic on it; an int or a time.Duration is an
-- integer. An instant is the number of nanoseconds after the zero time, and a comparison with an
-- earlier instant is written without subtraction. A map is an association list with unique keys. An
-- error is a constructor, its text is not kept. A nil slice and an empty one are the same list. A
-- method that runs under a mutex is one step.
--
-- Parameters stand for code that is not in the repository: SHA-256 with its digest length, and the
-- text of an address (`Digest`); the parsers of a configuration, which are netip.ParsePrefix,
-- url.Parse, net.SplitHostPort and regexp.Compile (`Parsers`); strings.TrimSpace and unicode.IsControl
-- (`Unicode`); the rounded logarithm of the velocity (`level`); the output's Send and the host's sink,
-- each with a state of its own. The controller's ConfigRepository is an interface, so it is a
-- parameter as well (`Repository`). Its implementation FileRepository of
-- internal/config/repository.go is not modelled: the theorems on the policy assume that it tells the
-- truth about a disk that nobody else writes (`IsRepository`).
--
-- container/heap is modelled as a list in the order of Less: Push and Fix put one entry at its place
-- and move no other, and Pop takes the first. The indices of the heap's array, which the entries carry
-- in heapIndex, are not modelled. reflect.DeepEqual is equality, so `is_current` does not tell a nil
-- slice from an empty one. acceptNote takes its lock once for the duplicates and again to record the
-- note; `accept_note` is one step.
--
-- Bounds and fuel. The loop of Expire runs on the length of the heap, one entry for each round. A
-- decimal has at most 20 digits, which is enough for 64 bits. An int wraps at 64 bits where a sum
-- selects a note or the interval of a degree. The loop of uniqueRuleID runs as many rounds as there are rules, and one more, which is always enough.
--
-- Not modelled: the observers that the scheduler calls, the metrics, timers other than their callback,
-- the waiting for locks; and the parts that are mainly input and output: capture with gopacket, the
-- HTTP servers and the web user interface, JSON and the sockets between peers, the session loop of an
-- edge, the native MIDI driver and its process, the reading and writing of configuration files, the
-- command line.

pub mod Prelude
pub mod Hex
pub mod Decimal
pub mod Packet
pub mod Flow
pub mod Music
pub mod Midi
pub mod App
pub mod Config
pub mod Peer
pub mod Pipeline
pub mod Stream
pub mod Tests
