-- ===== src/Midi.antt =====
-- internal/midi: MIDI messages, device selection and the note scheduler.
pub mod Message
pub mod Scheduler
