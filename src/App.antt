-- ===== src/App.antt =====
-- What internal/app makes of the parts.
pub mod Safety
pub mod Components
pub mod Changes
pub mod Controller
