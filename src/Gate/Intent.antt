-- ===== src/Gate/Intent.antt =====
-- storage/gate.py, Tier 1: `intent_open`. What a declared intent is matched with, when it is in
-- conflict, and what is registered. The embedder, the vector index, the token and feature extraction
-- are parameters. The text that asks for a clarification, the actor, the audit, its log and the
-- timings are left out; an efficacy event is noted with the key of the skill.
mod Candidates
mod Open
pub mod Visible
pub mod Caused
pub mod Unresolved
pub mod Tests
unfoldable pub use Candidates.*
unfoldable pub use Open.*
