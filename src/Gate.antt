-- ===== src/Gate.antt =====
-- storage/gate.py, Tier 0: which calls are gated, the confirmation tokens, the log of blocks, and the
-- pre-flight of one mutating call. Parameters stand for what the pre-flight reads elsewhere: the
-- expired dependencies and the answer of the reasoning tier. The contents of a preview are left out.
pub mod State
pub mod Preflight
pub mod Write
pub mod Untouched
pub mod Laws
pub mod Pending
pub mod Tokens
pub mod Refs
pub mod Skills
pub mod Intent
pub mod Efficacy
pub mod Awaken
pub mod Tests
