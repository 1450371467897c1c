-- ===== src/Engine.antt =====
-- engine/main.cpp: the engine's loop, its live configuration and its bets.
pub mod Json
pub mod Control
pub mod Args
pub mod ReplayHash
pub mod Market
pub mod Run
