-- ===== src/ToolCalling.antt =====
-- pkg/toolcalling: what the proxy makes of the text that the model streams.
pub mod Thinking
pub mod Ledger
pub mod Envelope
pub mod Json
pub mod Schema
pub mod Contracts
pub mod Candidates
pub mod Simulated
pub mod StreamExtract
