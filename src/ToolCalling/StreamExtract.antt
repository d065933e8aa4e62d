-- ===== src/ToolCalling/StreamExtract.antt =====
-- pkg/toolcalling/streamextract.go: the assistant content in an answer that is still being written.
pub mod Text
pub mod Shape
pub mod Scan
pub mod Extractor
pub mod Published
