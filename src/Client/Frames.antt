-- ===== src/Client/Frames.antt =====
-- pkg/client/signalr_frames.go: records of a byte stream, cut at 0x1e. `decode` is
-- `json.Unmarshal` of a record into a frame. A Go loop that cuts the first record off the buffer,
-- again and again, is one pass here: `cur` is the record read so far.
mod Chunks
pub use Chunks.*
mod Machine
pub use Machine.{Drained, frames, bad_record, overflow, delimiter, max_buffered, is_blank, prepend}
unfoldable pub use Machine.{close_record, drain, feed, is_empty}
