-- ===== src/Rpc.antt =====
-- The transport framing of src/DebugAdapterProtocol/JsonRPC.cpp and JsonRPC.hpp.
mod Defs
pub mod Header
pub mod Frame
pub mod Drain
pub mod Stream
pub mod Blocked
pub use Defs.{
  Host, HostLaws, separator, length_key, Headers, Outcome, idle, fault, message, Run, Ending, quiet,
  faulted, exhausted, stream,
}
unfoldable pub use Defs.{
  find_header, trim, read_header, header_section, read_headers, by_length, by_header,
  do_process_buffer, drain, process_buffer, after_call, after_chunk, on_data_read, feed, header_of,
  frame,
}
