-- ===== src/Protocol.antt =====
-- The parser of requests in src/protocol/subcli.c: the multi bulk form of RESP, and inline lines.
pub mod Multibulk
pub mod Inline
pub mod Line
pub mod ReadLoop
pub mod Encode
pub mod Decode
pub mod Request
pub mod Pipeline
pub mod Partial
pub mod Advances
pub mod Shrinks
pub mod KeepsReplies
pub mod Terminates
