-- ===== src/Sync.antt =====
-- Anti-entropy between two nodes: what one announces, what it sends for that, and what the other
-- makes of it. internal/mesh/sync/sync.go
-- The announcement's digests are maps from a bucket to the text "count:hash".
pub mod Wire
pub mod Digest
pub mod Message
pub mod Frame
pub mod Send
pub mod Receive
pub mod Clash
pub mod Convergence
