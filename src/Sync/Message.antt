-- ===== src/Sync/Message.antt =====
-- What two nodes tell each other. The message and announcement of internal/mesh/sync/sync.go
use agentic_stats.Prelude.{List, [], ◌∷◌, String, if◌then◌else◌, str_eq}
use agentic_stats.Store.Query.{VersionVector}
use agentic_stats.Sync.Wire.{WireRecord}
use agentic_stats.Sync.Digest.{Digests}

pub record Announcement : Type 0 where
  pub vector : VersionVector
  pub digests : List (String × Digests)
  pub host : String
  pub version : String

-- `digests[origin]`: the empty map for an origin that is not there.
unfoldable pub digests_at : List (String × Digests) → String → Digests
digests_at [] origin = []
digests_at ((o, d) ∷ ds) origin = if str_eq o origin then d else digests_at ds origin

-- One protocol frame. `unknown` is any other kind.
pub data Message : Type 0 where
  vector : Announcement → Message
  records : List WireRecord → Message
  done : Message
  unknown : String → Message
