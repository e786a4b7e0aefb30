-- ===== src/Sync/Wire.antt =====
-- A record in transit. internal/mesh/sync/sync.go
use agentic_stats.Prelude.{ℕ, ◌≡◌, refl, List, String}
use agentic_stats.Store.Record.{Record}

pub record WireRecord : Type 0 where
  pub origin_id : String
  pub seq : ℕ
  pub source : String
  pub path : String
  pub byte_offset : ℕ
  pub content_hash : String
  pub session_id : String
  pub line_uuid : String
  pub captured_at : String
  pub request_id : String
  pub model : String
  pub input : ℕ
  pub output : ℕ
  pub thinking : ℕ
  pub cache_read : ℕ
  pub cache_write5m : ℕ
  pub cache_write1h : ℕ
  pub pr_repo : String
  pub pr_number : ℕ
  pub cwd : String
  pub git_branch : String
  pub sealed : List ℕ

unfoldable pub to_wire : Record → WireRecord
to_wire r = record {
  origin_id = r.origin_id;
  seq = r.seq;
  source = r.source;
  path = r.path;
  byte_offset = r.byte_offset;
  content_hash = r.content_hash;
  session_id = r.session_id;
  line_uuid = r.line_uuid;
  captured_at = r.captured_at;
  request_id = r.request_id;
  model = r.model;
  input = r.input;
  output = r.output;
  thinking = r.thinking;
  cache_read = r.cache_read;
  cache_write5m = r.cache_write5m;
  cache_write1h = r.cache_write1h;
  pr_repo = r.pr_repo;
  pr_number = r.pr_number;
  cwd = r.cwd;
  git_branch = r.git_branch;
  sealed = r.sealed;
}

unfoldable pub from_wire : WireRecord → Record
from_wire w = record {
  origin_id = w.origin_id;
  seq = w.seq;
  source = w.source;
  path = w.path;
  byte_offset = w.byte_offset;
  content_hash = w.content_hash;
  session_id = w.session_id;
  line_uuid = w.line_uuid;
  captured_at = w.captured_at;
  request_id = w.request_id;
  model = w.model;
  input = w.input;
  output = w.output;
  thinking = w.thinking;
  cache_read = w.cache_read;
  cache_write5m = w.cache_write5m;
  cache_write1h = w.cache_write1h;
  pr_repo = w.pr_repo;
  pr_number = w.pr_number;
  cwd = w.cwd;
  git_branch = w.git_branch;
  sealed = w.sealed;
}

-- Every field of a record travels, in both directions: nothing is left behind by the wire form.
pub from_wire-to_wire :
    (r : Record) (w : WireRecord) → (from_wire (to_wire r) ≡ r) × (to_wire (from_wire w) ≡ w)
unfolding from_wire to_wire
from_wire-to_wire r w = (refl, refl)
