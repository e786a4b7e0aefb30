-- ===== src/Tests/Data.antt =====
-- Records and databases that the tests share.
use agentic_stats.Prelude.{ℕ, [], ◌∷◌, String}
use agentic_stats.Store.Record.{Record}
use agentic_stats.Store.Append.{Db}

-- A line with a session and a uuid, as one file has it at an offset.
abbrev pub line : String → String → ℕ → Record
line uuid hash offset = record {
  origin_id = "";
  seq = 0;
  source = "claudecode";
  path = "/home/u/a.jsonl";
  byte_offset = offset;
  content_hash = hash;
  session_id = "s1";
  line_uuid = uuid;
  captured_at = "2026-01-01T00:00:00Z";
  request_id = "";
  model = "";
  input = 0;
  output = 0;
  thinking = 0;
  cache_read = 0;
  cache_write5m = 0;
  cache_write1h = 0;
  pr_repo = "";
  pr_number = 0;
  cwd = "/home/u";
  git_branch = "main";
  sealed = 1 ∷ 2 ∷ [];
}

-- The same as a node sends it.
abbrev pub sent : String → ℕ → String → String → Record
sent origin k uuid hash = record (line uuid hash k) { origin_id = origin; seq = k }

abbrev pub empty_db : String → Db
empty_db origin = record { origin = origin; rows = []; quarantine = [] }
