-- ===== src/Store/Record.antt =====
-- One archived line as the program holds it (`Record`) and as the records table does (`Row`).
-- internal/store/records.go, internal/store/migrations/0001_init.sql
use agentic_stats.Prelude.{
  ℕ, ◌≡◌, Option, none, some, List, arith, String, str_eq, eq_iff, ◌==◌, if◌then◌else◌,
}

pub record Record : Type 0 where
  pub origin_id : String
  pub seq : ℕ
  pub source : String
  pub path : String
  pub byte_offset : ℕ
  pub content_hash : String
  pub session_id : String
  pub line_uuid : String
  pub captured_at : String
  pub request_id : String
  pub model : String
  pub input : ℕ
  pub output : ℕ
  pub thinking : ℕ
  pub cache_read : ℕ
  pub cache_write5m : ℕ
  pub cache_write1h : ℕ
  pub pr_repo : String
  pub pr_number : ℕ
  pub cwd : String
  pub git_branch : String
  pub sealed : List ℕ

-- The columns. `none` is SQL's NULL.
pub record Row : Type 0 where
  pub origin_id : String
  pub seq : ℕ
  pub source : String
  pub path : String
  pub byte_offset : ℕ
  pub content_hash : String
  pub session_id : Option String
  pub line_uuid : Option String
  pub captured_at : Option String
  pub request_id : Option String
  pub model : Option String
  pub input_tokens : ℕ
  pub output_tokens : ℕ
  pub think_tokens : ℕ
  pub cache_read : ℕ
  pub cache_write5m : ℕ
  pub cache_write1h : ℕ
  pub pr_repo : Option String
  pub pr_number : Option ℕ
  pub cwd : Option String
  pub git_branch : Option String
  pub sealed : List ℕ
  pub received_at : String

unfoldable pub nullable : String → Option String
nullable s = if str_eq s "" then none else some s

unfoldable pub nullable_int : ℕ → Option ℕ
nullable_int v = if v == 0 then none else some v

-- SQL's coalesce(x, '') and coalesce(x, 0).
abbrev pub coalesce {ℓ} : {A : Type ℓ} → Option A → A → A
coalesce none d = d
coalesce (some a) d = a

-- The values that the insert binds, in the order of the columns.
unfoldable pub to_row : Record → String → Row
to_row r now = record {
  origin_id = r.origin_id;
  seq = r.seq;
  source = r.source;
  path = r.path;
  byte_offset = r.byte_offset;
  content_hash = r.content_hash;
  session_id = nullable r.session_id;
  line_uuid = nullable r.line_uuid;
  captured_at = nullable r.captured_at;
  request_id = nullable r.request_id;
  model = nullable r.model;
  input_tokens = r.input;
  output_tokens = r.output;
  think_tokens = r.thinking;
  cache_read = r.cache_read;
  cache_write5m = r.cache_write5m;
  cache_write1h = r.cache_write1h;
  pr_repo = nullable r.pr_repo;
  pr_number = nullable_int r.pr_number;
  cwd = nullable r.cwd;
  git_branch = nullable r.git_branch;
  sealed = r.sealed;
  received_at = now;
}

-- What `Since` selects and scans from a row.
unfoldable pub of_row : Row → Record
of_row w = record {
  origin_id = w.origin_id;
  seq = w.seq;
  source = w.source;
  path = w.path;
  byte_offset = w.byte_offset;
  content_hash = w.content_hash;
  session_id = coalesce w.session_id "";
  line_uuid = coalesce w.line_uuid "";
  captured_at = coalesce w.captured_at "";
  request_id = coalesce w.request_id "";
  model = coalesce w.model "";
  input = w.input_tokens;
  output = w.output_tokens;
  thinking = w.think_tokens;
  cache_read = w.cache_read;
  cache_write5m = w.cache_write5m;
  cache_write1h = w.cache_write1h;
  pr_repo = coalesce w.pr_repo "";
  pr_number = coalesce w.pr_number 0;
  cwd = coalesce w.cwd "";
  git_branch = coalesce w.git_branch "";
  sealed = w.sealed;
}

pub coalesce-nullable : (s : String) → coalesce (nullable s) "" ≡ s
unfolding nullable
coalesce-nullable s = ground (arith, eq_iff s "")

pub coalesce-nullable_int : (v : ℕ) → coalesce (nullable_int v) 0 ≡ v
unfolding nullable_int
coalesce-nullable_int v = ground arith

ruleset null_laws = (coalesce-nullable, coalesce-nullable_int)

-- What was inserted is read back: every field of a record survives the table, its NULLs included.
pub of_row-to_row : (r : Record) (now : String) → of_row (to_row r now) ≡ r
unfolding of_row to_row
of_row-to_row r now = simp null_laws
