-- ===== src/Tests/Ingest.antt =====
-- internal/ingest/ingest.go, internal/derive/identity.go
use agentic_stats.Prelude.{
  ℕ, ◌≡◌, ◌≢◌, refl, inr, none, some, Option, List, [], ◌∷◌, String, arith, All,
}
use agentic_stats.Source.{Bytes}
use agentic_stats.Collector.{Upload}
use agentic_stats.Store.Append.Resend.{IsArchived}
use agentic_stats.Derive.Identity.{
  no_usage, Shape, IsBilled, identify, is_billable, provenance, billed, identify-IsBilled,
}
use agentic_stats.Ingest.{Env, to_record, ingest}
use agentic_stats.Ingest.Again.{unsealed, ingest_again}
use agentic_stats.Tests.Data.{empty_db}
use agentic_stats.Tests.Store.{empty-IsDense}

-- A response of an assistant in a detached checkout.
abbrev response : Shape
response = record {
  session_id = "s1";
  uuid = "u1";
  timestamp = "2026-01-01T00:00:00Z";
  request_id = "req_1";
  kind = "assistant";
  pr_repo = "";
  pr_number = 0;
  cwd = "/home/u";
  git_branch = "HEAD";
  model = "opus";
  usage = some (record no_usage { output = 12 });
}

identify-IsBilled_example :
    IsBilled response (response.usage) (identify (λ s. s) (some response))
    × ((identify (λ s. s) (some response)).git_branch ≢ "HEAD")
identify-IsBilled_example = identify-IsBilled (λ s. s) response

abbrev env : Env
env = record { trim = λ s. s; parse = λ b. some response; seal = λ i b. some (i ∷ b) }

abbrev later_seal : ℕ → Bytes → Option Bytes
later_seal i b = some (0 ∷ i ∷ b)

abbrev uploaded : List Upload
uploaded =
    record {
      source = "claudecode";
      path = "a.jsonl";
      offset = 0;
      hash = "h1";
      bytes = 123 ∷ 125 ∷ [];
    }
    ∷ []

named :
    (unsealed env (record {
      source = "claudecode";
      path = "a.jsonl";
      offset = 0;
      hash = "h1";
      bytes = 123 ∷ 125 ∷ [];
    })).session_id
    ≢ ""
unfolding identify provenance billed to_record is_billable
named h = let k : ◌≡◌ {A = String} "s1" "" = h in cc

ingest_again_example :
    let db' = (ingest env (empty_db "a") "t0" uploaded).0 in
    All (λ r. IsArchived db'.rows "a" (unsealed env r)) uploaded
    × (ingest (record env { seal = later_seal }) db' "t1" uploaded
        ≡ (db', record { received = 1; stored = 0; duplicates = 1 }, none))
ingest_again_example =
    ingest_again env later_seal (empty_db "a") "t0" "t1" uploaded (λ i b. (i ∷ b, refl))
      (λ i b. (0 ∷ i ∷ b, refl)) (empty-IsDense "a") (omega arith) (inr named, tt)
