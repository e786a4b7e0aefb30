-- ===== src/Derive/Identity.antt =====
-- The identity of a line. internal/derive/identity.go
use agentic_stats.Prelude.{
  ℕ, ◌≡◌, ◌≢◌, refl, sym, ◌∙◌, Bool, true, false, not, ◌&&◌, Option, none, some, String, str_eq,
  eq_iff, arith, if◌then◌else◌, ltb, inl, inr, ◌⊎◌, Bool-cases,
}

pub record Usage : Type 0 where
  pub input : ℕ
  pub output : ℕ
  pub thinking : ℕ
  pub cache_read : ℕ
  pub cache_write5m : ℕ
  pub cache_write1h : ℕ

abbrev pub no_usage : Usage
no_usage = record {
  input = 0;
  output = 0;
  thinking = 0;
  cache_read = 0;
  cache_write5m = 0;
  cache_write1h = 0;
}

pub record Identity : Type 0 where
  pub session_id : String
  pub line_uuid : String
  pub captured_at : String
  pub request_id : String
  pub model : String
  pub pr_repo : String
  pub pr_number : ℕ
  pub cwd : String
  pub git_branch : String
  pub usage : Usage

abbrev pub no_identity : Identity
no_identity = record {
  session_id = "";
  line_uuid = "";
  captured_at = "";
  request_id = "";
  model = "";
  pr_repo = "";
  pr_number = 0;
  cwd = "";
  git_branch = "";
  usage = no_usage;
}

-- identityShape: the fields that are read of a line; `usage` is `none` for a nil pointer.
pub record Shape : Type 0 where
  pub session_id : String
  pub uuid : String
  pub timestamp : String
  pub request_id : String
  pub kind : String
  pub pr_repo : String
  pub pr_number : ℕ
  pub cwd : String
  pub git_branch : String
  pub model : String
  pub usage : Option Usage

-- `trim` is strings.TrimSpace.
unfoldable pub branch_of : (String → String) → String → String
branch_of trim raw = let branch = trim raw in if str_eq branch "HEAD" then "" else branch

unfoldable pub is_pull_request : Shape → Bool
is_pull_request s = str_eq s.kind "pr-link" && (not (str_eq s.pr_repo "") && ltb 0 s.pr_number)

unfoldable pub is_billable : Shape → Bool
is_billable s =
    str_eq s.kind "assistant"
    && (not (str_eq s.model "")
        && (not (str_eq s.model "<synthetic>") && not (str_eq s.request_id "")))

-- What every line has of itself.
unfoldable pub provenance : (String → String) → Shape → Identity
provenance trim s = record no_identity {
  session_id = s.session_id;
  line_uuid = s.uuid;
  captured_at = s.timestamp;
  cwd = trim s.cwd;
  git_branch = branch_of trim s.git_branch;
  pr_repo = if is_pull_request s then s.pr_repo else "";
  pr_number = if is_pull_request s then s.pr_number else 0;
}

unfoldable pub billed : Shape → Option Usage → Identity → Identity
billed s none id = id
billed s (some u) id =
    if is_billable s
    then record id { request_id = s.request_id; model = s.model; usage = u }
    else id

-- `none` is a line that json.Unmarshal refuses.
unfoldable pub identify : (String → String) → Option Shape → Identity
identify trim none = no_identity
identify trim (some s) = billed s s.usage (provenance trim s)

-- A line that reaches a cost calculation: it has a request id.
abbrev pub Counts : Identity → Type 0
Counts id = id.request_id ≢ ""

-- An assistant's line with a request id and a model that is not the synthetic one.
abbrev pub Billable : Shape → Type 0
Billable s =
    (s.kind ≡ "assistant") × (s.model ≢ "") × (s.model ≢ "<synthetic>") × (s.request_id ≢ "")

is_billable-Billable : (s : Shape) → is_billable s ≡ true → Billable s
unfolding is_billable
is_billable-Billable s h =
    let e = eq_iff s.kind "assistant" in
    let m = eq_iff s.model "" in
    let y = eq_iff s.model "<synthetic>" in
    let r = eq_iff s.request_id "" in
    (
      ground (arith, e),
      (λ k. ground (arith, m)),
      (λ k. ground (arith, y)),
      (λ k. ground (arith, r)),
    )

Billable-is_billable : (s : Shape) → Billable s → is_billable s ≡ true
unfolding is_billable
Billable-is_billable s (k, m, y, r) = ground (
  arith,
  k,
  m,
  y,
  r,
  eq_iff s.kind "assistant",
  eq_iff s.model "",
  eq_iff s.model "<synthetic>",
  eq_iff s.request_id "",
)

not_billable : (b : Bool) → b ≡ false → b ≡ true → ⊥
not_billable b e h = cc

-- The request id, model and usage of a line: those of a billable response, or none of them.
abbrev pub IsBilled : Shape → Option Usage → Identity → Type 0
IsBilled s o id =
    (Billable s
      × ((u : Usage) × (o ≡ some u) × (id.usage ≡ u))
      × (id.request_id ≡ s.request_id)
      × (id.model ≡ s.model))
    ⊎ (((o ≡ none) ⊎ (Billable s → ⊥))
        × (id.request_id ≡ "")
        × (id.model ≡ "")
        × (id.usage ≡ no_usage))

billed-IsBilled :
    (trim : String → String) (s : Shape) (o : Option Usage)
    → IsBilled s o (billed s o (provenance trim s))
unfolding billed provenance
billed-IsBilled trim s none = inr (inl refl, refl, refl, refl)
billed-IsBilled trim s (some u) = elim (Bool-cases (is_billable s)) [
  | inl e ↦ rw e (inl (is_billable-Billable s e, (u, refl, refl), refl, refl))
  | inr e ↦
      rw e (
        inr
          (inr (λ k. not_billable (is_billable s) e (Billable-is_billable s k)), refl, refl, refl))
]

billed_branch :
    (s : Shape) (o : Option Usage) (id : Identity) → (billed s o id).git_branch ≡ id.git_branch
unfolding billed
billed_branch s none id = refl
billed_branch s (some u) id = ground arith

branch_of_never_head : (trim : String → String) (raw : String) → branch_of trim raw ≢ "HEAD"
unfolding branch_of
branch_of_never_head trim raw h = elim (Bool-cases (str_eq (trim raw) "HEAD")) [
  | inl e ↦ no_branch (rw e at (h))
  | inr e ↦ let k : trim raw ≡ "HEAD" = rw e at (h) in ground (arith, eq_iff (trim raw) "HEAD")
]
  where
    no_branch : ◌≡◌ {A = String} "" "HEAD" → ⊥
    no_branch h = cc

-- A line that can be read has the request id, model and usage of its response if it is an
-- assistant's, with usage, a request id and a model that is not the synthetic one, and none of them
-- otherwise, so that it reaches no cost; and the branch of a detached HEAD is no branch.
pub identify-IsBilled :
    (trim : String → String) (s : Shape)
    → IsBilled s s.usage (identify trim (some s)) × ((identify trim (some s)).git_branch ≢ "HEAD")
unfolding identify branch_of provenance
identify-IsBilled trim s = (
  billed-IsBilled trim s s.usage,
  (λ h.
      branch_of_never_head trim s.git_branch
        (sym (billed_branch s s.usage (provenance trim s)) ∙ h)),
)
