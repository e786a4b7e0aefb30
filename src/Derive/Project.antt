-- ===== src/Derive/Project.antt =====
-- The projects that working directories belong to. internal/derive/project.go
-- A text is the list of its bytes.
pub mod Root
use agentic_stats.Prelude.{
  ℕ, zero, suc, ◌+◌, ◌-◌, Bool, true, false, not, ◌&&◌, ◌||◌, Option, none, some, List, [], ◌∷◌,
  ◌++◌, map, codes, ltb, ◌==◌, if◌then◌else◌, length, is_empty, take, drop, select, any,
}
use agentic_stats.Source.{Bytes}
use agentic_stats.Version.{push}
use agentic_stats.Bridge.Key.{bytes_eq, cut_last}

-- strings.ToLower, strings.EqualFold, and whether each of the suffix patterns matches.
pub record Rules : Type 0 where
  pub to_lower : Bytes → Bytes
  pub equal_fold : Bytes → Bytes → Bool
  pub suffixes : List (Bytes → Bool)

unfoldable pub is_separator : ℕ → Bool
is_separator c = (c == b'/') || (c == 92)

-- The pieces between separators, the empty ones too.
unfoldable pub pieces : Bytes → List Bytes
pieces [] = [] ∷ []
pieces (c ∷ s) = let rest = pieces s in if is_separator c then [] ∷ rest else push c rest

unfoldable pub is_segment : Bytes → Bool
is_segment seg = not (is_empty seg) && not (bytes_eq seg (codes "."))

unfoldable pub path_segments : Bytes → List Bytes
path_segments p = select is_segment (pieces p)

-- A row of the table of layouts: the marker and the child.
unfoldable pub is_layout : Bytes → Bytes → Bool
is_layout a b = bytes_eq a (codes ".claude") && bytes_eq b (codes "worktrees")

unfoldable pub strip_after : List Bytes → List Bytes
strip_after [] = []
strip_after (a ∷ []) = a ∷ []
strip_after (a ∷ b ∷ segs) =
    let rest = strip_after (b ∷ segs) in if is_layout a b then [] else a ∷ rest

-- The first segment stays.
unfoldable pub strip_worktree : List Bytes → List Bytes
strip_worktree [] = []
strip_worktree (a ∷ segs) = a ∷ strip_after segs

unfoldable pub name_after : Bytes → Option (Bytes × Bytes) → Bytes
name_after repo none = repo
name_after repo (some (owner, name)) = name

unfoldable pub repo_name : Bytes → Bytes
repo_name repo = name_after repo (cut_last b'/' repo)

unfoldable pub last_of : List Bytes → Option Bytes
last_of [] = none
last_of (a ∷ []) = some a
last_of (a ∷ b ∷ segs) = last_of (b ∷ segs)

-- A text that was found, the empty one for none, or the panic of an index out of range.
pub data Found : Type 0 where
  panicked : Found
  found : Bytes → Found

unfoldable pub dash_at : ℕ → Bytes → Bool
dash_at n [] = false
dash_at zero (c ∷ s) = (c == b'-') || (c == b'_')
dash_at (suc n) (c ∷ s) = dash_at n s

-- segs[len(segs)-1] panics where there is no segment.
unfoldable pub match_last : Rules → Bytes → Option Bytes → Found
match_last rules name none = panicked
match_last rules name (some last) =
    let n = length name in
    if ltb n (length last) && (rules.equal_fold (take n last) name && dash_at n last)
    then found (take n last)
    else found []

unfoldable pub match_segment : Rules → Bytes → Found → List Bytes → Found
match_segment rules name otherwise [] = otherwise
match_segment rules name otherwise (seg ∷ segs) =
    let rest = match_segment rules name otherwise segs in
    if rules.equal_fold seg name then found seg else rest

unfoldable pub match_in_path : Rules → List Bytes → Bytes → Found
match_in_path rules segs name =
    if is_empty name
    then found []
    else match_segment rules name (match_last rules name (last_of segs)) segs

-- One round of shippedProject: `more` goes on with what is found by then.
unfoldable pub with_hit : (Bytes → Found) → Bytes → Found → Found
with_hit more sofar panicked = panicked
with_hit more sofar (found hit) = elim (is_empty hit) [
  | true ↦ more sofar
  | false ↦ elim (is_empty sofar) [
    | true ↦ more hit
    | false ↦ if bytes_eq sofar hit then more sofar else found []
  ]
]

unfoldable pub shipped_loop : Rules → List Bytes → List Bytes → Bytes → Found
shipped_loop rules segs [] sofar = found sofar
shipped_loop rules segs (repo ∷ repos) sofar =
    with_hit (shipped_loop rules segs repos) sofar (match_in_path rules segs (repo_name repo))

unfoldable pub shipped_project : Rules → List Bytes → List Bytes → Found
shipped_project rules segs shipped_to = shipped_loop rules segs shipped_to []

-- The byte with its bit for lower case set: `seg[0] | ('a' - 'A')`.
unfoldable pub is_letter : ℕ → Bool
is_letter c = (ltb 64 c && ltb c 91) || (ltb 96 c && ltb c 123)

unfoldable pub is_root : Bytes → Bool
is_root (c ∷ d ∷ []) = (d == b':') && is_letter c
is_root _ = false

abbrev pub worktree_words : List Bytes
worktree_words =
    codes "issue"
    ∷ codes "issues"
    ∷ codes "wt"
    ∷ codes "worktree"
    ∷ codes "pr"
    ∷ codes "branch"
    ∷ codes "agent"
    ∷ []

unfoldable pub is_cut : Rules → Bytes → ℕ → Bytes → Bool
is_cut rules base c suffix =
    ((c == b'-') || (c == b'_'))
    && (not (any (bytes_eq (rules.to_lower base)) worktree_words)
        && any (λ matches. matches suffix) rules.suffixes)

-- The leftmost cut behind `base`, which is not empty, with a suffix that is not.
unfoldable pub fold_from : Rules → Bytes → Bytes → Bytes → Bytes
fold_from rules name base [] = name
fold_from rules name base (c ∷ []) = name
fold_from rules name base (c ∷ d ∷ s) =
    let rest = fold_from rules name (base ++ c ∷ []) (d ∷ s) in
    if is_cut rules base c (d ∷ s) then base else rest

unfoldable pub fold_sibling : Rules → Bytes → Bytes
fold_sibling rules [] = []
fold_sibling rules (c ∷ s) = fold_from rules (c ∷ s) (c ∷ []) s

unfoldable pub named : Rules → Option Bytes → Bytes
named rules none = []
named rules (some name) = if is_root name then [] else fold_sibling rules name

unfoldable pub name_project : Rules → List Bytes → Bytes
name_project rules segs = named rules (last_of segs)

unfoldable pub or_else : Bytes → Found → Found
or_else name panicked = panicked
or_else name (found p) = if is_empty p then found name else found p

unfoldable pub of : Rules → Bytes → List Bytes → Found
of rules cwd shipped_to =
    let segs = strip_worktree (path_segments cwd) in
    if is_empty segs
    then found []
    else or_else (name_project rules segs) (shipped_project rules segs shipped_to)

unfoldable pub segment_key : Rules → List Bytes → Bytes
segment_key rules [] = []
segment_key rules (a ∷ []) = rules.to_lower a
segment_key rules (a ∷ b ∷ segs) = rules.to_lower a ++ 0 ∷ segment_key rules (b ∷ segs)

-- A map from keys to texts; a missing key is the empty text.
abbrev pub Names : Type 0
Names = List (Bytes × Bytes)

unfoldable pub name_at : Names → Bytes → Bytes
name_at [] key = []
name_at (e ∷ names) key = if bytes_eq (e.0) key then e.1 else name_at names key

unfoldable pub has_name : Names → Bytes → Bool
has_name names key = any (λ e. bytes_eq (e.0) key) names

-- The loop over the cuts, from `cut` down to 1.
unfoldable pub ancestor_at : Rules → ℕ → List Bytes → Names → Bytes
ancestor_at rules zero segs projects = []
ancestor_at rules (suc n) segs projects =
    let p = name_at projects (segment_key rules (take (suc n) segs)) in
    let rest = ancestor_at rules n segs projects in if is_empty p then rest else p

unfoldable pub ancestor_project : Rules → List Bytes → Names → Bytes
ancestor_project rules segs projects = ancestor_at rules (length segs - 1) segs projects

pub record Entry : Type 0 where
  pub dir : Bytes
  pub segs : List Bytes
  pub key : Bytes

unfoldable pub entry_of : Rules → Bytes → Entry
entry_of rules dir =
    let segs = strip_worktree (path_segments dir) in
    record { dir = dir; segs = segs; key = segment_key rules segs }

unfoldable pub text_before : Bytes → Bytes → Bool
text_before s [] = false
text_before [] (d ∷ t) = true
text_before (c ∷ s) (d ∷ t) = ltb c d || ((c == d) && text_before s t)

-- Shortest first, then by name.
unfoldable pub before : Entry → Entry → Bool
before a b =
    let m = length a.segs in
    let n = length b.segs in if m == n then text_before a.dir b.dir else ltb m n

unfoldable pub place : Entry → List Entry → List Entry
place e [] = e ∷ []
place e (f ∷ entries) =
    let rest = place e entries in if before f e then f ∷ rest else e ∷ f ∷ entries

unfoldable pub in_order : List Entry → List Entry
in_order [] = []
in_order (e ∷ entries) = place e (in_order entries)

-- `otherwise` is used where nothing is found; `none` is a panic.
unfoldable pub project_of : Bytes → Found → Option Bytes
project_of otherwise panicked = none
project_of otherwise (found p) = some (if is_empty p then otherwise else p)

-- The projects of the directories, and of the keys that have one.
pub record Resolved : Type 0 where
  pub out : Names
  pub projects : Names

unfoldable pub resolved : Entry → Resolved → Bytes → Resolved
resolved e r project = record {
  out = (e.dir, project) ∷ r.out;
  projects =
      if not (has_name r.projects e.key) && not (is_empty project)
      then (e.key, project) ∷ r.projects
      else r.projects;
}

unfoldable pub resolve_entry : Rules → (Bytes → List Bytes) → Entry → Resolved → Option Bytes
resolve_entry rules shipped e r =
    let ancestor = ancestor_project rules e.segs r.projects in
    project_of (if is_empty ancestor then name_project rules e.segs else ancestor)
      (shipped_project rules e.segs (shipped e.dir))

unfoldable pub then_resolve : (Bytes → Option Names) → Option Bytes → Option Names
then_resolve more none = none
then_resolve more (some project) = more project

unfoldable pub resolve_loop : Rules → (Bytes → List Bytes) → List Entry → Resolved → Option Names
resolve_loop rules shipped [] r = some r.out
resolve_loop rules shipped (e ∷ entries) r =
    then_resolve (λ project. resolve_loop rules shipped entries (resolved e r project))
      (resolve_entry rules shipped e r)

unfoldable pub resolve : Rules → List Bytes → (Bytes → List Bytes) → Option Names
resolve rules dirs shipped =
    resolve_loop rules shipped (in_order (map (entry_of rules) dirs))
      (record { out = []; projects = [] })
