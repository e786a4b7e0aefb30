-- ===== src/Tests/Project.antt =====
-- internal/derive/project.go
use agentic_stats.Prelude.{
  ◌≡◌, refl, true, Bool, false, ◌&&◌, none, Option, List, [], ◌∷◌, codes, inl, inr, if◌then◌else◌,
  is_empty, ◌==◌,
}
use agentic_stats.Source.{Bytes}
use agentic_stats.Version.{push}
use agentic_stats.Bridge.Key.{bytes_eq, cut_last}
use agentic_stats.Derive.Project.{
  Rules, Names, found, of, resolve, path_segments, pieces, is_separator, is_segment, strip_worktree,
  strip_after, is_layout, repo_name, name_after, last_of, match_last, match_segment, match_in_path,
  with_hit, shipped_loop, shipped_project, dash_at, is_root, is_cut, fold_from, fold_sibling, named,
  name_project, or_else,
}
use agentic_stats.Derive.Project.Root.{resolve_panics}

-- Names in small letters, and a suffix that leads with a digit or with `issue-`.
abbrev leads : Bytes → Bytes → Bool
leads [] s = true
leads (c ∷ p) [] = false
leads (c ∷ p) (d ∷ s) = (c == d) && leads p s

abbrev rules : Rules
rules = record {
  to_lower = λ s. s;
  equal_fold = bytes_eq;
  suffixes = leads (codes "1") ∷ leads (codes "issue-") ∷ [];
}

-- The leftmost suffix that matches is cut off, and a nested worktree is dropped.
sibling : of rules (codes "/src/fastcached-issue-105") [] ≡ found (codes "fastcached")
unfolding of path_segments pieces push is_separator is_segment strip_worktree strip_after is_layout
    shipped_project shipped_loop or_else name_project named last_of is_root fold_sibling fold_from
    is_cut
sibling = refl

nested :
    of rules (codes "/src/contour/.claude/worktrees/x") (codes "me/contour" ∷ [])
    ≡ found (codes "contour")
unfolding of path_segments pieces push is_separator is_segment strip_worktree strip_after is_layout
    shipped_project shipped_loop or_else name_project named last_of is_root fold_sibling fold_from
    is_cut with_hit match_in_path match_segment match_last repo_name name_after cut_last dash_at
nested = refl

-- A session that ran in the root directory and opened a pull request.
abbrev shipped : Bytes → List Bytes
shipped dir = if bytes_eq dir (codes "/") then codes "me/tool" ∷ [] else []

root_segments : path_segments (codes "/") ≡ []
unfolding path_segments pieces push is_separator is_segment
root_segments = refl

tool_named : is_empty (repo_name (codes "me/tool")) ≡ false
unfolding repo_name name_after cut_last
tool_named = refl

resolve_panics_example :
    ◌≡◌ {A = Option Names} (resolve rules (codes "/src/contour" ∷ codes "/" ∷ []) shipped) none
resolve_panics_example =
    resolve_panics rules (codes "/src/contour" ∷ codes "/" ∷ []) shipped (codes "/")
      (codes "me/tool") [] (inr (inl refl)) root_segments refl tool_named
