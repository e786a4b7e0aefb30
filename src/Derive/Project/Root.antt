-- ===== src/Derive/Project/Root.antt =====
-- The directory that has no segments. internal/derive/project.go
use agentic_stats.Prelude.{
  ◌≡◌, refl, ap, subst, ◌∙◌, false, Option, none, some, List, [], ◌∷◌, map, is_empty, Bool-cases,
  ◌⊎◌, inl, inr, In,
}
use agentic_stats.Source.{Bytes}
use agentic_stats.Derive.Project.{
  Rules, path_segments, strip_worktree, repo_name, last_of, panicked, match_last, match_segment,
  match_in_path, with_hit, shipped_loop, shipped_project, Entry, entry_of, before, place, in_order,
  project_of, Resolved, resolved, resolve_entry, then_resolve, resolve_loop, resolve,
}

In-place : (x e : Entry) (l : List Entry) → (x ≡ e) ⊎ In x l → In x (place e l)
unfolding place
In-place x e [] h = h
In-place x e (f ∷ l) h = elim (Bool-cases (before f e)) [
  | inl b ↦ rw b (later (λ k. In-place x e l k) h)
  | inr b ↦ rw b h
]
  where
    later :
        ((x ≡ e) ⊎ In x l → In x (place e l))
        → (x ≡ e) ⊎ ((x ≡ f) ⊎ In x l)
        → (x ≡ f) ⊎ In x (place e l)
    later more (inl k) = inr (more (inl k))
    later more (inr (inl k)) = inl k
    later more (inr (inr k)) = inr (more (inr k))

In-in_order :
    (rules : Rules) (dir : Bytes) (dirs : List Bytes)
    → In dir dirs
    → In (entry_of rules dir) (in_order (map (entry_of rules) dirs))
unfolding in_order
In-in_order rules dir [] h = h
In-in_order rules dir (d ∷ dirs) (inl h) =
    In-place (entry_of rules dir) (entry_of rules d) (in_order (map (entry_of rules) dirs))
      (inl (ap (entry_of rules) h))
In-in_order rules dir (d ∷ dirs) (inr h) =
    In-place (entry_of rules dir) (entry_of rules d) (in_order (map (entry_of rules) dirs))
      (inr (In-in_order rules dir dirs h))

shipped-panicked :
    (rules : Rules) (repo : Bytes) (repos : List Bytes)
    → is_empty (repo_name repo) ≡ false
    → shipped_project rules [] (repo ∷ repos) ≡ panicked
unfolding shipped_project shipped_loop with_hit match_in_path match_segment match_last last_of
shipped-panicked rules repo repos h = rw h refl

loop-none :
    (rules : Rules) (shipped : Bytes → List Bytes) (e : Entry) (entries : List Entry) (r : Resolved)
    → In e entries
    → shipped_project rules e.segs (shipped e.dir) ≡ panicked
    → resolve_loop rules shipped entries r ≡ none
unfolding resolve_loop then_resolve resolve_entry project_of
loop-none rules shipped e [] r h p = absurd h
loop-none rules shipped e (f ∷ entries) r (inl h) p =
    subst (λ x. resolve_loop rules shipped (x ∷ entries) r ≡ none) h
      (ap (then_resolve (λ project. resolve_loop rules shipped entries (resolved e r project)))
        (ap (project_of _) p))
loop-none rules shipped e (f ∷ entries) r (inr h) p =
    go (λ project. loop-none rules shipped e entries (resolved f r project) h p)
      (resolve_entry rules shipped f r)
  where
    go :
        ((project : Bytes) → resolve_loop rules shipped entries (resolved f r project) ≡ none)
        → (o : Option Bytes)
        → then_resolve (λ project. resolve_loop rules shipped entries (resolved f r project)) o
          ≡ none
    go later none = refl
    go later (some project) = later project

-- The projects of any directories panic, where one of them has no segments, as the root directory
-- has none, and the first repository that its sessions shipped to has a name.
pub resolve_panics :
    (rules : Rules) (dirs : List Bytes) (shipped : Bytes → List Bytes) (dir repo : Bytes)
    (repos : List Bytes)
    → In dir dirs
    → path_segments dir ≡ []
    → shipped dir ≡ repo ∷ repos
    → is_empty (repo_name repo) ≡ false
    → resolve rules dirs shipped ≡ none
unfolding resolve entry_of strip_worktree
resolve_panics rules dirs shipped dir repo repos i s r n =
    loop-none rules shipped (entry_of rules dir) (in_order (map (entry_of rules) dirs)) _
      (In-in_order rules dir dirs i)
      (ap (λ x. shipped_project rules (strip_worktree x) (shipped dir)) s
        ∙ ap (shipped_project rules []) r
        ∙ shipped-panicked rules repo repos n)
