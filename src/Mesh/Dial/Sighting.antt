-- ===== src/Mesh/Dial/Sighting.antt =====
-- Which sightings of a peer wake the dial loop. internal/mesh/mesh.go
use agentic_stats.Prelude.{
  ℕ, ◌≡◌, refl, sym, ap, subst, ◌∙◌, Bool, true, false, not, ◌&&◌, ◌||◌, inl, inr, List, [], ◌∷◌,
  arith, String, str_eq, eq_iff, any, Bool-cases,
}
use agentic_stats.Mesh.Dial.{
  Attempt, Event, swept, woke, seen, Node, nudge, wake, first_sighting, discovered, step, run,
  new_node,
}

-- Whether an id is among the sightings that could be saved.
abbrev pub saved_once : String → List Event → Bool
saved_once id [] = false
saved_once id (swept peers ∷ es) = saved_once id es
saved_once id (woke ∷ es) = saved_once id es
saved_once id (seen j saved ∷ es) = (str_eq id j && saved) || saved_once id es

abbrev pub known : String → Node → Bool
known id n = any (str_eq id) n.sighted

-- After a sighting the ids are known that were, and the one that was seen if it could be saved.
known-discovered :
    (id j : String) (saved : Bool) (n : Node)
    → known id (discovered j saved n) ≡ ((str_eq id j && saved) || known id n)
unfolding discovered first_sighting nudge
known-discovered id j false n = ground arith
known-discovered id j true n = elim (Bool-cases (any (str_eq j) n.sighted)) [
  | inl k ↦ elim (Bool-cases (str_eq id j)) [
    | inl e ↦
        let old : known id n ≡ true =
          subst (λ x. any (str_eq x) n.sighted ≡ true) (sym ((eq_iff id j).0 e)) k in
        rw (k, e) old
    | inr e ↦ rw (k, e) refl
  ]
  | inr k ↦ rw k (ground arith)
]

known-run :
    (env : ℕ → Attempt) (node_id id : String) (es : List Event) (n : Node)
    → known id (run env node_id es n) ≡ (known id n || saved_once id es)
unfolding run step wake nudge
known-run env node_id id [] n = ground arith
known-run env node_id id (swept peers ∷ es) n = known-run env node_id id es _
known-run env node_id id (woke ∷ es) n = known-run env node_id id es _
known-run env node_id id (seen j saved ∷ es) n =
    known-run env node_id id es (discovered j saved n)
    ∙ ap (λ b. b || saved_once id es) (known-discovered id j saved n)
    ∙ ground arith

-- After any history of a node, the sighting of a peer asks for a sweep exactly when the peer could
-- be saved and never was before in this run, or a sweep is already asked for; and it leaves the
-- backoff as it is, with no dial.
pub discovered_wakes :
    (env : ℕ → Attempt) (node_id : String) (es : List Event) (id : String) (saved : Bool)
    → let n = run env node_id es new_node in
      let m = discovered id saved n in
      (m.wake_pending ≡ (n.wake_pending || (saved && not (saved_once id es))))
      × (m.dialling ≡ n.dialling)
unfolding discovered first_sighting nudge
discovered_wakes env node_id es id saved =
    let k = known-run env node_id id es new_node in ground (arith, k)
