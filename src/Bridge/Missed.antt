-- ===== src/Bridge/Missed.antt =====
-- What no Fetch brings in. internal/bridge/bridge.go
use agentic_stats.Prelude.{
  ℕ, ◌≤◌, ◌<◌, ◌≡◌, refl, ap, ◌∙◌, true, false, inl, inr, none, some, List, [], ◌∷◌, arith, String,
  codes, lt→ltb, length, Bool-cases,
}
use agentic_stats.Source.{Bytes}
use agentic_stats.Store.Record.{Record}
use agentic_stats.Store.Append.{Db, AppendResult, append_remote}
use agentic_stats.Store.Query.{VersionVector, vector}
use agentic_stats.Bridge.Key.{pos, bytes_eq, parse_key}
use agentic_stats.Bridge.Folder.{
  Backend, Codec, get_bundle, claimed, skipped, Fetched, applied, then_fetch, apply_bundle,
  fetch_object, fetch_loop, nothing_fetched, fetch_listed, fetch,
}

object_passed_over :
    {S : Type 0} (B : Backend S) (codec : Codec) (now : String) (vec : VersionVector) (s : S)
    (key : Bytes) (f : Fetched)
    → skipped (codes f.db.origin) vec (parse_key key) ≡ true
    → fetch_object B codec now vec s key f ≡ (f, none)
unfolding fetch_object
object_passed_over B codec now vec s key f h = rw (h, fetch_object) refl

object_applied :
    {S : Type 0} (B : Backend S) (codec : Codec) (now : String) (vec : VersionVector) (s : S)
    (key : Bytes) (f : Fetched)
    → skipped (codes f.db.origin) vec (parse_key key) ≡ false
    → fetch_object B codec now vec s key f ≡ apply_bundle now f (get_bundle B codec s key)
unfolding fetch_object
object_applied B codec now vec s key f h = rw (h, fetch_object) refl

-- The key of a foreign origin whose last number a vector has.
skipped_reached :
    (own : Bytes) (vec : VersionVector) (o : Bytes) (first last : ℕ)
    → last ≤ claimed vec o
    → skipped own vec (some (record { origin = o; first = pos first; last = pos last })) ≡ true
unfolding skipped
skipped_reached own vec o first last le = ground arith

-- A bundle that cannot be read is not made up for. Where a folder lists exactly two keys of one
-- foreign origin at a Fetch, the first with a bundle that cannot be read and the second with one
-- that can and whose last number the vector does not claim yet, and the records of the second are
-- taken without an error and raise what the vector claims for the origin to the last number of
-- both, then that Fetch brings in the records of the second alone, and a later Fetch of a folder
-- that lists these two again, whatever stands under the keys by then, passes over both and brings
-- in nothing.
pub fetch_never_returns :
    {S : Type 0} (B : Backend S) (codec : Codec) (now later : String) (db db' : Db) (s t : S)
    (unreadable readable origin : Bytes) (f l f' l' : ℕ) (recs : List Record) (out : AppendResult)
    → B.list [] s ≡ some (unreadable ∷ readable ∷ [])
    → B.list [] t ≡ some (unreadable ∷ readable ∷ [])
    → parse_key unreadable ≡ some (record { origin = origin; first = pos f; last = pos l })
    → parse_key readable ≡ some (record { origin = origin; first = pos f'; last = pos l' })
    → get_bundle B codec s unreadable ≡ none
    → get_bundle B codec s readable ≡ some recs
    → bytes_eq origin (codes db.origin) ≡ false
    → claimed (vector db) origin < l'
    → append_remote db now recs ≡ (db', out, none)
    → l ≤ claimed (vector db') origin
    → l' ≤ claimed (vector db') origin
    → (fetch B codec now db s ≡ applied (nothing_fetched B db) (length recs) (db', out, none))
      × (fetch B codec later db' t ≡ (nothing_fetched B db', none))
unfolding fetch fetch_listed fetch_loop then_fetch apply_bundle applied skipped
fetch_never_returns B codec now later db db' s t k k' o f l f' l' recs out ls lt p p' e e' d new a r
      r' =
    let start = nothing_fetched B db in
    let fresh = nothing_fetched B db' in
    let first : fetch_object B codec now (vector db) s k start ≡ (start, none) =
      elim (Bool-cases (skipped (codes db.origin) (vector db) (parse_key k))) [
        | inl x ↦ object_passed_over B codec now (vector db) s k start x
        | inr x ↦ object_applied B codec now (vector db) s k start x ∙ ap (apply_bundle now start) e
      ] in
    let wanted : skipped (codes db.origin) (vector db) (parse_key k') ≡ false =
      rw (p', d, lt→ltb (claimed (vector db) o) l' new) refl in
    let second : fetch_object B codec now (vector db) s k' start
        ≡ applied start (length recs) (db', out, none) =
      object_applied B codec now (vector db) s k' start wanted
      ∙ ap (apply_bundle now start) e'
      ∙ ap (applied start (length recs)) a in
    let over : (key : Bytes) (first last : ℕ)
        → parse_key key ≡ some (record { origin = o; first = pos first; last = pos last })
        → last ≤ claimed (vector db') o
        → fetch_object B codec later (vector db') t key fresh ≡ (fresh, none) =
      λ key first last q le. object_passed_over B codec later (vector db') t key fresh (
        ap (skipped (codes db'.origin) (vector db')) q
        ∙ skipped_reached (codes db'.origin) (vector db') o first last le) in
    (
      rw ls (
          ap (then_fetch (fetch_loop B codec now (vector db) s (k' ∷ []))) first
          ∙ ap (then_fetch (fetch_loop B codec now (vector db) s [])) second),
      rw lt (
          ap (then_fetch (fetch_loop B codec later (vector db') t (k' ∷ []))) (over k f l p r)
          ∙ ap (then_fetch (fetch_loop B codec later (vector db') t [])) (over k' f' l' p' r')),
    )
