-- ===== src/Ingest/Reprocess/Batch.antt =====
-- What saving a re-extracted batch does to one row. internal/ingest/reprocess.go,
-- internal/store/extraction.go
use agentic_stats.Prelude.{
  ℕ, ◌≡◌, refl, sym, ap, subst, ◌∙◌, true, false, inl, inr, Option, none, some, List, [], ◌∷◌, map,
  arith, String, str_eq_refl, ◌==◌, ==_iff, if◌then◌else◌, any, All, Bool-cases, Option-cases,
}
use agentic_stats.Source.{Bytes}
use agentic_stats.Store.Record.{Record, Row, of_row}
use agentic_stats.Store.Table.{has_key}
use agentic_stats.Store.Order.{Above, IsAscending}
use agentic_stats.Store.Query.Dense.{numbered}
use agentic_stats.Store.Extraction.{Extracted, set_extracted, update_row, update_rows}
use agentic_stats.Derive.Identity.{identify}
use agentic_stats.Ingest.Reprocess.{Opener, wanted, agrees, reextract_one, reextract}

-- The row with the columns that its body gives, as it is where it has them.
unfoldable pub refreshed_to : Opener → Row → Option Bytes → Row
refreshed_to opener w none = w
refreshed_to opener w (some plain) =
    let want = wanted (of_row w) (identify opener.trim (opener.parse plain)) in
    if agrees want (of_row w) then w else set_extracted want w

-- A row whose body cannot be read stays as it is.
unfoldable pub refreshed : Opener → Row → Row
refreshed opener w = refreshed_to opener w (opener.unseal w.sealed)

-- The updates of a transaction, on one row.
unfoldable pub update_all : List Extracted → Row → Row
update_all [] w = w
update_all (e ∷ es) w = update_all es (update_row e w)

pub map-map :
    {A B C : Type 0} (f : B → C) (g : A → B) (l : List A) → map f (map g l) ≡ map (λ a. f (g a)) l
map-map f g [] = refl
map-map f g (a ∷ l) = ap (λ m. f (g a) ∷ m) (map-map f g l)

pub map_same : {A : Type 0} (f : A → A) (l : List A) → All (λ a. f a ≡ a) l → map f l ≡ l
map_same f [] h = refl
map_same f (a ∷ l) h = rw (h.0, map_same f l h.1) refl

pub update_rows-map :
    (es : List Extracted) (rows : List Row) → update_rows es rows ≡ map (update_all es) rows
unfolding update_rows update_all
update_rows-map [] rows = sym (map_same (λ w. w) rows (all_same rows))
  where
    all_same : (l : List Row) → All (λ w. w ≡ w) l
    all_same [] = tt
    all_same (w ∷ l) = (refl, all_same l)
update_rows-map (e ∷ es) rows =
    update_rows-map es (map (update_row e) rows) ∙ map-map (update_all es) (update_row e) rows

abbrev Misses : Row → Record → Type 0
Misses w r = has_key r.origin_id r.seq w ≡ false

-- A record with another key leaves the row to the rest.
update_all_skip :
    (opener : Opener) (r : Record) (batch : List Record) (w : Row)
    → Misses w r
    → update_all (reextract opener (r ∷ batch)).0 w ≡ update_all (reextract opener batch).0 w
unfolding update_all update_row reextract reextract_one wanted
update_all_skip opener r batch w h = elim (Option-cases (opener.unseal r.sealed)) [
  | inl e ↦ rw e refl
  | inr (plain, e) ↦
      elim (Bool-cases (agrees (wanted r (identify opener.trim (opener.parse plain))) r)) [
        | inl a ↦ rw (e, reextract_one, a) refl
        | inr a ↦ rw (e, reextract_one, a, update_all, h) refl
      ]
]

-- A batch without the row's key leaves it.
pub update_all-Misses :
    (opener : Opener) (batch : List Record) (w : Row)
    → All (Misses w) batch
    → update_all (reextract opener batch).0 w ≡ w
unfolding update_all reextract
update_all-Misses opener [] w h = refl
update_all-Misses opener (r ∷ batch) w h =
    update_all_skip opener r batch w h.0 ∙ update_all-Misses opener batch w h.1

-- Setting the columns leaves the key.
pub set_extracted_key :
    (e : Extracted) (w : Row) (o : String) (k : ℕ) → has_key o k (set_extracted e w) ≡ has_key o k w
unfolding has_key set_extracted
set_extracted_key e w o k = refl

Above-Misses : (w : Row) (batch : List Record) → All (Above w.seq) batch → All (Misses w) batch
unfolding has_key
Above-Misses w [] h = tt
Above-Misses w (r ∷ batch) h = (ground (arith, h.0), Above-Misses w batch h.1)

-- The row of the first record of a batch.
update_all_first :
    (opener : Opener) (w : Row) (batch : List Record)
    → All (Above w.seq) batch
    → update_all (reextract opener (of_row w ∷ batch)).0 w ≡ refreshed opener w
unfolding update_all update_row reextract reextract_one refreshed refreshed_to wanted of_row has_key
    set_extracted
update_all_first opener w batch h = elim (Option-cases (opener.unseal w.sealed)) [
  | inl e ↦ rw e (update_all-Misses opener batch w (Above-Misses w batch h))
  | inr (plain, e) ↦
      let want = wanted (of_row w) (identify opener.trim (opener.parse plain)) in
      elim (Bool-cases (agrees want (of_row w))) [
        | inl a ↦
            rw (e, reextract_one, a) (update_all-Misses opener batch w (Above-Misses w batch h))
        | inr a ↦
            rw (e, reextract_one, a, update_all, str_eq_refl w.origin_id, same_seq w.seq)
              (update_all-Misses opener batch (set_extracted want w) (Above-Misses w batch h))
      ]
]
  where
    same_seq : (k : ℕ) → (k == k) ≡ true
    same_seq k = ground arith

-- After the batch a row is refreshed if it is among the batch, and as it was if not.
pub update_all_batch :
    (opener : Opener) (batch : List Record) (w : Row)
    → IsAscending batch
    → All (λ r. r.seq ≡ w.seq → r ≡ of_row w) batch
    → update_all (reextract opener batch).0 w
      ≡ (if any (numbered w.seq) batch then refreshed opener w else w)
unfolding has_key
update_all_batch opener [] w s h = update_all-Misses opener [] w tt
update_all_batch opener (r ∷ batch) w s h = elim (Bool-cases (r.seq == w.seq)) [
  | inl e ↦
      let same : r ≡ of_row w = h.0 ((==_iff r.seq w.seq).0 e) in
      let above : All (Above w.seq) batch =
        subst (λ n. All (Above n) batch) ((==_iff r.seq w.seq).0 e) s.0 in
      subst (λ x. update_all (reextract opener (x ∷ batch)).0 w ≡ refreshed opener w) (sym same)
        (update_all_first opener w batch above)
      ∙ rw e refl
  | inr e ↦
      update_all_skip opener r batch w (ground (arith, e))
      ∙ update_all_batch opener batch w s.1 h.1
      ∙ rw e refl
]
