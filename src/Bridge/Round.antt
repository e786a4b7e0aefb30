-- ===== src/Bridge/Round.antt =====
-- One round of Publish's loop. internal/bridge/bridge.go
use agentic_stats.Prelude.{
  ℕ, suc, ◌+◌, ◌-◌, ◌*◌, ◌≤◌, ◌≡◌, refl, sym, ap, subst, ◌∙◌, true, false, ◌⊎◌, Option, none, some,
  List, [], ◌∷◌, ◌++◌, String, codes, ltb-eq_false, min, length, is_empty, is_prefix, In,
}
use agentic_stats.Source.{Bytes}
use agentic_stats.Store.Record.{Record}
use agentic_stats.Store.Append.{Db}
use agentic_stats.Store.Query.{since}
use agentic_stats.Store.Order.{last_seq}
use agentic_stats.Bridge.Key.{pos, format_key}
use agentic_stats.Bridge.Ranges.{HasRange}
use agentic_stats.Bridge.Folder.{
  Backend, Codec, BridgeError, Ranges, range_from, covered, Published, stored_bundle, put_sealed,
  put_marshalled, put_bundle, then_publish, publish_loop,
}

abbrev pub prefix_of : String → Bytes
prefix_of origin = codes origin ++ b'/' ∷ []

-- Every key of a listing is in another.
abbrev pub Sub : List Bytes → List Bytes → Type 0
Sub l m = (key : Bytes) → In key l → In key m

-- A listing that works goes on to work after a Put, shows what it showed before, and shows the
-- object that was put if it is under the prefix.
abbrev pub Lists : {S : Type 0} → Backend S → Type 0
Lists {S} B =
    (prefix key body : Bytes) (s s' : S) (keys : List Bytes)
    → B.put key body s ≡ some s'
    → B.list prefix s ≡ some keys
    → (keys' : List Bytes) × (B.list prefix s' ≡ some keys')
      × ((k : Bytes) → In k keys → In k keys')
      × ((is_prefix prefix key ≡ false) ⊎ In key keys')

-- The first number of the j-th bundle, and its last where it is full or the last one.
abbrev pub start : ℕ → ℕ
start j = suc (j * 5000)

abbrev pub end : ℕ → ℕ → ℕ
end have j = min (start j + 5000 - 1) have

pub HasRange-Sub :
    (l m : List Bytes) (origin : Bytes) (first last : ℕ)
    → Sub l m
    → HasRange l origin first last
    → HasRange m origin first last
HasRange-Sub l m origin first last sub (key, i, n, p, le) = (key, sub key i, n, p, le)

module _ {S : Type 0} (B : Backend S) where
  pub put_bundle-put :
      (codec : Codec) (origin : String) (first last : ℕ) (recs : List Record) (s s' : S) (n : ℕ)
      → put_bundle B codec origin first last recs s ≡ (s', n, none)
      → (body : Bytes) × (B.put (format_key (codes origin) first last) body s ≡ some s')
  unfolding put_bundle put_marshalled put_sealed stored_bundle
  put_bundle-put codec origin first last recs s s' n h = marshalled (codec.marshal _) h
    where
      key : Bytes
      key = format_key (codes origin) first last

      stored :
          (body : Bytes) (o : Option S)
          → B.put key body s ≡ o
          → stored_bundle B s (length recs) o ≡ (s', n, none)
          → (body : Bytes) × (B.put key body s ≡ some s')
      stored body none e k = cc
      stored body (some t) e k = (body, e ∙ ap some (ap (λ (x : Published B). x.0) k))

      sealed :
          (o : Option Bytes)
          → put_sealed B key s (length recs) o ≡ (s', n, none)
          → (body : Bytes) × (B.put key body s ≡ some s')
      sealed none k = cc
      sealed (some body) k = stored body (B.put key body s) refl k

      marshalled :
          (o : Option Bytes)
          → put_marshalled B codec first key s (length recs) o ≡ (s', n, none)
          → (body : Bytes) × (B.put key body s ≡ some s')
      marshalled none k = cc
      marshalled (some body) k = sealed (codec.seal first body) k

  pub then_publish-both :
      (more : S → Published B) (x : Published B) (s' : S) (n : ℕ)
      → then_publish B more x ≡ (s', n, none)
      → (s : S) × (k : ℕ) × (m : ℕ) × (x ≡ (s, k, none)) × (more s ≡ (s', m, none))
  unfolding then_publish
  then_publish-both more (s, k, some e) s' n h = cc
  then_publish-both more (s, k, none) s' n h =
      let r = more s in
      (s, k, r.1, refl, pair r (ap (λ (x : Published B). x.0) h) (ap (λ (x : Published B). x.2) h))
    where
      pair : (r : Published B) → r.0 ≡ s' → r.2 ≡ none → r ≡ (s', r.1, none)
      pair (t, m, e) a b =
          ap (λ (x : S). let z : Published B = (x, m, e) in z) a
          ∙ ap (λ (x : Option BridgeError). let z : Published B = (s', m, x) in z) b

  -- A round that puts a bundle of what is behind `after`.
  pub put_step :
      (codec : Codec) (db : Db) (have : ℕ) (existing : Ranges) (fuel first after next : ℕ) (s : S)
      → first - 1 ≡ after
      → first + 5000 ≡ next
      → first ≤ have
      → covered (min (first + 5000 - 1) have) (range_from existing (pos first)) ≡ false
      → is_empty (since db db.origin after 5000) ≡ false
      → publish_loop B (suc fuel) codec db have existing first s
        ≡ then_publish B (publish_loop B fuel codec db have existing next) (
            put_bundle B codec db.origin first
              (last_seq (since db db.origin after 5000) 0)
              (since db db.origin after 5000)
              s)
  unfolding publish_loop
  put_step codec db have existing fuel first after next s back on le c ne =
      let whole : is_empty (since db db.origin (first - 1) 5000) ≡ false
          → publish_loop B (suc fuel) codec db have existing first s
            ≡ then_publish B (publish_loop B fuel codec db have existing (first + 5000)) (
                put_bundle B codec db.origin first
                  (last_seq (since db db.origin (first - 1) 5000) 0)
                  (since db db.origin (first - 1) 5000) s) =
        λ e. rw (ltb-eq_false have first le, publish_loop, c, publish_loop, e, publish_loop) refl in
      subst
        (λ a.
          publish_loop B (suc fuel) codec db have existing first s
          ≡ then_publish B (publish_loop B fuel codec db have existing next) (
              put_bundle B codec db.origin first (last_seq (since db db.origin a 5000) 0)
                (since db db.origin a 5000) s))
        back
        (subst
          (λ x.
            publish_loop B (suc fuel) codec db have existing first s
            ≡ then_publish B (publish_loop B fuel codec db have existing x) (
                put_bundle B codec db.origin first
                  (last_seq (since db db.origin (first - 1) 5000) 0)
                  (since db db.origin (first - 1) 5000) s))
          on (whole (subst (λ a. is_empty (since db db.origin a 5000) ≡ false) (sym back) ne)))

  -- A round whose range is published.
  pub covered_step :
      (codec : Codec) (db : Db) (have : ℕ) (existing : Ranges) (fuel first next : ℕ) (s : S)
      → first + 5000 ≡ next
      → first ≤ have
      → covered (min (first + 5000 - 1) have) (range_from existing (pos first)) ≡ true
      → publish_loop B (suc fuel) codec db have existing first s
        ≡ publish_loop B fuel codec db have existing next s
  unfolding publish_loop
  covered_step codec db have existing fuel first next s on le c =
      subst
        (λ x.
          publish_loop B (suc fuel) codec db have existing first s
          ≡ publish_loop B fuel codec db have existing x s)
        on (rw (ltb-eq_false have first le, publish_loop, c, publish_loop) refl)
