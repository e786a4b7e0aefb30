-- ===== src/Bridge/Publish.antt =====
-- What is in the folder after Publish. internal/bridge/bridge.go
use agentic_stats.Prelude.{
  ℕ, zero, suc, ◌+◌, ◌-◌, ◌*◌, ◌/◌, ◌^◌, ◌≤◌, ◌<◌, ◌≡◌, refl, sym, ap, subst, ◌∙◌, Bool, true,
  false, inl, inr, none, some, List, [], ◌∷◌, append_assoc, arith, String, codes, ltb, min, ◌==◌,
  is_empty, take, is_prefix, is_prefix-append, Bool-cases,
}
use agentic_stats.Source.{Bytes}
use agentic_stats.Store.Record.{Record}
use agentic_stats.Store.Table.{max_seq, IsDense}
use agentic_stats.Store.Table.Unique.{IsUnique}
use agentic_stats.Store.Append.{Db}
use agentic_stats.Store.Query.{seq_at, since, vector, backlog}
use agentic_stats.Store.Query.Dense.{backlog_reaches}
use agentic_stats.Store.Query.Vector.{vector-max_seq}
use agentic_stats.Store.Order.{last_seq}
use agentic_stats.Bridge.Key.{pos, format_key}
use agentic_stats.Bridge.Key.Reading.{parse_key-format_key}
use agentic_stats.Bridge.Ranges.{HasRange, covered-HasRange, HasRange-covered}
use agentic_stats.Bridge.Folder.{
  Backend, Codec, Ranges, range_from, ranges_of, covered, list_ranges, Published, put_bundle,
  then_publish, publish_loop, publish_missing, publish,
}
use agentic_stats.Bridge.Round.{
  prefix_of, Sub, Lists, start, end, HasRange-Sub, put_bundle-put, then_publish-both, put_step,
  covered_step,
}

module _ {S : Type 0} (B : Backend S) where
  module _ (law : Lists B) (db : Db) (unique : IsUnique db.rows)
      (dense : IsDense db.rows db.origin) where
    abbrev highest : ℕ
    highest = max_seq db.rows db.origin

    -- Every bundle from the i-th on that has to be there is there.
    abbrev Complete : ℕ → List Bytes → Type 0
    Complete i keys =
        (j : ℕ)
        → i ≤ j
        → start j ≤ highest
        → HasRange keys (codes db.origin) (start j) (end highest j)

    -- After the put of a bundle its range is listed.
    put-HasRange :
        (i : ℕ) (body : Bytes) (s s' : S) (keys : List Bytes)
        → highest < 2 ^ 63
        → start i ≤ highest
        → B.list (prefix_of db.origin) s ≡ some keys
        → B.put
            (format_key
              (codes db.origin)
              (start i)
              (last_seq (since db db.origin (i * 5000) 5000) (i * 5000)))
            body
            s
          ≡ some s'
        → (keys' : List Bytes) × (B.list (prefix_of db.origin) s' ≡ some keys')
          × Sub keys keys'
          × HasRange keys' (codes db.origin) (start i) (end highest i)
    unfolding since format_key
    put-HasRange i body s s' keys small le l p =
        let key =
          format_key (codes db.origin) (start i)
            (last_seq (since db db.origin (i * 5000) 5000) (i * 5000)) in
        let (keys', l', sub, listed) = law (prefix_of db.origin) key body s s' keys p l in
        let (reach, top) =
          backlog_reaches db.rows db.origin (i * 5000) 5000 unique dense (omega (arith, le)) in
        let under : is_prefix (prefix_of db.origin) key ≡ true =
          ap (is_prefix (prefix_of db.origin)) (sym (append_assoc (codes db.origin) (b'/' ∷ []) _))
          ∙ is_prefix-append (prefix_of db.origin) _ in
        (
          keys',
          l',
          sub,
          (
            key,
            elim listed [ inl e ↦ absurd (clash _ under e) | inr i ↦ i ],
            last_seq (since db db.origin (i * 5000) 5000) (i * 5000),
            parse_key-format_key (codes db.origin) (start i) _ (omega (arith, le, small))
                (omega (arith, top, small)),
            omega (arith, reach),
          ),
        )
      where
        clash : (b : Bool) → b ≡ true → b ≡ false → ⊥
        clash b h k = ground arith

    Complete-skip :
        (i : ℕ) (keys : List Bytes)
        → HasRange keys (codes db.origin) (start i) (end highest i)
        → Complete (suc i) keys
        → Complete i keys
    Complete-skip i keys r c j le top = elim (Bool-cases (i == j)) [
      | inl e ↦ subst (λ k. HasRange keys (codes db.origin) (start k) (end highest k)) (same e) r
      | inr e ↦ c j (ground arith) top
    ]
      where
        same : (i == j) ≡ true → i ≡ j
        same e = ground arith

    last_seq_of :
        (recs : List Record) (d : ℕ) → is_empty recs ≡ false → last_seq recs 0 ≡ last_seq recs d
    unfolding last_seq
    last_seq_of [] d e = cc
    last_seq_of (r ∷ recs) d e = refl

    since_ne : (i : ℕ) → start i ≤ highest → is_empty (since db db.origin (i * 5000) 5000) ≡ false
    unfolding since last_seq
    since_ne i le =
        let (reach, top) =
          backlog_reaches db.rows db.origin (i * 5000) 5000 unique dense (omega (arith, le)) in
        go (take 5000 (backlog db.rows db.origin (i * 5000))) reach
      where
        go :
            (l : List Record)
            → min (i * 5000 + 5000) highest ≤ last_seq l (i * 5000)
            → is_empty l ≡ false
        go [] r = absurd (omega (arith, r, le))
        go (r ∷ l) h = refl

    module _ (codec : Codec) (existing : Ranges) (small : highest < 2 ^ 63) where
      -- One bundle that has to be put, and the rest of the loop.
      loop_put :
          (fuel i : ℕ) (s s' : S) (n : ℕ)
          → start i ≤ highest
          → covered (end highest i) (range_from existing (pos (start i))) ≡ false
          → publish_loop B (suc fuel) codec db highest existing (start i) s ≡ (s', n, none)
          → (t : S) × (m : ℕ) × (body : Bytes) × (B.put
                (format_key
                  (codes db.origin)
                  (start i)
                  (last_seq (since db db.origin (i * 5000) 5000) (i * 5000)))
                body
                s
              ≡ some t)
            × (publish_loop B fuel codec db highest existing (start (suc i)) t ≡ (s', m, none))
      unfolding publish_loop
      loop_put fuel i s s' n le c h =
          let recs = since db db.origin (i * 5000) 5000 in
          let step : publish_loop B (suc fuel) codec db highest existing (start i) s
              ≡ then_publish B (publish_loop B fuel codec db highest existing (start (suc i)))
                  (put_bundle B codec db.origin (start i) (last_seq recs 0) recs s) =
            put_step B codec db highest existing fuel (start i) (i * 5000) (start (suc i)) s
              (omega arith) (omega arith) le c (since_ne i le) in
          let both = then_publish-both B _ _ s' n (sym step ∙ h) in
          let (t, k, m, x, y) = both in
          let (body, p) =
            put_bundle-put B codec db.origin (start i) (last_seq recs 0) recs s t k x in
          (t, m, body, rw (← last_seq_of recs (i * 5000) (since_ne i le)) p, y)

      -- The loop leaves every bundle from its own on listed, and what was listed before.
      loop-Complete :
          (fuel i : ℕ) (s s' : S) (n : ℕ) (before keys : List Bytes)
          → highest ≤ fuel + i
          → B.list (prefix_of db.origin) s ≡ some keys
          → ((j : ℕ)
              → covered (end highest j) (range_from existing (pos (start j))) ≡ true
              → HasRange before (codes db.origin) (start j) (end highest j))
          → Sub before keys
          → publish_loop B fuel codec db highest existing (start i) s ≡ (s', n, none)
          → (keys' : List Bytes) × (B.list (prefix_of db.origin) s' ≡ some keys')
            × Complete i keys'
            × Sub keys keys'
      unfolding publish_loop
      loop-Complete zero i s s' n before keys f l ex sub h = (
        keys,
        ap (B.list (prefix_of db.origin)) (sym (ap (λ (x : Published B). x.0) h)) ∙ l,
        (λ j le top. absurd (omega (arith, f, le, top))),
        (λ k m. m),
      )
      loop-Complete (suc fuel) i s s' n before keys f l ex sub h =
          elim (Bool-cases (ltb highest (start i))) [
            | inl over ↦
                let same : publish_loop B (suc fuel) codec db highest existing (start i) s
                    ≡ (s, 0, none) =
                  rw (over, publish_loop) refl in
                (
                  keys,
                  ap (B.list (prefix_of db.origin))
                        (sym (ap (λ (x : Published B). x.0) (sym same ∙ h)))
                      ∙ l,
                  (λ j le top. absurd (ground (arith, over, le, top))),
                  (λ k m. m),
                )
            | inr on ↦
                let le : start i ≤ highest = ground (arith, on) in
                elim (Bool-cases (covered (end highest i) (range_from existing (pos (start i))))) [
                  | inl c ↦
                      let step =
                        covered_step B codec db highest existing fuel (start i) (start (suc i)) s
                          (omega arith) le c in
                      let (keys', l', done, more) =
                        loop-Complete fuel (suc i) s s' n before keys (omega (arith, f)) l ex sub
                          (sym step ∙ h) in
                      (
                        keys',
                        l',
                        Complete-skip i keys'
                            (HasRange-Sub before keys' (codes db.origin) (start i) (end highest i)
                              (λ k m. more k (sub k m)) (ex i c))
                            done,
                        more,
                      )
                  | inr c ↦
                      let (t, m, body, p, y) = loop_put fuel i s s' n le c h in
                      let (kt, lt, st, r) = put-HasRange i body s t keys small le l p in
                      let (keys', l', done, more) =
                        loop-Complete fuel (suc i) t s' m before kt (omega (arith, f)) lt ex
                          (λ k q. st k (sub k q)) y in
                      (
                        keys',
                        l',
                        Complete-skip i keys'
                            (HasRange-Sub kt keys' (codes db.origin) (start i) (end highest i) more
                              r)
                            done,
                        (λ k q. more k (st k q)),
                      )
                ]
          ]

      -- A loop that finds every range published puts nothing.
      loop_quiet :
          (fuel i : ℕ) (s : S)
          → ((j : ℕ)
              → start j ≤ highest
              → covered (end highest j) (range_from existing (pos (start j))) ≡ true)
          → publish_loop B fuel codec db highest existing (start i) s ≡ (s, 0, none)
      unfolding publish_loop
      loop_quiet zero i s c = refl
      loop_quiet (suc fuel) i s c = elim (Bool-cases (ltb highest (start i))) [
        | inl over ↦ rw (over, publish_loop) refl
        | inr on ↦
            let le : start i ≤ highest = ground (arith, on) in
            covered_step B codec db highest existing fuel (start i) (start (suc i)) s (omega arith)
              le (c i le)
            ∙ loop_quiet fuel (suc i) s c
      ]

-- A key of a listing whose range has a number.
abbrev pub IsPublished : List Bytes → String → ℕ → Type 0
IsPublished keys origin k =
    (first : ℕ) × (last : ℕ) × (first ≤ k) × (k ≤ last) × HasRange keys (codes origin) first last

-- After a Publish that succeeds, for a node whose numbers have no gap and fit an int64, every
-- number that it holds is in the range of a key that the folder lists, and another Publish puts
-- nothing. It holds for a folder that goes on to list, beside what it listed, what is put.
pub publish-IsPublished :
    {S : Type 0} (B : Backend S) (codec : Codec) (db : Db) (s s' : S) (n : ℕ) (keys : List Bytes)
    → Lists B
    → IsUnique db.rows
    → IsDense db.rows db.origin
    → max_seq db.rows db.origin < 2 ^ 63
    → B.list (prefix_of db.origin) s ≡ some keys
    → publish B codec db s ≡ (s', n, none)
    → (keys' : List Bytes) × (B.list (prefix_of db.origin) s' ≡ some keys')
      × ((k : ℕ) → 1 ≤ k → k ≤ max_seq db.rows db.origin → IsPublished keys' db.origin k)
      × (publish B codec db s' ≡ (s', 0, none))
unfolding publish publish_missing list_ranges
publish-IsPublished {S} B codec db s s' n keys law u d small l h = elim (Bool-cases (top == 0)) [
  | inl z ↦
      let idle : (t : S) → publish B codec db t ≡ (t, 0, none) = λ t. rw (have, z) refl in
      let still : s ≡ s' = ap (λ (x : Published B). x.0) (sym (idle s) ∙ h) in
      (
        keys,
        subst (λ t. B.list (prefix_of db.origin) t ≡ some keys) still l,
        (λ k a b. absurd (ground (arith, z, a, b))),
        idle s',
      )
  | inr z ↦
      let existing = ranges_of (codes db.origin) keys [] in
      let loop : publish_loop B top codec db top existing 1 s ≡ (s', n, none) =
        sym (rw (have, z, l) refl) ∙ h in
      let (keys', l', done, more) =
        loop-Complete B law db u d codec existing small top 0 s s' n keys keys (omega arith) l
          (λ j c. covered-HasRange (codes db.origin) keys (start j) (end top j) c) (λ k m. m)
          loop in
      (
        keys',
        l',
        (λ k a b.
            let j = (k - 1) / 5000 in
            (
              start j,
              end top j,
              omega (arith, a),
              omega (arith, a, b),
              done j (omega arith) (omega (arith, a, b)),
            )),
        (rw (have, z, l') refl
            ∙ loop_quiet B law db u d codec (ranges_of (codes db.origin) keys' []) small top 0 s'
                (λ j le.
                  HasRange-covered (codes db.origin) keys' [] (start j) (end top j)
                    (done j (omega arith) le))),
      )
]
  where
    top : ℕ
    top = max_seq db.rows db.origin

    have : seq_at (vector db) db.origin ≡ top
    have = (vector-max_seq db db.origin).0
