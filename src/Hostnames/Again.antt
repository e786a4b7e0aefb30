-- ===== src/Hostnames/Again.antt =====
-- Which addresses a sweep asks, and that it need not ask again. internal/hostnames/hostnames.go
use agentic_stats.Prelude.{
  ℕ, ◌<◌, ◌≡◌, refl, sym, ap, subst, ◌∙◌, Bool, true, false, not, ◌&&◌, ◌||◌, inl, inr, none, some,
  List, [], ◌∷◌, arith, String, str_eq, str_eq_refl, eq_iff, if◌then◌else◌, any, Bool-cases,
  Option-cases,
}
use agentic_stats.Hostnames.{
  Hostname, Names, hostname_at, save_hostname, Resolver, address, is_fresh, due_loop, all_addrs,
  due, name_from, resolve_one, resolve_all, sweep,
}

-- Whether an address of a peer is this one.
unfoldable pub is_at : Resolver → String → String → Bool
is_at r ip addr = elim (address r addr) [ none ↦ false | some host ↦ str_eq ip host ]

abbrev pub OnceEach : List String → Type 0
OnceEach [] = Unit
OnceEach (ip ∷ ips) = (any (str_eq ip) ips ≡ false) × OnceEach ips

due_loop_has :
    (r : Resolver) (known : Names) (now : ℕ) (ip : String) (seen addrs : List String)
    → any (str_eq ip) (due_loop r known now seen addrs) ≡ (
        not (any (str_eq ip) seen)
        && (any (is_at r ip) addrs && not (is_fresh r (hostname_at known ip) now)))
unfolding due_loop is_at
due_loop_has r known now ip seen [] = ground arith
due_loop_has r known now ip seen (addr ∷ addrs) = elim (Option-cases (address r addr)) [
  | inl e ↦ rw (due_loop, is_at, e) (due_loop_has r known now ip seen addrs)
  | inr (x, e) ↦ elim (Bool-cases (any (str_eq x) seen)) [
    | inl s ↦
        let rest = due_loop_has r known now ip seen addrs in
        let same = held_seen ip x seen s in rw (due_loop, is_at, e, s) (ground (arith, rest, same))
    | inr s ↦
        let rest = due_loop_has r known now ip (x ∷ seen) addrs in
        let same = fresh_same r known now ip x in
        let apart = apart_seen ip x seen s in
        elim (Bool-cases (is_fresh r (hostname_at known x) now)) [
          | inl f ↦ rw (due_loop, is_at, e, s, f) (ground (arith, rest, same, apart, f))
          | inr f ↦ rw (due_loop, is_at, e, s, f) (ground (arith, rest, same, apart, f))
        ]
  ]
]
  where
    held_seen :
        (ip x : String) (seen : List String)
        → any (str_eq x) seen ≡ true
        → str_eq ip x ≡ true
        → any (str_eq ip) seen ≡ true
    held_seen ip x seen s q = subst (λ y. any (str_eq y) seen ≡ true) (sym ((eq_iff ip x).0 q)) s

    apart_seen :
        (ip x : String) (seen : List String)
        → any (str_eq x) seen ≡ false
        → str_eq ip x ≡ true
        → any (str_eq ip) seen ≡ false
    apart_seen ip x seen s q = subst (λ y. any (str_eq y) seen ≡ false) (sym ((eq_iff ip x).0 q)) s

    fresh_same :
        (r : Resolver) (known : Names) (now : ℕ) (ip x : String)
        → str_eq ip x ≡ true
        → is_fresh r (hostname_at known ip) now ≡ is_fresh r (hostname_at known x) now
    fresh_same r known now ip x q =
        ap (λ y. is_fresh r (hostname_at known y) now) ((eq_iff ip x).0 q)

due_loop-OnceEach :
    (r : Resolver) (known : Names) (now : ℕ) (seen addrs : List String)
    → OnceEach (due_loop r known now seen addrs)
unfolding due_loop
due_loop-OnceEach r known now seen [] = tt
due_loop-OnceEach r known now seen (addr ∷ addrs) = elim (Option-cases (address r addr)) [
  | inl e ↦ rw (due_loop, e) (due_loop-OnceEach r known now seen addrs)
  | inr (x, e) ↦ elim (Bool-cases (any (str_eq x) seen)) [
    | inl s ↦ rw (due_loop, e, s) (due_loop-OnceEach r known now seen addrs)
    | inr s ↦
        let rest = due_loop-OnceEach r known now (x ∷ seen) addrs in
        let once : any (str_eq x) (due_loop r known now (x ∷ seen) addrs) ≡ false =
          ground (arith, due_loop_has r known now x (x ∷ seen) addrs, str_eq_refl x) in
        elim (Bool-cases (is_fresh r (hostname_at known x) now)) [
          | inl f ↦ rw (due_loop, e, s, f) rest
          | inr f ↦ rw (due_loop, e, s, f) (once, rest)
        ]
  ]
]

hostname_at-save_hostname :
    (ip other : String) (h : Hostname) (names : Names)
    → hostname_at (save_hostname ip h names) other
      ≡ (if str_eq ip other then h else hostname_at names other)
unfolding hostname_at save_hostname
hostname_at-save_hostname ip other h [] = refl
hostname_at-save_hostname ip other h (e ∷ names) = elim (Bool-cases (str_eq (e.0) ip)) [
  | inl q ↦
      rw (q, (eq_iff (e.0) ip).0 q)
        (elim (Bool-cases (str_eq ip other)) [ inl z ↦ rw z refl | inr z ↦ rw z refl ])
  | inr q ↦ elim (Bool-cases (str_eq (e.0) other)) [
    | inl z ↦
        let apart : str_eq ip other ≡ false =
          ground (arith, q, z, eq_iff (e.0) other, eq_iff ip other, eq_iff (e.0) ip) in
        rw (q, hostname_at, z, apart) refl
    | inr z ↦ rw (q, hostname_at, z) (hostname_at-save_hostname ip other h names)
  ]
]

-- What is kept of a lookup.
abbrev pub kept_answer : Resolver → String → String → Hostname
kept_answer r stamp ip = record { name = name_from r (r.lookup ip); resolved_at = stamp }

hostname_at-resolve_all :
    (r : Resolver) (stamp ip : String) (ips : List String) (names : Names)
    → ((x : String) → r.fails x ≡ false)
    → (hostname_at (resolve_all r stamp ips names).0 ip
        ≡ (if any (str_eq ip) ips then kept_answer r stamp ip else hostname_at names ip))
      × ((resolve_all r stamp ips names).1 ≡ [])
unfolding resolve_all resolve_one
hostname_at-resolve_all r stamp ip [] names f = (refl, refl)
hostname_at-resolve_all r stamp ip (x ∷ ips) names f =
    let rest =
      hostname_at-resolve_all r stamp ip ips (save_hostname x (kept_answer r stamp x) names) f in
    let kept = kept_value in rw (resolve_all, resolve_one, f x) (rest.0 ∙ kept, rest.1)
  where
    kept_value :
        (if any (str_eq ip) ips
          then kept_answer r stamp ip
          else hostname_at (save_hostname x (kept_answer r stamp x) names) ip)
        ≡ (if (str_eq ip x || any (str_eq ip) ips)
            then kept_answer r stamp ip
            else hostname_at names ip)
    kept_value = elim (Bool-cases (any (str_eq ip) ips)) [
      | inl m ↦ elim (Bool-cases (str_eq ip x)) [ inl e ↦ rw (m, e) refl | inr e ↦ rw (m, e) refl ]
      | inr m ↦ elim (Bool-cases (str_eq ip x)) [
        | inl e ↦
            rw
              (
                m,
                e,
                hostname_at-save_hostname x ip (kept_answer r stamp x) names,
                (eq_iff ip x).0 e,
                str_eq_refl x,
              )
              refl
        | inr e ↦
            let apart : str_eq x ip ≡ false = ground (arith, e, eq_iff ip x, eq_iff x ip) in
            rw (m, e, hostname_at-save_hostname x ip (kept_answer r stamp x) names, apart) refl
      ]
    ]

-- What is kept now is fresh.
kept_answer-is_fresh :
    (r : Resolver) (stamp ip : String) (now : ℕ)
    → str_eq stamp "" ≡ false
    → r.time_of stamp ≡ some now
    → 0 < r.ttl
    → 0 < r.miss_ttl
    → is_fresh r (kept_answer r stamp ip) now ≡ true
unfolding is_fresh
kept_answer-is_fresh r stamp ip now s t p q = rw (s, is_fresh, t) (ground (arith, p, q))

-- A table in which everything that was due is fresh, and the rest as before, has nothing due.
due_loop_nothing :
    (r : Resolver) (known later : Names) (now : ℕ) (asked seen addrs : List String)
    → ((ip : String) → any (str_eq ip) asked ≡ true → is_fresh r (hostname_at later ip) now ≡ true)
    → ((ip : String)
        → is_fresh r (hostname_at known ip) now ≡ true
        → is_fresh r (hostname_at later ip) now ≡ true)
    → ((ip : String)
        → any (str_eq ip) (due_loop r known now seen addrs) ≡ true
        → any (str_eq ip) asked ≡ true)
    → due_loop r later now seen addrs ≡ []
unfolding due_loop
due_loop_nothing r known later now asked seen [] f g h = refl
due_loop_nothing r known later now asked seen (addr ∷ addrs) f g h =
    elim (Option-cases (address r addr)) [
      | inl e ↦
          rw (due_loop, e)
            (due_loop_nothing r known later now asked seen addrs f g
              (λ ip. rw (due_loop, e) at (h ip)))
      | inr (x, e) ↦ elim (Bool-cases (any (str_eq x) seen)) [
        | inl s ↦
            rw (due_loop, e, s)
              (due_loop_nothing r known later now asked seen addrs f g
                (λ ip. rw (due_loop, e, s) at (h ip)))
        | inr s ↦ elim (Bool-cases (is_fresh r (hostname_at known x) now)) [
          | inl k ↦
              rw (due_loop, e, s, g x k)
                (due_loop_nothing r known later now asked (x ∷ seen) addrs f g
                  (λ ip. rw (due_loop, e, s, k) at (h ip)))
          | inr k ↦
              let own = f x ((rw (due_loop, e, s, k) at (h x)) (ground (arith, str_eq_refl x))) in
              rw (due_loop, e, s, own)
                (due_loop_nothing r known later now asked (x ∷ seen) addrs f g
                  (λ ip m. (rw (due_loop, e, s, k) at (h ip)) (ground (arith, m))))
        ]
      ]
    ]

-- A sweep asks every address of a peer whose name is not fresh, once, and no other; and where no
-- write fails, it reports none, and with what it writes a sweep at the same time has nothing to
-- ask. The written time reads back, and both lifetimes are above 0.
pub sweep_again :
    (r : Resolver) (stamp : String) (now : ℕ) (peers : List (List String)) (names : Names)
    → str_eq stamp "" ≡ false
    → r.time_of stamp ≡ some now
    → 0 < r.ttl
    → 0 < r.miss_ttl
    → ((ip : String) → r.fails ip ≡ false)
    → ((ip : String)
        → any (str_eq ip) (due r names now peers)
          ≡ (any (is_at r ip) (all_addrs peers) && not (is_fresh r (hostname_at names ip) now)))
      × OnceEach (due r names now peers)
      × ((sweep r stamp now peers names).1 ≡ [])
      × (due r (sweep r stamp now peers names).0 now peers ≡ [])
unfolding due sweep
sweep_again r stamp now peers names s t p q f =
    let asked = due_loop r names now [] (all_addrs peers) in
    let swept = (resolve_all r stamp asked names).0 in
    let value : (ip : String)
        → hostname_at swept ip
          ≡ (if any (str_eq ip) asked then kept_answer r stamp ip else hostname_at names ip) =
      (λ ip. (hostname_at-resolve_all r stamp ip asked names f).0) in
    (
      (λ ip. due_loop_has r names now ip [] (all_addrs peers)),
      due_loop-OnceEach r names now [] (all_addrs peers),
      (hostname_at-resolve_all r stamp "" asked names f).1,
      due_loop_nothing r names swept now asked [] (all_addrs peers)
          (λ ip m. rw (value ip, m) (kept_answer-is_fresh r stamp ip now s t p q))
          (λ ip k. elim (Bool-cases (any (str_eq ip) asked)) [
            | inl m ↦ rw (value ip, m) (kept_answer-is_fresh r stamp ip now s t p q)
            | inr m ↦ rw (value ip, m) k
          ])
          (λ ip m. m),
    )
