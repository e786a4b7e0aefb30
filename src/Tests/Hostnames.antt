-- ===== src/Tests/Hostnames.antt =====
-- internal/hostnames/hostnames.go
use agentic_stats.Prelude.{
  ◌≡◌, refl, false, not, ◌&&◌, none, some, List, [], ◌∷◌, String, str_eq, arith, any, if◌then◌else◌,
}
use agentic_stats.Hostnames.{Names, Resolver, hostname_at, is_fresh, all_addrs, due, sweep}
use agentic_stats.Hostnames.Again.{is_at, OnceEach, sweep_again}

abbrev resolver : Resolver
resolver = record {
  split_host_port = λ s. if str_eq s "10.0.0.1:9" then some "10.0.0.1" else none;
  is_ip = λ s. not (str_eq s "laptop");
  time_of = λ s. some 100;
  trim_dot = λ s. s;
  lookup = λ s. some ("laptop.lan" ∷ []);
  fails = λ s. false;
  ttl = 10;
  miss_ttl = 5;
}

abbrev peers : List (List String)
peers = ("10.0.0.1:9" ∷ "laptop" ∷ []) ∷ ("10.0.0.1" ∷ "10.0.0.2" ∷ []) ∷ []

abbrev known : Names
known = ("10.0.0.2", record { name = "desk"; resolved_at = "95" }) ∷ []

sweep_again_example :
    ((ip : String)
      → any (str_eq ip) (due resolver known 100 peers) ≡ (
          any (is_at resolver ip) (all_addrs peers)
          && not (is_fresh resolver (hostname_at known ip) 100)))
    × OnceEach (due resolver known 100 peers)
    × ((sweep resolver "100" 100 peers known).1 ≡ [])
    × (due resolver (sweep resolver "100" 100 peers known).0 100 peers ≡ [])
sweep_again_example =
    sweep_again resolver "100" 100 peers known refl refl (omega arith) (omega arith) (λ ip. refl)
