-- ===== src/Hostnames.antt =====
-- The names of peers' addresses, and which are asked again. internal/hostnames/hostnames.go,
-- Hostnames and SaveHostname of internal/store/records.go
pub mod Again
use agentic_stats.Prelude.{
  ℕ, ◌+◌, Bool, true, false, not, ◌&&◌, Option, none, some, List, [], ◌∷◌, ◌++◌, String, str_eq,
  ltb, if◌then◌else◌, any,
}

pub record Hostname : Type 0 where
  pub name : String
  pub resolved_at : String

abbrev pub Names : Type 0
Names = List (String × Hostname)

abbrev pub no_hostname : Hostname
no_hostname = record { name = ""; resolved_at = "" }

-- `known[ip]`
unfoldable pub hostname_at : Names → String → Hostname
hostname_at [] ip = no_hostname
hostname_at (e ∷ names) ip =
    let rest = hostname_at names ip in if str_eq (e.0) ip then e.1 else rest

-- INSERT … ON CONFLICT (ip) DO UPDATE
unfoldable pub save_hostname : String → Hostname → Names → Names
save_hostname ip h [] = (ip, h) ∷ []
save_hostname ip h (e ∷ names) =
    let rest = save_hostname ip h names in if str_eq (e.0) ip then (ip, h) ∷ names else e ∷ rest

-- net.SplitHostPort (the host, none for an error), whether net.ParseIP reads a text, time.Parse as
-- nanoseconds, strings.TrimSuffix of a dot, the lookup (none for an error), and which writes fail.
pub record Resolver : Type 0 where
  pub split_host_port : String → Option String
  pub is_ip : String → Bool
  pub time_of : String → Option ℕ
  pub trim_dot : String → String
  pub lookup : String → Option (List String)
  pub fails : String → Bool
  pub ttl : ℕ
  pub miss_ttl : ℕ

unfoldable pub address_of_host : Resolver → String → Option String
address_of_host r host = if not (str_eq host "") && r.is_ip host then some host else none

unfoldable pub address : Resolver → String → Option String
address r addr = elim (r.split_host_port addr) [
  | none ↦ address_of_host r addr
  | some host ↦ address_of_host r host
]

unfoldable pub is_fresh : Resolver → Hostname → ℕ → Bool
is_fresh r h now = if str_eq h.resolved_at "" then false else elim (r.time_of h.resolved_at) [
  | none ↦ false
  | some at ↦ ltb now (at + (if str_eq h.name "" then r.miss_ttl else r.ttl))
]

-- The loops over the addresses of all peers, with those already seen.
unfoldable pub due_loop : Resolver → Names → ℕ → List String → List String → List String
due_loop r known now seen [] = []
due_loop r known now seen (addr ∷ addrs) = elim (address r addr) [
  | none ↦ due_loop r known now seen addrs
  | some ip ↦ elim (any (str_eq ip) seen) [
    | true ↦ due_loop r known now seen addrs
    | false ↦
        let rest = due_loop r known now (ip ∷ seen) addrs in
        if is_fresh r (hostname_at known ip) now then rest else ip ∷ rest
  ]
]

unfoldable pub all_addrs : List (List String) → List String
all_addrs [] = []
all_addrs (p ∷ peers) = p ++ all_addrs peers

unfoldable pub due : Resolver → Names → ℕ → List (List String) → List String
due r known now peers = due_loop r known now [] (all_addrs peers)

unfoldable pub name_from : Resolver → Option (List String) → String
name_from r none = ""
name_from r (some []) = ""
name_from r (some (name ∷ names)) = r.trim_dot name

-- One address: the table after it, and whether the write failed.
unfoldable pub resolve_one : Resolver → String → String → Names → Names × Bool
resolve_one r stamp ip names = if r.fails ip then (names, true) else (
  save_hostname ip (record { name = name_from r (r.lookup ip); resolved_at = stamp }) names,
  false,
)

-- The addresses one after another; those whose write failed are the errors.
unfoldable pub resolve_all : Resolver → String → List String → Names → Names × List String
resolve_all r stamp [] names = (names, [])
resolve_all r stamp (ip ∷ ips) names =
    let (after, failed) = resolve_one r stamp ip names in
    let (last, errors) = resolve_all r stamp ips after in
    (last, if failed then ip ∷ errors else errors)

unfoldable pub sweep : Resolver → String → ℕ → List (List String) → Names → Names × List String
sweep r stamp now peers names = resolve_all r stamp (due r names now peers) names
