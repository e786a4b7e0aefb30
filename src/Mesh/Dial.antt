-- ===== src/Mesh/Dial.antt =====
-- Dialling the known peers, and what wakes the dial loop. internal/mesh/mesh.go
pub mod Backoff
pub mod Sighting
use agentic_stats.Prelude.{
  ℕ, suc, ◌+◌, ◌-◌, ◌*◌, Bool, true, false, not, Option, none, some, List, [], ◌∷◌, ◌++◌, String,
  str_eq, if◌then◌else◌, ltb, min, any,
}

-- Durations and clock readings are nanoseconds.
abbrev pub dial_interval : ℕ
dial_interval = 60000000000

abbrev pub max_backoff : ℕ
max_backoff = 900000000000

-- The map from an address to the time until which it is left alone: one entry for each address.
abbrev pub Backoff : Type 0
Backoff = List (String × ℕ)

unfoldable pub until_of : Backoff → String → Option ℕ
until_of [] addr = none
until_of (e ∷ b) addr = if str_eq (e.0) addr then some (e.1) else until_of b addr

unfoldable pub clear_backoff : String → Backoff → Backoff
clear_backoff addr [] = []
clear_backoff addr (e ∷ b) =
    let rest = clear_backoff addr b in if str_eq (e.0) addr then rest else e ∷ rest

unfoldable pub expires_after : ℕ → Option ℕ → Bool
expires_after now none = false
expires_after now (some until) = ltb now until

unfoldable pub in_backoff : ℕ → String → Backoff → Bool
in_backoff now addr b = expires_after now (until_of b addr)

-- The wait before its jitter: twice what is left of the last one, where anything is.
unfoldable pub wait_after : ℕ → Option ℕ → ℕ
wait_after now none = min dial_interval max_backoff
wait_after now (some until) =
    if ltb now until then min ((until - now) * 2) max_backoff else min dial_interval max_backoff

-- What the code meets at one address: the clock at the check of the backoff, whether the dial
-- succeeds, the clock in time.Until and in time.Now of penalize, and what rand.Int64N gave.
pub record Attempt : Type 0 where
  pub checked : ℕ
  pub connects : Bool
  pub asked : ℕ
  pub set : ℕ
  pub jitter : ℕ

unfoldable pub penalize : Attempt → String → Backoff → Backoff
penalize a addr b =
    (addr, a.set + (wait_after a.asked (until_of b addr) + a.jitter)) ∷ clear_backoff addr b

-- store.Peer, as far as the sweep reads it.
pub record Target : Type 0 where
  pub id : String
  pub addrs : List String

-- What is observed of the dialling: an address that is looked at is dialled or passed over, each
-- with the number of its attempt, or the machine woke. The code keeps no such log.
pub data Observed : Type 0 where
  dialled passed : String → ℕ → Observed
  resumed : Observed

-- How many addresses were looked at, the table, and what was observed, the last first.
pub record Sweeping : Type 0 where
  pub looked : ℕ
  pub backoff : Backoff
  pub log : List Observed

-- An address was looked at.
unfoldable pub noted : (String → ℕ → Observed) → String → Sweeping → Sweeping
noted how addr s = record s { looked = suc s.looked; log = how addr s.looked ∷ s.log }

-- One dial of an address that is not left alone.
unfoldable pub dial_and_sync : Attempt → String → Sweeping → Sweeping
dial_and_sync a addr s = record s {
  backoff = if a.connects then clear_backoff addr s.backoff else penalize a addr s.backoff;
}

-- The loop over one peer's addresses; `env i` is what the i-th address looked at meets.
unfoldable pub sweep_addrs : (ℕ → Attempt) → List String → Sweeping → Sweeping
sweep_addrs env [] s = s
sweep_addrs env (addr ∷ addrs) s =
    let a = env s.looked in
    elim (in_backoff a.checked addr s.backoff) [
      | true ↦ sweep_addrs env addrs (noted passed addr s)
      | false ↦ elim a.connects [
        | true ↦ dial_and_sync a addr (noted dialled addr s)
        | false ↦ sweep_addrs env addrs (dial_and_sync a addr (noted dialled addr s))
      ]
    ]

unfoldable pub sweep : (ℕ → Attempt) → String → List Target → Sweeping → Sweeping
sweep env node_id [] s = s
sweep env node_id (p ∷ peers) s =
    sweep env node_id peers (if str_eq p.id node_id then s else sweep_addrs env p.addrs s)

-- What happens to the dialling of a node: a sweep over the peers on record, a resume, or a peer
-- seen by the beacon, with whether it could be saved.
pub data Event : Type 0 where
  swept : List Target → Event
  woke : Event
  seen : String → Bool → Event

-- The sighted ids, the pending wake-up of the buffered channel, and the dialling.
pub record Node : Type 0 where
  pub sighted : List String
  pub wake_pending : Bool
  pub dialling : Sweeping

abbrev pub new_node : Node
new_node = record {
  sighted = [];
  wake_pending = false;
  dialling = record { looked = 0; backoff = []; log = [] };
}

unfoldable pub nudge : Node → Node
nudge n = record n { wake_pending = true }

-- Wake: the backoff goes, and the loop is asked to sweep.
unfoldable pub wake : Node → Node
wake n = nudge (record n { dialling = record (n.dialling) { backoff = [] } })

unfoldable pub first_sighting : String → Node → Bool
first_sighting id n = not (any (str_eq id) n.sighted)

unfoldable pub discovered : String → Bool → Node → Node
discovered id saved n =
    if not saved
    then n
    else if first_sighting id n
    then nudge (record n { sighted = id ∷ n.sighted })
    else n

-- The dial loop takes the wake-up that is pending and sweeps.
unfoldable pub step : (ℕ → Attempt) → String → Event → Node → Node
step env node_id (swept peers) n = record n {
  wake_pending = false;
  dialling = sweep env node_id peers n.dialling;
}
step env node_id woke n =
    wake (record n { dialling = record (n.dialling) { log = resumed ∷ n.dialling.log } })
step env node_id (seen id saved) n = discovered id saved n

unfoldable pub run : (ℕ → Attempt) → String → List Event → Node → Node
run env node_id [] n = n
run env node_id (e ∷ es) n = run env node_id es (step env node_id e n)
