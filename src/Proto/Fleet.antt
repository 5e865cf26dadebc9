-- ===== src/Proto/Fleet.antt =====
-- crates/nixfleet-proto/src/fleet_resolved.rs: the resolved fleet.
use nixfleet.Prelude.Display.{sort, join}
use nixfleet.Prelude.{
  append, ℕ, ◌*◌, unwrap_or, String, Bool, true, false, ◌&&◌, not, Option, none, some, List, [],
  ◌∷◌, string_eq, if◌then◌else◌, is_empty, any, all, contains,
}
use nixfleet.Prelude.HashMap.{HashMap}
use nixfleet.Proto.Identity.{Time}
use nixfleet.Proto.Policy.{Selector, RolloutPolicy, PolicyWave}

pub record Pin : Type 0 where
  pub commit : String
  pub reason : String
  pub expires_at : Option Time

pub record Host : Type 0 where
  pub system : String
  pub tags : List String
  pub channel : String
  pub closure_hash : Option String
  pub pubkey : Option String
  pub pin : Option Pin

pub record Channel : Type 0 where
  pub rollout_policy : String
  pub reconcile_interval_minutes : ℕ
  pub freshness_window : ℕ
  pub signing_interval_minutes : ℕ

pub record Wave : Type 0 where
  pub hosts : List String
  pub soak_minutes : ℕ

-- `gated` is dispatched only once `gates` is done.
pub record Edge : Type 0 where
  pub gated : String
  pub gates : String
  pub reason : Option String

pub record ChannelEdge : Type 0 where
  pub gates : String
  pub gated : String
  pub reason : Option String

pub record DisruptionBudget : Type 0 where
  pub selector : Selector
  pub max_in_flight : Option ℕ
  pub max_in_flight_pct : Option ℕ

pub record Meta : Type 0 where
  pub schema_version : ℕ
  pub signed_at : Option Time
  pub ci_commit : Option String
  pub signature_algorithm : Option String

pub record FleetResolved : Type 0 where
  pub schema_version : ℕ
  pub hosts : HashMap String Host
  pub channels : HashMap String Channel
  pub rollout_policies : HashMap String RolloutPolicy
  pub waves : HashMap String (List Wave)
  pub edges : List Edge
  pub channel_edges : List ChannelEdge
  pub disruption_budgets : List DisruptionBudget
  pub meta : Meta

-- `Selector::matches`: the early returns, in order.
unfoldable pub matches : Selector → String → Host → Bool
unfolding contains any all
matches s host_name host =
    if s.all
    then true
    else if not (is_empty s.hosts) && any (λ h. string_eq.beq h host_name) s.hosts
    then true
    else if elim s.channel [ none ↦ false | some ch ↦ string_eq.beq host.channel ch ]
    then true
    else if not (is_empty s.tags) && all (λ t. contains host.tags t) s.tags
    then true
    else if not (is_empty s.tags_any) && any (λ t. contains host.tags t) s.tags_any
    then true
    else false

-- `Selector::resolve`: the names of the hosts that match, in the map's order.
unfoldable pub resolve : Selector → HashMap String Host → List String
unfolding matches
resolve s [] = []
resolve s ((n, h) ∷ hosts) = let rest = resolve s hosts in if matches s n h then n ∷ rest else rest

-- `Selector::summary`
unfoldable pub summary : Selector → String
unfolding sort join
summary s = if s.all then "all" else elim s.channel [
  | some channel ↦ append "channel:" channel
  | none ↦
      if not (is_empty s.tags)
      then append "tags:" (join (sort s.tags) ",")
      else if not (is_empty s.tags_any)
      then append "tags_any:" (join (sort s.tags_any) ",")
      else if not (is_empty s.hosts)
      then append "hosts:" (join (sort s.hosts) ",")
      else "unknown"
]

-- `Channel::freshness_window_duration`, in nanoseconds.
unfoldable pub freshness_window_duration : Channel → ℕ
freshness_window_duration c = c.freshness_window * 60 * 1000000000

-- `Meta::signature_algorithm_or_default`
unfoldable pub signature_algorithm_or_default : Meta → String
signature_algorithm_or_default meta = unwrap_or meta.signature_algorithm "ed25519"

abbrev pub strategy_all_at_once : String
strategy_all_at_once = "all-at-once"

-- The wave that every host is in, and that no host soaks in.
abbrev pub match_all_wave : PolicyWave
match_all_wave = record {
  selector = record { tags = []; tags_any = []; hosts = []; channel = none; all = true };
  soak_minutes = 0;
}

unfoldable pub normalize_policy : RolloutPolicy → RolloutPolicy
normalize_policy policy =
    if string_eq.beq policy.strategy strategy_all_at_once && is_empty policy.waves
    then record policy { waves = match_all_wave ∷ [] }
    else policy

-- The loop over `values_mut`.
unfoldable pub normalize_policies : HashMap String RolloutPolicy → HashMap String RolloutPolicy
unfolding normalize_policy
normalize_policies [] = []
normalize_policies ((name, policy) ∷ policies) =
    (name, normalize_policy policy) ∷ normalize_policies policies

unfoldable pub normalize_rollout_policies : FleetResolved → FleetResolved
unfolding normalize_policies
normalize_rollout_policies fleet = record fleet {
  rollout_policies = normalize_policies fleet.rollout_policies;
}
