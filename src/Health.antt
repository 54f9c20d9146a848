-- ===== src/Health.antt =====
-- `Checker` of internal/health/health.go. The mutex is held for the whole of each method, so a method
-- is one step. What a probe or Healthy() says of an upstream, and what the status store holds, are
-- functions of the upstream's name; metrics and log lines are left out.
pub mod Verdicts
mod Tests
use stile.Prelude.{
  ℕ, ◌+◌, String, Bool, true, false, not, ◌&&◌, ◌||◌, Option, none, some, List, [], ◌∷◌, ◌++◌,
  str_eq, leb, if◌then◌else◌, is_some, any,
}
use stile.Prelude.Dict
use stile.Prelude.Dict.{Dict, no_bindings, binding}

-- `local` of a stdio upstream
pub record UpstreamInfo : Type 0 where
  pub name : String
  pub is_local : Bool

-- the two maps of the checker
pub record Beliefs : Type 0 where
  pub health : Dict Bool
  pub consecutive_fails : Dict ℕ

pub record Checker : Type 0 where
  pub upstreams : List UpstreamInfo
  pub beliefs : Beliefs
  pub discovery_done : Bool
  pub fail_threshold : ℕ
  pub has_store : Bool
  pub read_from_store : Bool
  pub missing_status : Bool

-- `alive` is the probe or Healthy(), `stored` the store's Get, with none for its errors.
pub record Seen : Type 0 where
  pub alive : String → Bool
  pub stored : String → Option Bool

-- reading a map of Go gives the zero value where the key is missing
abbrev pub healthy_of : Option Bool → Bool
healthy_of none = false
healthy_of (some h) = h

abbrev pub fails_of : Option ℕ → ℕ
fails_of none = 0
fails_of (some n) = n

abbrev pub or_missing : Bool → Option Bool → Bool
or_missing missing none = missing
or_missing missing (some h) = h

unfoldable pub uses_store : Checker → UpstreamInfo → Bool
uses_store c u = not u.is_local && (c.has_store && c.read_from_store)

-- one in-process check of an upstream
unfoldable pub judge_alive : ℕ → String → Bool → Beliefs → Beliefs
judge_alive threshold name true b = record {
  health = Dict.put b.health name true;
  consecutive_fails = Dict.put b.consecutive_fails name 0;
}
judge_alive threshold name false b =
    let fails = fails_of (Dict.get b.consecutive_fails name) + 1 in
    record {
      health = if leb threshold fails then Dict.put b.health name false else b.health;
      consecutive_fails = Dict.put b.consecutive_fails name fails;
    }

unfoldable pub judge : Checker → Seen → UpstreamInfo → Beliefs → Beliefs
unfolding uses_store judge_alive
judge c seen u b =
    if uses_store c u
    then record b {
      health = Dict.put b.health u.name (or_missing c.missing_status (seen.stored u.name));
    }
    else judge_alive c.fail_threshold u.name (seen.alive u.name) b

-- what is written to the store for an upstream, once it is judged
written : Checker → UpstreamInfo → Beliefs → List (String × Bool)
unfolding uses_store
written c u b =
    if not (uses_store c u) && (not u.is_local && c.has_store)
    then (u.name, healthy_of (Dict.get b.health u.name)) ∷ []
    else []

unfoldable pub judge_all :
    Checker → Seen → List UpstreamInfo → Beliefs → Beliefs × List (String × Bool)
unfolding judge written
judge_all c seen [] b = (b, [])
judge_all c seen (u ∷ us) b =
    let b' = judge c seen u b in
    let rest = judge_all c seen us b' in (rest.0, written c u b' ++ rest.1)

-- check, with what it writes to the store
unfoldable pub check : Seen → Checker → Checker × List (String × Bool)
unfolding judge_all
check seen c =
    let done = judge_all c seen c.upstreams c.beliefs in (record c { beliefs = done.0 }, done.1)

-- NewChecker without options; `alive` is Healthy()
start_all : (String → Bool) → List UpstreamInfo → Beliefs → Beliefs
start_all alive [] b = b
start_all alive (u ∷ us) b = start_all alive us (record {
  health = Dict.put b.health u.name (alive u.name);
  consecutive_fails = Dict.put b.consecutive_fails u.name 0;
})

unfoldable pub new_checker : (String → Bool) → List UpstreamInfo → Checker
unfolding start_all Dict.empty
new_checker alive upstreams = record {
  upstreams = upstreams;
  beliefs =
      start_all alive upstreams (record { health = Dict.empty; consecutive_fails = Dict.empty });
  discovery_done = true;
  fail_threshold = 3;
  has_store = false;
  read_from_store = false;
  missing_status = true;
}

-- the upstreams that are new get the state of Healthy()
unfoldable pub add_new : (String → Bool) → List UpstreamInfo → Beliefs → Beliefs
add_new alive [] b = b
add_new alive (u ∷ us) b = add_new alive us (
    if is_some (Dict.get b.health u.name) then b else record {
      health = Dict.put b.health u.name (alive u.name);
      consecutive_fails = Dict.put b.consecutive_fails u.name 0;
    })

is_named : List UpstreamInfo → String → Bool
is_named us name = any (λ (u : UpstreamInfo). str_eq u.name name) us

-- the loop over a copy of the keys, which deletes those that are gone
prune : List UpstreamInfo → Dict Bool → Beliefs → Beliefs
unfolding is_named
prune us no_bindings b = b
prune us (binding name h older) b = prune us older (
    if is_named us name then b else record {
      health = Dict.remove b.health name;
      consecutive_fails = Dict.remove b.consecutive_fails name;
    })

unfoldable pub update_upstreams : (String → Bool) → List UpstreamInfo → Checker → Checker
unfolding add_new prune
update_upstreams alive us c =
    let grown = add_new alive us c.beliefs in
    record c { upstreams = us; beliefs = prune us grown.health grown }

unfoldable pub mark_discovery_done : Checker → Checker
mark_discovery_done c = record c { discovery_done = true }

unfoldable pub is_ready : Checker → Bool
is_ready c = c.discovery_done && any (λ h. h) (Dict.values c.beliefs.health)
