-- ===== src/Engine/Cache.antt =====
-- rustmatch/src/engine.rs: the deterministic cache of `scan_without_assertions_cached`. A state of
-- the cache is a set of states of the automaton, sorted; its transitions are filled in when they
-- are first taken, and a transition that finds the cache full falls back to the automaton.
use Prim.Native.Nat.{bit_xor}
use rustmatch.Prelude.{
  ℕ, zero, suc, ◌+◌, ◌*◌, ◌/◌, ◌%◌, ◌^◌, Bool, false, ◌||◌, Option, none, some, List, [], ◌∷◌, ◌++◌,
  replicate, get_or, get_elem?, set, same_naturals, ltb, leb, ◌==◌, if◌then◌else◌, length,
}
use rustmatch.Context.{Cursor}
use rustmatch.Nfa.Database.{PatternDatabase, terminals_at}
use rustmatch.Engine.Closure.{follows_epsilon}
use rustmatch.Engine.Scan.{sort_ordinals, blank, extend, fire_states}

-- `UNKNOWN_TRANSITION`, `DEAD_TRANSITION` and `FALLBACK_TRANSITION`.
abbrev pub unknown_transition : ℕ
unknown_transition = 4294967295

abbrev pub dead_transition : ℕ
dead_transition = 4294967294

abbrev pub fallback_transition : ℕ
fallback_transition = 4294967293

pub record DeterministicState : Type 0 where
  pub nfa_states : List ℕ
  pub terminals : List ℕ
  pub ascii_transitions : List ℕ
  pub non_ascii_transitions : List (ℕ × ℕ)

pub record DeterministicCache : Type 0 where
  pub budget : ℕ
  pub states : List DeterministicState
  pub hash_buckets : List (ℕ × List ℕ)

-- The counters of `ScanStats` that the cache changes.
pub record Counters : Type 0 where
  pub cache_hits : ℕ
  pub cache_misses : ℕ
  pub fallback_transitions : ℕ

pub data TransitionOutcome : Type 0 where
  dead : TransitionOutcome
  cached : ℕ → TransitionOutcome
  uncached : TransitionOutcome

pub data ScanCursor : Type 0 where
  cached : ℕ → ScanCursor
  uncached : ScanCursor

-- `find_map` over the pairs of a unit and a transition.
unfoldable pub find_transition : List (ℕ × ℕ) → ℕ → ℕ
find_transition [] symbol = unknown_transition
find_transition ((candidate, transition) ∷ rest) symbol =
    if candidate == symbol then transition else find_transition rest symbol

-- `DeterministicState::transition`; an ASCII unit is in range.
unfoldable pub stored_transition : DeterministicState → ℕ → ℕ
unfolding find_transition
stored_transition d symbol =
    if ltb symbol 128
    then get_or d.ascii_transitions symbol unknown_transition
    else find_transition d.non_ascii_transitions symbol

unfoldable pub set_transition : DeterministicState → ℕ → ℕ → DeterministicState
set_transition d symbol transition =
    if ltb symbol 128
    then record d { ascii_transitions = set d.ascii_transitions symbol transition }
    else record d { non_ascii_transitions = d.non_ascii_transitions ++ (symbol, transition) ∷ [] }

unfoldable pub set_state : List DeterministicState → ℕ → ℕ → ℕ → List DeterministicState
unfolding set_transition
set_state [] state symbol transition = []
set_state (d ∷ ds) zero symbol transition = set_transition d symbol transition ∷ ds
set_state (d ∷ ds) (suc state) symbol transition = d ∷ set_state ds state symbol transition

-- `state_set_hash`: FNV over the eight bytes of each index, in 64 bits.
hash_bytes : ℕ → ℕ → ℕ → ℕ
hash_bytes zero index hash = hash
hash_bytes (suc n) index hash =
    hash_bytes n (index / 256) ((bit_xor hash (index % 256) * 0x100000001b3) % 2 ^ 64)

hash_from : List ℕ → ℕ → ℕ
unfolding hash_bytes
hash_from [] hash = hash
hash_from (state ∷ states) hash = hash_from states (hash_bytes 8 state hash)

pub state_set_hash : List ℕ → ℕ
unfolding hash_from
state_set_hash states = hash_from states 0xcbf29ce484222325

unfoldable pub bucket : ℕ → List (ℕ × List ℕ) → List ℕ
bucket hash [] = []
bucket hash ((h, candidates) ∷ rest) = if h == hash then candidates else bucket hash rest

-- `entry(hash).or_default().push(state)`.
pub push_bucket : ℕ → ℕ → List (ℕ × List ℕ) → List (ℕ × List ℕ)
push_bucket hash state [] = (hash, state ∷ []) ∷ []
push_bucket hash state ((h, candidates) ∷ rest) =
    if h == hash
    then (h, candidates ++ state ∷ []) ∷ rest
    else (h, candidates) ∷ push_bucket hash state rest

unfoldable pub holds_states : Option DeterministicState → List ℕ → Bool
unfolding same_naturals
holds_states none nfa_states = false
holds_states (some d) nfa_states = same_naturals d.nfa_states nfa_states

unfoldable pub find_candidate : List DeterministicState → List ℕ → List ℕ → Option ℕ
unfolding holds_states
find_candidate states nfa_states [] = none
find_candidate states nfa_states (c ∷ cs) =
    if holds_states (get_elem? states c) nfa_states
    then some c
    else find_candidate states nfa_states cs

unfoldable pub lookup : DeterministicCache → List ℕ → Option ℕ
unfolding find_candidate bucket state_set_hash
lookup cache nfa_states =
    find_candidate cache.states nfa_states (bucket (state_set_hash nfa_states) cache.hash_buckets)

-- Where the closure follows no assertion the cursor is not read.
abbrev pub anywhere : Cursor
anywhere = record { position = 0; after_current = false }

module _ (db : PatternDatabase) where
  unfoldable pub terminals_of : List ℕ → List ℕ
  terminals_of [] = []
  terminals_of (q ∷ qs) = terminals_at db q ++ terminals_of qs

  unfoldable pub new_state : List ℕ → DeterministicState
  unfolding terminals_of
  new_state nfa_states = record {
    nfa_states = nfa_states;
    terminals = terminals_of nfa_states;
    ascii_transitions = replicate 128 unknown_transition;
    non_ascii_transitions = [];
  }

  unfoldable pub add_new : DeterministicCache → List ℕ → Option ℕ × DeterministicCache
  unfolding new_state push_bucket state_set_hash
  add_new cache nfa_states =
      if leb cache.budget (length cache.states) || leb fallback_transition (length cache.states)
      then (none, cache)
      else (
        some (length cache.states),
        record cache {
          states = cache.states ++ new_state nfa_states ∷ [];
          hash_buckets =
              push_bucket (state_set_hash nfa_states) (length cache.states) cache.hash_buckets;
        },
      )

  unfoldable pub intern : DeterministicCache → List ℕ → Option ℕ × DeterministicCache
  unfolding lookup add_new
  intern cache nfa_states = elim (lookup cache nfa_states) [
    | some state ↦ (some state, cache)
    | none ↦ add_new cache nfa_states
  ]

  unfoldable pub compute_transition : List ℕ → ℕ → List ℕ
  compute_transition source symbol =
      sort_ordinals (fire_states db (λ s. follows_epsilon) anywhere symbol source (blank db)).output

  unfoldable pub root_states : List ℕ
  root_states = sort_ordinals (extend db (λ s. follows_epsilon) anywhere db.root (blank db)).output

  -- `DeterministicCache::new`; the root is interned as state 0.
  unfoldable pub new_cache : ℕ → DeterministicCache
  unfolding intern root_states
  new_cache budget =
      (intern (record { budget = budget; states = []; hash_buckets = [] }) root_states).1

-- What the loop over the units changes: the cache, the counters and the two lists of `Scratch`.
pub record Machine : Type 0 where
  pub cache : DeterministicCache
  pub counters : Counters
  pub active : List ℕ
  pub next : List ℕ

abbrev pub count_fallback : Counters → Counters
count_fallback c = record c { fallback_transitions = c.fallback_transitions + 1 }

-- `outcome_for`.
unfoldable pub outcome_for : ℕ → Counters → TransitionOutcome × Counters
outcome_for transition c =
    if transition == dead_transition
    then (dead, c)
    else if transition == fallback_transition
    then (TransitionOutcome.uncached, count_fallback c)
    else (TransitionOutcome.cached transition, c)
