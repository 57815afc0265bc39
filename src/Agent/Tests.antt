-- ===== src/Agent/Tests.antt =====
-- Two attaches, each of which starts a dumper thread, in several orders.
use jleaker.Common.{
  ℕ, suc, ◌≡◌, ◌≢◌, ◌⊎◌, refl, true, false, none, some, List, [], ◌∷◌, length, arith,
}
use native.Mathlib.Decide.{dec_lt}
use jleaker.Common.Int.{pos}
use jleaker.Options.{Settings, parse_agent_options}
use jleaker.Allocator.{Allocator}
use jleaker.Agent.Defs.{Loader, Agent, Pc, pc_at, dumper_step, agent_on_attach}
use jleaker.Agent.System.{attach, run, loaded, Reach, here, later}
use jleaker.Agent.Places.{inside}
use jleaker.Agent.Exclusion.{IsExclusive, Reach-IsExclusive}
use jleaker.Agent.Serial.{IsSerial, Reach-IsSerial}
use jleaker.Agent.Progress.{own_steps, dumpers_progress}
use jleaker.Agent.SelfCheck.{Reach-untracked}

abbrev loader : Loader
loader = record { Maps = ℕ; empty = 0; load = λ files maps. (true, suc maps) }

abbrev settings : Settings
settings = record {
  tcp_port = pos 0;
  size_threshold = pos 0;
  reference_chain_length = pos 0;
  max_fan_in = pos 0;
  debug = false;
  self_check = false;
  num_elements_to_dump = pos 0;
  run_gc = false;
  show_unreachables = false;
  consider_local_references = false;
}

abbrev idle : Allocator
idle = record {
  allocations = 0;
  frees = 0;
  self_check = false;
  heap = record { file = λ _. []; line = λ _. 0; prev = λ _. 0; next = λ _. 0 };
}

abbrev start : Agent loader
start = loaded settings idle

-- A state that is reached.
record Ran (from : Agent loader) : Type 0 where
  last : Agent loader
  reach : Reach from last

attached : Ran start
unfolding agent_on_attach parse_agent_options
attached = record { last = _; reach = later here (attach none refl) }

turn : {from : Agent loader} → Ran from → ℕ → Ran from
turn r i = elim (dec_lt i (length r.last.threads)) [
  | yes lt ↦ record { last = _; reach = later r.reach (run i 7 lt) }
  | no _ ↦ r
]

turns : {from : Agent loader} → Ran from → List ℕ → Ran from
unfolding turn dumper_step dec_lt
turns r [] = r
turns r (i ∷ is) = turns (turn r i) is

-- Thread 0 is in its dump when the second attach comes, and thread 1 starts.
both : Ran start
unfolding attached turns agent_on_attach parse_agent_options
both =
    let r = turns attached (0 ∷ 0 ∷ 0 ∷ []) in
    record { last = _; reach = later r.reach (attach none refl) }

-- Thread 1 is refused; thread 0 goes on.
abbrev middle : Ran start
middle = turns both (1 ∷ 0 ∷ [])

abbrev rest : Ran middle.last
rest =
    turns (record { last = middle.last; reach = here })
      (0 ∷ 0 ∷ 1 ∷ 0 ∷ 0 ∷ 0 ∷ 0 ∷ 0 ∷ 0 ∷ 0 ∷ 0 ∷ 0 ∷ 0 ∷ 0 ∷ [])

-- The dump of thread 0 ends before thread 1 takes its first step.
abbrev apart : Ran start
apart = turns both (0 ∷ 0 ∷ 0 ∷ 0 ∷ 0 ∷ 0 ∷ 0 ∷ 0 ∷ 0 ∷ 0 ∷ 0 ∷ 0 ∷ 1 ∷ 1 ∷ 1 ∷ 1 ∷ [])

runs :
    (middle.last.threads ≡ Pc.connecting ∷ Pc.refused ∷ [])
    × (rest.last.threads ≡ Pc.finished ∷ Pc.refused ∷ [])
    × (rest.last.dump_in_progress ≡ false)
    × (length rest.last.log ≡ 12)
    × (own_steps 0 rest.reach ≡ 13)
unfolding both turns
runs = (refl, refl, refl, refl, refl)

-- The second attach made its maps, and the end of the first dump deleted them: the second dump runs
-- without.
maps_lost :
    (both.last.maps ≡ some 0)
    × (apart.last.threads ≡ Pc.finished ∷ Pc.connecting ∷ [])
    × (apart.last.maps ≡ none)
unfolding both turns
maps_lost = (refl, refl, refl)

Reach-IsExclusive_example : IsExclusive middle.last
Reach-IsExclusive_example = Reach-IsExclusive middle.reach

Reach-IsSerial_example : IsSerial apart.last.log
Reach-IsSerial_example = Reach-IsSerial apart.reach

Reach-untracked_example : apart.last.allocator.self_check ≡ false
Reach-untracked_example = Reach-untracked refl refl apart.reach

dumpers_progress_example :
    (pc_at rest.last.threads 0 ≡ Pc.finished)
    × ((rest.last.dump_in_progress ≡ false)
        ⊎ ((j : ℕ) × (j ≢ 0) × (inside (pc_at rest.last.threads j) ≡ true)))
unfolding both turns
dumpers_progress_example =
    (dumpers_progress middle.reach rest.reach 0 (omega arith)).0 refl (omega arith)
