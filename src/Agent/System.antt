-- ===== src/Agent/System.antt =====
-- The virtual machine calls the agent and runs its threads in any order. Agent_OnAttach is called by
-- the one attach listener, so an attach is one event; each statement of a dumper thread is one.
use jleaker.Common.{ℕ, ◌≡◌, false, ◌<◌, Option, none, [], length, Bytes}
use jleaker.Options.{Settings}
use jleaker.Allocator.{Allocator}
use jleaker.Agent.Defs.{
  Loader, Agent, done, failed, agent_on_attach, vm_init, vm_death, pc_at, dumper_step,
}

module _ {loader : Loader} where
  -- An attach that crashes has no state behind it.
  pub data Step (s : Agent loader) : Agent loader → Type 0 where
    attach :
        {t : Agent loader} (options : Option Bytes) → agent_on_attach options s ≡ done t → Step s t
    attach_failed :
        {t : Agent loader} (options : Option Bytes)
        → agent_on_attach options s ≡ failed t
        → Step s t
    init : Step s (vm_init s)
    death : Step s (vm_death s)
    run : (i found : ℕ) → i < length s.threads → Step s (dumper_step i found (pc_at s.threads i) s)

  -- The library is loaded: the static data is zero and no thread runs.
  abbrev pub loaded : Settings → Allocator → Agent loader
  loaded settings allocator = record {
    vm_death_called = false;
    vm_started = false;
    dump_in_progress = false;
    jvmti = false;
    settings = settings;
    maps = none;
    number_of_leaks = 0;
    thread_data = none;
    allocator = allocator;
    threads = [];
    log = [];
  }

  pub data Reach (start : Agent loader) : Agent loader → Type 0 where
    here : Reach start start
    later : {s t : Agent loader} → Reach start s → Step s t → Reach start t
