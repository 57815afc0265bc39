-- ===== src/Agent/Defs.antt =====
-- The agent's global data, its entry points, and one step of a dumper thread.
use jleaker.Common.{
  ℕ, ◌+◌, Bool, true, false, if◌then◌else◌, Option, none, some, List, [], ◌∷◌, ◌++◌, get_or, set,
  Bytes,
}
use jleaker.Common.Int.{ℤ}
use jleaker.Options.{Settings, Parsed, parse_agent_options}
use jleaker.Allocator.{Allocator, init_allocator}

-- Where a thread in dumperThreadMain stands: before the call or the test of that name.
pub data Pc : Type 0 where
  starting : Pc  -- __sync_lock_test_and_set, the built-in function of gcc
  refused : Pc  -- returned, since another dump is in progress
  resetting : Pc  -- gdata->numberOfLeaks = 0
  preparing : Pc  -- initThreadData
  collecting : Pc  -- if (gdata->run_gc)
  connecting : Pc  -- establish_connection
  opening : Pc  -- begin_xml_output, open_xml_element, startTimer
  tagging : Pc  -- tagAllMapsAndCollections
  finding : Pc  -- findLeaksInTaggedObjects
  closing : Pc  -- close_xml_element
  disconnecting : Pc  -- close_connection, stopTimer
  releasing : Pc  -- releaseThreadData
  reporting : Pc  -- findInternalMallocsLeaks
  checking : Pc  -- if (gdata->self_check)
  clearing : Pc  -- gdata->dumpInProgress = JNI_FALSE
  finished : Pc

-- What a thread calls, with the global data that the call reads.
pub data Call : Type 0 where
  reset_leaks init_thread_data force_gc : Call
  establish_connection : (tcp_port : ℤ) → Call
  open_report tag_all find_leaks close_report close_connection release_thread_data : Call
  find_internal_leaks self_check clear_flag : Call

-- What parse_agent_options does with the two string maps: sm_new, and the loop over the
-- configuration files, whose result says whether all could be loaded.
pub record Loader : Type 1 where
  pub Maps : Type 0
  pub empty : Maps
  pub load : Bytes → Maps → Bool × Maps

-- GlobalData with the static data of the other files. `maps` has ignore_classes and
-- ignore_referenced_by, `jvmti` is false for NULL, `thread_data` is `tdata.jni`, which names the
-- thread, and `log` has the calls of the dumper threads, the latest first.
pub record Agent (loader : Loader) : Type 0 where
  pub vm_death_called : Bool
  pub vm_started : Bool
  pub dump_in_progress : Bool
  pub jvmti : Bool
  pub settings : Settings
  pub maps : Option loader.Maps
  pub number_of_leaks : ℕ
  pub thread_data : Option ℕ
  pub allocator : Allocator
  pub threads : List Pc
  pub log : List (ℕ × Call)

-- `failed` is the return of 1; `crashed` and `exhausted` are those of `Parsed`.
pub data Attached (loader : Loader) : Type 0 where
  done failed : Agent loader → Attached loader
  crashed exhausted : Attached loader

-- A thread that does not exist takes no step.
abbrev pub pc_at : List Pc → ℕ → Pc
pc_at threads i = get_or threads i Pc.finished

module _ {loader : Loader} where
  -- startDumperThread: RunAgentThread starts one more thread.
  unfoldable pub start_dumper_thread : Agent loader → Agent loader
  start_dumper_thread s = record s { threads = s.threads ++ Pc.starting ∷ [] }

  -- The part of initAgent that runs only once; an error of JVMTI ends the process.
  unfoldable pub init_once : Agent loader → Agent loader
  init_once s = if s.vm_started then s else record s {
    vm_started = true;
    allocator = init_allocator s.settings.self_check s.allocator;
    jvmti = true;
    vm_death_called = false;
  }

  -- The end of parse_agent_options: the loop over the configuration files, where `conf_files` is not
  -- NULL.
  unfoldable pub load_files : Option Bytes → Agent loader → Attached loader
  load_files none s = done (record s { maps = some loader.empty })
  load_files (some conf_files) s =
      let loaded = loader.load conf_files loader.empty in
      let s' = record s { maps = some loaded.1 } in if loaded.0 then done s' else failed s'

  -- initAgent: the first part once, then the options.
  unfoldable pub init_agent : Option Bytes → Agent loader → Attached loader
  unfolding init_once load_files
  init_agent options s =
      let once = init_once s in
      elim (parse_agent_options options once.settings) [
        | Parsed.exhausted ↦ exhausted
        | Parsed.crashed ↦ crashed
        | Parsed.refused settings ↦
            failed (record once { settings = settings; maps = some loader.empty })
        | Parsed.parsed conf_files settings ↦
            load_files conf_files (record once { settings = settings })
      ]

  -- Agent_OnAttach
  unfoldable pub agent_on_attach : Option Bytes → Agent loader → Attached loader
  unfolding init_agent start_dumper_thread
  agent_on_attach options s = elim (init_agent options s) [
    | done s' ↦ done (start_dumper_thread s')
    | failed s' ↦ failed s'
    | crashed ↦ crashed
    | exhausted ↦ exhausted
  ]

  -- vmInit and vmDeath, each inside the agent's monitor.
  unfoldable pub vm_init : Agent loader → Agent loader
  unfolding start_dumper_thread
  vm_init s = start_dumper_thread (record s { vm_started = true })

  unfoldable pub vm_death : Agent loader → Agent loader
  vm_death s = record s { vm_death_called = true }

  -- Thread `i` goes on to `next`.
  abbrev pub go : ℕ → Pc → Agent loader → Agent loader
  go i next s = record s { threads = set s.threads i next }

  -- The same, with a call.
  abbrev pub calls : ℕ → Call → Pc → Agent loader → Agent loader
  calls i call next s = go i next (record s { log = (i, call) ∷ s.log })

  -- One step of dumperThreadMain in thread `i`, which stands at the given place, as gcc builds it: the
  -- test and set is one step, which that of jleaker.c for WIN32 is not;
  -- `found` is the number of leaks that findLeaksInTaggedObjects makes.
  unfoldable pub dumper_step : (i found : ℕ) → Pc → Agent loader → Agent loader
  dumper_step i found starting s =
      if s.dump_in_progress
      then go i Pc.refused s
      else go i Pc.resetting (record s { dump_in_progress = true })
  dumper_step i found resetting s =
      calls i Call.reset_leaks Pc.preparing (record s { number_of_leaks = 0 })
  dumper_step i found preparing s =
      calls i Call.init_thread_data Pc.collecting (record s { thread_data = some i })
  dumper_step i found collecting s =
      if s.settings.run_gc then calls i Call.force_gc Pc.connecting s else go i Pc.connecting s
  dumper_step i found connecting s =
      calls i (Call.establish_connection s.settings.tcp_port) Pc.opening s
  dumper_step i found opening s = calls i Call.open_report Pc.tagging s
  dumper_step i found tagging s = calls i Call.tag_all Pc.finding s
  dumper_step i found finding s =
      calls i Call.find_leaks Pc.closing (record s { number_of_leaks = s.number_of_leaks + found })
  dumper_step i found closing s = calls i Call.close_report Pc.disconnecting s
  dumper_step i found disconnecting s = calls i Call.close_connection Pc.releasing s
  dumper_step i found releasing s =
      calls i Call.release_thread_data Pc.reporting (record s { maps = none; thread_data = none })
  dumper_step i found reporting s = calls i Call.find_internal_leaks Pc.checking s
  dumper_step i found checking s =
      if s.settings.self_check then calls i Call.self_check Pc.clearing s else go i Pc.clearing s
  dumper_step i found clearing s =
      calls i Call.clear_flag Pc.finished (record s { dump_in_progress = false })
  dumper_step i found refused s = s
  dumper_step i found finished s = s
