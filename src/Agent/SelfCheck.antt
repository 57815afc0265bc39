-- ===== src/Agent/SelfCheck.antt =====
-- initAgent starts the allocator before it reads the options.
use jleaker.Common.{
  ◌≡◌, refl, ◌∙◌, sym, ap, true, false, Bool-cases, inl, inr, subst, Option, none, some, Bytes, ℕ,
}
use jleaker.Options.{Settings, Parsed, parse_agent_options}
use jleaker.Allocator.{Allocator, init_allocator}
use jleaker.Agent.Defs.{
  Loader, Agent, Pc, Attached, done, failed, crashed, exhausted, init_once, load_files, init_agent,
  start_dumper_thread, agent_on_attach, vm_init, vm_death, dumper_step, pc_at,
}
use jleaker.Agent.System.{Step, attach, attach_failed, init, death, run, loaded, Reach, here, later}

module _ {loader : Loader} where
  -- `settings` is read by initAllocator only as long as the agent has not started.
  record IsUntracked (s : Agent loader) : Type 0 where
    untracked : s.allocator.self_check ≡ false
    unset : s.vm_started ≡ false → s.settings.self_check ≡ false

  abbrev Leaves : Attached loader → Type 0
  Leaves (done t) = IsUntracked t
  Leaves (failed t) = IsUntracked t
  Leaves _ = Unit

  -- After the first part of initAgent.
  record IsInitialised (s : Agent loader) : Type 0 where
    off : s.allocator.self_check ≡ false
    on : s.vm_started ≡ true

  init_once-IsInitialised : (s : Agent loader) → IsUntracked s → IsInitialised (init_once s)
  unfolding init_once init_allocator
  init_once-IsInitialised s u = elim (Bool-cases s.vm_started) [
    | inl e ↦ rw e (record { off = u.untracked; on = refl })
    | inr e ↦ rw e (record { off = u.unset e; on = refl })
  ]

  load_files-Leaves :
      (conf_files : Option Bytes) (s : Agent loader)
      → IsInitialised s
      → Leaves (load_files conf_files s)
  unfolding load_files
  load_files-Leaves none s h = record { untracked = h.off; unset = λ e. absurd (cc (h.on)) }
  load_files-Leaves (some files) s h = elim (Bool-cases (loader.load files loader.empty).0) [
    | inl e ↦ rw e (record { untracked = h.off; unset = λ e'. absurd (cc (h.on)) })
    | inr e ↦ rw e (record { untracked = h.off; unset = λ e'. absurd (cc (h.on)) })
  ]

  parsed-Leaves :
      (p : Parsed) (s : Agent loader)
      → IsInitialised s
      → Leaves (elim p as (λ q. Attached loader) [
        | Parsed.exhausted ↦ exhausted
        | Parsed.crashed ↦ crashed
        | Parsed.refused settings ↦
            failed (record s { settings = settings; maps = some loader.empty })
        | Parsed.parsed conf_files settings ↦
            load_files conf_files (record s { settings = settings })
      ])
  parsed-Leaves Parsed.exhausted s h = tt
  parsed-Leaves Parsed.crashed s h = tt
  parsed-Leaves (Parsed.refused settings) s h = record {
    untracked = h.off;
    unset = λ e. absurd (cc (h.on));
  }
  parsed-Leaves (Parsed.parsed conf_files settings) s h =
      load_files-Leaves conf_files (record s { settings = settings })
        (record { off = h.off; on = h.on })

  init_agent-Leaves :
      (options : Option Bytes) (s : Agent loader) → IsUntracked s → Leaves (init_agent options s)
  unfolding init_agent
  init_agent-Leaves options s u =
      parsed-Leaves (parse_agent_options options (init_once s).settings) (init_once s)
        (init_once-IsInitialised s u)

  started-Leaves :
      (r : Attached loader)
      → Leaves r
      → Leaves (elim r as (λ q. Attached loader) [
        | done s' ↦ done (start_dumper_thread s')
        | failed s' ↦ failed s'
        | crashed ↦ crashed
        | exhausted ↦ exhausted
      ])
  unfolding start_dumper_thread
  started-Leaves (done s) h = record { untracked = h.untracked; unset = h.unset }
  started-Leaves (failed s) h = h
  started-Leaves crashed h = tt
  started-Leaves exhausted h = tt

  attach-Leaves :
      (options : Option Bytes) (s : Agent loader)
      → IsUntracked s
      → Leaves (agent_on_attach options s)
  unfolding agent_on_attach
  attach-Leaves options s u = started-Leaves (init_agent options s) (init_agent-Leaves options s u)

  -- The parts that a dumper thread leaves alone.
  dumper_step-settings :
      (s : Agent loader) (i found : ℕ) (p : Pc)
      → (((dumper_step i found p s).allocator ≡ s.allocator)
          × ((dumper_step i found p s).vm_started ≡ s.vm_started)
          × ((dumper_step i found p s).settings ≡ s.settings))
  unfolding dumper_step
  dumper_step-settings s i found Pc.starting = elim (Bool-cases s.dump_in_progress) [
    | inl e ↦ rw e (refl, refl, refl)
    | inr e ↦ rw e (refl, refl, refl)
  ]
  dumper_step-settings s i found Pc.collecting = elim (Bool-cases s.settings.run_gc) [
    | inl e ↦ rw e (refl, refl, refl)
    | inr e ↦ rw e (refl, refl, refl)
  ]
  dumper_step-settings s i found Pc.checking = elim (Bool-cases s.settings.self_check) [
    | inl e ↦ rw e (refl, refl, refl)
    | inr e ↦ rw e (refl, refl, refl)
  ]
  dumper_step-settings s i found p = (refl, refl, refl)

  Step-IsUntracked : {s t : Agent loader} → Step s t → IsUntracked s → IsUntracked t
  unfolding vm_init vm_death start_dumper_thread
  Step-IsUntracked {s} (attach {t} options e) u = subst Leaves e (attach-Leaves options s u)
  Step-IsUntracked {s} (attach_failed {t} options e) u = subst Leaves e (attach-Leaves options s u)
  Step-IsUntracked init u = record { untracked = u.untracked; unset = λ e. absurd (cc) }
  Step-IsUntracked death u = record { untracked = u.untracked; unset = u.unset }
  Step-IsUntracked {s} (run i found lt) u =
      let k = dumper_step-settings s i found (pc_at s.threads i) in
      record {
        untracked = ap (λ (a : Allocator). a.self_check) k.0 ∙ u.untracked;
        unset = λ e. ap (λ (o : Settings). o.self_check) k.2 ∙ u.unset (sym k.1 ∙ e);
      }

  reach :
      {settings : Settings} {allocator : Allocator} {s : Agent loader}
      → settings.self_check ≡ false
      → allocator.self_check ≡ false
      → Reach (loaded settings allocator) s
      → IsUntracked s
  reach off idle here = record { untracked = idle; unset = λ _. off }
  reach off idle (later r st) = Step-IsUntracked st (reach off idle r)

  -- If the library is loaded with both flags clear, as C clears static data, then in every state that
  -- the agent reaches the allocator's own self_check is clear, whatever options the attaches gave, so
  -- that it never keeps the list of blocks which the option self_check asks for.
  pub Reach-untracked :
      {settings : Settings} {allocator : Allocator} {s : Agent loader}
      → settings.self_check ≡ false
      → allocator.self_check ≡ false
      → Reach (loaded settings allocator) s
      → s.allocator.self_check ≡ false
  Reach-untracked off idle r = (reach off idle r).untracked
