-- ===== src/Agent/Attach.antt =====
-- What an attach does to the parts of the state that the dumper threads use.
use jleaker.Common.{◌≡◌, refl, Bool-cases, inl, inr, Option, none, some, [], ◌∷◌, ◌++◌, Bytes}
use jleaker.Options.{Parsed, parse_agent_options}
use jleaker.Agent.Defs.{
  Loader, Agent, Pc, Attached, done, failed, crashed, exhausted, init_once, load_files, init_agent,
  start_dumper_thread, agent_on_attach,
}

module _ {loader : Loader} where
  -- The shared parts of two states.
  pub record Same (s t : Agent loader) : Type 0 where
    pub threads : t.threads ≡ s.threads
    pub dump_in_progress : t.dump_in_progress ≡ s.dump_in_progress
    pub thread_data : t.thread_data ≡ s.thread_data
    pub log : t.log ≡ s.log

  pub record Adds (s t : Agent loader) : Type 0 where
    pub threads : t.threads ≡ s.threads ++ Pc.starting ∷ []
    pub dump_in_progress : t.dump_in_progress ≡ s.dump_in_progress
    pub thread_data : t.thread_data ≡ s.thread_data
    pub log : t.log ≡ s.log

  -- The state behind an attach, if there is one.
  abbrev Keeps : Agent loader → Attached loader → Type 0
  Keeps s (done t) = Same s t
  Keeps s (failed t) = Same s t
  Keeps s _ = Unit

  Same-init_once : (s : Agent loader) → Same s (init_once s)
  unfolding init_once
  Same-init_once s = elim (Bool-cases s.vm_started) [
    | inl on ↦
        rw on (record { threads = refl; dump_in_progress = refl; thread_data = refl; log = refl })
    | inr off ↦
        rw off (record { threads = refl; dump_in_progress = refl; thread_data = refl; log = refl })
  ]

  Keeps-load_files :
      (s t : Agent loader) (conf_files : Option Bytes)
      → Same s t
      → Keeps s (load_files conf_files t)
  unfolding load_files
  Keeps-load_files s t none h = record {
    threads = h.threads;
    dump_in_progress = h.dump_in_progress;
    thread_data = h.thread_data;
    log = h.log;
  }
  Keeps-load_files s t (some files) h = elim (Bool-cases (loader.load files loader.empty).0) [
    | inl ok ↦ rw ok (record {
      threads = h.threads;
      dump_in_progress = h.dump_in_progress;
      thread_data = h.thread_data;
      log = h.log;
    })
    | inr bad ↦ rw bad (record {
      threads = h.threads;
      dump_in_progress = h.dump_in_progress;
      thread_data = h.thread_data;
      log = h.log;
    })
  ]

  after_parsing :
      (s t : Agent loader) (p : Parsed)
      → Same s t
      → Keeps s (elim p as (λ q. Attached loader) [
        | Parsed.exhausted ↦ exhausted
        | Parsed.crashed ↦ crashed
        | Parsed.refused settings ↦
            failed (record t { settings = settings; maps = some loader.empty })
        | Parsed.parsed conf_files settings ↦
            load_files conf_files (record t { settings = settings })
      ])
  after_parsing s t Parsed.exhausted h = tt
  after_parsing s t Parsed.crashed h = tt
  after_parsing s t (Parsed.refused settings) h = record {
    threads = h.threads;
    dump_in_progress = h.dump_in_progress;
    thread_data = h.thread_data;
    log = h.log;
  }
  after_parsing s t (Parsed.parsed conf_files settings) h =
      Keeps-load_files s (record t { settings = settings }) conf_files
        (record {
          threads = h.threads;
          dump_in_progress = h.dump_in_progress;
          thread_data = h.thread_data;
          log = h.log;
        })

  Keeps-init_agent : (s : Agent loader) (options : Option Bytes) → Keeps s (init_agent options s)
  unfolding init_agent
  Keeps-init_agent s options =
      after_parsing s (init_once s) (parse_agent_options options (init_once s).settings)
        (Same-init_once s)

  attach_cases :
      (s : Agent loader) (r : Attached loader)
      → Keeps s r
      → (t : Agent loader)
      → ((elim r as (λ q. Attached loader) [
        | done s' ↦ done (start_dumper_thread s')
        | failed s' ↦ failed s'
        | crashed ↦ crashed
        | exhausted ↦ exhausted
      ])
            ≡ done t
          → Adds s t)
        × ((elim r as (λ q. Attached loader) [
          | done s' ↦ done (start_dumper_thread s')
          | failed s' ↦ failed s'
          | crashed ↦ crashed
          | exhausted ↦ exhausted
        ])
              ≡ failed t
            → Same s t)
  unfolding start_dumper_thread
  attach_cases s (done s') h t = (
    λ e. record { threads = cc; dump_in_progress = cc; thread_data = cc; log = cc },
    λ e. absurd (cc),
  )
  attach_cases s (failed s') h t = (
    λ e. absurd (cc),
    λ e. record { threads = cc; dump_in_progress = cc; thread_data = cc; log = cc },
  )
  attach_cases s crashed h t = (λ e. absurd (cc), λ e. absurd (cc))
  attach_cases s exhausted h t = (λ e. absurd (cc), λ e. absurd (cc))

  pub attach-Adds :
      (s t : Agent loader) (options : Option Bytes) → agent_on_attach options s ≡ done t → Adds s t
  unfolding agent_on_attach
  attach-Adds s t options e =
      (attach_cases s (init_agent options s) (Keeps-init_agent s options) t).0 e

  pub attach_fails :
      (s t : Agent loader) (options : Option Bytes)
      → agent_on_attach options s ≡ failed t
      → Same s t
  unfolding agent_on_attach
  attach_fails s t options e =
      (attach_cases s (init_agent options s) (Keeps-init_agent s options) t).1 e
