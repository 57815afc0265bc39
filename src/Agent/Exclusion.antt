-- ===== src/Agent/Exclusion.antt =====
-- At most one dump runs at a time, and the static data of data_struct.c is that of its thread.
use jleaker.Common.{
  Bool-cases, inl, inr, ℕ, ◌<◌, ◌≡◌, refl, ◌∙◌, sym, ap, true, some, [], ◌∷◌, ◌++◌, length, arith,
}
use jleaker.Agent.Defs.{Loader, Agent, Pc, pc_at, dumper_step, vm_init, vm_death}
use jleaker.Options.{Settings}
use jleaker.Allocator.{Allocator}
use jleaker.Agent.System.{Step, attach, attach_failed, init, death, run, loaded, Reach, here, later}
use jleaker.Agent.Attach.{attach-Adds, attach_fails}
use jleaker.Agent.Places.{inside, has_data, started, pc_step, flag_step, data_step}

has_data-inside : (p : Pc) → has_data p ≡ true → inside p ≡ true
has_data-inside Pc.starting h = ground arith
has_data-inside p h = ground arith

module _ {loader : Loader} where
  pub record IsExclusive (s : Agent loader) : Type 0 where
    pub one :
        (i j : ℕ) → inside (pc_at s.threads i) ≡ true → inside (pc_at s.threads j) ≡ true → i ≡ j
    pub raised : (i : ℕ) → inside (pc_at s.threads i) ≡ true → s.dump_in_progress ≡ true
    pub held : s.dump_in_progress ≡ true → (i : ℕ) × (inside (pc_at s.threads i) ≡ true)
    pub owned : (i : ℕ) → has_data (pc_at s.threads i) ≡ true → s.thread_data ≡ some i
    pub owner : (i : ℕ) → s.thread_data ≡ some i → has_data (pc_at s.threads i) ≡ true

  module _ {s : Agent loader} (x : IsExclusive s) (i found : ℕ) (lt : i < length s.threads) where
    one_moved :
        (p : Pc)
        → pc_at s.threads i ≡ p
        → (a b : ℕ) → inside (pc_at (dumper_step i found p s).threads a) ≡ true
        → inside (pc_at (dumper_step i found p s).threads b) ≡ true
        → a ≡ b
    one_moved Pc.starting e a b ha hb = ground (
      arith,
      x.raised a,
      x.raised b,
      x.one a b,
      pc_step s i found lt Pc.starting e a,
      pc_step s i found lt Pc.starting e b,
    )
    one_moved p e a b ha hb = ground (
      arith,
      x.one a b,
      x.one i a,
      x.one i b,
      pc_step s i found lt p e a,
      pc_step s i found lt p e b,
    )

    raised_moved :
        (p : Pc)
        → pc_at s.threads i ≡ p
        → (a : ℕ) → inside (pc_at (dumper_step i found p s).threads a) ≡ true
        → (dumper_step i found p s).dump_in_progress ≡ true
    raised_moved Pc.starting e a ha = flag_step s i found Pc.starting
    raised_moved p e a ha = ground (
      arith,
      x.raised a,
      x.raised i,
      x.one i a,
      pc_step s i found lt p e a,
      flag_step s i found p,
    )

    held_moved :
        (p : Pc)
        → pc_at s.threads i ≡ p
        → (dumper_step i found p s).dump_in_progress ≡ true
        → (a : ℕ) × (inside (pc_at (dumper_step i found p s).threads a) ≡ true)
    held_moved Pc.starting e up = elim (Bool-cases s.dump_in_progress) [
      | inl busy ↦
          let (a, h) = x.held busy in (a, ground (arith, pc_step s i found lt Pc.starting e a))
      | inr free ↦ (i, ground (arith, pc_step s i found lt Pc.starting e i))
    ]
    held_moved Pc.refused e up =
        let (a, h) = x.held (sym (flag_step s i found Pc.refused) ∙ up) in
        (a, ground (arith, pc_step s i found lt Pc.refused e a))
    held_moved Pc.finished e up =
        let (a, h) = x.held (sym (flag_step s i found Pc.finished) ∙ up) in
        (a, ground (arith, pc_step s i found lt Pc.finished e a))
    held_moved Pc.clearing e up = absurd (ground (arith, flag_step s i found Pc.clearing))
    held_moved p e up = (i, ground (arith, pc_step s i found lt p e i))

    owned_moved :
        (p : Pc)
        → pc_at s.threads i ≡ p
        → (a : ℕ) → has_data (pc_at (dumper_step i found p s).threads a) ≡ true
        → (dumper_step i found p s).thread_data ≡ some a
    owned_moved Pc.starting e a ha =
        ground
          (arith, x.owned a, pc_step s i found lt Pc.starting e a, data_step s i found Pc.starting)
    owned_moved p e a ha = ground (
      arith,
      x.owned a,
      x.owned i,
      x.one i a,
      has_data-inside (pc_at s.threads a),
      pc_step s i found lt p e a,
      data_step s i found p,
    )

    owner_moved :
        (p : Pc)
        → pc_at s.threads i ≡ p
        → (a : ℕ) → (dumper_step i found p s).thread_data ≡ some a
        → has_data (pc_at (dumper_step i found p s).threads a) ≡ true
    owner_moved Pc.starting e a ha =
        ground
          (arith, x.owner a, pc_step s i found lt Pc.starting e a, data_step s i found Pc.starting)
    owner_moved p e a ha =
        ground (arith, x.owner a, pc_step s i found lt p e a, data_step s i found p)

    moved : IsExclusive (dumper_step i found (pc_at s.threads i) s)
    moved = record {
      one = one_moved (pc_at s.threads i) refl;
      raised = raised_moved (pc_at s.threads i) refl;
      held = held_moved (pc_at s.threads i) refl;
      owned = owned_moved (pc_at s.threads i) refl;
      owner = owner_moved (pc_at s.threads i) refl;
    }

  -- One more thread, and nothing else that matters here.
  unchanged :
      {s t : Agent loader}
      → IsExclusive s
      → ((a : ℕ) → inside (pc_at t.threads a) ≡ inside (pc_at s.threads a))
      → ((a : ℕ) → has_data (pc_at t.threads a) ≡ has_data (pc_at s.threads a))
      → t.dump_in_progress ≡ s.dump_in_progress
      → t.thread_data ≡ s.thread_data
      → IsExclusive t
  unchanged {s} {t} x in_same data_same flag tdata = record {
    one = λ a b ha hb. x.one a b (sym (in_same a) ∙ ha) (sym (in_same b) ∙ hb);
    raised = λ a ha. flag ∙ x.raised a (sym (in_same a) ∙ ha);
    held = λ up. let (a, h) = x.held (sym flag ∙ up) in (a, in_same a ∙ h);
    owned = λ a ha. tdata ∙ x.owned a (sym (data_same a) ∙ ha);
    owner = λ a e. data_same a ∙ x.owner a (sym tdata ∙ e);
  }

  with_thread :
      {s t : Agent loader}
      → IsExclusive s
      → t.threads ≡ s.threads ++ Pc.starting ∷ []
      → t.dump_in_progress ≡ s.dump_in_progress
      → t.thread_data ≡ s.thread_data
      → IsExclusive t
  with_thread {s} x more flag tdata =
      unchanged x (λ a. ap (λ ts. inside (pc_at ts a)) more ∙ started inside s.threads a refl)
        (λ a. ap (λ ts. has_data (pc_at ts a)) more ∙ started has_data s.threads a refl) flag tdata

  Step-IsExclusive : {s t : Agent loader} → Step s t → IsExclusive s → IsExclusive t
  unfolding vm_init vm_death
  Step-IsExclusive {s} (attach {t} options e) x =
      let a = attach-Adds s t options e in with_thread x a.threads a.dump_in_progress a.thread_data
  Step-IsExclusive {s} (attach_failed {t} options e) x =
      let a = attach_fails s t options e in
      unchanged x (λ i. ap (λ ts. inside (pc_at ts i)) a.threads)
        (λ i. ap (λ ts. has_data (pc_at ts i)) a.threads) a.dump_in_progress a.thread_data
  Step-IsExclusive init x = with_thread x refl refl refl
  Step-IsExclusive death x = unchanged x (λ i. refl) (λ i. refl) refl refl
  Step-IsExclusive (run i found lt) x = moved x i found lt

  -- Built by gcc, where __sync_lock_test_and_set is the built-in atomic function, and not the one that
  -- jleaker.c defines for WIN32: in every state that the agent reaches from the loaded library, however attaches, callbacks and the
  -- statements of the dumper threads interleave: no two threads are inside a dump, dumpInProgress is
  -- set exactly while one is, and between initThreadData and releaseThreadData, and only then, the
  -- static thread data is that of the thread which makes the dump.
  pub Reach-IsExclusive :
      {settings : Settings} {allocator : Allocator} {s : Agent loader}
      → Reach (loaded settings allocator) s
      → IsExclusive s
  Reach-IsExclusive here = record {
    one = λ a b ha hb. absurd (ground arith);
    raised = λ a ha. absurd (ground arith);
    held = λ up. absurd (ground arith);
    owned = λ a ha. absurd (ground arith);
    owner = λ a e. absurd (ground arith);
  }
  Reach-IsExclusive (later r step) = Step-IsExclusive step (Reach-IsExclusive r)
