-- ===== src/Agent/Serial.antt =====
-- The calls of the dumper threads, whichever way their statements interleave, are whole dumps one
-- after the other.
use jleaker.Common.{
  ap, sym, ◌∙◌, subst, ==_iff, ℕ, ◌+◌, ◌<◌, ◌≡◌, refl, ◌⊎◌, inl, inr, Bool, true, false, ◌==◌, ◌&&◌,
  ◌||◌, if◌then◌else◌, Bool-cases, Option, none, some, List, [], ◌∷◌, ◌++◌, length, arith,
}
use jleaker.Options.{Settings}
use jleaker.Allocator.{Allocator}
use jleaker.Agent.Defs.{Loader, Agent, Pc, Call, pc_at, dumper_step, vm_init, vm_death}
use jleaker.Agent.System.{Step, attach, attach_failed, init, death, run, loaded, Reach, here, later}
use jleaker.Agent.Attach.{attach-Adds, attach_fails}
use jleaker.Agent.Places.{inside, started, next, flag_after, pc_step, flag_step}
use jleaker.Agent.Exclusion.{IsExclusive, Reach-IsExclusive}

-- The order of the calls in dumperThreadMain, and of the places before them.
abbrev pub place : Call → ℕ
place Call.reset_leaks = 1
place Call.init_thread_data = 2
place Call.force_gc = 3
place (Call.establish_connection _) = 4
place Call.open_report = 5
place Call.tag_all = 6
place Call.find_leaks = 7
place Call.close_report = 8
place Call.close_connection = 9
place Call.release_thread_data = 10
place Call.find_internal_leaks = 11
place Call.self_check = 12
place Call.clear_flag = 13

abbrev pc_place : Pc → ℕ
pc_place Pc.resetting = 1
pc_place Pc.preparing = 2
pc_place Pc.collecting = 3
pc_place Pc.connecting = 4
pc_place Pc.opening = 5
pc_place Pc.tagging = 6
pc_place Pc.finding = 7
pc_place Pc.closing = 8
pc_place Pc.disconnecting = 9
pc_place Pc.releasing = 10
pc_place Pc.reporting = 11
pc_place Pc.checking = 12
pc_place Pc.clearing = 13
pc_place _ = 0

-- One call comes right behind the other in a dump; the two calls under an `if` may be left out.
abbrev pub consecutive : ℕ → ℕ → Bool
consecutive a b = (b == a + 1) || ((b == a + 2) && ((a == 2) || (a == 11)))

-- A call at place `n` by thread `i` goes on with the dump that thread `i` is making, or it begins a
-- dump where none is being made.
abbrev pub Continues : List (ℕ × Call) → ℕ → ℕ → Type 0
Continues [] i n = n ≡ 1
Continues ((j, c) ∷ _) i n =
    ((c ≡ Call.clear_flag) × (n ≡ 1)) ⊎ ((j ≡ i) × (consecutive (place c) n ≡ true))

-- The log has the latest call in front.
abbrev pub IsSerial : List (ℕ × Call) → Type 0
IsSerial [] = Unit
IsSerial ((i, c) ∷ earlier) = Continues earlier i (place c) × IsSerial earlier

abbrev IsClosed : List (ℕ × Call) → Type 0
IsClosed [] = Unit
IsClosed ((i, c) ∷ _) = c ≡ Call.clear_flag

abbrev call_at : Pc → Settings → Option Call
call_at Pc.resetting o = some Call.reset_leaks
call_at Pc.preparing o = some Call.init_thread_data
call_at Pc.collecting o = if o.run_gc then some Call.force_gc else none
call_at Pc.connecting o = some (Call.establish_connection o.tcp_port)
call_at Pc.opening o = some Call.open_report
call_at Pc.tagging o = some Call.tag_all
call_at Pc.finding o = some Call.find_leaks
call_at Pc.closing o = some Call.close_report
call_at Pc.disconnecting o = some Call.close_connection
call_at Pc.releasing o = some Call.release_thread_data
call_at Pc.reporting o = some Call.find_internal_leaks
call_at Pc.checking o = if o.self_check then some Call.self_check else none
call_at Pc.clearing o = some Call.clear_flag
call_at _ o = none

abbrev add : ℕ → Option Call → List (ℕ × Call) → List (ℕ × Call)
add i none l = l
add i (some c) l = (i, c) ∷ l

-- A place that makes no call is passed over.
pass_over :
    (l : List (ℕ × Call)) (i n : ℕ) → ((n ≡ 3) ⊎ (n ≡ 12)) → Continues l i n → Continues l i (n + 1)
pass_over [] i n h c = absurd (ground arith)
pass_over ((j, call) ∷ l) i n h (inl (e, one)) = absurd (ground arith)
pass_over ((j, call) ∷ l) i n h (inr (e, next_to)) = inr (e, ground arith)

-- What one step of the thread that makes the dump does to the log.
record Extended (i : ℕ) (p : Pc) (l : List (ℕ × Call)) : Type 0 where
  serial : IsSerial l
  continued : inside (next p true) ≡ true → Continues l i (pc_place (next p true))
  closed : p ≡ Pc.clearing → IsClosed l

called :
    (i : ℕ) (p : Pc) (c : Call) (l : List (ℕ × Call))
    → place c ≡ pc_place p
    → inside p ≡ true
    → Continues l i (pc_place p)
    → IsSerial l
    → Extended i p ((i, c) ∷ l)
called i Pc.resetting c l e h k s = record {
  serial = (rw e k, s);
  continued = λ _. inr (refl, ground arith);
  closed = λ q. absurd (cc);
}
called i Pc.clearing c l e h k s = record {
  serial = (rw e k, s);
  continued = λ q. absurd (cc);
  closed = λ _. ground arith;
}
called i p c l e h k s = record {
  serial = (rw e k, s);
  continued = λ _. inr (refl, ground arith);
  closed = λ q. absurd (ground arith);
}

extended :
    (i : ℕ) (p : Pc) (o : Settings) (l : List (ℕ × Call))
    → inside p ≡ true
    → Continues l i (pc_place p)
    → IsSerial l
    → Extended i p (add i (call_at p o) l)
extended i Pc.collecting o l h k s = elim (Bool-cases o.run_gc) [
  | inl on ↦ rw on (called i Pc.collecting Call.force_gc l refl h k s)
  | inr off ↦ rw off (record {
    serial = s;
    continued = λ _. pass_over l i 3 (inl refl) k;
    closed = λ q. absurd (cc);
  })
]
extended i Pc.checking o l h k s = elim (Bool-cases o.self_check) [
  | inl on ↦ rw on (called i Pc.checking Call.self_check l refl h k s)
  | inr off ↦ rw off (record {
    serial = s;
    continued = λ _. pass_over l i 12 (inr refl) k;
    closed = λ q. absurd (cc);
  })
]
extended i Pc.starting o l h k s = absurd (cc)
extended i Pc.refused o l h k s = absurd (cc)
extended i Pc.finished o l h k s = absurd (cc)
extended i p o l h k s = called i p _ l refl h k s

begins : (l : List (ℕ × Call)) (a : ℕ) → IsClosed l → Continues l a 1
begins [] a h = refl
begins (e ∷ l) a h = inl (h, refl)

clears :
    (p : Pc) {busy : Bool}
    → inside p ≡ true
    → flag_after p busy ≡ false
    → busy ≡ true
    → p ≡ Pc.clearing
clears Pc.starting h down up = absurd (cc)
clears Pc.clearing h down up = refl
clears p h down up = absurd (cc)

module _ {loader : Loader} where
  record IsLogged (s : Agent loader) : Type 0 where
    serial : IsSerial s.log
    continued :
        (i : ℕ)
        → inside (pc_at s.threads i) ≡ true
        → Continues s.log i (pc_place (pc_at s.threads i))
    closed : s.dump_in_progress ≡ false → IsClosed s.log

  log_step :
      (s : Agent loader) (i found : ℕ) (p : Pc)
      → (dumper_step i found p s).log ≡ add i (call_at p s.settings) s.log
  unfolding dumper_step
  log_step s i found Pc.starting = elim (Bool-cases s.dump_in_progress) [
    | inl busy ↦ rw busy
    | inr free ↦ rw free
  ]
  log_step s i found Pc.collecting = elim (Bool-cases s.settings.run_gc) [
    | inl on ↦ rw on
    | inr off ↦ rw off
  ]
  log_step s i found Pc.checking = elim (Bool-cases s.settings.self_check) [
    | inl on ↦ rw on
    | inr off ↦ rw off
  ]
  log_step s i found p = refl

  module _ {s : Agent loader} (x : IsExclusive s) (g : IsLogged s) (i found : ℕ)
      (lt : i < length s.threads) where
    same_thread :
        (p : Pc)
        → pc_at s.threads i ≡ p
        → inside p ≡ true
        → (a : ℕ) → inside (pc_at (dumper_step i found p s).threads a) ≡ true
        → i ≡ a
    same_thread p e h a ha = elim (Bool-cases (i == a)) [
      | inl same ↦ (==_iff i a).0 same
      | inr apart ↦
          x.one i a (ap inside e ∙ h) (sym (ap inside (pc_step s i found lt p e a ∙ rw apart)) ∙ ha)
    ]

    -- The thread that makes the dump takes a step.
    dump_moved :
        (p : Pc) → pc_at s.threads i ≡ p → inside p ≡ true → IsLogged (dumper_step i found p s)
    dump_moved p e h =
        let up : s.dump_in_progress ≡ true = x.raised i (ap inside e ∙ h) in
        let k : Continues s.log i (pc_place p) =
          subst (λ q. Continues s.log i (pc_place q)) e (g.continued i (ap inside e ∙ h)) in
        let ext = extended i p s.settings s.log h k g.serial in
        let logged = sym (log_step s i found p) in
        record {
          serial = subst IsSerial logged ext.serial;
          continued = λ a ha.
              let mine : i ≡ a = same_thread p e h a ha in
              let there : pc_at (dumper_step i found p s).threads a ≡ next p true =
                ground (arith, pc_step s i found lt p e a) in
              subst (λ l. Continues l a (pc_place (pc_at (dumper_step i found p s).threads a)))
                logged
                (subst
                  (λ b.
                    Continues (add i (call_at p s.settings) s.log) b
                      (pc_place (pc_at (dumper_step i found p s).threads a)))
                  mine
                  (subst (λ q. Continues (add i (call_at p s.settings) s.log) i (pc_place q))
                    (sym there) (ext.continued (sym (ap inside there) ∙ ha))));
          closed = λ down.
              subst IsClosed logged
                (ext.closed (clears p h (sym (flag_step s i found p) ∙ down) up));
        }

    -- A thread that is not in a dump takes a step.
    other_moved :
        (p : Pc) → pc_at s.threads i ≡ p → inside p ≡ false → IsLogged (dumper_step i found p s)
    unfolding dumper_step
    other_moved Pc.starting e h = elim (Bool-cases s.dump_in_progress) [
      | inl busy ↦ record {
        serial = subst IsSerial (sym (log_step s i found Pc.starting)) g.serial;
        continued = λ a ha.
            let there : pc_at (dumper_step i found Pc.starting s).threads a ≡ pc_at s.threads a =
              pc_step s i found lt Pc.starting e a ∙ elim (Bool-cases (i == a)) [
                | inl same ↦ absurd (ground (arith, pc_step s i found lt Pc.starting e a))
                | inr apart ↦ rw apart
              ] in
            subst
              (λ l. Continues l a (pc_place (pc_at (dumper_step i found Pc.starting s).threads a)))
              (sym (log_step s i found Pc.starting))
              (subst (λ q. Continues s.log a (pc_place q)) (sym there)
                (g.continued a (sym (ap inside there) ∙ ha)));
        closed = λ down. absurd (ground (arith, flag_step s i found Pc.starting));
      }
      | inr free ↦ record {
        serial = subst IsSerial (sym (log_step s i found Pc.starting)) g.serial;
        continued = λ a ha.
            let there : pc_at (dumper_step i found Pc.starting s).threads a ≡ Pc.resetting =
              pc_step s i found lt Pc.starting e a ∙ elim (Bool-cases (i == a)) [
                | inl same ↦ rw (same, free)
                | inr apart ↦
                    absurd (ground (arith, pc_step s i found lt Pc.starting e a, x.raised a))
              ] in
            subst
              (λ l. Continues l a (pc_place (pc_at (dumper_step i found Pc.starting s).threads a)))
              (sym (log_step s i found Pc.starting))
              (subst (λ q. Continues s.log a (pc_place q)) (sym there)
                (begins s.log a (g.closed free)));
        closed = λ down. absurd (ground (arith, flag_step s i found Pc.starting));
      }
    ]
    other_moved Pc.refused e h = g
    other_moved Pc.finished e h = g
    other_moved p e h = absurd (cc)

    IsLogged-moved : IsLogged (dumper_step i found (pc_at s.threads i) s)
    IsLogged-moved = elim (Bool-cases (inside (pc_at s.threads i))) [
      | inl within ↦ dump_moved (pc_at s.threads i) refl within
      | inr out ↦ other_moved (pc_at s.threads i) refl out
    ]

  -- The log is what it was, and no thread has moved.
  still :
      {s t : Agent loader}
      → IsLogged s
      → ((a : ℕ)
          → (pc_place (pc_at t.threads a) ≡ pc_place (pc_at s.threads a))
            × (inside (pc_at t.threads a) ≡ inside (pc_at s.threads a)))
      → t.dump_in_progress ≡ s.dump_in_progress
      → t.log ≡ s.log
      → IsLogged t
  still {s} {t} g places flag logged = record {
    serial = subst IsSerial (sym logged) g.serial;
    continued = λ a ha.
        subst (λ l. Continues l a (pc_place (pc_at t.threads a))) (sym logged)
          (subst (λ n. Continues s.log a n) (sym (places a).0)
            (g.continued a (sym (places a).1 ∙ ha)));
    closed = λ down. subst IsClosed (sym logged) (g.closed (sym flag ∙ down));
  }

  with_thread :
      {s t : Agent loader}
      → IsLogged s
      → t.threads ≡ s.threads ++ Pc.starting ∷ []
      → t.dump_in_progress ≡ s.dump_in_progress
      → t.log ≡ s.log
      → IsLogged t
  with_thread {s} g more flag logged =
      still g
        (λ a. (
          ap (λ ts. pc_place (pc_at ts a)) more ∙ started pc_place s.threads a refl,
          ap (λ ts. inside (pc_at ts a)) more ∙ started inside s.threads a refl,
        ))
        flag logged

  Step-IsLogged : {s t : Agent loader} → Step s t → IsExclusive s → IsLogged s → IsLogged t
  unfolding vm_init vm_death
  Step-IsLogged {s} (attach {t} options e) x g =
      let a = attach-Adds s t options e in with_thread g a.threads a.dump_in_progress a.log
  Step-IsLogged {s} (attach_failed {t} options e) x g =
      let a = attach_fails s t options e in
      still g
        (λ i.
          (ap (λ ts. pc_place (pc_at ts i)) a.threads, ap (λ ts. inside (pc_at ts i)) a.threads))
        a.dump_in_progress a.log
  Step-IsLogged init x g = with_thread g refl refl refl
  Step-IsLogged death x g = still g (λ a. (refl, refl)) refl refl
  Step-IsLogged (run i found lt) x g = IsLogged-moved x g i found lt

  Reach-IsLogged :
      {settings : Settings} {allocator : Allocator} {s : Agent loader}
      → Reach (loaded settings allocator) s
      → IsLogged s
  Reach-IsLogged here = record {
    serial = tt;
    continued = λ a ha. absurd (ground arith);
    closed = λ down. tt;
  }
  Reach-IsLogged (later r step) = Step-IsLogged step (Reach-IsExclusive r) (Reach-IsLogged r)

  -- Built by gcc, where __sync_lock_test_and_set is the built-in atomic function, and not the one that
  -- jleaker.c defines for WIN32: however attaches, callbacks and the statements of the dumper threads
  -- interleave, the calls that the
  -- threads make are a sequence of dumps, each the whole of dumperThreadMain in its order by one
  -- thread, but the last, which may be under way: a call by thread `i` either follows the one that
  -- stands before it in dumperThreadMain, made by the same thread with no call of another between
  -- them, where only the garbage collection and the self check may be left out; or it is the
  -- first of a dump, and the call before it, if any, was the last of one.
  pub Reach-IsSerial :
      {settings : Settings} {allocator : Allocator} {s : Agent loader}
      → Reach (loaded settings allocator) s
      → IsSerial s.log
  Reach-IsSerial r = (Reach-IsLogged r).serial
