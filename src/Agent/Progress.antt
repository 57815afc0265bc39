-- ===== src/Agent/Progress.antt =====
-- A dump that has begun comes to its end, and then the next one can begin.
use jleaker.Common.{
  ap, ap₂, sym, ◌∙◌, subst, ==_iff, ℕ, ◌+◌, ◌≤◌, ◌<◌, ◌≡◌, refl, inl, inr, ◌⊎◌, Bool, true, false,
  ◌==◌, if◌then◌else◌, Bool-cases, List, [], ◌∷◌, ◌++◌, length, length-set, length-append,
  get_or-append, ◌≢◌, arith,
}
use jleaker.Agent.Defs.{Loader, Agent, Pc, pc_at, dumper_step, vm_init, vm_death}
use jleaker.Agent.System.{Step, attach, attach_failed, init, death, run, loaded, Reach, here, later}
use jleaker.Agent.Attach.{attach-Adds, attach_fails}
use jleaker.Agent.Places.{inside, next, pc_step, threads_after}
use jleaker.Options.{Settings}
use jleaker.Allocator.{Allocator}
use jleaker.Agent.Exclusion.{Reach-IsExclusive}

-- Statements that the thread has still to execute at most.
abbrev pub left : Pc → ℕ
left Pc.starting = 14
left Pc.resetting = 13
left Pc.preparing = 12
left Pc.collecting = 11
left Pc.connecting = 10
left Pc.opening = 9
left Pc.tagging = 8
left Pc.finding = 7
left Pc.closing = 6
left Pc.disconnecting = 5
left Pc.releasing = 4
left Pc.reporting = 3
left Pc.checking = 2
left Pc.clearing = 1
left _ = 0

fewer_left : (p : Pc) (busy : Bool) → (left (next p busy) + 1 ≤ left p) ⊎ (left (next p busy) ≡ 0)
fewer_left Pc.starting true = inr refl
fewer_left Pc.starting false = inl (omega arith)
fewer_left Pc.refused busy = inr refl
fewer_left Pc.finished busy = inr refl
fewer_left p busy = inl (omega arith)

left-inside : (p : Pc) → inside p ≡ true → left p ≤ 13
left-inside Pc.starting h = absurd (cc)
left-inside p h = omega arith

done_or_refused : (p : Pc) → left p ≡ 0 → (p ≡ Pc.finished) ⊎ (p ≡ Pc.refused)
done_or_refused Pc.finished h = inl refl
done_or_refused Pc.refused h = inr refl
done_or_refused p h = absurd (omega arith)

-- Once inside, a thread is not refused.
abbrev IsDumping : Pc → Type 0
IsDumping Pc.starting = ⊥
IsDumping Pc.refused = ⊥
IsDumping _ = Unit

next-IsDumping : (p : Pc) (busy : Bool) → IsDumping p → IsDumping (next p busy)
next-IsDumping Pc.starting busy h = absurd h
next-IsDumping p busy h = h

finished_of_left : (p : Pc) → IsDumping p → left p ≡ 0 → p ≡ Pc.finished
finished_of_left Pc.starting d h = absurd d
finished_of_left Pc.finished d h = refl
finished_of_left Pc.refused d h = absurd d
finished_of_left p d h = absurd (omega arith)

inside-IsDumping : (p : Pc) → inside p ≡ true → IsDumping p
inside-IsDumping Pc.starting h = absurd (cc)
inside-IsDumping Pc.refused h = absurd (cc)
inside-IsDumping p h = tt

-- What a step does to the place of thread `i`.
record Advances (p q : Pc) (taken : ℕ) : Type 0 where
  fewer : (left q + taken ≤ left p) ⊎ (left q ≡ 0)
  dumping : IsDumping p → IsDumping q

stands : {p q : Pc} → q ≡ p → Advances p q 0
stands {p} {q} e = record {
  fewer = inl (omega (arith, ap left e));
  dumping = λ d. subst IsDumping (sym e) d;
}

steps : (p : Pc) (busy : Bool) → Advances p (next p busy) 1
steps p busy = record { fewer = fewer_left p busy; dumping = next-IsDumping p busy }

joined : {p q r : Pc} {m n : ℕ} → Advances p q m → Advances q r n → Advances p r (m + n)
joined a b = record {
  fewer = ground (arith, a.fewer, b.fewer);
  dumping = λ d. b.dumping (a.dumping d);
}

none_left : {p q : Pc} {n : ℕ} → Advances p q n → left p ≤ n → left q ≡ 0
none_left a h = ground (arith, a.fewer)

grown : (ts : List Pc) (i : ℕ) → i < length ts → pc_at (ts ++ Pc.starting ∷ []) i ≡ pc_at ts i
grown ts i lt = ground (arith, get_or-append ts Pc.starting i Pc.finished)

begins : {p : Pc} {busy : Bool} → p ≡ Pc.starting → busy ≡ false → next p busy ≡ Pc.resetting
begins e f = ap₂ next e f

module _ {loader : Loader} where
  -- How many steps of an execution are those of thread `i`.
  abbrev step_of : {s t : Agent loader} → ℕ → Step s t → ℕ
  step_of i (run j found lt) = if j == i then 1 else 0
  step_of i _ = 0

  abbrev pub own_steps : {s t : Agent loader} → ℕ → Reach s t → ℕ
  own_steps i here = 0
  own_steps i (later r st) = own_steps i r + step_of i st

  Step-Advances :
      {s t : Agent loader} (st : Step s t) (i : ℕ)
      → i < length s.threads
      → Advances (pc_at s.threads i) (pc_at t.threads i) (step_of i st)
        × (length s.threads ≤ length t.threads)
  unfolding vm_init vm_death
  Step-Advances {s} (attach {t} options e) i lt =
      let more = (attach-Adds s t options e).threads in
      (
        stands (ap (λ ts. pc_at ts i) more ∙ grown s.threads i lt),
        omega (arith, ap length more, length-append s.threads (Pc.starting ∷ [])),
      )
  Step-Advances {s} (attach_failed {t} options e) i lt =
      let same = (attach_fails s t options e).threads in
      (stands (ap (λ ts. pc_at ts i) same), omega (arith, ap length same))
  Step-Advances {s} init i lt =
      (stands (grown s.threads i lt), omega (arith, length-append s.threads (Pc.starting ∷ [])))
  Step-Advances death i lt = (stands refl, omega arith)
  Step-Advances {s} (run j found here_j) i lt =
      let p = pc_at s.threads j in
      let there = pc_step s j found here_j p refl i in
      (
        elim (Bool-cases (j == i)) [
          | inl same ↦ rw same (
              subst (λ a. Advances a (pc_at (dumper_step j found p s).threads i) 1)
                (ap (pc_at s.threads) ((==_iff j i).0 same))
                (subst (λ q. Advances p q 1) (sym (there ∙ rw same)) (steps p s.dump_in_progress)))
          | inr apart ↦ rw apart (stands (there ∙ rw apart))
        ],
        omega (
          arith,
          ap length (threads_after s j found p refl),
          length-set s.threads j (next p s.dump_in_progress),
        ),
      )

  -- Over a whole execution.
  Reach-Advances :
      {s t : Agent loader} (r : Reach s t) (i : ℕ)
      → i < length s.threads
      → Advances (pc_at s.threads i) (pc_at t.threads i) (own_steps i r)
        × (length s.threads ≤ length t.threads)
  Reach-Advances here i lt = (stands refl, omega arith)
  Reach-Advances (later r st) i lt =
      let (a, size) = Reach-Advances r i lt in
      let (b, more) = Step-Advances st i (omega arith) in (joined a b, omega arith)

  joined_runs : {s t u : Agent loader} → Reach s t → Reach t u → Reach s u
  joined_runs r here = r
  joined_runs r (later q st) = later (joined_runs r q) st

  -- Built by gcc, where __sync_lock_test_and_set is the built-in atomic function: from a state that the
  -- agent reaches, whatever the other threads and the virtual machine do in
  -- between: a thread that is inside a dump has finished once it has taken 13 more steps of its own,
  -- and then dumpInProgress is clear unless another thread has begun a dump after it; a thread that
  -- has just been started has finished its dump, or was refused since another dump was in progress, once it
  -- has taken 14; and where dumpInProgress is clear, a thread that takes its first step begins a dump.
  pub dumpers_progress :
      {settings : Settings} {allocator : Allocator} {s t : Agent loader}
      → Reach (loaded settings allocator) s
      → (r : Reach s t) (i : ℕ) → i < length s.threads
      → (inside (pc_at s.threads i) ≡ true
          → 13 ≤ own_steps i r
          → (pc_at t.threads i ≡ Pc.finished)
            × ((t.dump_in_progress ≡ false)
                ⊎ ((j : ℕ) × (j ≢ i) × (inside (pc_at t.threads j) ≡ true))))
        × (pc_at s.threads i ≡ Pc.starting
            → 14 ≤ own_steps i r
            → (pc_at t.threads i ≡ Pc.finished) ⊎ (pc_at t.threads i ≡ Pc.refused))
        × (pc_at t.threads i ≡ Pc.starting
            → t.dump_in_progress ≡ false
            → (found : ℕ)
            → inside (pc_at (dumper_step i found (pc_at t.threads i) t).threads i) ≡ true)
  dumpers_progress {t = t} before r i lt =
      let (a, size) = Reach-Advances r i lt in
      (
        λ within enough.
            let d = inside-IsDumping (pc_at _ i) within in
            let e : pc_at t.threads i ≡ Pc.finished =
              finished_of_left (pc_at t.threads i) (a.dumping d)
                (none_left a (omega (arith, left-inside _ within))) in
            (
              e,
              elim (Bool-cases t.dump_in_progress) [
                | inl up ↦
                    let (j, h) = (Reach-IsExclusive (joined_runs before r)).held up in
                    inr (j, λ q. cc (ap (λ k. inside (pc_at t.threads k)) q, ap inside e), h)
                | inr down ↦ inl down
              ],
            ),
        λ new enough.
            done_or_refused (pc_at t.threads i) (none_left a (omega (arith, ap left new))),
        λ new down found.
            ap inside (pc_step t i found (omega arith) (pc_at t.threads i) refl i)
            ∙ rw ((==_iff i i).1 refl) (ap inside (begins new down)),
      )
