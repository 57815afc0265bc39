-- ===== src/Agent/Places.antt =====
-- Where the threads stand after one of them moves, or one more starts.
use jleaker.Common.{
  ℕ, zero, suc, Option, none, some, ◌<◌, ◌≡◌, refl, ◌∙◌, ap, Bool, true, false, ◌==◌, if◌then◌else◌,
  List, [], ◌∷◌, ◌++◌, length, set, get_or-set, arith, Bool-cases, inl, inr,
}
use jleaker.Agent.Defs.{Loader, Agent, Pc, pc_at, dumper_step}

-- Between the test and set and the end of dumperThreadMain.
abbrev pub inside : Pc → Bool
inside Pc.starting = false
inside Pc.refused = false
inside Pc.finished = false
inside _ = true

-- Between initThreadData and releaseThreadData.
abbrev pub has_data : Pc → Bool
has_data Pc.collecting = true
has_data Pc.connecting = true
has_data Pc.opening = true
has_data Pc.tagging = true
has_data Pc.finding = true
has_data Pc.closing = true
has_data Pc.disconnecting = true
has_data Pc.releasing = true
has_data _ = false

pub pc_at-set :
    (threads : List Pc) (i j : ℕ) (p : Pc)
    → i < length threads
    → pc_at (set threads i p) j ≡ (if i == j then p else pc_at threads j)
pc_at-set threads i j p h = ground (arith, get_or-set threads i j p Pc.finished)

-- A part that the start of a thread does not have.
pub started {ℓ} :
    {A : Type ℓ} (part : Pc → A) (threads : List Pc) (j : ℕ)
    → part Pc.starting ≡ part Pc.finished
    → part (pc_at (threads ++ Pc.starting ∷ []) j) ≡ part (pc_at threads j)
started part [] zero e = e
started part [] (suc j) e = refl
started part (p ∷ ps) zero e = refl
started part (p ∷ ps) (suc j) e = started part ps j e

-- Where a step leads, and what becomes of the flag and of the thread data.
abbrev pub next : Pc → Bool → Pc
next Pc.starting busy = if busy then Pc.refused else Pc.resetting
next Pc.refused busy = Pc.refused
next Pc.resetting busy = Pc.preparing
next Pc.preparing busy = Pc.collecting
next Pc.collecting busy = Pc.connecting
next Pc.connecting busy = Pc.opening
next Pc.opening busy = Pc.tagging
next Pc.tagging busy = Pc.finding
next Pc.finding busy = Pc.closing
next Pc.closing busy = Pc.disconnecting
next Pc.disconnecting busy = Pc.releasing
next Pc.releasing busy = Pc.reporting
next Pc.reporting busy = Pc.checking
next Pc.checking busy = Pc.clearing
next Pc.clearing busy = Pc.finished
next Pc.finished busy = Pc.finished

abbrev pub flag_after : Pc → Bool → Bool
flag_after Pc.starting busy = true
flag_after Pc.clearing busy = false
flag_after _ busy = busy

abbrev pub data_after : ℕ → Pc → Option ℕ → Option ℕ
data_after i Pc.preparing owner = some i
data_after i Pc.releasing owner = none
data_after i _ owner = owner

set_self : (xs : List Pc) (k : ℕ) (p : Pc) → pc_at xs k ≡ p → xs ≡ set xs k p
set_self [] k p e = refl
set_self (x ∷ xs) zero p e = ap (λ y. y ∷ xs) e
set_self (x ∷ xs) (suc k) p e = ap (λ ys. x ∷ ys) (set_self xs k p e)

module _ {loader : Loader} where
  both {ℓ} :
      {X : Type ℓ} (part : Agent loader → X) (b : Bool) {t u : Agent loader} {x : X}
      → part t ≡ x
      → part u ≡ x
      → part (if b then t else u) ≡ x
  both part true e f = e
  both part false e f = f

module _ {loader : Loader} (s : Agent loader) (i found : ℕ) where
  pub threads_after :
      (p : Pc)
      → pc_at s.threads i ≡ p
      → (dumper_step i found p s).threads ≡ set s.threads i (next p s.dump_in_progress)
  unfolding dumper_step
  threads_after Pc.starting e = elim (Bool-cases s.dump_in_progress) [
    | inl busy ↦ rw busy
    | inr free ↦ rw free
  ]
  threads_after Pc.collecting e = both (λ (t : Agent loader). t.threads) s.settings.run_gc refl refl
  threads_after Pc.checking e =
      both (λ (t : Agent loader). t.threads) s.settings.self_check refl refl
  threads_after Pc.refused e = set_self s.threads i Pc.refused e
  threads_after Pc.finished e = set_self s.threads i Pc.finished e
  threads_after p e = refl

  pub flag_step :
      (p : Pc) → (dumper_step i found p s).dump_in_progress ≡ flag_after p s.dump_in_progress
  unfolding dumper_step
  flag_step Pc.starting = elim (Bool-cases s.dump_in_progress) [
    | inl busy ↦ rw busy
    | inr free ↦ rw free
  ]
  flag_step Pc.collecting =
      both (λ (t : Agent loader). t.dump_in_progress) s.settings.run_gc refl refl
  flag_step Pc.checking =
      both (λ (t : Agent loader). t.dump_in_progress) s.settings.self_check refl refl
  flag_step p = refl

  pub data_step : (p : Pc) → (dumper_step i found p s).thread_data ≡ data_after i p s.thread_data
  unfolding dumper_step
  data_step Pc.starting = both (λ (t : Agent loader). t.thread_data) s.dump_in_progress refl refl
  data_step Pc.collecting = both (λ (t : Agent loader). t.thread_data) s.settings.run_gc refl refl
  data_step Pc.checking = both (λ (t : Agent loader). t.thread_data) s.settings.self_check refl refl
  data_step p = refl

  pub pc_step :
      i < length s.threads
      → (p : Pc) → pc_at s.threads i ≡ p
      → (a : ℕ)
      → pc_at (dumper_step i found p s).threads a
        ≡ (if i == a then next p s.dump_in_progress else pc_at s.threads a)
  pc_step lt p e a =
      ap (λ ts. pc_at ts a) (threads_after p e)
      ∙ pc_at-set s.threads i a (next p s.dump_in_progress) lt
