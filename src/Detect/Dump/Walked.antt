-- ===== src/Detect/Dump/Walked.antt =====
-- The heap iterations keep the nodes rooted and every tag the address of a node.
use jleaker.Common.{
  ℕ, ◌<◌, ◌≤◌, ◌≡◌, refl, ◌∙◌, sym, subst, Option, none, some, List, [], ◌∷◌, length, Bool-cases,
  Option-cases, inl, inr, arith, ◌||◌,
}
use jleaker.Node.Defs.{Store}
use jleaker.Reference.Kind.{local_reference_of_this_thread}
use jleaker.Detect.Walk.{Config, Referrer, Outcome, cb_object_tag_referrer}
use jleaker.Detect.Walk.References.{TagInRange}
use jleaker.Detect.Rounds.{has_unfinished, reset_found}
use jleaker.Detect.Classes.Loop.{AreInRange, AreInRange-set_tag}
use jleaker.Detect.Dump.Defs.{
  Heap, HeapReference, Marks, is_marked, is_marked_one, has_tag, stray, referrer_of, class_tag,
  write_back, visit_reference, follow_references, heap_iterations,
}
use jleaker.Detect.Dump.Rooted.{IsRooted}
use jleaker.Detect.Dump.Recorded.{callback-IsRooted}

pub record IsSound (owners : ℕ → ℕ) (h : Heap) : Type 0 where
  pub rooted : IsRooted owners h.walk.nodes
  pub in_range : AreInRange h.walk.nodes h.tag

referrer_of-TagInRange :
    (h : Heap) (referrer : Option ℕ)
    → AreInRange h.walk.nodes h.tag
    → TagInRange h.walk.nodes (referrer_of h referrer)
referrer_of-TagInRange h none r = tt
referrer_of-TagInRange h (some o) r = of_tag (h.tag o) (λ a e. r o a e)
  where
    of_tag :
        (t : Option ℕ)
        → ((a : ℕ) → t ≡ some a → a < length h.walk.nodes)
        → TagInRange h.walk.nodes (Referrer.tag t)
    of_tag none f = tt
    of_tag (some a) f = f a refl

write_back-AreInRange :
    (st st' : Store) (tags : ℕ → Option ℕ) (referrer : Option ℕ) (t : Referrer)
    → length st ≤ length st'
    → TagInRange st' t
    → AreInRange st tags
    → AreInRange st' (write_back referrer t tags)
write_back-AreInRange st st' tags none t longer new r o a e = omega (arith, r o a e)
write_back-AreInRange st st' tags (some p) Referrer.no_object longer new r o a e =
    omega (arith, r o a e)
write_back-AreInRange st st' tags (some p) (Referrer.tag none) longer new r o a e =
    AreInRange-set_tag st st' tags p none longer (λ b f. cc) r o a e
write_back-AreInRange st st' tags (some p) (Referrer.tag (some b)) longer new r o a e =
    AreInRange-set_tag st st' tags p (some b) longer (λ c f. ground arith) r o a e

module _ (owners : ℕ → ℕ) (cfg : Config) (marks : Marks) where
  called :
      (r : HeapReference) (h h' : Heap) (this : ℕ) (out : Outcome)
      → IsSound owners h
      → h.tag r.referee ≡ some this
      → cb_object_tag_referrer cfg r.kind r.info this
          (class_tag h r.referrer_class)
          (referrer_of h r.referrer)
          h.walk
        ≡ out
      → ◌≡◌ {A = Option Heap}
          (elim out [
            | Outcome.fatal ↦ none
            | Outcome.visit w t ↦ some (record { walk = w; tag = write_back r.referrer t h.tag })
          ])
          (some h')
      → IsSound owners h'
  called r h h' this Outcome.fatal s at e same = absurd (cc)
  called r h h' this (Outcome.visit w t) s at e same =
      let (rooted, longer, in_range) =
        callback-IsRooted cfg r.kind r.info this owners h.walk w (class_tag h r.referrer_class)
          (referrer_of h r.referrer) t s.rooted (s.in_range r.referee this at)
          (referrer_of-TagInRange h r.referrer s.in_range) e in
      let after : Heap = record { walk = w; tag = write_back r.referrer t h.tag } in
      let ends : after ≡ h' = cc in
      subst (IsSound owners) ends (record {
        rooted = rooted;
        in_range =
            write_back-AreInRange h.walk.nodes w.nodes h.tag r.referrer t longer in_range
              s.in_range;
      })

  stray-IsSound :
      (r : HeapReference) (h h' : Heap)
      → IsSound owners h
      → stray cfg r h ≡ some h'
      → IsSound owners h'
  stray-IsSound r h h' s e =
      elim (Bool-cases (local_reference_of_this_thread cfg.thread_id r.kind r.info)) [
        | inl this ↦ let ends : h ≡ h' = ground arith in subst (IsSound owners) ends s
        | inr other ↦ absurd (ground arith)
      ]

  visit_reference-IsSound :
      (r : HeapReference) (h h' : Heap)
      → IsSound owners h
      → visit_reference cfg marks r h ≡ some h'
      → IsSound owners h'
  unfolding visit_reference
  visit_reference-IsSound r h h' s e = elim (Bool-cases (has_tag marks h r.referee_class)) [
    | inr filtered ↦
        let same : some h ≡ some h' = sym (rw (filtered, visit_reference) refl) ∙ e in
        let ends : h ≡ h' = cc in subst (IsSound owners) ends s
    | inl classed ↦ elim (Bool-cases (is_marked marks r.referee)) [
      | inl marked ↦
          stray-IsSound r h h' s (sym (rw (classed, visit_reference) (rw marked refl)) ∙ e)
      | inr unmarked ↦ elim (Option-cases (h.tag r.referee)) [
        | inl untagged ↦
            let same : some h ≡ some h' =
              sym (rw (classed, visit_reference) (rw unmarked (rw untagged refl))) ∙ e in
            let ends : h ≡ h' = cc in subst (IsSound owners) ends s
        | inr (this, at) ↦
            elim (Bool-cases
              (is_marked_one marks r.referrer_class || is_marked_one marks r.referrer)) [
                | inl marked ↦
                    stray-IsSound r h h' s (
                      sym (rw (classed, visit_reference) (rw unmarked (rw at (rw marked refl))))
                      ∙ e)
                | inr out ↦
                    called r h h' this _ s at refl
                      (sym (rw (classed, visit_reference) (rw unmarked (rw at (rw out refl)))) ∙ e)
              ]
      ]
    ]
  ]

  follow_references-IsSound :
      (rs : List HeapReference) (h h' : Heap)
      → IsSound owners h
      → follow_references cfg marks rs h ≡ some h'
      → IsSound owners h'
  unfolding follow_references
  follow_references-IsSound [] h h' s e = let ends : h ≡ h' = cc in subst (IsSound owners) ends s
  follow_references-IsSound (r ∷ rs) h h' s e =
      elim (Option-cases (visit_reference cfg marks r h)) [
        | inl died ↦ absurd (ground arith)
        | inr (h1, e1) ↦
            follow_references-IsSound rs h1 h' (visit_reference-IsSound r h h1 s e1)
              (sym (rw (e1, follow_references) refl) ∙ e)
      ]

  pub heap_iterations-IsSound :
      (rounds : List (List HeapReference)) (h h' : Heap)
      → IsSound owners h
      → heap_iterations cfg marks rounds h ≡ some h'
      → IsSound owners h'
  unfolding heap_iterations reset_found
  heap_iterations-IsSound [] h h' s e = let ends : h ≡ h' = cc in subst (IsSound owners) ends s
  heap_iterations-IsSound (rs ∷ rounds) h h' s e =
      let reset : Heap = record h { walk = reset_found cfg.number_of_leaks h.walk } in
      elim (Option-cases (follow_references cfg marks rs reset)) [
        | inl died ↦
            let same : ◌≡◌ {A = Option Heap} none (some h') =
              sym (rw (died, heap_iterations) refl) ∙ e in
            absurd (cc)
        | inr (h1, e1) ↦
            let s1 : IsSound owners h1 =
              follow_references-IsSound rs reset h1
                (record { rooted = s.rooted; in_range = s.in_range }) e1 in
            elim (Bool-cases (has_unfinished h1.walk cfg.number_of_leaks 0)) [
              | inl more ↦
                  heap_iterations-IsSound rounds h1 h' s1
                    (sym (rw (e1, heap_iterations) (rw more refl)) ∙ e)
              | inr finished ↦
                  let same : some h1 ≡ some h' =
                    sym (rw (e1, heap_iterations) (rw finished refl)) ∙ e in
                  let ends : h1 ≡ h' = cc in subst (IsSound owners) ends s1
            ]
      ]
