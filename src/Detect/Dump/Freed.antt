-- ===== src/Detect/Dump/Freed.antt =====
-- What a dump leaves at its end, and the dump that finds no leak.
use jleaker.Common.{
  ℕ, suc, ◌<◌, ◌≡◌, refl, ◌∙◌, ap, subst, true, ◌==◌, ==_refl, ◌⊎◌, if◌then◌else◌, Option, none,
  List, [], ◌∷◌, map, length, Bool-cases, Option-cases, inl, inr, arith,
}
use jleaker.Common.Int.{ℤ, pos}
use jleaker.Reference.Chain.Untouched.{Untouched}
use jleaker.Output.{Output}
use jleaker.Node.Defs.{Store, node_at}
use jleaker.Node.Counts.{hit, refs_to, edges_to}
use jleaker.Node.Free.{Memory}
use jleaker.Node.Free.Owners.{owners_of, Leads, owned, referred, fresh_memory}
use jleaker.Detect.Search.{LeakingNode, SearchState}
use jleaker.Detect.Release.{Released, misread, released, leak_nodes}
use jleaker.Detect.Classes.Defs.{set_tag}
use jleaker.Detect.Classes.Loop.{List-cases, is_listed}
use jleaker.Detect.Dump.Defs.{
  Marks, clear_mark, clear_marks, untag_classes, untag_all_classes, tags_after, Dump, stopped,
  dumped,
}
use jleaker.Detect.Dump.Rooted.{IsRooted, Leads-mono}
use jleaker.Detect.Dump.Listed.{IsListed}
use jleaker.Detect.Dump.Tagged.{AreSearched}

edges_to-same :
    (st st' : Store) (b : ℕ)
    → length st' ≡ length st
    → ((a : ℕ) → (node_at st' a).referers ≡ (node_at st a).referers)
    → edges_to b st' ≡ edges_to b st
unfolding edges_to
edges_to-same [] [] b e same = refl
edges_to-same [] (n ∷ st') b e same = absurd (omega arith)
edges_to-same (n ∷ st) [] b e same = absurd (omega arith)
edges_to-same (n ∷ st) (n' ∷ st') b e same =
    omega (arith, ap (refs_to b) (same 0), edges_to-same st st' b (omega arith) (λ a. same (suc a)))

-- What printing leaves alone is enough.
pub IsRooted-Untouched :
    (held : ℕ → ℕ) (st st' : Store) → Untouched st st' → IsRooted held st → IsRooted held st'
IsRooted-Untouched held st st' u r =
    let refs : (a : ℕ) → (node_at st' a).referers ≡ (node_at st a).referers =
      λ a. ap (λ x. x.0) (u.same a) in
    let size = u.same_length in
    record {
      counts = record {
        counted = λ a lt.
            ap (λ x. x.1) (u.same a)
            ∙ r.counts.counted a (omega (arith, size))
            ∙ ap pos (omega (arith, edges_to-same st st' a size refs));
        closed = λ a le.
            omega
              (arith, r.counts.closed a (omega (arith, size)), edges_to-same st st' a size refs);
      };
      clear = λ a. ap (λ x. x.2) (u.same a) ∙ r.clear a;
      within = λ a le. r.within a (omega (arith, size));
      led = λ a lt.
          Leads-mono (λ b. omega arith) (λ b c. omega (arith, ap (refs_to c) (refs b))) a
            (r.led a (omega (arith, size)));
    }

-- A class node has references.
abbrev pub HasReferences : List ℕ → Store → Type 0
HasReferences class_nodes st =
    (a : ℕ) × (0 < owners_of class_nodes a) × ((node_at st a).referers ≡ [] → ⊥)

-- What the release does to the nodes.
abbrev pub IsReleased : List ℕ → Store → Released → Type 0
IsReleased class_nodes st r =
    ((r ≡ misread) × HasReferences class_nodes st)
    ⊎ ((last : Memory) × (r ≡ released last)
        × ((a : ℕ) → a < length st → last.freed a ≡ true)
        × (last.nodes_freed ≡ length st))

-- Either one has, or none of them.
pub references-cases :
    (class_nodes : List ℕ) (st : Store)
    → HasReferences class_nodes st
      ⊎ ((a : ℕ) → 0 < owners_of class_nodes a → (node_at st a).referers ≡ [])
unfolding owners_of hit
references-cases [] st = inr (λ a lt. absurd (omega arith))
references-cases (x ∷ xs) st = elim (references-cases xs st) [
  | inl (a, lt, some_left) ↦ inl (a, omega arith, some_left)
  | inr none_left ↦ elim (List-cases (node_at st x).referers) [
    | inr (r, rs, e) ↦ inl (x, ground (arith, ==_refl x), λ empty. cc)
    | inl empty ↦ inr (λ a lt. elim (Bool-cases (x == a)) [
      | inr other ↦ none_left a (ground arith)
      | inl this ↦
          let same : x ≡ a = ground arith in subst (λ b. (node_at st b).referers ≡ []) same empty
    ])
  ]
]

-- The end of a dump that finds the given leaks: with a leak, the process ends before, or the classes that
-- are then loaded have no tag and all nodes that were allocated are freed, or untagAllClasses meets a
-- class node that is not freed, and one of the class nodes has references. Without a leak
-- no node is allocated, no object has an address as its tag, and the objects that were not searched
-- keep the tags of the first walk.
pub data AllFreed (objects : List (ℕ × ℤ)) (classes : List ℕ) (marks : Marks)
    : List LeakingNode → Dump → Type 0 where
  stops :
      {leak : LeakingNode} {leaks : List LeakingNode}
      → AllFreed objects classes marks (leak ∷ leaks) stopped
  frees :
      {leak : LeakingNode} {leaks : List LeakingNode} {st : Store} {class_nodes : List ℕ}
      {r : Released} {tags : ℕ → Option ℕ} {left : Marks} {o : Output} (last : Memory)
      → r ≡ released last
      → ((a : ℕ) → a < length st → last.freed a ≡ true)
      → last.nodes_freed ≡ length st
      → ((c : ℕ) → is_listed c classes ≡ true → (tags c ≡ none) × (left c ≡ none))
      → AllFreed objects classes marks (leak ∷ leaks) (dumped st class_nodes r tags left o)
  misreads :
      {leak : LeakingNode} {leaks : List LeakingNode} {st : Store} {class_nodes : List ℕ}
      {r : Released} {tags : ℕ → Option ℕ} {left : Marks} {o : Output}
      → r ≡ misread
      → HasReferences class_nodes st
      → ((c : ℕ) → is_listed c classes ≡ true → (tags c ≡ none) × (left c ≡ none))
      → AllFreed objects classes marks (leak ∷ leaks) (dumped st class_nodes r tags left o)
  none_found :
      {r : Released} {tags : ℕ → Option ℕ} {left : Marks} {o : Output} (last : Memory) {st : Store}
      → length st ≡ 0
      → r ≡ released last
      → last.nodes_freed ≡ 0
      → ((x : ℕ) → tags x ≡ none)
      → ((x : ℕ) → left x ≡ (if is_listed x (map (λ t. t.0) objects) then none else marks x))
      → AllFreed objects classes marks [] (dumped st [] r tags left o)

untag_classes-kept :
    (classes : List ℕ) (tags : ℕ → Option ℕ) (c : ℕ)
    → tags c ≡ none
    → untag_classes classes tags c ≡ none
unfolding untag_classes
untag_classes-kept [] tags c e = e
untag_classes-kept (k ∷ ks) tags c e = untag_classes-kept ks (set_tag k none tags) c (ground arith)

pub untag_classes-none :
    (classes : List ℕ) (tags : ℕ → Option ℕ) (c : ℕ)
    → is_listed c classes ≡ true
    → untag_classes classes tags c ≡ none
unfolding untag_classes is_listed
untag_classes-none [] tags c listed = cc
untag_classes-none (k ∷ ks) tags c listed = elim (Bool-cases (c == k)) [
  | inl this ↦ untag_classes-kept ks (set_tag k none tags) c (ground arith)
  | inr later ↦ untag_classes-none ks (set_tag k none tags) c (ground arith)
]

clear_marks-kept :
    (classes : List ℕ) (marks : Marks) (c : ℕ) → marks c ≡ none → clear_marks classes marks c ≡ none
unfolding clear_marks
clear_marks-kept [] marks c e = e
clear_marks-kept (k ∷ ks) marks c e = clear_marks-kept ks (clear_mark k marks) c (ground arith)

pub clear_marks-none :
    (classes : List ℕ) (marks : Marks) (c : ℕ)
    → is_listed c classes ≡ true
    → clear_marks classes marks c ≡ none
unfolding clear_marks is_listed
clear_marks-none [] marks c listed = absurd (cc)
clear_marks-none (k ∷ ks) marks c listed = elim (Bool-cases (c == k)) [
  | inl this ↦ clear_marks-kept ks (clear_mark k marks) c (ground arith)
  | inr later ↦ clear_marks-none ks (clear_mark k marks) c (ground arith)
]

-- No owner leads anywhere.
none-Leads : (st : Store) (a : ℕ) → Leads (owners_of []) st a → ⊥
unfolding owners_of
none-Leads st a (owned b lt) = omega arith
none-Leads st a (referred b c led lt) = none-Leads st b led

length-unowned : (st : Store) → IsRooted (owners_of []) st → length st ≡ 0
length-unowned [] r = refl
length-unowned (n ∷ st) r = absurd (none-Leads (n ∷ st) 0 (r.led 0 (omega arith)))

-- Without a leak there is no node and no address as a tag.
pub nothing_found :
    (s : SearchState) (objects : List (ℕ × ℤ)) (classes : List ℕ) (marks left : Marks) (o : Output)
    → s.leaks ≡ []
    → IsListed s
    → AreSearched s
    → ((x : ℕ) → left x ≡ (if is_listed x (map (λ t. t.0) objects) then none else marks x))
    → let end =
        untag_all_classes
          (suc (length s.nodes))
          classes
          none
          (tags_after s.tags)
          left
          (fresh_memory s.nodes) in
      AllFreed objects classes marks [] (dumped s.nodes [] end.0 end.1 end.2 o)
unfolding untag_all_classes
nothing_found s objects classes marks left o no_leak listed tagged same =
    let empty : length s.nodes ≡ 0 =
      length-unowned s.nodes
        (subst (λ ls. IsRooted (owners_of (leak_nodes ls)) s.nodes) no_leak listed) in
    none_found (fresh_memory s.nodes) empty refl refl
      (λ c. elim (Option-cases (tags_after s.tags c)) [
        | inl untagged ↦ untagged
        | inr (a, e) ↦ absurd (omega (arith, tagged c a e))
      ])
      same
