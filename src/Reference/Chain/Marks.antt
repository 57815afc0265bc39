-- ===== src/Reference/Chain/Marks.antt =====
-- A search for a chain takes off each mark that it sets, and leaves the references and the counts.
use jleaker.Common.{
  ℕ, zero, suc, ◌≡◌, refl, ◌∙◌, sym, ap, ap₂, Bool, true, false, ◌==◌, ==_iff, ltb, ltb→lt, Option,
  none, some, List, [], ◌∷◌, length, length-set, get_or-set, get_or-beyond, subst, Bool-cases,
  Option-cases, inl, inr, arith,
}
use jleaker.Common.Int.{ℤ}
use jleaker.Bitmask
use jleaker.Reference.Kind.{is_root_reference, should_consider_this_reference}
use jleaker.Node.Defs.{MemoryReferer, MemoryNode, Store, node_at, fresh_node}
use jleaker.Node.Update.{node_at-set_self}
use jleaker.Reference.Chain.Defs.{
  Jvm, Search, exhausted, fatal, ends, fill_class_in_memory_node, set_visited, remove_leak,
  refs_loop, search_filled, finish, generate_references_chain_for_node,
}
use jleaker.Reference.Chain.Untouched.{
  essence, Untouched, Untouched-refl, Untouched-trans, part_kept, Untouched-set, fill-Untouched,
}

-- The store after a search, if it returns.
pub data Leaves (P : Store → Type 0) : Search → Type 0 where
  no_fuel : Leaves P exhausted
  died : Leaves P fatal
  left : {refs : List MemoryReferer} {st : Store} → P st → Leaves P (ends refs st)

Leaves-trans :
    {st st' : Store} {out : Search}
    → Untouched st st'
    → Leaves (Untouched st') out
    → Leaves (Untouched st) out
Leaves-trans u no_fuel = no_fuel
Leaves-trans u died = died
Leaves-trans u (left v) = left (Untouched-trans u v)

remove_leak-Untouched : (leak : ℕ) (st : Store) (node : ℕ) → Untouched st (remove_leak leak st node)
unfolding remove_leak
remove_leak-Untouched leak st node = Untouched-set st node _ refl

-- The references and the count.
abbrev body : MemoryNode → List MemoryReferer × ℤ
body n = (n.referers, n.reference_pointing_to_me)

set_visited-body :
    (b : Bool) (st : Store) (node a : ℕ)
    → body (node_at (set_visited b st node) a) ≡ body (node_at st a)
unfolding set_visited
set_visited-body b st node a = part_kept body st node a _ refl

set_visited-other :
    (b : Bool) (st : Store) (node a : ℕ)
    → (node == a) ≡ false
    → node_at (set_visited b st node) a ≡ node_at st a
unfolding set_visited
set_visited-other b st node a other =
    ground (arith, get_or-set st node a (record (node_at st node) { visited = b }) (fresh_node 0))

unmarked_there :
    (st : Store) (node : ℕ) → (node_at (set_visited false st node) node).visited ≡ false
unfolding set_visited fresh_node
unmarked_there st node = elim (Bool-cases (ltb node (length st))) [
  | inl within ↦
      ap (λ (x : MemoryNode). x.visited)
        (node_at-set_self st node (record (node_at st node) { visited = false })
          (ltb→lt node (length st) within))
  | inr past ↦
      ap (λ (x : MemoryNode). x.visited)
        (get_or-beyond (set_visited false st node) node (fresh_node 0)
          (ground (arith, length-set st node (record (node_at st node) { visited = false }))))
]

mark_off :
    (st st' : Store) (node a : ℕ)
    → (node_at st node).visited ≡ false
    → Untouched (set_visited true st node) st'
    → essence (node_at (set_visited false st' node) a) ≡ essence (node_at st a)
mark_off st st' node a clear u = elim (Bool-cases (node == a)) [
  | inr other ↦
      ap essence (set_visited-other false st' node a other)
      ∙ u.same a
      ∙ ap essence (set_visited-other true st node a other)
  | inl this ↦
      let e : node ≡ a = (==_iff node a).0 this in
      ap₂ (λ (x : List MemoryReferer × ℤ) v. (x.0, x.1, v))
        (set_visited-body false st' node a
          ∙ ap (λ (x : List MemoryReferer × ℤ × Bool). (x.0, x.1)) (u.same a)
          ∙ set_visited-body true st node a)
        (subst (λ c. (node_at (set_visited false st' node) c).visited ≡ (node_at st c).visited) e
          (unmarked_there st' node ∙ sym clear))
]

-- Marking the node, what leaves the marks, and taking the mark off again.
finish-Untouched :
    (st : Store) (node : ℕ) (out : Search)
    → (node_at st node).visited ≡ false
    → Leaves (Untouched (set_visited true st node)) out
    → Leaves (Untouched st) (finish node out)
unfolding finish set_visited
finish-Untouched st node exhausted clear no_fuel = no_fuel
finish-Untouched st node fatal clear died = died
finish-Untouched st node (ends refs st') clear (left u) = left (record {
  same_length = length-set st' node _ ∙ u.same_length ∙ length-set st node _;
  same = λ a. mark_off st st' node a clear u;
})

module _ (jvm : Jvm) (consider : Bool) (leak : ℕ) where
  -- The recursive call leaves the nodes as they were.
  abbrev Inner : (ℕ → Store → Search) → Type 0
  Inner inner = (next : ℕ) (st : Store) → Leaves (Untouched st) (inner next st)

  refs_loop-Untouched :
      (inner : ℕ → Store → Search)
      → Inner inner
      → (node : ℕ) (rs : List MemoryReferer) (st : Store)
      → Leaves (Untouched st) (refs_loop jvm consider leak inner node rs st)
  unfolding refs_loop
  refs_loop-Untouched inner ok node [] st = left (Untouched-refl st)
  refs_loop-Untouched inner ok node (r ∷ rs) st =
      elim (Bool-cases (should_consider_this_reference consider r.kind)) [
        | inr skipped ↦ rw (skipped, refs_loop) (refs_loop-Untouched inner ok node rs st)
        | inl considered ↦ elim (Bool-cases (is_root_reference r.kind)) [
          | inl root ↦ rw (considered, root, refs_loop) (left (Untouched-refl st))
          | inr inside ↦ elim (Option-cases r.node) [
            | inl null ↦ rw (considered, inside, null, refs_loop) died
            | inr (next, to) ↦
                rw (considered, inside, to, refs_loop)
                  (searched inner ok node r rs st (inner next st) (ok next st)
                    (λ st'. refs_loop-Untouched inner ok node rs st'))
          ]
        ]
      ]
    where
      searched :
          (inner : ℕ → Store → Search) (ok : Inner inner) (node : ℕ) (r : MemoryReferer)
          (rs : List MemoryReferer) (st : Store) (out : Search)
          → Leaves (Untouched st) out
          → ((st' : Store) → Leaves (Untouched st') (refs_loop jvm consider leak inner node rs st'))
          → Leaves (Untouched st) (elim out [
            | exhausted ↦ exhausted
            | fatal ↦ fatal
            | ends [] st' ↦ refs_loop jvm consider leak inner node rs (remove_leak leak st' node)
            | ends (s ∷ ss) st' ↦ ends (r ∷ s ∷ ss) st'
          ])
      searched inner ok node r rs st exhausted no_fuel rest = no_fuel
      searched inner ok node r rs st fatal died rest = died
      searched inner ok node r rs st (ends [] st') (left u) rest =
          Leaves-trans (Untouched-trans u (remove_leak-Untouched leak st' node))
            (rest (remove_leak leak st' node))
      searched inner ok node r rs st (ends (s ∷ ss) st') (left u) rest = left u

  search_filled-Untouched :
      (inner : ℕ → Store → Search) (ok : Inner inner) (node : ℕ) (st : Store)
      (filled : Option Store)
      → ((st' : Store) → filled ≡ some st' → Untouched st st')
      → Leaves (Untouched st) (search_filled jvm consider leak inner node filled)
  unfolding search_filled
  search_filled-Untouched inner ok node st none u = died
  search_filled-Untouched inner ok node st (some st') u =
      elim (Bool-cases (node_at st' node).dead) [
        | inl dead ↦ rw (dead, search_filled) (left (u st' refl))
        | inr alive ↦
            rw (alive, search_filled)
              (Leaves-trans (u st' refl)
                (refs_loop-Untouched inner ok node (node_at st' node).referers st'))
      ]

  -- A search leaves the references, the counts and the marks of all nodes as they were.
  pub generate-Untouched :
      (fuel node : ℕ) (st : Store)
      → Leaves (Untouched st) (generate_references_chain_for_node jvm consider leak fuel node st)
  unfolding generate_references_chain_for_node
  generate-Untouched zero node st = no_fuel
  generate-Untouched (suc fuel) node st = elim (Bool-cases (node_at st node).visited) [
    | inl marked ↦ rw marked (left (Untouched-refl st))
    | inr new ↦ elim (Bool-cases (Bitmask.contains (node_at st node).leaks_related leak)) [
      | inr elsewhere ↦ rw (new, elsewhere) (left (Untouched-refl st))
      | inl here ↦
          rw (new, here)
            (finish-Untouched st node _ new (
              search_filled-Untouched (generate_references_chain_for_node jvm consider leak fuel)
                (generate-Untouched fuel) node (set_visited true st node)
                (fill_class_in_memory_node jvm (set_visited true st node) node)
                (λ st'. fill-Untouched jvm (set_visited true st node) st' node)))
    ]
  ]
