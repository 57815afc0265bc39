-- ===== src/Detect/Dump/Listed.antt =====
-- searchObjectsForLeaks and tagAllClasses hold each node that they make in a list.
use jleaker.Common.{
  ℕ, zero, suc, ◌+◌, ◌<◌, ◌≤◌, ◌≡◌, refl, ◌∙◌, sym, ap, true, false, ◌==◌, ltb, ltb→lt,
  if◌then◌else◌, Option, some, List, [], ◌∷◌, ◌++◌, length, length-set, length-append, set,
  get_or-append, get_or-beyond, Bytes, str_eq, Bool-cases, inl, inr, arith,
}
use jleaker.Common.Int.{ℤ, ltb_ℤ}
use jleaker.Reference.Fields.Total.{IsRanked}
use jleaker.Node.Defs.{IgnoreField, MemoryNode, Store, node_at, fresh_node, new_memory_node}
use jleaker.Node.Counts.{
  hit, refs_to, IsCounted-set, IsCounted-new, IsCounted-owned, fresh-referers,
}
use jleaker.Node.Free.Owners.{owners_of, owned}
use jleaker.Detect.Search.{
  SearchConfig, LeakingNode, SearchState, tag_index, object_size, object_printer, add_leak,
  search_object, search_objects_for_leaks,
}
use jleaker.Detect.Release.{leak_nodes}
use jleaker.Configuration.{StrMap}
use jleaker.Detect.Classes.Defs.{Loaded, State, tag_all_classes}
use jleaker.Detect.Classes.Loop.{ordinary, is_listed, addresses, AreInRange}
use jleaker.Detect.Classes.Tagged.{length-addresses}
use jleaker.Detect.Classes.Owned.{tag_all_classes-Owns}
use jleaker.Detect.Dump.Rooted.{IsRooted, Grows, Grows-trans, Grows-set, Grows-append, Leads-mono}

leak_owners-append :
    (ls : List LeakingNode) (l : LeakingNode) (a : ℕ)
    → owners_of (leak_nodes (ls ++ l ∷ [])) a ≡ owners_of (leak_nodes ls) a + hit (some l.node) a
unfolding owners_of
leak_owners-append [] l a = omega arith
leak_owners-append (x ∷ ls) l a = omega (arith, leak_owners-append ls l a)

module _ (st : Store) (k : ℕ) (n : MemoryNode) where
  -- A new node that a list takes up.
  pub IsRooted-new :
      {owners owners' : ℕ → ℕ}
      → IsRooted owners st
      → n.referers ≡ []
      → n.visited ≡ false
      → n.reference_pointing_to_me ≡ (fresh_node k).reference_pointing_to_me
      → ((a : ℕ) → owners' a ≡ owners a + hit (some (length st)) a)
      → IsRooted owners' (set (st ++ fresh_node k ∷ []) (length st) n)
  unfolding new_memory_node hit fresh_node refs_to
  IsRooted-new {owners} {owners'} r no_refs unmarked count same =
      let added = st ++ fresh_node k ∷ [] in
      let size = length-append st (fresh_node k ∷ []) in
      let grown = length-set added (length st) n in
      let fresh : node_at added (length st) ≡ fresh_node k =
        ground (arith, get_or-append st (fresh_node k) (length st) (fresh_node 0)) in
      let refs = no_refs ∙ ap (λ (x : MemoryNode). x.referers) (sym fresh) in
      let marks = unmarked ∙ ap (λ (x : MemoryNode). x.visited) (sym fresh) in
      let grows : Grows st (set added (length st) n) = Grows-trans (Grows-append st k) (
        Grows-set added (length st) n (omega (arith, size)) marks
          (λ b. omega (arith, ap (refs_to b) refs))) in
      record {
        counts =
            IsCounted-owned (length st)
              (IsCounted-set (length st) n
                (IsCounted-new k r.counts (r.within (length st) (omega arith)))
                (omega (arith, size)) refs
                (count ∙ ap (λ (x : MemoryNode). x.reference_pointing_to_me) (sym fresh)))
              same;
        clear = λ a. grows.same_marks a ∙ r.clear a;
        within = λ a le. ground (arith, same a, r.within a, size, grown);
        led = λ a lt. elim (Bool-cases (a == length st)) [
          | inl this ↦ owned a (ground (arith, same a))
          | inr old ↦
              Leads-mono (λ b. omega (arith, same b)) grows.more a
                (r.led a (ground (arith, size, grown)))
        ];
      }

unmarked : (k : ℕ) → (fresh_node k).visited ≡ false
unfolding fresh_node
unmarked k = refl

-- Each node is held by the list of leaks or reached from it.
abbrev pub IsListed : SearchState → Type 0
IsListed s = IsRooted (owners_of (leak_nodes s.leaks)) s.nodes

add_leak-IsListed :
    (object : ℕ) (size : ℤ) (fn : Option ℕ) (s : SearchState)
    → IsListed s
    → IsListed (add_leak object size fn s)
unfolding add_leak new_memory_node
add_leak-IsListed object size fn s r =
    let k = s.number_of_leaks + 1 in
    let fresh : node_at (s.nodes ++ fresh_node k ∷ []) (length s.nodes) ≡ fresh_node k =
      ground (arith, get_or-append s.nodes (fresh_node k) (length s.nodes) (fresh_node 0)) in
    IsRooted-new s.nodes k _ r (ap (λ (x : MemoryNode). x.referers) fresh ∙ fresh-referers k)
      (ap (λ (x : MemoryNode). x.visited) fresh ∙ unmarked k)
      (ap (λ (x : MemoryNode). x.reference_pointing_to_me) fresh) (leak_owners-append s.leaks _)

search_object-IsListed :
    (cfg : SearchConfig) (object : ℕ) (tag : ℤ) (s : SearchState)
    → IsListed s
    → IsListed (search_object cfg object tag s)
unfolding search_object
search_object-IsListed cfg object tag s r =
    let idx = tag_index (length cfg.print_fns) tag in
    let size = object_size cfg object idx in
    elim (Bool-cases (ltb_ℤ cfg.size_threshold size)) [
      | inl above ↦ rw above (add_leak-IsListed object size (object_printer cfg idx) s r)
      | inr below ↦ rw below r
    ]

pub search-IsListed :
    (cfg : SearchConfig) (os : List (ℕ × ℤ)) (s : SearchState)
    → IsListed s
    → IsListed (search_objects_for_leaks cfg os s)
unfolding search_objects_for_leaks
search-IsListed cfg [] s r = r
search-IsListed cfg (o ∷ os) s r =
    search-IsListed cfg os (search_object cfg o.0 o.1 s) (search_object-IsListed cfg o.0 o.1 s r)

owners_of-addresses :
    (start n a : ℕ) → start ≤ a → a < start + n → 0 < owners_of (addresses start n) a
unfolding owners_of addresses hit
owners_of-addresses start zero a le lt = absurd (omega arith)
owners_of-addresses start (suc n) a le lt = elim (Bool-cases (start == a)) [
  | inl this ↦ ground arith
  | inr later ↦ ground (arith, owners_of-addresses (start + 1) n a (ground arith) (omega arith))
]

below-addresses : (start n a : ℕ) → a < start → owners_of (addresses start n) a ≡ 0
unfolding owners_of addresses hit
below-addresses start zero a lt = refl
below-addresses start (suc n) a lt = ground (arith, below-addresses (start + 1) n a (omega arith))

addresses_once : (start n a : ℕ) → owners_of (addresses start n) a ≤ 1
unfolding owners_of addresses hit
addresses_once start zero a = omega arith
addresses_once start (suc n) a = elim (Bool-cases (start == a)) [
  | inl this ↦ ground (arith, below-addresses (start + 1) n a (ground arith))
  | inr later ↦ ground (arith, addresses_once (start + 1) n a)
]

-- Nodes that are what they were have the references that they had.
kept :
    (st st' : Store)
    → ((a : ℕ) → a < length st → node_at st' a ≡ node_at st a)
    → (a b : ℕ) → refs_to b (node_at st a).referers ≤ refs_to b (node_at st' a).referers
unfolding refs_to fresh_node
kept st st' same a b = elim (Bool-cases (ltb a (length st))) [
  | inl within ↦
      omega (
        arith,
        ap (λ (x : MemoryNode). refs_to b x.referers) (same a (ltb→lt a (length st) within)),
      )
  | inr past ↦ omega (
    arith,
    ap (λ (x : MemoryNode). refs_to b x.referers)
        (get_or-beyond st a (fresh_node 0) (ground arith)),
  )
]

module _ (strmap : StrMap) (loaded : Loaded) (rank : ℕ → ℕ) (ranked : IsRanked loaded.jvm rank)
    (found_last : (m : strmap.Map) (k k' : Bytes) (v : List IgnoreField)
      → strmap.get (strmap.put m k v) k' ≡ (if str_eq k k' then some v else strmap.get m k'))
    (fuel n : ℕ) where
  -- The nodes of the classes are held by their list.
  pub tag_all_classes-IsRooted :
      (held : ℕ → ℕ) (classes : List ℕ) (s : State strmap)
      → ((c : ℕ) → is_listed c classes ≡ true → rank c < fuel)
      → IsRooted held s.nodes
      → (last : State strmap) × (tag_all_classes strmap loaded fuel n classes s ≡ some last)
        × IsRooted (λ a. held a + owners_of last.class_nodes a) last.nodes
        × (AreInRange s.nodes s.tag → AreInRange last.nodes last.tag)
        × ((a : ℕ) → owners_of last.class_nodes a ≤ 1)
  tag_all_classes-IsRooted held classes s enough r =
      let (last, e, owns, listed, size, room, same_nodes, same_tags, clear, in_range) =
        tag_all_classes-Owns strmap loaded rank ranked found_last fuel n held classes s enough
          r.counts r.within in
      let number : length last.class_nodes ≡ ordinary loaded classes =
        ap length listed ∙ length-addresses (length s.nodes) (ordinary loaded classes) in
      (
        last,
        e,
        record {
          counts = owns.counts;
          clear = clear r.clear;
          within = owns.within;
          led = λ a lt. elim (Bool-cases (ltb a (length s.nodes))) [
            | inl old ↦
                Leads-mono (λ b. omega arith) (kept s.nodes last.nodes same_nodes) a
                  (r.led a (ltb→lt a (length s.nodes) old))
            | inr new ↦ owned a (
                omega (
                  arith,
                  ap (λ xs. owners_of xs a) listed,
                  owners_of-addresses (length s.nodes) (ordinary loaded classes) a (ground arith)
                      (omega (arith, number, size)),
                ))
          ];
        },
        in_range,
        λ a. omega (
          arith,
          ap (λ xs. owners_of xs a) listed,
          addresses_once (length s.nodes) (ordinary loaded classes) a,
        ),
      )
