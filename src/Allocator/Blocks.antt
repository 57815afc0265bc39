-- ===== src/Allocator/Blocks.antt =====
-- The list of the allocator holds the blocks that are allocated and not freed, in their order.
use mathlib.Core.List.{append_assoc}
use jleaker.Common.{
  ℕ, ◌+◌, ◌≡◌, refl, sym, subst, true, false, ◌==◌, ==_refl, List, [], ◌∷◌, ◌++◌, length,
  length-append, Bytes, arith,
}
use jleaker.Allocator.Defs.{
  Allocator, head, tail, init_allocator, fill_malloc_node, my_alloc, my_free,
}
use jleaker.Allocator.Linked.{
  IsApart, IsApart-front, AreDistinct, IsLinked, IsLinked-append, IsLinked-unlink,
}

apart_back : (a b : ℕ) → (a == b) ≡ false → (b == a) ≡ false
apart_back a b e = ground arith

IsApart-last_one : (a : ℕ) (xs : List ℕ) (b : ℕ) → IsApart a (xs ++ b ∷ []) → (a == b) ≡ false
IsApart-last_one a [] b (here, u) = here
IsApart-last_one a (x ∷ xs) b (here, later) = IsApart-last_one a xs b later

AreDistinct-front :
    (xs : List ℕ) (b : ℕ) → AreDistinct (xs ++ b ∷ []) → AreDistinct xs × IsApart b xs
AreDistinct-front [] b d = (tt, tt)
AreDistinct-front (x ∷ xs) b (here, later) =
    let (d, b_xs) = AreDistinct-front xs b later in
    ((IsApart-front x xs (b ∷ []) here, d), (apart_back x b (IsApart-last_one x xs b here), b_xs))

IsApart-insert :
    (a : ℕ) (xs : List ℕ) (n : ℕ) (zs : List ℕ)
    → IsApart a (xs ++ zs)
    → (a == n) ≡ false
    → IsApart a (xs ++ n ∷ zs)
IsApart-insert a [] n zs u e = (e, u)
IsApart-insert a (x ∷ xs) n zs (here, later) e = (here, IsApart-insert a xs n zs later e)

AreDistinct-insert :
    (xs : List ℕ) (n b : ℕ)
    → AreDistinct (xs ++ b ∷ [])
    → IsApart n (xs ++ b ∷ [])
    → AreDistinct (xs ++ n ∷ b ∷ [])
AreDistinct-insert [] n b d u = (u, d)
AreDistinct-insert (x ∷ xs) n b (here, later) (n_x, u) =
    (IsApart-insert x xs n (b ∷ []) here (apart_back n x n_x), AreDistinct-insert xs n b later u)

IsApart-remove :
    (a : ℕ) (xs : List ℕ) (p : ℕ) (zs : List ℕ) → IsApart a (xs ++ p ∷ zs) → IsApart a (xs ++ zs)
IsApart-remove a [] p zs (here, later) = later
IsApart-remove a (x ∷ xs) p zs (here, later) = (here, IsApart-remove a xs p zs later)

AreDistinct-remove :
    (xs : List ℕ) (p : ℕ) (zs : List ℕ) → AreDistinct (xs ++ p ∷ zs) → AreDistinct (xs ++ zs)
AreDistinct-remove [] p zs (here, later) = later
AreDistinct-remove (x ∷ xs) p zs (here, later) =
    (IsApart-remove x xs p zs here, AreDistinct-remove xs p zs later)

-- With the self check on, the allocator's list is that of the blocks, which differ from each other and
-- from the two ends, and the counters differ by their number.
pub record Tracks (a : Allocator) (blocks : List ℕ) : Type 0 where
  pub checks : a.self_check ≡ true
  pub linked : IsLinked a.heap head blocks tail
  pub distinct : AreDistinct (head ∷ (blocks ++ tail ∷ []))
  pub counted : a.allocations ≡ a.frees + length blocks

pub init-Tracks : (a : Allocator) → Tracks (init_allocator true a) []
unfolding init_allocator
init-Tracks a = record {
  checks = refl;
  linked = (refl, refl);
  distinct = ((refl, tt), (tt, tt));
  counted = refl;
}

pub alloc-Tracks :
    (a : Allocator) (blocks : List ℕ) (n : ℕ) (file : Bytes) (line : ℕ)
    → Tracks a blocks
    → IsApart n (head ∷ (blocks ++ tail ∷ []))
    → Tracks (my_alloc n file line a) (blocks ++ n ∷ [])
unfolding my_alloc
alloc-Tracks a blocks n file line t fresh =
    let all = head ∷ blocks in
    let (d, tail_apart) = AreDistinct-front all tail t.distinct in
    record {
      checks = t.checks;
      linked = rw t.checks (
          IsLinked-append a.heap n file line head blocks t.linked d tail_apart
            (IsApart-front n all (tail ∷ []) fresh) (IsApart-last_one n all tail fresh));
      distinct =
          subst (λ zs. AreDistinct (head ∷ zs)) (sym (append_assoc blocks (n ∷ []) (tail ∷ [])))
            (AreDistinct-insert all n tail t.distinct fresh);
      counted = omega (arith, t.counted, length-append blocks (n ∷ []));
    }

free-Tracks :
    (a : Allocator) (xs ys : List ℕ) (p : ℕ)
    → Tracks a (xs ++ p ∷ ys)
    → Tracks (my_free p a) (xs ++ ys)
unfolding my_free
free-Tracks a xs ys p t =
    let d : AreDistinct (head ∷ (xs ++ p ∷ (ys ++ tail ∷ []))) =
      subst (λ zs. AreDistinct (head ∷ zs)) (append_assoc xs (p ∷ ys) (tail ∷ [])) t.distinct in
    record {
      checks = t.checks;
      linked = rw t.checks (IsLinked-unlink a.heap head xs p ys tail t.linked d);
      distinct =
          subst (λ zs. AreDistinct (head ∷ zs)) (sym (append_assoc xs ys (tail ∷ [])))
            (AreDistinct-remove (head ∷ xs) p (ys ++ tail ∷ []) d);
      counted = omega (arith, t.counted, length-append xs (p ∷ ys), length-append xs ys);
    }

-- After initAllocator with the self check on there is no block; _myAlloc adds the block that malloc
-- gives, if its address is new, behind the others, with its file and line; myFree takes out the block
-- that it is given and leaves the others in their order.
pub operations-Tracks :
    (a : Allocator) (blocks xs ys : List ℕ) (n p : ℕ) (file : Bytes) (line : ℕ)
    → Tracks a blocks
    → IsApart n (head ∷ (blocks ++ tail ∷ []))
    → blocks ≡ xs ++ p ∷ ys
    → Tracks (init_allocator true a) []
      × Tracks (my_alloc n file line a) (blocks ++ n ∷ [])
      × ((my_alloc n file line a).heap.file n ≡ file)
      × ((my_alloc n file line a).heap.line n ≡ line)
      × Tracks (my_free p a) (xs ++ ys)
unfolding my_alloc fill_malloc_node
operations-Tracks a blocks xs ys n p file line t fresh split = (
  init-Tracks a,
  alloc-Tracks a blocks n file line t fresh,
  rw t.checks (ground (arith, ==_refl n)),
  rw t.checks (ground (arith, ==_refl n)),
  free-Tracks a xs ys p (subst (Tracks a) split t),
)
