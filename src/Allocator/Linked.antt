-- ===== src/Allocator/Linked.antt =====
-- Doubly linked segments of the heap, and the two writes of a block's links.
use jleaker.Common.{
  ℕ, ◌≡◌, refl, ◌∙◌, sym, subst, false, ◌==◌, ==_refl, List, [], ◌∷◌, ◌++◌, Bytes, arith,
}
use jleaker.Allocator.Defs.{Heap, tail, fill_malloc_node, unlink}

-- The address is none of the list.
abbrev pub IsApart : ℕ → List ℕ → Type 0
IsApart a [] = Unit {0}
IsApart a (x ∷ xs) = ((a == x) ≡ false) × IsApart a xs

abbrev pub AreDistinct : List ℕ → Type 0
AreDistinct [] = Unit {0}
AreDistinct (x ∷ xs) = IsApart x xs × AreDistinct xs

-- From `a` through the blocks to `b`, forwards and backwards.
abbrev pub IsLinked : Heap → ℕ → List ℕ → ℕ → Type 0
IsLinked h a [] b = (h.next a ≡ b) × (h.prev b ≡ a)
IsLinked h a (x ∷ xs) b = (h.next a ≡ x) × (h.prev x ≡ a) × IsLinked h x xs b

abbrev pub last : ℕ → List ℕ → ℕ
last a [] = a
last a (x ∷ xs) = last x xs

prev-last : (h : Heap) (a : ℕ) (xs : List ℕ) (b : ℕ) → IsLinked h a xs b → h.prev b ≡ last a xs
prev-last h a [] b (forth, back) = back
prev-last h a (x ∷ xs) b (forth, back, rest) = prev-last h x xs b rest

IsApart-last : (a x : ℕ) (xs : List ℕ) → IsApart a (x ∷ xs) → (a == last x xs) ≡ false
IsApart-last a x [] (here, later) = here
IsApart-last a x (y ∷ xs) (here, later) = IsApart-last a y xs later

apart_sym : (a b : ℕ) → (a == b) ≡ false → (b == a) ≡ false
apart_sym a b e = ground arith

-- Links that are the same where a segment reads them.
pub IsLinked-same :
    (h h' : Heap) (a : ℕ) (xs : List ℕ) (b : ℕ)
    → ((x : ℕ) → h'.next x ≡ h.next x)
    → ((x : ℕ) → h'.prev x ≡ h.prev x)
    → IsLinked h a xs b
    → IsLinked h' a xs b
IsLinked-same h h' a [] b n p (forth, back) = (n a ∙ forth, p b ∙ back)
IsLinked-same h h' a (x ∷ xs) b n p (forth, back, rest) =
    (n a ∙ forth, p x ∙ back, IsLinked-same h h' x xs b n p rest)

-- A new block at the end, whose address is new.
pub IsLinked-append :
    (h : Heap) (n : ℕ) (file : Bytes) (line : ℕ) (a : ℕ) (xs : List ℕ)
    → IsLinked h a xs tail
    → AreDistinct (a ∷ xs)
    → IsApart tail (a ∷ xs)
    → IsApart n (a ∷ xs)
    → (n == tail) ≡ false
    → IsLinked (fill_malloc_node n file line h) a (xs ++ n ∷ []) tail
unfolding fill_malloc_node
IsLinked-append h n file line a [] (forth, back) d t (n_a, u) n_t =
    (ground (arith, ==_refl a), ground arith, (ground arith, refl))
IsLinked-append h n file line a (x ∷ xs) (forth, back, rest) (a_rest, d) (t_a, t) (n_a, m) n_t =
    let at_end = prev-last h x xs tail rest in
    let a_last = IsApart-last a x xs a_rest in
    (
      ground (arith, at_end, a_last),
      ground (arith, at_end),
      IsLinked-append h n file line x xs rest d t m n_t,
    )

pub IsApart-front : (a : ℕ) (xs zs : List ℕ) → IsApart a (xs ++ zs) → IsApart a xs
IsApart-front a [] zs u = tt
IsApart-front a (x ∷ xs) zs (here, later) = (here, IsApart-front a xs zs later)

-- A write outside of a segment: `next` of no block but perhaps the last, and so on.
frame :
    (p : ℕ) (h : Heap) (a : ℕ) (xs : List ℕ) (b : ℕ)
    → IsApart (h.prev p) (a ∷ xs)
    → IsApart (h.next p) (xs ++ b ∷ [])
    → (h.prev p == p) ≡ false
    → IsLinked h a xs b
    → IsLinked (unlink p h) a xs b
unfolding unlink
frame p h a [] b (q_a, u) (r_b, v) q_p (forth, back) = (
  ground (arith, apart_sym (h.prev p) a),
  ground (arith, apart_sym (h.prev p) p, apart_sym (h.next p) b),
)
frame p h a (x ∷ xs) b (q_a, q) (r_x, r) q_p (forth, back, rest) = (
  ground (arith, apart_sym (h.prev p) a),
  ground (arith, apart_sym (h.prev p) p, apart_sym (h.next p) x),
  frame p h x xs b q r q_p rest,
)

-- Unlinking the block behind `a`.
unlink_first :
    (h : Heap) (a p : ℕ) (ys : List ℕ) (b : ℕ)
    → IsLinked h a (p ∷ ys) b
    → AreDistinct (a ∷ p ∷ (ys ++ b ∷ []))
    → IsLinked (unlink p h) a ys b
unfolding unlink
unlink_first h a p [] b (forth, back, (out, into)) (a_rest, d) =
    (ground (arith, ==_refl a), ground (arith, ==_refl b))
unlink_first h a p (y ∷ ys) b (forth, back, (out, into, rest))
      ((a_p, (a_y, a_rest)), (p_rest, (y_rest, d))) =
    let q_ys : IsApart (h.prev p) (y ∷ ys) =
      subst (λ q. IsApart q (y ∷ ys)) (sym back) (a_y, IsApart-front a ys (b ∷ []) a_rest) in
    let r_ys : IsApart (h.next p) (ys ++ b ∷ []) =
      subst (λ r. IsApart r (ys ++ b ∷ [])) (sym out) y_rest in
    (
      ground (arith, ==_refl a),
      ground (arith, ==_refl y),
      frame p h y ys b q_ys r_ys (ground arith) rest,
    )

-- The block `p` somewhere in a segment: what it points to comes behind all blocks in front of it.
next_apart :
    (h : Heap) (x : ℕ) (xs : List ℕ) (p : ℕ) (ys : List ℕ) (b z : ℕ)
    → IsLinked h x (xs ++ p ∷ ys) b
    → IsApart z (xs ++ p ∷ (ys ++ b ∷ []))
    → (z == h.next p) ≡ false
next_apart h x [] p [] b z (forth, back, (out, into)) (z_p, (z_b, u)) = ground arith
next_apart h x [] p (y ∷ ys) b z (forth, back, (out, into, rest)) (z_p, (z_y, u)) = ground arith
next_apart h x (w ∷ xs) p ys b z (forth, back, rest) (z_w, u) = next_apart h w xs p ys b z rest u

prev_apart :
    (h : Heap) (x : ℕ) (xs : List ℕ) (p : ℕ) (ys : List ℕ) (b z : ℕ)
    → IsLinked h x (xs ++ p ∷ ys) b
    → IsApart z (x ∷ (xs ++ p ∷ (ys ++ b ∷ [])))
    → (z == h.prev p) ≡ false
prev_apart h x [] p ys b z (forth, back, rest) (z_x, u) = ground arith
prev_apart h x (w ∷ xs) p ys b z (forth, back, rest) (z_x, u) = prev_apart h w xs p ys b z rest u

-- Unlinking a block leaves the segment of the others.
pub IsLinked-unlink :
    (h : Heap) (a : ℕ) (xs : List ℕ) (p : ℕ) (ys : List ℕ) (b : ℕ)
    → IsLinked h a (xs ++ p ∷ ys) b
    → AreDistinct (a ∷ (xs ++ p ∷ (ys ++ b ∷ [])))
    → IsLinked (unlink p h) a (xs ++ ys) b
unfolding unlink
IsLinked-unlink h a [] p ys b linked d = unlink_first h a p ys b linked d
IsLinked-unlink h a (x ∷ xs) p ys b (forth, back, rest) ((a_x, a_rest), (x_rest, d)) =
    let a_q = prev_apart h x xs p ys b a rest (a_x, a_rest) in
    let x_r = next_apart h x xs p ys b x rest x_rest in
    (ground arith, ground arith, IsLinked-unlink h x xs p ys b rest (x_rest, d))
