-- ===== src/Allocator/Tests.antt =====
-- Two blocks of which the first is freed.
use jleaker.Common.{◌≡◌, refl, true, false, [], ◌∷◌, bytes}
use jleaker.Allocator.{Allocator, head, tail, init_allocator, my_alloc, my_free}
use jleaker.Allocator.Blocks.{Tracks, init-Tracks, alloc-Tracks, operations-Tracks}

abbrev unset : Allocator
unset = record {
  allocations = 9;
  frees = 0;
  self_check = false;
  heap = record { file = λ x. []; line = λ x. 0; prev = λ x. 0; next = λ x. 0 };
}

abbrev one : Allocator
one = my_alloc 4 (bytes "a.c") 10 (init_allocator true unset)

abbrev two : Allocator
two = my_alloc 5 (bytes "b.c") 20 one

runs : ((my_free 4 two).heap.next head ≡ 5) × ((my_free 4 two).heap.prev tail ≡ 5)
unfolding my_free my_alloc init_allocator
runs = (refl, refl)

two-Tracks : Tracks two (4 ∷ 5 ∷ [])
two-Tracks =
    alloc-Tracks one (4 ∷ []) 5 (bytes "b.c") 20
      (alloc-Tracks (init_allocator true unset) [] 4 (bytes "a.c") 10 (init-Tracks unset)
        (refl, (refl, tt)))
      (refl, (refl, (refl, tt)))

operations-Tracks_example :
    Tracks (init_allocator true two) []
    × Tracks (my_alloc 6 (bytes "c.c") 30 two) (4 ∷ 5 ∷ 6 ∷ [])
    × ((my_alloc 6 (bytes "c.c") 30 two).heap.file 6 ≡ bytes "c.c")
    × ((my_alloc 6 (bytes "c.c") 30 two).heap.line 6 ≡ 30)
    × Tracks (my_free 4 two) (5 ∷ [])
operations-Tracks_example =
    operations-Tracks two (4 ∷ 5 ∷ []) [] (5 ∷ []) 6 4 (bytes "c.c") 30 two-Tracks
      (refl, (refl, (refl, (refl, tt)))) refl
