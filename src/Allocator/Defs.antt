-- ===== src/Allocator/Defs.antt =====
-- The operations of src/cpp/allocator.c. A block is named by the address of its MallocatedNode, which
-- malloc gives, and each member of the struct is a function of the address.
use jleaker.Common.{ℕ, ◌+◌, Bool, ◌==◌, if◌then◌else◌, Bytes}

pub record Heap : Type 0 where
  pub file : ℕ → Bytes
  pub line : ℕ → ℕ
  pub prev : ℕ → ℕ
  pub next : ℕ → ℕ

pub record Allocator : Type 0 where
  pub allocations : ℕ
  pub frees : ℕ
  pub self_check : Bool
  pub heap : Heap

-- `&head` and `&tail`
abbrev pub head : ℕ
head = 0

abbrev pub tail : ℕ
tail = 1

-- A write of one member.
abbrev pub write {ℓ} : {A : Type ℓ} → (ℕ → A) → ℕ → A → ℕ → A
write f a v x = if x == a then v else f x

-- initAllocator; its memsets have the size and the byte swapped and write nothing.
unfoldable pub init_allocator : (self_check : Bool) → Allocator → Allocator
init_allocator self_check a = record {
  allocations = 0;
  frees = 0;
  self_check = self_check;
  heap = record a.heap { next = write a.heap.next head tail; prev = write a.heap.prev tail head };
}

-- fillMallocNode
unfoldable pub fill_malloc_node : ℕ → Bytes → ℕ → Heap → Heap
fill_malloc_node n file line h =
    let last = h.prev tail in
    record {
      file = write h.file n file;
      line = write h.line n line;
      next = write (write h.next n tail) last n;
      prev = write (write h.prev n last) tail n;
    }

-- `ptr->prev->next = ptr->next; ptr->next->prev = ptr->prev;`
unfoldable pub unlink : ℕ → Heap → Heap
unlink p h =
    let next = write h.next (h.prev p) (h.next p) in
    record h { next = next; prev = write h.prev (next p) (h.prev p) }

-- _myAlloc, where malloc gives the address `n`.
unfoldable pub my_alloc : ℕ → Bytes → ℕ → Allocator → Allocator
unfolding fill_malloc_node
my_alloc n file line a = record a {
  allocations = a.allocations + 1;
  heap = if a.self_check then fill_malloc_node n file line a.heap else a.heap;
}

-- myFree
unfoldable pub my_free : ℕ → Allocator → Allocator
unfolding unlink
my_free p a = record a {
  frees = a.frees + 1;
  heap = if a.self_check then unlink p a.heap else a.heap;
}
