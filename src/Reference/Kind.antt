-- ===== src/Reference/Kind.antt =====
-- src/cpp/jvm_reference.c, isRootReference, shouldConsiderThisReference and
-- localReferenceOfThisThread: what kind of reference JVMTI reports, and from where.
-- `unlisted` stands for the kinds of jvmti.h that the agent does not name.
use jleaker.Common.{
  zero, suc, sym, ap, subst, ◌∙◌, ==_iff, ==_refl, ℕ, Bool, true, false, ◌==◌, ◌&&◌, ◌≡◌, ◌↔◌, refl,
  Option, some,
}
use jleaker.Common.Int.{ℤ, pos, ◌==ℤ◌}

pub data Kind : Type 0 where
  field static_field array_element constant_pool stack_local jni_local : Kind
  jni_global system_class monitor thread other : Kind
  unlisted : ℕ → Kind

-- The members of the union jvmtiHeapReferenceInfo that JVMTI fills for the kinds that the agent
-- names. A `method` is a jmethodID.
pub data ReferenceInfo : Type 0 where
  field_info : ℤ → ReferenceInfo
  array_info : ℤ → ReferenceInfo
  constant_pool_info : ℤ → ReferenceInfo
  stack_local_info : (thread_id slot method : ℕ) (thread_tag depth location : ℤ) → ReferenceInfo
  jni_local_info : (thread_id method : ℕ) (thread_tag depth : ℤ) → ReferenceInfo

-- `a->field.index`. JVMTI fills the member that the kind calls for; no other is read.
unfoldable pub field_index : Option ReferenceInfo → ℤ
field_index (some (field_info i)) = i
field_index _ = pos 0

-- `stack_local.thread_id` and `jni_local.thread_id`
unfoldable pub info_thread : Option ReferenceInfo → ℕ
info_thread (some (stack_local_info t _ _ _ _ _)) = t
info_thread (some (jni_local_info t _ _ _)) = t
info_thread _ = 0

unfoldable pub is_root_reference : Kind → Bool
is_root_reference stack_local = true
is_root_reference jni_local = true
is_root_reference constant_pool = true
is_root_reference static_field = true
is_root_reference monitor = true
is_root_reference thread = true
is_root_reference other = true
is_root_reference system_class = true
is_root_reference jni_global = true
is_root_reference _ = false

unfoldable pub should_consider_this_reference : (consider_local_references : Bool) → Kind → Bool
should_consider_this_reference consider stack_local = consider
should_consider_this_reference consider jni_local = consider
should_consider_this_reference consider _ = true

unfoldable pub local_reference_of_this_thread : (thread_id : ℕ) → Kind → Option ReferenceInfo → Bool
unfolding info_thread
local_reference_of_this_thread me stack_local info = info_thread info == me
local_reference_of_this_thread me jni_local info = info_thread info == me
local_reference_of_this_thread me _ info = false

-- The enumerators as numbers, to compare them; the ones of jvmti.h are not needed for that.
kind_code : Kind → ℕ
kind_code field = 0
kind_code static_field = 1
kind_code array_element = 2
kind_code constant_pool = 3
kind_code stack_local = 4
kind_code jni_local = 5
kind_code jni_global = 6
kind_code system_class = 7
kind_code monitor = 8
kind_code thread = 9
kind_code other = 10
kind_code (unlisted n) = suc (suc (suc (suc (suc (suc (suc (suc (suc (suc (suc n))))))))))

-- `==` on kinds.
unfoldable pub kind_eq : Kind → Kind → Bool
unfolding kind_code
kind_eq a b = kind_code a == kind_code b

kind_decode : ℕ → Kind
kind_decode zero = field
kind_decode (suc zero) = static_field
kind_decode (suc (suc zero)) = array_element
kind_decode (suc (suc (suc zero))) = constant_pool
kind_decode (suc (suc (suc (suc zero)))) = stack_local
kind_decode (suc (suc (suc (suc (suc zero))))) = jni_local
kind_decode (suc (suc (suc (suc (suc (suc zero)))))) = jni_global
kind_decode (suc (suc (suc (suc (suc (suc (suc zero))))))) = system_class
kind_decode (suc (suc (suc (suc (suc (suc (suc (suc zero)))))))) = monitor
kind_decode (suc (suc (suc (suc (suc (suc (suc (suc (suc zero))))))))) = thread
kind_decode (suc (suc (suc (suc (suc (suc (suc (suc (suc (suc zero)))))))))) = other
kind_decode (suc (suc (suc (suc (suc (suc (suc (suc (suc (suc (suc n))))))))))) = unlisted n

kind_decode-code : (k : Kind) → kind_decode (kind_code k) ≡ k
unfolding kind_decode kind_code
kind_decode-code field = refl
kind_decode-code static_field = refl
kind_decode-code array_element = refl
kind_decode-code constant_pool = refl
kind_decode-code stack_local = refl
kind_decode-code jni_local = refl
kind_decode-code jni_global = refl
kind_decode-code system_class = refl
kind_decode-code monitor = refl
kind_decode-code thread = refl
kind_decode-code other = refl
kind_decode-code (unlisted n) = refl

pub kind_eq_iff : (a b : Kind) → (kind_eq a b ≡ true) ↔ (a ≡ b)
kind_eq_iff a b = (
  λ same.
      sym (kind_decode-code a)
      ∙ ap kind_decode ((==_iff (kind_code a) (kind_code b)).0 (unfold kind_eq in same))
      ∙ kind_decode-code b,
  λ e. subst (λ k. kind_eq a k ≡ true) e (unfold kind_eq in ==_refl (kind_code a)),
)

-- `memcmp(a, b, sizeof(*a)) == 0` on two filled unions; the bytes behind the member that the kind
-- fills are taken to be the same.
unfoldable pub info_eq : ReferenceInfo → ReferenceInfo → Bool
info_eq (field_info a) (field_info b) = a ==ℤ b
info_eq (array_info a) (array_info b) = a ==ℤ b
info_eq (constant_pool_info a) (constant_pool_info b) = a ==ℤ b
info_eq (stack_local_info t s m g d l) (stack_local_info t' s' m' g' d' l') =
    t == t' && (s == s' && (m == m' && (g ==ℤ g' && (d ==ℤ d' && l ==ℤ l'))))
info_eq (jni_local_info t m g d) (jni_local_info t' m' g' d') =
    t == t' && (m == m' && (g ==ℤ g' && d ==ℤ d'))
info_eq _ _ = false
