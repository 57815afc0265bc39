-- ===== src/Reference/Printing/Whole.antt =====
-- The buffers of printSingleReference are large enough for the messages.
use jleaker.Common.{
  ap, ℕ, ◌+◌, ◌-◌, ◌≤◌, ◌<◌, ◌≡◌, refl, ltb, not, ◌==◌, ◌&&◌, Bool-cases, inl, inr, Option, none,
  some, ◌∷◌, ◌++◌, length, length-append, Bytes, bytes, arith,
}
use mathlib.Core.Path.{fun_ext}
use jleaker.Common.Int.{ℤ, pos, negsuc}
use jleaker.Reference.Kind.{Kind, ReferenceInfo, field_index, info_thread}
use jleaker.Node.Defs.{MemoryNode}
use jleaker.Reference.Printing.Format.{
  decimal, hexadecimal, snprintf, snprintf-whole, power, length-decimal, length-decimal_neg,
  length-hexadecimal,
}
use jleaker.Reference.Printing.Defs.{
  Facts, message, element_index, info_slot, info_method, with_field_name, static_field_message,
  field_message, array_element_message, constant_pool_message, method_text, stack_local_text,
  stack_local_size, stack_local_message, reference_message,
}

-- A `jint`.
abbrev pub IsInt : ℤ → Type 0
IsInt (pos n) = n < 2147483648
IsInt (negsuc n) = n < 2147483648

-- What the message of the reference is made from: an index is a `jint`, and a stack local's slot has at
-- most two decimal digits and its thread's number at most five hexadecimal ones.
abbrev pub IsSmall : Option ReferenceInfo → Type 0
IsSmall none = Unit
IsSmall (some (ReferenceInfo.field_info i)) = IsInt i
IsSmall (some (ReferenceInfo.array_info i)) = IsInt i
IsSmall (some (ReferenceInfo.constant_pool_info i)) = IsInt i
IsSmall (some (ReferenceInfo.stack_local_info t s m _ _ _)) = (t < 1048576) × (s < 100)
IsSmall (some (ReferenceInfo.jni_local_info t m _ _)) = t < 1048576

length-decimal_int : (i : ℤ) → IsInt i → length (decimal i) ≤ 11
unfolding power
length-decimal_int (pos n) h = omega (arith, length-decimal n 9 (omega arith))
length-decimal_int (negsuc n) h = omega (arith, length-decimal_neg n 9 (omega arith))

element-IsInt : (info : Option ReferenceInfo) → IsSmall info → IsInt (element_index info)
unfolding element_index
element-IsInt none h = omega arith
element-IsInt (some (ReferenceInfo.array_info i)) h = h
element-IsInt (some (ReferenceInfo.constant_pool_info i)) h = h
element-IsInt (some other) h = omega arith

-- The bounds on a stack local.
slot_thread_small :
    (info : Option ReferenceInfo)
    → IsSmall info
    → (info_slot info < 100) × (info_thread info < 1048576)
unfolding info_slot info_thread
slot_thread_small none h = omega arith
slot_thread_small (some (ReferenceInfo.stack_local_info t s m _ _ _)) h = (h.1, h.0)
slot_thread_small (some (ReferenceInfo.jni_local_info t m _ _)) h = omega arith
slot_thread_small (some (ReferenceInfo.field_info i)) h = omega arith
slot_thread_small (some (ReferenceInfo.array_info i)) h = omega arith
slot_thread_small (some (ReferenceInfo.constant_pool_info i)) h = omega arith

-- No limit.
abbrev pub whole : ℕ → Bytes → Bytes
whole size text = text

module _ (facts : Facts) where
  static_field-whole :
      (obj : Option ℕ) (idx : ℤ)
      → static_field_message snprintf facts obj idx ≡ static_field_message whole facts obj idx
  unfolding static_field_message
  static_field-whole none idx = refl
  static_field-whole (some obj) idx = ap (with_field_name facts obj idx) (
      fun_ext (λ (name : Bytes).
        let classname = facts.jvm.class_name obj in
        snprintf-whole (length classname + length name + 32)
          (classname ++ 46 ∷ (name ++ bytes " (Static)"))
          (omega (
            arith,
            length-append classname (46 ∷ (name ++ bytes " (Static)")),
            length-append name (bytes " (Static)"),
          ))))

  field-whole :
      (klass : Option ℕ) (classname : Option Bytes) (idx : ℤ)
      → field_message snprintf facts klass classname idx
        ≡ field_message whole facts klass classname idx
  unfolding field_message
  field-whole none classname idx = refl
  field-whole (some klass) none idx = refl
  field-whole (some klass) (some classname) idx = ap (with_field_name facts klass idx) (
      fun_ext (λ (name : Bytes).
        snprintf-whole (length classname + length name + 32) (classname ++ 46 ∷ name)
          (omega (arith, length-append classname (46 ∷ name)))))

  array_element-whole :
      (classname : Option Bytes) (idx : ℤ)
      → IsInt idx
      → array_element_message snprintf facts classname idx
        ≡ array_element_message whole facts classname idx
  unfolding array_element_message
  array_element-whole none idx h = refl
  array_element-whole (some classname) idx h =
      ap (λ t. message (some t))
        (snprintf-whole _ _ (
          omega (
            arith,
            length-append classname (bytes " element number " ++ decimal idx),
            length-append (bytes " element number ") (decimal idx),
            length-decimal_int idx h,
          )))

  constant_pool-whole :
      (idx : ℤ)
      → IsInt idx
      → constant_pool_message snprintf facts idx ≡ constant_pool_message whole facts idx
  unfolding constant_pool_message
  constant_pool-whole idx h =
      ap (λ t. message (some t)) (snprintf-whole _ _ (omega (arith, length-decimal_int idx h)))

  length-method_text :
      (classname : Bytes) (method thread_id : ℕ)
      → thread_id < 1048576
      → length (method_text facts classname method thread_id)
        ≤ length classname
          + length (facts.method_name method)
          + length (facts.method_desc method)
          + 18
  unfolding method_text power
  length-method_text classname method thread_id h = omega (
    arith,
    length-append classname (
        46
        ∷ (facts.method_name method
            ++ (facts.method_desc method ++ (bytes " (thread ID " ++ hexadecimal thread_id)))),
    length-append (facts.method_name method)
        (facts.method_desc method ++ (bytes " (thread ID " ++ hexadecimal thread_id)),
    length-append (facts.method_desc method) (bytes " (thread ID " ++ hexadecimal thread_id),
    length-append (bytes " (thread ID ") (hexadecimal thread_id),
    length-hexadecimal thread_id 4 (omega arith),
  )

  length-stack_local_text :
      (classname : Bytes) (slot method thread_id : ℕ)
      → slot < 100
      → thread_id < 1048576
      → length (stack_local_text facts classname slot method thread_id)
        < stack_local_size facts classname method
  unfolding stack_local_text stack_local_size power
  length-stack_local_text classname slot method thread_id s h =
      let m = method_text facts classname method thread_id in
      let bound = length-method_text classname method thread_id h in
      elim (Bool-cases (not (facts.is_static method) && slot == 0)) [
        | inl this ↦ rw this (
            omega (
              arith,
              bound,
              length-append (bytes "'this' reference on invocation of method ") (m ++ bytes ")"),
              length-append m (bytes ")"),
            ))
        | inr other ↦ elim (Bool-cases (ltb slot (facts.arguments_size method))) [
          | inl argument ↦
              rw (other, argument)
                (omega (
                  arith,
                  bound,
                  length-append (bytes "Argument number ") (
                      decimal (pos slot)
                      ++ (bytes " for method invocation of " ++ (m ++ bytes ")"))),
                  length-append (decimal (pos slot))
                      (bytes " for method invocation of " ++ (m ++ bytes ")")),
                  length-append (bytes " for method invocation of ") (m ++ bytes ")"),
                  length-append m (bytes ")"),
                  length-decimal slot 1 (omega arith),
                ))
          | inr variable ↦
              let number = slot - facts.arguments_size method in
              rw (other, variable)
                (omega (
                  arith,
                  bound,
                  length-append (bytes "Local variable from method ")
                      (m ++ (bytes ", local arg #" ++ (decimal (pos number) ++ bytes ")"))),
                  length-append m (bytes ", local arg #" ++ (decimal (pos number) ++ bytes ")")),
                  length-append (bytes ", local arg #") (decimal (pos number) ++ bytes ")"),
                  length-append (decimal (pos number)) (bytes ")"),
                  length-decimal number 1 (omega arith),
                ))
        ]
      ]

  -- Where an index is a `jint`, and for a stack local the slot is below 100 and the thread's number
  -- below 2^20, the message of a reference of any kind is the same as if snprintf had no limit: its buffer, sized
  -- by the names and a fixed number of bytes, holds the whole text. That is so whatever the names are and
  -- however long, and also where the message is NULL or the process ends.
  pub reference_message-whole :
      (kind : Kind) (info : Option ReferenceInfo) (n : Option MemoryNode)
      → IsSmall info
      → reference_message snprintf facts kind info n ≡ reference_message whole facts kind info n
  unfolding reference_message stack_local_message
  reference_message-whole Kind.static_field info none h = refl
  reference_message-whole Kind.static_field info (some n) h =
      static_field-whole n.obj (field_index info)
  reference_message-whole Kind.field info none h = refl
  reference_message-whole Kind.field info (some n) h =
      field-whole n.klass n.classname (field_index info)
  reference_message-whole Kind.array_element info none h = refl
  reference_message-whole Kind.array_element info (some n) h =
      array_element-whole n.classname (element_index info) (element-IsInt info h)
  reference_message-whole Kind.constant_pool info n h =
      constant_pool-whole (element_index info) (element-IsInt info h)
  reference_message-whole Kind.stack_local info n h =
      let (s, t) = slot_thread_small info h in
      ap (λ t. message (some t))
        (snprintf-whole _ _ (
          length-stack_local_text (facts.jvm.class_name (facts.declaring_class (info_method info)))
            (info_slot info) (info_method info) (info_thread info) s t))
  reference_message-whole kind info n h = refl
