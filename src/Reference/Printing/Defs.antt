-- ===== src/Reference/Printing/Defs.antt =====
-- printSingleReference.
use jleaker.Common.{
  ℕ, ◌+◌, ◌-◌, Bool, not, ltb, ◌==◌, ◌&&◌, if◌then◌else◌, Option, none, some, ◌∷◌, ◌++◌, length,
  Bytes, bytes,
}
use jleaker.Common.Int.{ℤ, pos}
use jleaker.Reference.Kind.{Kind, ReferenceInfo, field_index, info_thread}
use jleaker.Reference.Fields.Jvm.{Jvm as FieldFacts}
use jleaker.Reference.Fields.{get_field_name_by_index}
use jleaker.Reference.Chain.{Jvm}
use jleaker.Node.Defs.{MemoryNode}
use jleaker.Reference.Printing.Format.{decimal, hexadecimal}

-- What the Java virtual machine answers: the records of the two other parts, and JVMTI's
-- GetMethodDeclaringClass, GetMethodModifiers, GetMethodName and GetArgumentsSize, whose errors end
-- the process. `depth` is fuel for the ancestors of a class.
pub record Facts : Type 0 where
  pub jvm : Jvm
  pub fields : FieldFacts
  pub depth : ℕ
  pub declaring_class : ℕ → ℕ
  pub is_static : ℕ → Bool
  pub method_name : ℕ → Bytes
  pub method_desc : ℕ → Bytes
  pub arguments_size : ℕ → ℕ

-- `msg`, `none` for NULL. `exhausted` means that the fuel ran out, `crashed` is fatal_error or a NULL
-- pointer that is followed.
pub data Message : Type 0 where
  exhausted crashed : Message
  message : Option Bytes → Message

-- `array.index` and `constant_pool.index`
unfoldable pub element_index : Option ReferenceInfo → ℤ
element_index (some (ReferenceInfo.array_info i)) = i
element_index (some (ReferenceInfo.constant_pool_info i)) = i
element_index _ = pos 0

-- `stack_local.slot` and `stack_local.method`
unfoldable pub info_slot : Option ReferenceInfo → ℕ
info_slot (some (ReferenceInfo.stack_local_info _ s _ _ _ _)) = s
info_slot _ = 0

unfoldable pub info_method : Option ReferenceInfo → ℕ
info_method (some (ReferenceInfo.stack_local_info _ _ m _ _ _)) = m
info_method (some (ReferenceInfo.jni_local_info _ m _ _)) = m
info_method _ = 0

module _ (facts : Facts) where
  -- `fieldname`, which is `<Unknown>` where getFieldNameByIndex gives NULL, and what is made of it.
  unfoldable pub with_field_name : (klass : ℕ) → (idx : ℤ) → (Bytes → Bytes) → Message
  unfolding get_field_name_by_index
  with_field_name klass idx text =
      elim (get_field_name_by_index facts.fields facts.depth klass idx) [
        | none ↦ exhausted
        | some none ↦ message (some (text (bytes "<Unknown>")))
        | some (some fieldname) ↦ message (some (text fieldname))
      ]

  -- `%s.%s%s (thread ID %lx` of a method and a thread.
  unfoldable pub method_text : (classname : Bytes) → (method thread_id : ℕ) → Bytes
  method_text classname method thread_id =
      classname
      ++ 46
        ∷ (facts.method_name method
            ++ (facts.method_desc method ++ (bytes " (thread ID " ++ hexadecimal thread_id)))

  -- The three texts of a stack local.
  unfoldable pub stack_local_text : (classname : Bytes) → (slot method thread_id : ℕ) → Bytes
  unfolding method_text
  stack_local_text classname slot method thread_id =
      if not (facts.is_static method) && slot == 0
      then bytes "'this' reference on invocation of method "
        ++ (method_text classname method thread_id ++ bytes ")")
      else (if ltb slot (facts.arguments_size method)
          then bytes "Argument number "
            ++ (decimal (pos slot)
                ++ (bytes " for method invocation of "
                    ++ (method_text classname method thread_id ++ bytes ")")))
          else bytes "Local variable from method "
            ++ (method_text classname method thread_id
                ++ (bytes ", local arg #"
                    ++ (decimal (pos (slot - facts.arguments_size method)) ++ bytes ")"))))

  -- `sz`
  unfoldable pub stack_local_size : (classname : Bytes) → (method : ℕ) → ℕ
  stack_local_size classname method =
      64 + length (facts.method_desc method) + length (facts.method_name method) + length classname

-- `print` is snprintf, with the size of the buffer.
module _ (print : (size : ℕ) → Bytes → Bytes) (facts : Facts) where
  -- JVMTI_HEAP_REFERENCE_STATIC_FIELD, for `ref->node->obj`.
  unfoldable pub static_field_message : (obj : Option ℕ) → ℤ → Message
  unfolding with_field_name
  static_field_message none idx = crashed
  static_field_message (some obj) idx =
      let classname = facts.jvm.class_name obj in
      with_field_name facts obj idx (λ (fieldname : Bytes).
        print (length classname + length fieldname + 32)
          (classname ++ 46 ∷ (fieldname ++ bytes " (Static)")))

  -- JVMTI_HEAP_REFERENCE_FIELD, for `ref->node->klass` and `ref->node->classname`.
  unfoldable pub field_message : (klass : Option ℕ) → (classname : Option Bytes) → ℤ → Message
  unfolding with_field_name
  field_message (some klass) (some classname) idx =
      with_field_name facts klass idx (λ (fieldname : Bytes).
        print (length classname + length fieldname + 32) (classname ++ 46 ∷ fieldname))
  field_message _ _ idx = crashed

  -- JVMTI_HEAP_REFERENCE_ARRAY_ELEMENT
  unfoldable pub array_element_message : (classname : Option Bytes) → ℤ → Message
  array_element_message none idx = crashed
  array_element_message (some classname) idx = message (
      some (print (48 + length classname) (classname ++ (bytes " element number " ++ decimal idx))))

  -- JVMTI_HEAP_REFERENCE_CONSTANT_POOL
  unfoldable pub constant_pool_message : ℤ → Message
  constant_pool_message idx = message (some (print 16 (35 ∷ decimal idx)))

  -- JVMTI_HEAP_REFERENCE_STACK_LOCAL
  unfoldable pub stack_local_message : (slot method thread_id : ℕ) → Message
  unfolding stack_local_text stack_local_size
  stack_local_message slot method thread_id =
      let classname = facts.jvm.class_name (facts.declaring_class method) in
      message (
        some (
          print (stack_local_size facts classname method)
            (stack_local_text facts classname slot method thread_id)))

  -- The switch, where `ref->node` has been filled. The case of a JNI local has no break, so what it
  -- assigns to `msg` is replaced by the text of the next case.
  unfoldable pub reference_message : Kind → Option ReferenceInfo → Option MemoryNode → Message
  unfolding static_field_message field_message array_element_message constant_pool_message
      stack_local_message
  reference_message Kind.static_field info none = crashed
  reference_message Kind.static_field info (some n) = static_field_message n.obj (field_index info)
  reference_message Kind.field info none = crashed
  reference_message Kind.field info (some n) = field_message n.klass n.classname (field_index info)
  reference_message Kind.array_element info none = crashed
  reference_message Kind.array_element info (some n) =
      array_element_message n.classname (element_index info)
  reference_message Kind.constant_pool info n = constant_pool_message (element_index info)
  reference_message Kind.stack_local info n =
      stack_local_message (info_slot info) (info_method info) (info_thread info)
  reference_message Kind.jni_local info n = message (some (bytes "JNI global reference"))
  reference_message Kind.jni_global info n = message (some (bytes "JNI global reference"))
  reference_message Kind.system_class info n =
      message (some (bytes "System class heap root reference"))
  reference_message Kind.monitor info n = message (some (bytes "Monitor heap root reference"))
  reference_message Kind.thread info n = message (some (bytes "Thread heap root reference"))
  reference_message Kind.other info n = message (some (bytes "Unknown heap root reference"))
  reference_message (Kind.unlisted k) info n = message none
