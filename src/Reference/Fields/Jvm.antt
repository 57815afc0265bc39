-- ===== src/Reference/Fields/Jvm.antt =====
-- What the Java virtual machine answers about classes: JNI's GetSuperclass, and JVMTI's
-- GetImplementedInterfaces, GetClassFields and GetFieldName, whose errors end the process. A `jclass` is a number, and two are
-- the same class, by Object.equals, exactly when the numbers are equal.
use jleaker.Common.{ℕ, Option, List, map, Bytes}

pub record Jvm : Type 0 where
  pub superclass : ℕ → Option ℕ
  pub interfaces : ℕ → List ℕ
  pub class_fields : ℕ → List ℕ
  pub field_name : ℕ → ℕ → Bytes

-- The names of a class's own fields.
abbrev pub own_names : Jvm → ℕ → List Bytes
own_names jvm klass = map (jvm.field_name klass) (jvm.class_fields klass)
