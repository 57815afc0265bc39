-- ===== src/Detect/Classes/Loop.antt =====
-- What the rounds of tagAllClasses do, and rounds one after the other.
use jleaker.Common.{
  ℕ, zero, suc, ◌+◌, ◌<◌, ◌≤◌, ◌≡◌, refl, ◌∙◌, sym, ap, ap₂, Bool, true, false, not, ◌&&◌, ◌||◌,
  ◌==◌, if◌then◌else◌, Option, none, some, List, [], ◌∷◌, ◌++◌, length, Bytes, str_eq, Bool-cases,
  ◌⊎◌, inl, inr, arith,
}
use mathlib.Core.List.{append_assoc, append-nil}
use jleaker.Reference.Fields.Jvm.{Jvm}
use jleaker.Reference.Fields.RoundTrip.{Answers}
use jleaker.Node.Defs.{IgnoreField, MemoryNode, Store, node_at, fresh_node, new_memory_node}
use jleaker.Node.Counts.{IsCounted}
use jleaker.Node.Free.Owners.{owners_of}
use jleaker.Configuration.{StrMap}
use jleaker.Detect.Classes.Defs.{Loaded, is_ready, State, limits_of, set_tag, tag_class}

-- How many of the classes get a node.
unfoldable pub ordinary : Loaded → List ℕ → ℕ
ordinary loaded [] = 0
ordinary loaded (k ∷ ks) = (if loaded.is_class_class k then 0 else 1) + ordinary loaded ks

-- One of the classes has the name and takes the limits.
unfoldable pub taken : Loaded → Bytes → List ℕ → Bool
taken loaded name [] = false
taken loaded name (k ∷ ks) =
    (not (loaded.is_class_class k) && (is_ready loaded k && str_eq (loaded.name k) name))
    || taken loaded name ks

unfoldable pub is_listed : ℕ → List ℕ → Bool
is_listed o [] = false
is_listed o (k ∷ ks) = (o == k) || is_listed o ks

pub List-cases {ℓ} :
    {A : Type ℓ} (xs : List A) → (xs ≡ []) ⊎ ((y : A) × (ys : List A) × (xs ≡ y ∷ ys))
List-cases [] = inl refl
List-cases (x ∷ xs) = inr (x, xs, refl)

pub or_false : (b : Bool) → (b || false) ≡ b
or_false true = refl
or_false false = refl

-- Every tag but 0 is the address of a node.
abbrev pub AreInRange : Store → (ℕ → Option ℕ) → Type 0
AreInRange st tags = (o a : ℕ) → tags o ≡ some a → a < length st

pub AreInRange-set_tag :
    (st st' : Store) (tags : ℕ → Option ℕ) (object : ℕ) (t : Option ℕ)
    → length st ≤ length st'
    → ((a : ℕ) → t ≡ some a → a < length st')
    → AreInRange st tags
    → AreInRange st' (set_tag object t tags)
AreInRange-set_tag st st' tags object t longer new r o a e = elim (Bool-cases (o == object)) [
  | inl this ↦ new a (ground arith)
  | inr other ↦ let old : tags o ≡ some a = ground arith in omega (arith, r o a old)
]

-- The `n` addresses from `a` on.
unfoldable pub addresses : (a n : ℕ) → List ℕ
addresses a zero = []
addresses a (suc n) = a ∷ addresses (a + 1) n

addresses-append : (a m n : ℕ) → addresses a (m + n) ≡ addresses a m ++ addresses (a + m) n
unfolding addresses
addresses-append a zero n = ap₂ addresses (omega arith) (omega arith)
addresses-append a (suc m) n =
    ap (addresses a) (suc_out m n)
    ∙ ap (λ xs. a ∷ xs)
        (addresses-append (a + 1) m n
          ∙ ap (λ i. addresses (a + 1) m ++ addresses i n) (omega arith))
  where
    suc_out : (x y : ℕ) → suc x + y ≡ suc (x + y)
    suc_out x y = omega arith

-- The fields with their offsets in the class: names and limits are the same, and each offset is
-- the field's index, or -1 where the class has no such field.
abbrev pub AreLocated : Jvm → (fuel klass : ℕ) → (limits fields : List IgnoreField) → Type 0
AreLocated jvm fuel klass [] [] = Unit {0}
AreLocated jvm fuel klass (f ∷ fs) (g ∷ gs) =
    (g.field_name ≡ f.field_name)
    × (g.threshold ≡ f.threshold)
    × Answers jvm f.field_name fuel klass g.field
    × AreLocated jvm fuel klass fs gs
AreLocated jvm fuel klass _ _ = ⊥

-- The node of a class.
abbrev pub class_node : (number_of_leaks klass : ℕ) → List IgnoreField → MemoryNode
class_node number_of_leaks klass fields = record (fresh_node number_of_leaks) {
  obj = some klass;
  class_node = true;
  ignore_fields = fields;
}

pub owners_of-append :
    (xs ys : List ℕ) (a : ℕ) → owners_of (xs ++ ys) a ≡ owners_of xs a + owners_of ys a
unfolding owners_of
owners_of-append [] ys a = omega arith
owners_of-append (x ∷ xs) ys a = omega (arith, owners_of-append xs ys a)

module _ (strmap : StrMap) (loaded : Loaded) where
  -- The new nodes are counted for the list of class nodes, and no owner lies past the store.
  pub record Owns (held : ℕ → ℕ) (s : State strmap) : Type 0 where
    pub counts : IsCounted (λ b. held b + owners_of s.class_nodes b) s.nodes none
    pub within : (a : ℕ) → length s.nodes ≤ a → held a + owners_of s.class_nodes a ≡ 0

  -- What the rounds for `classes` do to the state.
  pub record Tags (s : State strmap) (classes : List ℕ) (last : State strmap) : Type 0 where
    pub size : length last.nodes ≡ length s.nodes + ordinary loaded classes
    pub same_nodes : (a : ℕ) → a < length s.nodes → node_at last.nodes a ≡ node_at s.nodes a
    pub listed :
        last.class_nodes ≡ s.class_nodes ++ addresses (length s.nodes) (ordinary loaded classes)
    pub same_tags : (o : ℕ) → is_listed o classes ≡ false → last.tag o ≡ s.tag o
    pub limits :
        (name : Bytes)
        → limits_of strmap last.ignore_referenced_by name
          ≡ (if taken loaded name classes then [] else limits_of strmap s.ignore_referenced_by name)
    pub owns : (held : ℕ → ℕ) → Owns held s → Owns held last
    pub clear :
        ((a : ℕ) → (node_at s.nodes a).visited ≡ false)
        → (a : ℕ) → (node_at last.nodes a).visited ≡ false
    pub in_range : AreInRange s.nodes s.tag → AreInRange last.nodes last.tag

  pub Tags-nil : (s : State strmap) → Tags s [] s
  unfolding ordinary addresses taken
  Tags-nil s = record {
    size = omega arith;
    same_nodes = λ a lt. refl;
    listed = sym (append-nil s.class_nodes);
    same_tags = λ o out. refl;
    limits = λ name. refl;
    owns = λ held o. o;
    clear = λ c. c;
    in_range = λ r. r;
  }

  pub Tags-cons :
      {s s1 last : State strmap} {k : ℕ} {ks : List ℕ}
      → Tags s (k ∷ []) s1
      → Tags s1 ks last
      → Tags s (k ∷ ks) last
  unfolding ordinary addresses taken is_listed
  Tags-cons {s} {s1} {last} {k} {ks} one more = record {
    size = omega (arith, one.size, more.size);
    same_nodes = λ a lt. more.same_nodes a (omega (arith, one.size)) ∙ one.same_nodes a lt;
    listed =
        more.listed
        ∙ ap₂ (λ xs i. xs ++ addresses i (ordinary loaded ks)) one.listed one.size
        ∙ append_assoc s.class_nodes _ _
        ∙ ap (λ ys. s.class_nodes ++ ys)
            (sym (addresses-append (length s.nodes) (ordinary loaded (k ∷ [])) (ordinary loaded ks))
              ∙ ap (addresses (length s.nodes)) (omega arith));
    same_tags = λ o out. more.same_tags o (ground arith) ∙ one.same_tags o (ground arith);
    limits = λ name. ground (arith, one.limits name, more.limits name);
    owns = λ held o. more.owns held (one.owns held o);
    clear = λ c. more.clear (one.clear c);
    in_range = λ r. more.in_range (one.in_range r);
  }

  -- java.lang.Class itself loses its tag.
  pub class_step :
      (fuel n k : ℕ) (s : State strmap)
      → loaded.is_class_class k ≡ true
      → let s' : State strmap = record s { tag = set_tag k none s.tag } in
        (tag_class strmap loaded fuel n k s ≡ some s') × Tags s (k ∷ []) s'
  unfolding tag_class ordinary addresses taken is_listed new_memory_node
  class_step fuel n k s class = (
    rw (class, tag_class) refl,
    record {
      size = ground arith;
      same_nodes = λ a lt. refl;
      listed = rw class (sym (append-nil s.class_nodes));
      same_tags = λ o out. ground arith;
      limits = λ name. ground arith;
      owns = λ held o. record { counts = o.counts; within = o.within };
      clear = λ c. c;
      in_range = AreInRange-set_tag s.nodes s.nodes s.tag k none (omega arith) (λ a e. cc);
    },
  )
