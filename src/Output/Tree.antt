-- ===== src/Output/Tree.antt =====
-- What the agent prints, as trees of elements, and the text of a tree at a depth. A function that
-- prints is right if it writes the text of the tree that it means.
use jleaker.Common.{
  ap, sym, Option, none, some, ◌>>=◌, ◌∙◌, ℕ, ◌+◌, ◌≡◌, refl, List, [], ◌∷◌, ◌++◌, Bytes, replicate,
}
use jleaker.Common.Int.{pos, pos_part, int_laws, pos-+ℤ, ◌+ℤ◌, ◌-ℤ◌}
use mathlib.Core.List.{append_assoc, append-nil}
use jleaker.Output.Defs.{
  Output, element_text, complete_xml_element, open_xml_element, close_xml_element,
}

-- Elements in a row: each has a tag and attributes, and is empty or has elements inside.
pub data Forest : Type 0 where
  nil : Forest
  leaf : Bytes → List (Bytes × Bytes) → Forest → Forest
  node : Bytes → List (Bytes × Bytes) → (inside : Forest) → Forest → Forest

unfoldable pub joined : Forest → Forest → Forest
joined nil g = g
joined (leaf tag attributes rest) g = leaf tag attributes (joined rest g)
joined (node tag attributes inside rest) g = node tag attributes inside (joined rest g)

abbrev tabs : ℕ → Bytes
tabs depth = replicate depth 9

-- `</tag>` and a newline.
abbrev end_text : Bytes → Bytes
end_text tag = 60 ∷ 47 ∷ (tag ++ 62 ∷ 10 ∷ [])

pub render : ℕ → Forest → Bytes
render depth nil = []
render depth (leaf tag attributes rest) =
    (tabs depth ++ element_text tag (32 ∷ 47 ∷ []) attributes) ++ render depth rest
render depth (node tag attributes inside rest) =
    (tabs depth ++ element_text tag [] attributes)
    ++ (render (depth + 1) inside ++ ((tabs depth ++ end_text tag) ++ render depth rest))

-- At the depth `depth`, the step from `o` to `o'` writes the elements and comes back to the depth.
pub record Writes (depth : ℕ) (f : Forest) (o o' : Output) : Type 0 where
  pub before : o.xml_depth ≡ pos depth
  pub after : o'.xml_depth ≡ pos depth
  pub written : o'.text ≡ o.text ++ render depth f

pub render-joined :
    (depth : ℕ) (f g : Forest) → render depth (joined f g) ≡ render depth f ++ render depth g
unfolding render joined
render-joined depth nil g = refl
render-joined depth (leaf tag attributes rest) g =
    ap (λ t. (tabs depth ++ element_text tag (32 ∷ 47 ∷ []) attributes) ++ t)
      (render-joined depth rest g)
    ∙ sym (append_assoc (tabs depth ++ element_text tag (32 ∷ 47 ∷ []) attributes) _ _)
render-joined depth (node tag attributes inside rest) g =
    simp (render-joined depth rest g, append_assoc)

pub Writes-nil : {depth : ℕ} {o : Output} → o.xml_depth ≡ pos depth → Writes depth nil o o
unfolding render
Writes-nil {o = o} e = record { before = e; after = e; written = sym (append-nil o.text) }

pub Writes-joined :
    {depth : ℕ} {f g : Forest} {o p q : Output}
    → Writes depth f o p
    → Writes depth g p q
    → Writes depth (joined f g) o q
Writes-joined {depth} {f} {g} {o} a b = record {
  before = a.before;
  after = b.after;
  written =
      b.written
      ∙ ap (λ t. t ++ render depth g) a.written
      ∙ append_assoc o.text (render depth f) (render depth g)
      ∙ ap (λ t. o.text ++ t) (sym (render-joined depth f g));
}

pub Writes-leaf :
    {depth : ℕ} {o : Output} (tag : Bytes) (attributes : List (Bytes × Bytes))
    → o.xml_depth ≡ pos depth
    → Writes depth (leaf tag attributes nil) o (complete_xml_element tag attributes o)
unfolding render complete_xml_element
Writes-leaf {depth} {o} tag attributes e = record {
  before = e;
  after = e;
  written =
      ap (λ d. o.text ++ (tabs (pos_part d) ++ element_text tag (32 ∷ 47 ∷ []) attributes)) e
      ∙ ap (λ t. o.text ++ t) (sym (append-nil _));
}

pos_before : (n : ℕ) → pos (n + 1) -ℤ pos 1 ≡ pos n
pos_before n = omega int_laws

-- The end of an element whose inside has been written.
pub Writes-node :
    {depth : ℕ} {f : Forest} {o p : Output} (tag : Bytes) (attributes : List (Bytes × Bytes))
    → o.xml_depth ≡ pos depth
    → Writes (depth + 1) f (open_xml_element tag attributes o) p
    → Writes depth (node tag attributes f nil) o (close_xml_element tag p)
unfolding render open_xml_element close_xml_element
Writes-node {depth} {f} {o} {p} tag attributes e w = record {
  before = e;
  after = back;
  written =
      ap (λ d. p.text ++ (tabs (pos_part d) ++ end_text tag)) back
      ∙ ap (λ t. t ++ (tabs depth ++ end_text tag)) w.written
      ∙ ap
          (λ d.
            ((o.text ++ (tabs (pos_part d) ++ element_text tag [] attributes))
              ++ render (depth + 1) f)
            ++ (tabs depth ++ end_text tag))
          e
      ∙ simp (append_assoc, append-nil);
}
  where
    back : p.xml_depth -ℤ pos 1 ≡ pos depth
    back = ap (λ d. d -ℤ pos 1) w.after ∙ pos_before depth

-- After the opening tag, one level further in.
pub opened :
    {depth : ℕ} (o : Output) (tag : Bytes) (attributes : List (Bytes × Bytes))
    → o.xml_depth ≡ pos depth
    → (open_xml_element tag attributes o).xml_depth ≡ pos (depth + 1)
unfolding open_xml_element
opened {depth} o tag attributes e = ap (λ d. d +ℤ pos 1) e ∙ pos-+ℤ depth 1

-- A function that prints may run into a NULL pointer, and then there is no tree.
abbrev pub Prints : ℕ → Option Forest → Output → Option Output → Type 0
Prints depth none o r = r ≡ none
Prints depth (some f) o r = (o' : Output) × (r ≡ some o') × Writes depth f o o'

-- One more element in front of what is printed next.
unfoldable pub leaf_before : Bytes → Option (List (Bytes × Bytes)) → Option Forest → Option Forest
leaf_before tag none rest = none
leaf_before tag (some attributes) none = none
leaf_before tag (some attributes) (some rest) = some (leaf tag attributes rest)

-- An element around what is printed.
unfoldable pub node_around : Bytes → List (Bytes × Bytes) → Option Forest → Option Forest
node_around tag attributes none = none
node_around tag attributes (some inside) = some (node tag attributes inside nil)

-- The body of an element, between the tags.
pub Prints-node :
    {depth : ℕ} (f : Option Forest) (o : Output) (r : Option Output) (tag : Bytes)
    (attributes : List (Bytes × Bytes))
    → o.xml_depth ≡ pos depth
    → Prints (depth + 1) f (open_xml_element tag attributes o) r
    → Prints depth (node_around tag attributes f) o (r >>= λ p. some (close_xml_element tag p))
unfolding node_around
Prints-node none o r tag attributes e h = rw h
Prints-node (some f) o r tag attributes e (p, done, w) =
    (close_xml_element tag p, rw done, Writes-node tag attributes e w)

-- An element that is written and then the rest.
pub Prints-leaf :
    {depth : ℕ} (o : Output) (tag : Bytes) (attributes : List (Bytes × Bytes)) (f : Option Forest)
    (r : Option Output)
    → o.xml_depth ≡ pos depth
    → Prints depth f (complete_xml_element tag attributes o) r
    → Prints depth (leaf_before tag (some attributes) f) o r
unfolding leaf_before joined
Prints-leaf o tag attributes none r e h = h
Prints-leaf o tag attributes (some f) r e (p, done, w) =
    (p, done, Writes-joined (Writes-leaf tag attributes e) w)
