-- ===== src/Reference/Printing/Chain.antt =====
-- Printing a list of references does not run into NULL, and writes one element for each.
use jleaker.Common.{
  ◌⊎◌, ap, sym, subst, ◌∙◌, ℕ, ◌+◌, ◌≤◌, ◌<◌, ◌≡◌, refl, ◌==◌, ==_iff, Bool, true, false,
  Bool-cases, inl, inr, Option, none, some, List, [], ◌∷◌, ◌++◌, length, set, length-set, Bytes,
  bytes,
}
use jleaker.Common.Int.{ℤ, pos}
use jleaker.Reference.Kind.{Kind, ReferenceInfo, field_index}
use jleaker.Reference.Fields.{get_field_name_by_index}
use jleaker.Reference.Chain.{fill_node, fill_class_in_memory_node}
use jleaker.Reference.Chain.Fill.{live, live_node, fill_node_lem, fill_node-again}
use jleaker.Reference.Chain.Named.{IsNamed, IsFull, fill_node-Filled}
use jleaker.Node.Defs.{MemoryReferer, MemoryNode, Store, node_at}
use jleaker.Node.Update.{part_at-set, node_at-set_self, node_at-set_other}
use jleaker.Output.{Output, complete_xml_element, open_xml_element}
use jleaker.Output.Tree.{
  Forest, Writes, Writes-nil, Writes-leaf, Writes-node, Writes-joined, joined, opened,
}
use jleaker.Reference.Printing.Format.{snprintf}
use jleaker.Reference.Printing.Defs.{
  Facts, Message, message, with_field_name, static_field_message, field_message,
  array_element_message, constant_pool_message, stack_local_message, reference_message,
}
use jleaker.Reference.Printing.Leaks.{
  Printed, printed, and_then, closing, print_message, print_filled, print_single_reference,
  print_references, print_all_references_to_node, print_reference_chain_to_node,
}

-- The kinds whose message names the class of the referrer.
abbrev pub names_referrer : Kind → Bool
names_referrer Kind.static_field = true
names_referrer Kind.field = true
names_referrer Kind.array_element = true
names_referrer _ = false

module _ (facts : Facts) where
  -- What the printing needs of the store.
  pub record IsReady (st : Store) : Type 0 where
    pub named : (a : ℕ) → IsNamed (node_at st a)
    pub single : (a : ℕ) → length (facts.jvm.objects_with_tag a) ≤ 1
    pub field_names :
        (klass : ℕ) (idx : ℤ)
        → (x : Option Bytes) × (get_field_name_by_index facts.fields facts.depth klass idx ≡ some x)

  -- The referrer of each reference is in the store, and alive if the message names it.
  abbrev pub ArePrintable : Store → List MemoryReferer → Type 0
  ArePrintable st [] = Unit
  ArePrintable st (r ∷ rs) =
      ((b : ℕ) → r.node ≡ some b → b < length st)
      × (names_referrer r.kind ≡ true → (b : ℕ) × (r.node ≡ some b) × (live facts.jvm st b ≡ true))
      × ArePrintable st rs

  -- A store with one node filled.
  record FilledStore (st : Store) (a : ℕ) : Type 0 where
    after : Store
    fills : fill_class_in_memory_node facts.jvm st a ≡ some after
    ready : IsReady after
    filled : fill_node facts.jvm a (node_at st a) ≡ some (node_at after a)
    same_fill :
        (b : ℕ) → fill_node facts.jvm b (node_at after b) ≡ fill_node facts.jvm b (node_at st b)
    same_live : (b : ℕ) → live facts.jvm after b ≡ live facts.jvm st b
    same_length : length after ≡ length st
    full : live facts.jvm st a ≡ true → IsFull (node_at after a)

  filled_store : (st : Store) (a : ℕ) → IsReady st → a < length st → FilledStore st a
  unfolding fill_class_in_memory_node
  filled_store st a ready lt =
      let fl = fill_node-Filled facts.jvm a (node_at st a) (ready.named a) (ready.single a) in
      record {
        after = set st a fl.m;
        fills = rw fl.filled;
        ready = record {
          named = λ b. elim (Bool-cases (a == b)) [
            | inl same ↦
                subst (λ c. IsNamed (node_at (set st a fl.m) c)) ((==_iff a b).0 same)
                  (subst IsNamed (sym (node_at-set_self st a fl.m lt)) fl.named)
            | inr apart ↦
                subst IsNamed (sym (node_at-set_other st a b fl.m lt apart)) (ready.named b)
          ];
          single = ready.single;
          field_names = ready.field_names;
        };
        filled = fl.filled ∙ ap some (sym (node_at-set_self st a fl.m lt));
        same_fill = λ b.
            part_at-set (fill_node facts.jvm) st a b fl.m lt
              (fill_node-again facts.jvm a (node_at st a) fl.m fl.filled ∙ sym fl.filled);
        same_live = λ b.
            part_at-set (live_node facts.jvm) st a b fl.m lt
              (fill_node_lem facts.jvm a (node_at st a) fl.m fl.filled).1;
        same_length = length-set st a fl.m;
        full = λ h. subst IsFull (sym (node_at-set_self st a fl.m lt)) (fl.full h);
      }

  -- The node with which a message is made: that of the store, filled, or NULL.
  abbrev pub IsReferrer : Store → Option ℕ → Option MemoryNode → Type 0
  IsReferrer st none n = n ≡ none
  IsReferrer st (some b) n =
      (m : MemoryNode) × (fill_node facts.jvm b (node_at st b) ≡ some m) × (n ≡ some m)

  -- What is printed for references, in their order, each with the message that its kind, its information
  -- and its own referrer in the store give; only those of a kind that the agent does not name
  -- are left out, whose message is NULL.
  pub data Locations (st : Store) : List MemoryReferer → Forest → Type 0 where
    end : Locations st [] Forest.nil
    location :
        {refs : List MemoryReferer} {f : Forest}
        → (r : MemoryReferer) (n : Option MemoryNode) (text : Bytes) → IsReferrer st r.node n
        → reference_message snprintf facts r.kind r.info n ≡ message (some text)
        → Locations st refs f
        → Locations st
            (r ∷ refs)
            (Forest.leaf (bytes "reference") ((bytes "location", text) ∷ []) f)
    unnamed :
        {refs : List MemoryReferer} {f : Forest}
        → (r : MemoryReferer) (k : ℕ) → r.kind ≡ Kind.unlisted k
        → Locations st refs f
        → Locations st (r ∷ refs) f

  Locations-before :
      {st st' : Store} {refs : List MemoryReferer} {f : Forest}
      → ((b : ℕ) → fill_node facts.jvm b (node_at st' b) ≡ fill_node facts.jvm b (node_at st b))
      → Locations st' refs f
      → Locations st refs f
  Locations-before same end = end
  Locations-before {st} {st'} same (location r n text who e rest) =
      location r n text (of_node r.node n who) e (Locations-before same rest)
    where
      of_node : (p : Option ℕ) (n : Option MemoryNode) → IsReferrer st' p n → IsReferrer st p n
      of_node none n who = who
      of_node (some b) n (m, filled, e) = (m, sym (same b) ∙ filled, e)
  Locations-before same (unnamed r k e rest) = unnamed r k e (Locations-before same rest)

  -- A message that is there.
  abbrev Answers : Kind → Message → Type 0
  Answers kind m =
      ((text : Bytes) × (m ≡ message (some text)))
      ⊎ ((m ≡ message none) × ((k : ℕ) × (kind ≡ Kind.unlisted k)))

  field_name-Answers :
      (kind : Kind) (st : Store) (klass : ℕ) (idx : ℤ) (text : Bytes → Bytes)
      → IsReady st
      → Answers kind (with_field_name facts klass idx text)
  unfolding with_field_name
  field_name-Answers kind st klass idx text ready = answered (ready.field_names klass idx)
    where
      answered :
          ((x : Option Bytes) × (get_field_name_by_index facts.fields facts.depth klass idx
              ≡ some x))
          → Answers kind (with_field_name facts klass idx text)
      answered (none, e) = rw (e, with_field_name) (inl (_, refl))
      answered (some name, e) = rw (e, with_field_name) (inl (_, refl))

  reference-Answers :
      (kind : Kind) (info : Option ReferenceInfo) (st : Store) (n : Option MemoryNode)
      → IsReady st
      → (names_referrer kind ≡ true → (m : MemoryNode) × (n ≡ some m) × IsFull m)
      → Answers kind (reference_message snprintf facts kind info n)
  unfolding reference_message static_field_message field_message array_element_message
      constant_pool_message stack_local_message
  reference-Answers Kind.static_field info st n ready named =
      let (m, e, full) = named refl in
      let text = λ (obj : ℕ) (name : Bytes).
        snprintf (length (facts.jvm.class_name obj) + length name + 32)
          (facts.jvm.class_name obj ++ 46 ∷ (name ++ bytes " (Static)")) in
      rw (e, full.obj)
        (field_name-Answers Kind.static_field st full.o (field_index info) (text full.o) ready)
  reference-Answers Kind.field info st n ready named =
      let (m, e, full) = named refl in
      rw (e, full.klass, full.classname)
        (field_name-Answers Kind.field st full.k (field_index info)
          (λ (name : Bytes). snprintf (length full.c + length name + 32) (full.c ++ 46 ∷ name))
          ready)
  reference-Answers Kind.array_element info st n ready named =
      let (m, e, full) = named refl in rw (e, full.classname) (inl (_, refl))
  reference-Answers Kind.constant_pool info st n ready named = inl (_, refl)
  reference-Answers Kind.stack_local info st n ready named = inl (_, refl)
  reference-Answers Kind.jni_local info st n ready named = inl (_, refl)
  reference-Answers Kind.jni_global info st n ready named = inl (_, refl)
  reference-Answers Kind.system_class info st n ready named = inl (_, refl)
  reference-Answers Kind.monitor info st n ready named = inl (_, refl)
  reference-Answers Kind.thread info st n ready named = inl (_, refl)
  reference-Answers Kind.other info st n ready named = inl (_, refl)
  reference-Answers (Kind.unlisted k) info st n ready named = inr (refl, (k, refl))

  -- The printing of references returns, and leaves a store in which the same objects are alive.
  pub record PrintsAll (depth : ℕ) (refs : List MemoryReferer) (st : Store) (o : Output)
      (r : Printed) : Type 0 where
    pub last : Store
    pub out : Output
    pub returns : r ≡ printed last out
    pub f : Forest
    pub writes : Writes depth f o out
    pub locations : Locations st refs f
    pub same_fill :
        (b : ℕ) → fill_node facts.jvm b (node_at last b) ≡ fill_node facts.jvm b (node_at st b)
    pub ready : IsReady last
    pub same_live : (b : ℕ) → live facts.jvm last b ≡ live facts.jvm st b
    pub same_length : length last ≡ length st

  -- The message of one reference, written in the store `after`.
  message-PrintsAll :
      {depth : ℕ} (r : MemoryReferer) (n : Option MemoryNode) (st after : Store) (o : Output)
      → IsReady after
      → IsReferrer st r.node n
      → ((b : ℕ) → fill_node facts.jvm b (node_at after b) ≡ fill_node facts.jvm b (node_at st b))
      → ((b : ℕ) → live facts.jvm after b ≡ live facts.jvm st b)
      → length after ≡ length st
      → o.xml_depth ≡ pos depth
      → (names_referrer r.kind ≡ true → (m : MemoryNode) × (n ≡ some m) × IsFull m)
      → PrintsAll depth
          (r ∷ [])
          st
          o
          (print_message facts after o (reference_message snprintf facts r.kind r.info n))
  unfolding print_message
  message-PrintsAll r n st after o ready who same_fill alive size e named =
      elim (reference-Answers r.kind r.info after n ready named) [
        | inl (text, m) ↦ record {
          last = after;
          out = complete_xml_element (bytes "reference") ((bytes "location", text) ∷ []) o;
          returns = rw m;
          f = Forest.leaf (bytes "reference") ((bytes "location", text) ∷ []) Forest.nil;
          writes = Writes-leaf (bytes "reference") ((bytes "location", text) ∷ []) e;
          locations = location r n text who m end;
          same_fill = same_fill;
          ready = ready;
          same_live = alive;
          same_length = size;
        }
        | inr (m, (k, unlisted)) ↦ record {
          last = after;
          out = o;
          returns = rw m;
          f = Forest.nil;
          writes = Writes-nil e;
          locations = unnamed r k unlisted end;
          same_fill = same_fill;
          ready = ready;
          same_live = alive;
          same_length = size;
        }
      ]

  single-PrintsAll :
      {depth : ℕ} (r : MemoryReferer) (node : Option ℕ) (st : Store) (o : Output)
      → IsReady st
      → r.node ≡ node
      → ((b : ℕ) → node ≡ some b → b < length st)
      → (names_referrer r.kind ≡ true → (b : ℕ) × (node ≡ some b) × (live facts.jvm st b ≡ true))
      → o.xml_depth ≡ pos depth
      → PrintsAll depth (r ∷ []) st o (print_filled facts r node st o)
  unfolding print_filled
  single-PrintsAll r none st o ready is within alive e =
      message-PrintsAll r none st st o ready (subst (λ p. IsReferrer st p none) (sym is) refl)
        (λ b. refl) (λ b. refl) refl e (λ h. let (b, eb, l) = alive h in absurd (cc))
  single-PrintsAll {depth} r (some a) st o ready is within alive e =
      let fs = filled_store st a ready (within a refl) in
      subst
        (λ (x : Option Store). PrintsAll depth (r ∷ []) st o (elim x as (λ y. Printed) [
          | none ↦ Printed.crashed
          | some st' ↦
              print_message facts st' o
                (reference_message snprintf facts r.kind r.info (some (node_at st' a)))
        ]))
        (sym fs.fills)
        (message-PrintsAll r (some (node_at fs.after a)) st fs.after o fs.ready
          (subst (λ p. IsReferrer st p (some (node_at fs.after a))) (sym is)
            (node_at fs.after a, fs.filled, refl))
          fs.same_fill fs.same_live fs.same_length e
          (λ h.
            let (b, eb, l) = alive h in
            (
              node_at fs.after a,
              refl,
              fs.full (subst (λ c. live facts.jvm st c ≡ true) (same_address eb) l),
            )))
    where
      same_address : {b c : ℕ} → some c ≡ some b → b ≡ c
      same_address q = cc

  ArePrintable-after :
      (st st' : Store) (refs : List MemoryReferer)
      → ((b : ℕ) → live facts.jvm st' b ≡ live facts.jvm st b)
      → length st' ≡ length st
      → ArePrintable st refs
      → ArePrintable st' refs
  ArePrintable-after st st' [] alive size h = tt
  ArePrintable-after st st' (r ∷ rs) alive size (within, named, rest) = (
    λ b e. subst (λ n. b < n) (sym size) (within b e),
    λ h. let (b, e, l) = named h in (b, e, alive b ∙ l),
    ArePrintable-after st st' rs alive size rest,
  )

  Locations-joined :
      {st : Store} {r : MemoryReferer} {refs : List MemoryReferer} {f g : Forest}
      → Locations st (r ∷ []) f
      → Locations st refs g
      → Locations st (r ∷ refs) (joined f g)
  unfolding joined
  Locations-joined (location r n text who m end) l = location r n text who m l
  Locations-joined (unnamed r k e end) l = unnamed r k e l

  references-PrintsAll :
      {depth : ℕ} (refs : List MemoryReferer) (st : Store) (o : Output)
      → IsReady st
      → ArePrintable st refs
      → o.xml_depth ≡ pos depth
      → PrintsAll depth refs st o (print_references facts refs st o)
  unfolding print_references print_single_reference and_then
  references-PrintsAll [] st o ready h e = record {
    last = st;
    out = o;
    returns = refl;
    f = Forest.nil;
    writes = Writes-nil e;
    locations = end;
    same_fill = λ b. refl;
    ready = ready;
    same_live = λ b. refl;
    same_length = refl;
  }
  references-PrintsAll (r ∷ rs) st o ready (within, named, rest) e =
      let one = single-PrintsAll r r.node st o ready refl within named e in
      let more =
        references-PrintsAll rs one.last one.out one.ready
          (ArePrintable-after st one.last rs one.same_live one.same_length rest) one.writes.after in
      record {
        last = more.last;
        out = more.out;
        returns = rw one.returns more.returns;
        f = joined one.f more.f;
        writes = Writes-joined one.writes more.writes;
        locations = Locations-joined one.locations (Locations-before one.same_fill more.locations);
        same_fill = λ b. more.same_fill b ∙ one.same_fill b;
        ready = more.ready;
        same_live = λ b. more.same_live b ∙ one.same_live b;
        same_length = more.same_length ∙ one.same_length;
      }

  -- An element with this tag that lists the references.
  pub record ListsAll (depth : ℕ) (tag : Bytes) (refs : List MemoryReferer) (st : Store)
      (o : Output) (r : Printed) : Type 0 where
    pub last : Store
    pub out : Output
    pub returns : r ≡ printed last out
    pub f : Forest
    pub writes : Writes depth (Forest.node tag [] f Forest.nil) o out
    pub locations : Locations st refs f

  element-ListsAll :
      {depth : ℕ} (tag : Bytes) (refs : List MemoryReferer) (st : Store) (o : Output)
      → IsReady st
      → ArePrintable st refs
      → o.xml_depth ≡ pos depth
      → ListsAll depth tag refs st o
          (closing tag (print_references facts refs st (open_xml_element tag [] o)))
  unfolding closing and_then
  element-ListsAll tag refs st o ready h e =
      let all =
        references-PrintsAll refs st (open_xml_element tag [] o) ready h (opened o tag [] e) in
      record {
        last = all.last;
        out = _;
        returns = rw all.returns;
        f = all.f;
        writes = Writes-node tag [] e all.writes;
        locations = all.locations;
      }

  -- printReferenceChainToNode and printAllReferencesToNode return, if every node whose class is filled in has
  -- its object and the class's name, JVMTI knows at most one object for a tag, the ancestors of each
  -- class are within the fuel, the referrer of each reference is in the store, and it is alive where the
  -- message names its class. Each writes one element at the depth that the output has, not
  -- negative, and comes back to it; inside there is one empty element for each reference, in their
  -- order, with the message that its kind, its information and its own referrer, as it stands
  -- in the store and is filled, give, but none for a kind that the agent does not name.
  pub references-ListsAll :
      {depth : ℕ} (st : Store) (o : Output)
      → IsReady st
      → o.xml_depth ≡ pos depth
      → ((refs : List MemoryReferer)
          → ArePrintable st refs
          → ListsAll depth
              (bytes "reference-chain-to-root")
              refs
              st
              o
              (print_reference_chain_to_node facts refs st o))
        × ((node : ℕ)
            → ArePrintable st (node_at st node).referers
            → ListsAll depth
                (bytes "references")
                (node_at st node).referers
                st
                o
                (print_all_references_to_node facts node st o))
  unfolding print_reference_chain_to_node print_all_references_to_node
  references-ListsAll st o ready e = (
    λ refs h. element-ListsAll (bytes "reference-chain-to-root") refs st o ready h e,
    λ node h. element-ListsAll (bytes "references") (node_at st node).referers st o ready h e,
  )
