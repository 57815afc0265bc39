-- ===== src/Lib.antt =====
-- Verification library of the jleaker agent (src/cpp), a JVMTI agent that finds large collections in
-- a running Java program and prints how the heap's roots reach them.
--
-- How the agent works. A dump tags every collection, asks each for its size, and makes a memory node
-- and a leak number for each that is above a threshold (leak_detect.c). It then walks the heap
-- several times: the callback cbObjectTagReferrer sees each reference whose referee is tagged, tags
-- the referrer with a memory node of its own, records the reference and hands the leaks on. A set of
-- leak numbers per node (bitmask_set.c) says which leaks the node leads to. At the end the agent
-- follows the recorded references from a leak to a root (jvm_reference.c) and prints them as XML.
--
-- The files:
--   Common     names of the libraries, lists over the native naturals, integers, byte strings
--   Bits       the bits of a byte under `|`, `&`, `~` and `1 << k`
--   Bitmask    src/cpp/bitmask_set.c, all operations but bitMaskSet_free
--   Reference  src/cpp/jvm_reference.c: Kind has the three tests on reference kinds; Fields has
--              getFieldOffset and getFieldNameByIndex; Chain has fillClassInMemoryNode and
--              generateReferencesChainForNode; Printing has printSingleReference and its callers
--   Node       src/cpp/data_struct.h and .c: memory nodes, newMemoryNode,
--              hasReferenceBetweenObjects, addReferenceClass; Free has freeMemoryNode
--   Detect     src/cpp/leak_detect.c: Search has generateTagForClass, cbHeapObject and
--              searchObjectsForLeaks; Walk has isFieldIgnored and cbObjectTagReferrer; Rounds has
--              the loop of tagReferencesChain; Release has freeMemoryForLeakList and the loop that frees
--              the class nodes; Classes has fillClassIgnoreList and tagAllClasses; Dump has
--              findLeaksInTaggedObjects with the tags of a heap's objects, over all of these. A tag
--              that the first walk left is kept apart from the addresses of nodes (Marks)
--   Output     src/cpp/agent_util.c: escapeString and the functions that write XML elements; Tree
--              has the text of a tree of elements
--   Collections  src/cpp/jobject_print.c: printCollection, printMap, printMultiMap
--   Options    src/cpp/jleaker.c: parse_agent_options up to the configuration files
--   Configuration  src/cpp/jleaker.c: ini_handler, with the string map as a parameter
--   Agent      src/cpp/jleaker.c: Agent_OnAttach, initAgent, the callbacks vmInit and vmDeath, and
--              dumperThreadMain one statement at a time (Defs); System interleaves them
--   Allocator  src/cpp/allocator.c: initAllocator, fillMallocNode, _myAlloc and myFree
--
-- How state is modelled. A `MemoryNode*` is an index into a store, a list of nodes; a node that the
-- agent allocates stands behind the others. Linked lists are lists. A 64-bit tag of the heap walk is
-- 0 or a node's address, so it is an option. A bit set's buffer is a list of bytes, each a natural
-- below 256, with `~` and `<<` written out. fatal_error, which ends the process, is an outcome,
-- and so is the read of the array that untagAllClasses has deallocated (misread).
-- What JVMTI and JNI answer is a parameter (the records Jvm, ClassFacts and SearchConfig, and the
-- function `follow` for FollowReferences, in Detect/Dump the references that it reports); so is the
-- string map (StrMap).
--
-- Fuel. The recursions over a class's ancestors run on fuel, and `none` means that it ran out; fuel
-- above the rank of the class is enough where the hierarchy has no cycle (Reference/Fields/Total).
-- The search for a chain runs on fuel: one call more than there are nodes is enough, since each
-- nested call marks a node (Reference/Chain/Total). The loop over the options runs on one more than
-- the length of the text, since each round takes a token from it (Options/Total).
--
-- Bounds. Numbers of leaks, sizes of sets and addresses are naturals: the agent never passes a
-- negative one. Reference counts, field indices and leak sizes are integers. Wrap-around of a C `int`
-- is not modelled there: it takes 2^31 references, fields or leaks. A number among the options is
-- converted as strtol and the assignment to an `int` do, for a `long` of 64 bits.
--
-- Not modelled: src/cpp/strmap.c and src/cpp/ini.c are copies of other projects' libraries; the
-- Java classes, the build files and the scripts are not C; the sockets
-- are calls of the
-- JVM and of the C library for the most part. The report of leaked allocations
-- (src/cpp/allocator.c) is not modelled either. The dumper's test and set is the built-in of gcc, which is
-- one step; the function of that name for WIN32, which is not, is not modelled.
pub mod Agent
pub mod Allocator
pub mod Bitmask
pub mod Bits
pub mod Collections
pub mod Common
pub mod Configuration
pub mod Detect
pub mod Node
pub mod Options
pub mod Output
pub mod Reference
