-- ===== src/Lib.antt =====
-- resmack: a grammar-based fuzzer. The library (ws/libresmack) holds a grammar as a table of rules,
-- analyses it and builds random text from it, recording the state of its random number generator
-- as each rule is entered. The fuzzer (ws/libresmack_fuzz) keeps recordings that found something new,
-- mutates them and has the library replay them.
--
-- The parts and their files:
--   Rand      ws/libresmack/src/rand.cpp: the xoshiro128** generator, snapshots of its state.
--   Item      ws/libresmack/include/resmack/item.hpp, src/items/: the items of a grammar, rules
--             (`Or`), the choice among their alternatives, the constructors that check a range.
--   Manager   ws/libresmack/src/rule_man.cpp: names, the table of rules, and scopes.
--   Calc      ws/libresmack/src/calc/, src/rules.cpp (`Finalize`): reachability, depth of references.
--   Build     ws/libresmack/src/build_context.cpp, src/rules.cpp (`Build`), src/items/ (`Build`).
--   Mutate    ws/libresmack_fuzz/src/mutate.cpp: mutation of a recording.
--   Corpus    ws/libresmack_fuzz/src/corpora/mmap.cpp: the recordings that the fuzzing processes share.
--   Layout    include/resmack/fuzz/serialized.hpp, src/corpora/mmap.cpp in ws/libresmack_fuzz: the
--             corpus word by word, as it lies in memory and in the state file.
--   Coverage  ws/libresmack_fuzz/src/feedbacks/coverage.cpp: which edges of the program were reached.
--   Tracee    ws/libresmack_fuzz/src/tracee.cpp: what a fuzzing process leaves for its tracer.
--   Process   ws/libresmack_fuzz/src/process_utils.cpp: how a process ended.
--   Tracer    ws/libresmack_fuzz/src/tracer.cpp, src/process_launchers/fork.cpp: launching and tracing.
--   Target    ws/libresmack_fuzz/src/target.cpp, src/targets/direct.cpp: running the program under test.
--   State     ws/libresmack_fuzz/src/states/mmap.cpp: the file of the state and its counters.
--   Fuzz      ws/libresmack_fuzz_main/src/main.cpp: options, the loop of a fuzzing process, crashes,
--             and `main` with the start and the end of its tracers.
--   Lock      ws/libresmack_fuzz/src/lock.cpp: the semaphore that processes share.
--   Cli       ws/resmack/src/: the sub-commands cc and debug-state.
--   Prelude   tests, lists, words, signed integers, and `Outcome`, the result of code that may fail.
--
-- The state of an object is a record with the members of its class, and a method that changes it
-- returns the new record. Undefined behaviour, exceptions and null pointers are values of
-- `Outcome`. Items own their children, so an item is a tree. A number of w bits is a natural number
-- below 2 ^ w, with the wrap-around written out where the code can wrap. Allocation does not fail.
--
-- Fuel: `build` takes fuel for the depth of calls of `Item::Build`, since a grammar may refer to
-- itself, and as much for the loop of `Flushed::Build`; where the references form no cycle, the rank
-- of a rule (Build/Ranked.antt) is enough. The loops of `Finalize` take fuel in
-- `Env`; the loop of `MutateRandSnapshot` takes as much as there are snapshots and one more,
-- since each round moves on by one at least; `update_stats` takes as much as there are entries
-- and one more, where it is called, since the parents of an entry stand before it; the loops of
-- `FuzzLoop` and `MonitorTracee` take fuel for their turns, of which FuzzLoop needs `rounds_left`
-- where there is a maximal number of iterations.
--
-- Not modelled: the printing of integers (fmt) and the order of hash maps, which are parameters;
-- the seeding by std::mt19937, whose four words are an argument; `NextInRangeGaussian`, which computes
-- with floating-point numbers and is a parameter of the loop; printing, for debugging and of the
-- status; the operating system's calls (ptrace, fork, waitpid, semaphores, mmap), which are parameters
-- where a part decides by them; the program under test and the unwinder, which are parameters; that
-- other processes change the shared memory during a turn of the loop, where Corpus/Processes.antt has
-- the calls of any number of processes on the corpus, one after the other; the capacity of vectors and
-- the identity of scopes, so that the moves of post_items and the double deletes that Build/Context.antt
-- and Build/Items.antt name are not seen.
pub mod Prelude
pub mod Rand
pub mod Item
pub mod Manager
pub mod Calc
pub mod Build
pub mod Mutate
pub mod Corpus
pub mod Layout
pub mod Cli
pub mod Coverage
pub mod Tracee
pub mod Process
pub mod Tracer
pub mod Target
pub mod State
pub mod Lock
pub mod Fuzz
