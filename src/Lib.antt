-- ===== src/Lib.antt =====
-- A verification library for YoptaScript, a JavaScript-like language with a lexer, a parser, a
-- tree-walking interpreter, a bytecode machine and editor tools. The interpreter keeps its
-- variables in scope frames that closures share; the machine keeps arrays, objects and captured
-- variables in reference-counted cells, and a collector breaks their cycles.
--
-- Files and the code they model:
-- - Prelude: the shared names. Prelude.Lists has indexing and updating, Prelude.Tests the
--   Boolean tests on numbers, Prelude.Names the maps and sets of strings, which stand for
--   `HashMap` and `HashSet`; the order of a hash table is not observed by the code here.
-- - Env: crates/yps-interpreter/src/environment.rs, and `set_variable` of
--   crates/yps-interpreter/src/interpreter/assign.rs. Env.Frame is the state (`EnvFrame`,
--   `FrameRegistry`, `Environment`; an `Rc` is the frame's place in a heap of all frames),
--   Env.Walk the loop along parents, Env.Ops and Env.Assign the methods, under their names
--   (`lookup` is `lookup_both`). Values are a parameter. The other files hold the proofs: Chain,
--   Valid and Steps the invariant, Resolve, Laws, Blocks, Visible, Assigning and Registry what
--   the operations do.
-- - Gc: crates/yps-vm/src/gc.rs, with the values of crates/yps-vm/src/value.rs and
--   `collect_cycles` of crates/yps-vm/src/vm.rs. Gc.Heap is the data, Gc.Mark the marker,
--   Gc.Sweep the registry, the sweep and the collection; Gc.Owns and Gc.Walks say, by the fields
--   alone, what should be found. Gc.Reach brings a visit into one form, Typed, Visit and Correct
--   prove the marker right on it, Listed, Listing, Owned, Rooted and Reached connect it with the
--   walks, Ends, Clear, Emptied and Collect are about whole collections.
-- - Syntax: the expressions of crates/yps-parser and crates/yps-fmt. Syntax.Ops, Syntax.Tokens
--   and Syntax.Tree are the data (src/ast, src/precedence.rs, and
--   crates/yps-lexer/src/token.rs), Syntax.Parse and Syntax.Climb the parser of
--   crates/yps-parser/src/parser/expr.rs with the primaries of literals.rs, under their names;
--   Syntax.Print is `print_expr` of crates/yps-fmt/src/printer.rs, as the tokens that the lexer
--   reads from its text: a prefix operator is read together with what follows it, unless a space
--   stands between (`beside`); all other tokens that a print puts side by side are read one by
--   one, as is plain from their spellings; a name is taken to be spelled like no keyword,
--   Syntax.Quote its `quote_string` with the parser's `unescape_string`. Syntax.Shape says which
--   expressions the printer keeps (`IsPrintable`) and what it makes of parentheses (`regroup`,
--   `ungroup`). Follow, Begin, Apart, Reads, Items, Access, Operate, Yields, Facts, Operands,
--   Chains and RoundTrip prove that a print reads back, Format draws the conclusions, and Moves,
--   Taken and Ends prove that the parser ends.
-- - Bytecode: expressions in crates/yps-vm/src/compiler.rs and in the loop of
--   crates/yps-vm/src/vm.rs. Bytecode.Values is the primitive values of
--   crates/yps-vm/src/value.rs, Bytecode.Chunk the instructions of crates/yps-vm/src/chunk.rs
--   with `patch_jump`, Bytecode.Machine and Bytecode.Exec `exec_op` and `run_region` in one
--   frame, Bytecode.Tree the expressions, Bytecode.Fold constant folding, Bytecode.Locals the
--   local variables, Bytecode.Compile `compile_expr` and what it calls, under their names
--   (`short_circuit` is `compile_logical_assign` and the arms of `&&` and `||`, `compile_form`
--   is `compile_binary` behind folding). Bytecode.Eval says what an expression means without
--   code, operator by operator, Bytecode.Arms that the compiler's table of operators agrees,
--   Bytecode.Accepts which expressions are taken. Segments, Patches, Branches, Means, Operators,
--   Jumps, Slots, Variables, Folding, Effects, Forms and Correct hold the proof, which goes by
--   parts of the code and their effects; Runs draws the conclusions.
-- - Objects: crates/yps-vm/src/value.rs (`ObjMap`, `MethodTable`, `ClassDef`) and the property
--   accesses of crates/yps-vm/src/vm.rs with their inline caches (`InlineCache` of
--   crates/yps-vm/src/chunk.rs). Objects.Index is what the crate `indexmap` is relied on for,
--   Objects.Map and Objects.Classes are the methods, Objects.Cache is `get_property`,
--   `set_property` (on objects), `ic_get`, `ic_set` (`cached_get`, `cached_set`), `ic_fill_get`
--   and `ic_fill_set` (`fill_get`, `fill_set`). Edits, Fresh, Stale, Lineage and Tables hold the
--   proofs. The classes are the collector's cells.
-- - Promises: crates/yps-vm/src/promise.rs, on the collector's cells. Promises.State is the
--   cells with the queue of microtasks, a task kept as data; Promises.Settle, Promises.Chain and
--   Promises.Aggregate are the functions, under their names. Order, Reactions, Keeping, Forever
--   and Counting hold the proofs.
-- - Timers: `MacrotaskQueue` of crates/yps-interpreter/src/interpreter/event_loop.rs, which
--   crates/yps-vm/src/promise.rs repeats without `clear`. Timers.Queue is the queue and its
--   methods; Timers.Least and Timers.Pops hold the proofs.
-- - Positions: crates/yps-lsp/src/position.rs. Positions.Convert is `clamp_to_boundary`,
--   `byte_to_pos` and `pos_to_byte`, Positions.Word is `word_at` and `member_receiver`; Text,
--   RoundTrip, Clamp, Runs and Receiver hold the proofs. A text is the list of its code points;
--   a line and a character wrap at 32 bits.
--
-- Bounds and fuel: a run of the machine is a relation, a list of its rounds, and needs no fuel.
-- A loop of Env has as many rounds as there are frames, enough since a parent is older than its
-- frame. The marker has as many rounds as it is given, and Gc.Ends says how many are enough. A
-- lookup along parent classes has as many rounds as there are cells, enough since a parent is
-- older than its class. `pop_ready` has as many rounds as there are tasks, since every round but
-- the last pops one; one round of `pop_next_blocking` is shown to be enough. The expression
-- parser is bounded as in the source, by `MAX_PARSE_DEPTH` and `MAX_CHAIN_LEN`; the loops over
-- arguments and over the members behind `new` have as many rounds as there are tokens, and
-- Syntax.Ends proves it enough. The ids and numbers of tasks wrap at 64 bits, an object's
-- generation, the index in a cache, the index of a constant and the slot of a local variable
-- wrap at 32 bits.
--
-- Parameters: the type `f64` with its operations, the bit operators of Rust's integers and the
-- readings between numbers and texts (crates/yps-interpreter/src/interpreter/coercion.rs) are a
-- record in Bytecode, and what the machine finds under the names of builtins is an argument
-- there. Whether a weak reference still has owners (`strong`) comes from the reference counts of
-- Rust, which are not modelled; clearing a cell may take the last owner of another, so it is
-- asked again in each heap on the way. The clock is read by the caller. The map of the crate
-- `indexmap` is a record of operations with what its documentation says of them. Which
-- characters are alphanumeric is an argument of Positions. Which values are functions and
-- classes is an argument where objects hold any values.
--
-- Not modelled: the evaluation of statements, calls and objects in both back ends (a call of an
-- accessor or a handler is returned or queued), the tree-walking evaluation of expressions, the
-- functions of the bytecode compiler, the lexer, the statements, functions, templates, object
-- literals and positions of the parser and the formatter with its layout, the JavaScript
-- generator, the linter, the requests of the language server, and the debug adapter, and input
-- and output.
pub mod Prelude
pub mod Bytecode
pub mod Env
pub mod Gc
pub mod Objects
pub mod Positions
pub mod Promises
pub mod Syntax
pub mod Timers
