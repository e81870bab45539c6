-- ===== src/Lib.antt =====
-- A verification library for the Open Workflow Specification runtime: the execution engine that
-- runs compiled workflows, the core types, the store, the policy and the events around it, and the
-- expression language.
--
-- The program. A workflow definition is compiled to an IR (crates/ows-runtime/src/ir.rs). The
-- engine (crates/ows-runtime/src/engine.rs) runs its tasks scope by scope: `exec_scope` follows the
-- flow directives of the tasks and persists a checkpoint after each task of the top scope,
-- `exec_task` takes one task through its data-flow pipeline, and `dispatch`
-- (crates/ows-runtime/src/tasks.rs) runs its body, which may run scopes of its own. `execute_with`
-- surrounds the top scope with the input and output pipelines and records the start and the end of
-- the execution in the store; `Runtime::resume` (crates/ows-runtime/src/runtime.rs) goes on from
-- the last checkpoint. Events travel over the broker of crates/ows-runtime-events/src/lib.rs.
--
-- The files. Prelude holds shared names, Json the JSON values over a type N of numbers. Core/Error,
-- Core/Phase, Core/Store and Core/Policy model the files of those names in
-- crates/ows-runtime-core/src, Core/Error also the constructors of crates/ows-runtime/src/error.rs.
-- Engine/Ir is ir.rs, with the parser of ISO 8601 durations in Engine/Ir/Duration, where a text is
-- the list of its code points. Engine/State has the state of an execution: the mutable part of
-- `ExecContext` (shared or cloned with it), its constants as `Execution`, and the monad `Exec` in
-- which the engine runs; a panic of the code is an outcome of its own. Engine/Runtime is the record
-- of everything outside: the evaluation of an expression (as a parameter), schemas, clock,
-- cancellation, timers, task sets, the store, and the bodies of emit, listen, call and run as
-- `perform`. Engine/Eval has the evaluation helpers and `ExpressionContext` of
-- crates/ows-runtime-core/src/expression.rs, Engine/Scope `exec_scope` and the checkpoint,
-- Engine/Task `exec_task` and the extensions, Engine/Tasks one file for each group of tasks,
-- Engine/Run `execute_with`, its persistence and `resume`. Events/CloudEvent, Events/Matcher and
-- Events/Broker are the events crate. The modules below a component's file hold its proofs:
-- Engine/Scope/Halting and Engine/Scope/Rounds, Engine/Eval/Shadowing, Engine/Tasks/Try/Attempts
-- and Engine/Tasks/Try/Count, Engine/Tasks/Fork/Results, Engine/Tasks/For/Loop and
-- Engine/Tasks/For/Fold, Engine/Tasks/Delay/Bounds, Engine/Tasks/Simple/Choice, Core/Store/Lookup;
-- and Engine/Frame with Engine/Keeps, Events/Delivery, Engine/Run/Conclusion, Engine/Run/Recovery
-- and Engine/Ir/Duration/Sections. Expressions is crates/ows-runtime-expressions/src:
-- Expressions/Syntax is ast.rs, Expressions/Error error.rs, Expressions/Token and Expressions/Lexer
-- lexer.rs, Expressions/Parser parser.rs, Expressions/Eval eval.rs with the built-in functions in
-- Expressions/Eval/Builtins, and Expressions/Jq engine.rs. Expressions/Text has the operations on
-- texts, which are lists of characters there, Expressions/Int64 the `i64` arithmetic, and
-- Expressions/Number the records of what is taken from elsewhere: floats, the numbers and texts of
-- serde_json, and the Unicode tables. An expression evaluates to a filter, a function from an input
-- to a stream; the parts of an expression are filters that the cases of `eval` compose. The proofs
-- are in Expressions/Lexer/Total, Expressions/Parser/Total, Expressions/Parser/Halting and
-- Expressions/Jq/Halting, in Expressions/Eval/Streams, Sorting, Flattening, Reversal, Bounds and
-- RoundTrip, and in Expressions/Text/Joining. Schedule is the loops of
-- crates/ows-runtime/src/schedule.rs, with their proofs in Schedule/Firing. Tests has a small
-- concrete runtime, runs in it, and the theorems at concrete inputs.
--
-- Interleavings. The branches of a fork and the adapters run between the steps of the engine: the
-- task set hands over its results in any order, and every look at the lock, the cancellation, the
-- clock or the store may change the world `W`. A branch runs on its clone of the context. What a
-- task that a timeout drops has done by then is the answer of the runtime's timer. What a receiver
-- takes from the channel of its subscription is left to the channel.
--
-- Objects. `serde_json` keeps a map sorted: an object is read and written by key, and the
-- expression language lists its keys and values in the order of the keys. The fields of a
-- definition's maps stand in that order.
--
-- Fuel. The rounds of a scope, those of a try and the nesting of tasks take fuel, since a goto may
-- loop forever; the outcome `out_of_fuel` says that it ran out. For a scope without jumps a fuel
-- above the number of its tasks is enough, for a try the number of its attempts and one more; the
-- listed theorems on ends state this. The lexer, the parser and the loop over blocks take fuel too,
-- which `Parsed` has an outcome for: as many units as there are characters for the first and the
-- last, 20 for each token for the parser, and one level of interpolations for each character; the
-- listed theorems state that they are enough. Other loops recurse on their data. Durations are
-- nanoseconds up to the largest `Duration`; attempts wrap at 32 bits and a raised status at 16 as
-- in the code.
--
-- Not modelled: the compiler, the start of schedules, validation of definitions, and the bodies of
-- emit, listen, call and run are parameters so far. HTTP, gRPC, processes, durable stores,
-- telemetry and the command line are input and output. Rust's logging is left out.
pub mod Prelude
pub mod Json
pub mod Core
pub mod Events
pub mod Engine
pub mod Expressions
pub mod Schedule
pub mod Tests
