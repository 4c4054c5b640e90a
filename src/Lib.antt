-- ===== src/Lib.antt =====
-- lusid is a configuration tool: a plan of resources is evaluated into a tree, the machine is asked
-- for the state of each resource, the difference becomes a change, the changes become operations,
-- and the operations are run in epochs that respect what the tree says comes first. While this
-- happens a stream of updates is folded into what the terminal shows. This library models the parts
-- that decide, and leaves out those that talk to a machine.
--
-- The parts, and the files that model them:
--
-- Base: what the modules share. Results (`Result`, `?` as `>>=`), vectors over native indices
-- (`length`, `get_elem?`, `set`), Boolean tests, decidable equality as the instance `Eq`, and
-- finite sums.
-- Causality (causality/src/epoch.rs, tree.rs): `compute_epochs`. Collect has `collect_recursive`,
-- which flattens the tree into leaves with the constraints of their ancestors and fills the table
-- of ids; its mutable vectors and maps are passed as the record `Collected`, and what is pushed and
-- truncated around the children of a branch is the argument `Ancestors`. DependencyGraph has the
-- loops that make edges out of `requires` and `required_by`; Kahn has the queue loop. Meta has the
-- constructors of `CausalityMeta`. Layers, Precedence, Order and Cycles hold the proofs: Precedence
-- says which leaf has to come before which from the tree alone, without table or graph.
-- Tree (tree/src/lib.rs): the nested `Tree`, and in Tree/Flat the arena `FlatTree` with its append,
-- its replacement and both conversions; Tree/Flat/Transform has the maps over the arena. Their
-- futures and callbacks are functions on a state that may fail, in the order in which the code
-- awaits them. Layout says where an appended tree stands, Stands what tree an index is the root of.
-- Sweep has `map_option`; Pruned, Swept, Dropped, Rebuilt and Kept hold the proof about it.
-- View (view/src): styled text, its builders and its printed form.
-- ApplyStdio (apply-stdio/src/lib.rs): FlatView is the arena of views and its
-- conversion to a nested tree, with Layout and Shown for the proof about it, AppView the messages
-- (`AppUpdate`) and the state machine `AppView::update`, Access its accessors. Phases, Frozen and
-- Streams hold the proofs.
-- Apply (lusid-apply/src/lib.rs): `apply` from the plan on, as an effect that threads the messages
-- emitted so far; an error comes with them. The record Machine has what the pipeline calls: the
-- resource types, which are parameters here, and what the machine answers, which may depend on all
-- that was emitted. Mirror relates the arena of the pipeline to the arena of the terminal; Expanding,
-- Probing, Changing, Operating and Running are the loops, Parts and Accepted their composition,
-- Completed what a run without an error has done.
-- Params (params/src/lib.rs, parse.rs): Schema has the declarations, Declare their reading
-- from a value, Coerce `validate` with what it
-- calls, Parse the parsers of values, Fields `StructFields`, whose methods return what is left of it.
-- Value has the values of the rimu crate, of which the code uses the variants, and the ordered map
-- under its documented operations; what the crate knows of numbers and std of paths is the record
-- Platform. Maps, Lookups and Walked describe the walk over a struct by lookups, Typed and Retyped
-- the check of one value, Kept, Stable, Conforms, Cases and Validated what `validate` returns, Reads what
-- a read takes, Held which values that are, and Given that it takes them.
-- Operation (operation/src): the operations of each family, `partition_by_type` and `merge`;
-- Packages has the merges of apt and pacman, whose `BTreeSet` is an ascending list.
-- Resource (resource/src/resources): change and operations of apt, pacman, systemd, group, git,
-- user, whose test of two paths, std's, is a parameter, file, directory and secret, whose probes of the
-- file system are the record Disk, and command, where the trim of a text, std's,
-- and the run of a command line are parameters. Their operations are causality
-- trees, whose ids `compute_epochs` reads. Params and Parsing have the parameters of every resource
-- and the `ParseParams` that reads them. The programs that groups and units call are the records of
-- laws GroupTools (in Converge) and SystemdTools (in Units), each about the one group or unit that it
-- is given the name of.
-- Scopes of ids (module Plan; plan/src/tree.rs, id.rs): `PlanNodeId` and `map_plan_subitems`, which
-- scopes the ids of one resource's operations; Rename is about any renaming of ids that is one to one.
--
-- Bounds and fuel. The queue loop of `compute_epochs` runs on a round of fuel for each leaf and one
-- more: every round takes a leaf that no other round takes. `build`, in both arenas, runs on the
-- length of the arena: it takes a node out of its slot on the way down. `depth_first_search` runs on
-- twice the length of the arena: in a tree every node is popped twice at most; where branches share a
-- child the code may go on for longer. `clear_nodes`, in both arenas, runs on the length of the
-- arena, which bounds the depth where no branch stands below itself; on an arena with such
-- a cycle the code does not return, and the model stops. Indices are native numbers; the code's `usize` would only overflow
-- on arenas larger than memory. A write out of bounds, which the code would answer with a panic,
-- changes nothing in the model.
--
-- Not modelled: the commands, files, sockets and processes of the crates cmd, ctx, fs, http, ssh,
-- vm, store, system, of every `apply`, and of every `state` but those of command, file, directory
-- and secret; the command line and the terminal interface of lusid; the evaluation of plans, which
-- calls the rimu crate; secrets and the rest of plan; the printed form of `FlatViewTree`; the
-- families of resources not named above. `HashMap` and `HashSet` are association lists and lists,
-- since nothing modelled reads their order. The errors of `AppView::update` keep the state and the
-- message that the code formats into text.
pub mod Base
pub mod Tree
pub mod View
pub mod Causality
pub mod Operation
pub mod Resource
pub mod Plan
pub mod ApplyStdio
pub mod Apply
pub mod Params
