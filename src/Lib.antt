-- ===== src/Lib.antt =====
-- Chassis: a model of the runtime's core.
--
-- Chassis (src/chassis) hosts plugins whose tools, hooks and capabilities change
-- while agents run. Its safety rests on a few small state machines, and this
-- library models those with their error paths.
--
--   Prelude: shared tests, lists, dictionaries, sorting, orders on text. A Python
--     dict is an association list in insertion order with `put` for assignment
--     and `pop` for deletion; `sort` is stable like `sorted`.
--   Leases: GenerationAccounting of src/chassis/core/generation.py. Leases are
--     held as identifiers; clock readings are arguments.
--   Generations: GenerationManager of src/chassis/core/generations.py. Each
--     method is a function from the manager to an outcome and the next manager;
--     a history is a list of calls (Generations.Safety). The awaits of `drain`
--     are left out: the model has what it decides before and after them.
--   Budget: src/chassis/budget/models.py and, in Budget.Governor,
--     src/chassis/budget/governor.py. Governors stand in a store with links to
--     their parents. Walks up the parents run on fuel, the number of governors
--     in the store, which is enough as a parent is always older than its child.
--     Quantities are exact multiples of a millionth of a unit, in place of
--     floats; the rounding of floats is not modelled, nor is the OverflowError of
--     `float` on an int beyond its range.
--   Capabilities: src/chassis/capabilities/registry.py and snapshot.py. Version
--     specifiers belong to the `packaging` library, which is the parameter
--     `Packaging`; capability values are a parameter too. Composed is the snapshot
--     that the harness composes a generation with.
--   Scopes: src/chassis/core/scope.py. The exit stack is a list of entries, the
--     newest first; what a disposer does to the rest of the program is the
--     interface `Effects`. How the tasks of a scope end while it closes is an
--     argument, as the event loop decides it.
--   Hooks: src/chassis/hooks/types.py and registry.py. A hook is registered through
--     a scope of the module Scopes, whose disposers are the identifiers of
--     registrations and whose world is the hook registry. Hooks.Dispatch is the
--     loop of `dispatch`, one handler's turn at a time. A handler is a function of
--     the payload, so that what it does elsewhere is left out.
--   Config: src/chassis/config/models.py and reconcile.py. The difference of desired
--     and installed entries is a walk over the sorted identifiers; a failing
--     assertion is `none`. Digests of configurations are an interface. Carrying
--     an operation out is a specification (Config.Settled), as the harness does
--     that elsewhere.
--   Lifecycle: src/chassis/plugins/lifecycle.py. The diagram of
--     docs/lifecycle.md is a relation, Documented, and the steps that the table of
--     `transition` has beside it are another.
--   Activation: `_activation_order` of src/chassis/plugins/resolver.py. Each round of
--     its loop is a unit of fuel, as many as there are nodes, and activates one.
--   Resolver: src/chassis/plugins/resolver.py, with manifest.py for what a candidate
--     declares. Index is the hierarchy of composition scopes, where the composition
--     without scopes is the one of the root alone; its walk to the root has a unit
--     of fuel for each scope and one more, which Ancestors and Forest show to be
--     enough to tell whether there is a cycle; Eligibility is the fixpoint of
--     `resolve`, with a unit of fuel for each candidate and one more; Plan is
--     `resolve` itself. The members of declared cycles are an argument of the plan.
--   Policy: src/chassis/policy/permissions.py and engine.py. Policy.Strings and
--     Policy.Globs are what these use of Python's `str` and `fnmatch`. A pattern is
--     read with a unit of fuel for each of its characters, of which every token
--     takes one at least.
--   Replay: src/chassis/replay/models.py and session.py. A session is a value; the
--     redactor that requests and responses pass through is an argument.
--   Tools: src/chassis/tools/executor.py, with metadata.py and registry.py for what a
--     tool is. Tools.Executor is authorization and the charge, Tools.Calls the whole
--     of `execute`, whose awaits are the only places where the world changes. What
--     they reach is the interface `Boundary`. A trace of what was asked, approved,
--     charged and run is kept beside the state, for the theorems. Tools.Registry is the
--     registry of registry.py, whose histories are a relation on registries.
-- Every module works on the native numbers. Logging, events, serialisation to
-- dictionaries and context variables are left out throughout, as no decision of
-- the modelled code reads them.
--
-- Not modelled: the search for declared cycles in resolver.py, the composition of
-- generations (composition.py), semantic identity (core/identity.py), persistence,
-- redaction, the harness (but for its snapshot of capabilities) with its runtime and
-- agents, diagnostics and telemetry.
-- The first parts of these wire the modelled ones together; the last only report
-- on them.
pub mod Prelude
pub mod Activation
pub mod Budget
pub mod Capabilities
pub mod Config
pub mod Generations
pub mod Hooks
pub mod Leases
pub mod Lifecycle
pub mod Policy
pub mod Replay
pub mod Resolver
pub mod Scopes
pub mod Tools
