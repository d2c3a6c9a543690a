-- ===== src/Lib.antt =====
-- A verification library for Dokkimi: the checks that a definition file passes before it runs
-- (shared/definition-validator), the substitution of references in it
-- (shared/definition-resolver), and the life of runs and instances in the control tower
-- (services/control-tower/src/runs). The validator reports errors and warnings on JSON values that
-- a definition file was parsed to. The run service creates runs with pending instances, the
-- scheduler deploys them within two limits and decides when a run is over, and the cleanup stops
-- instances, recovers runs after a crash and prunes old ones.
--
-- The files, by the code that they model:
--   Prelude, Prelude/*: the shared names, Boolean tests, lists, signed integers and texts.
--   Json, Json/*: JavaScript values as `yaml.load` or `JSON.parse` returns them, with what the code
--     observes of a value: `typeof`, truthiness, property reads, `Object.keys`, exact numbers.
--   Report: validate-helpers.ts, `err`, `warn`, `checkUnknownKeys`. A validator that pushes onto a
--     ValidationResult is a function to the list of its pushes, and statements in sequence are `>>`.
--     `clean` says that no push is an error. Report/Clean has the lemmas on sequences and loops, and
--     Report/Accepts puts the condition that a report accepts together statement by statement.
--   Validator/Keys, Keys/Items, Keys/Ui: constants.ts. Validator/Paths: `validatePathFormat`.
--   Validator/Where, Validator/Assertions, Validator/Blocks: validate-assertions.ts, one function per
--     source function with the name in snake case, and their child modules with the accepted forms.
--   Validator/Loops/Levels, Kinds, Modifiers: validate-loops.ts, the bodies, the three kinds of loops
--     and the choice of a modifier with what may stand beside it.
--   Validator/Steps: validate-tests.ts, `validateStep`; the check of UI actions is a parameter there.
--   Validator/Items, Items/Parts, Items/Kinds: validate-items.ts, `validateItem`, the fields that kinds
--     of items share, and the kinds. Items/Names, Containers, Fields, Accepted: the accepted forms.
--   Validator/Ui, Ui/SubSteps, Ui/Extracts: validate-ui-action.ts and validate-ui-substeps.ts.
--     Ui/Forms, Kinds, Sources, Accepted: the accepted forms; Ui/Fuel: that the fuel is enough.
--   Validator/Refs/Variables: validate-tests.ts, `resolveVariablesRef` and `validateVariablesField`.
--     Validator/Refs/ItemRefs and ActionRefs: validate-refs.ts. A function that reports errors and
--     returns a value or null is a pair of a report and an option.
--   Validator/Definition: validate.ts and `validateTests` of validate-tests.ts, where the checks are
--     put together; Definition/Tests: what an accepted test is.
--   Validator/Screenshots: validate-tests.ts, the uniqueness of screenshot names.
--   Runs/Rows: shared/prisma/sqlite/schema.prisma, the rows and statuses.
--   Runs/Scheduler: deployment-scheduler.service.ts. Runs/Cleanup: run-cleanup.service.ts, with
--     `stopInstance` of namespace-lifecycle.service.ts and `getMaxRunHistory` of user-prefs.ts.
--   Runs/Races: the same `deployPendingInstances`, with several callers whose steps interleave.
--     Runs/Races/Dispatch is what it promises, without rows or callers.
--   Runs/Service, Runs/Service/Submission: runs.service.ts.
--   Resolver/Substitution: env-substitution.ts, `interpolateEnv` and
--     `interpolateVars`. Resolver/Leftovers: `findLeftoverVarRefs`.
--   Examples modules: the theorems at concrete inputs.
--
-- State and operations: a table is a list of rows with a primary key, an operation is a function
-- from the rows to the rows and its result, and a loop in which each pass writes its own row is a
-- map. The operations run one after the other, except in Runs/Races, where a step is a read or a
-- write of one caller. What the database, Docker, the run storage, the file system, the parser of
-- files and `new RegExp` answer are parameters.
--
-- Fuel: the recursions of `validateWhereEntry`, `validateStep` and `validateUiSubStep` get the
-- depth of the value and one more, that of `validateLoopBody` the rank of the level and one more:
-- a property of a value is less deep than the value, and the level inside a loop is lower. The
-- chains of `$ref` get eleven calls: each call adds a path to the visited ones, and the eleventh
-- path ends the chain with an error. All other recursion is structural.
--
-- A value of a definition file is a finite tree: the recursive aliases that `yaml.load` allows are
-- left out, and on them those recursions of the source do not end.
--
-- What throws: Report/Written tells which messages a template literal cannot write, and a result
-- `none` of Validator/Definition is a TypeError. The scheduler's `deployPendingInstances` throws where
-- a deployment's context cannot be rebuilt; errors of the database itself are left out.
--
-- Numbers in definition files are exact: NaN, infinities and rounding of doubles are left out. The
-- messages are kept as the pieces of their templates.
--
-- Not modelled: the resolution of whole projects, the definition conversion, the item rows and
-- files of submitInstance, the skipped steps of handleTestCompletion, logs and artifacts, the
-- command line, the MCP server, the editor extension, Docker calls, and the services written in
-- other languages. They are I/O, glue, or later parts of the plan.
pub mod Prelude
pub mod Json
pub mod Report
pub mod Validator
pub mod Resolver
pub mod Runs
