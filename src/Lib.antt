-- ===== src/Lib.antt =====
-- MallardCube is a proxy that answers the XMLA requests of Excel's pivot tables from a SQL
-- database. A statement in MDX is read by the front end (src/mdx), turned into a plan and run, and
-- its result is rendered cell by cell (src/execute); sessions are kept beside it (src/xmla). This
-- library models the front end, the cache of results, the dictionaries of dimension members, the
-- index from which cells are read, the registry of sessions, and the road of a request past the
-- roles: who is asking, what the roles show, whether the plan may run, and on which roll-up.
--
-- Prelude: Booleans, lists, texts and their order. A text is its bytes, as Rust compares and slices it.
--
-- Mdx.Outcome: the results of the front end, `Result<_, ParseError>` of src/mdx/lexer.rs. A run
-- that is out of fuel is a third case. The texts of error messages are not modelled.
--
-- Mdx.Ast: src/mdx/ast.rs, `Expr`, `MemberRef`, `Axis` and `Select` with their accessors.
--
-- Mdx.Lexer: src/mdx/lexer.rs, `lex`. Its position is the text that is left. Each byte is worth a
-- unit of fuel, since each round of its loop takes one.
--
-- Mdx.Parser: src/mdx/frontend.rs, `Parser::expr` and what it calls, and `parse_set_expr`. The
-- position is the list of tokens that are left. Its fuel is five for each token and five more:
-- between two tokens at most five calls follow each other.
--
-- Mdx.Parser.Statement: `Parser::select` and `parse_select` of the same file. The fuel of its loops
-- and of nested subselects is the number of tokens and one, since each round takes a token.
--
-- Mdx.Axes, Mdx.Walk, Mdx.Calls, Mdx.SetOps, Mdx.Sets, Mdx.Members: the derivations at the bottom
-- of the same file, as far as they concern axes, traversals, calls, the operations that wrap an
-- axis, member sets and member lists. A function that pushes to a
-- vector takes the list and gives it back; a closure that is called on every expression is a step
-- on a state.
--
-- Mdx.Sets.Named: named sets. A reference to a named set costs a unit of fuel, and out of fuel
-- stands for a recursion that goes on.
--
-- Execute.Cache: src/execute/cache.rs, `ResultCache` with `get`, `insert` and `clear`, and the
-- result type of src/engine/plan.rs. The map is a list of its entries in the order in which it
-- iterates; each method is atomic under the lock, and the clock is an argument.
--
-- Execute.CacheKey: `cache_key_at` of the same file, the key of a result.
--
-- Execute.Coords: src/execute/coords.rs, `CoordIndex`, over any numbers with a zero and an addition.
-- Masks are 32-bit words.
--
-- Engine.DimCache: src/engine/dim_cache.rs, `DimCache` and `DimMembers`. The backend is what it
-- answers to the text of a query and whether it failed; calls interleave between their look-up and
-- their insertion.
--
-- Engine.Model: src/engine/model.rs, `SemanticModel` and its look-ups; Engine.Model.Lookups has
-- those by the name of a member, a dimension or a measure, and the fallback capability.
--
-- Engine.Plan: src/engine/plan.rs and src/mdx/ast.rs, the plans and their filters. Floating-point
-- numbers and signed ones are any types.
--
-- Engine.Ranking: src/engine/plan.rs, the set operations on the rows of a result.
--
-- Engine.Normalize: src/engine/normalize.rs, `plan_key`. Numbers are written with at most twenty
-- digits, which is enough for 64 bits.
--
-- Engine.Aggregate: src/engine/aggregate.rs, the design of roll-ups and the choice of one of them.
--
-- Engine.Sidecar: the sidecar database of the same file, and src/reload.rs. A run of
-- `ensure_aggregations` takes the sidecar and the enabled roll-ups and gives them back; what the
-- database answers on the data of the source is an argument, errors included.
--
-- Engine.Sql: src/engine/sql.rs, the predicates of roles, and the WHERE and the total of a roll-up.
-- Engine.Sql.Rewrite rewrites a predicate for a roll-up; a unit of fuel for each byte is enough,
-- since each round of the scan takes one. Engine.Sql.Routing sends a plan to a roll-up.
--
-- Access.Config: src/project/config.rs, the roles and the authentication.
--
-- Access.Users, Access.Tables: the user, the permission on the model and the access to each table,
-- of src/engine/model.rs, with `table_visible` of src/xmla/discover/mod.rs.
--
-- Access.Tokens: src/auth/mod.rs, from a bearer token to an identity, with the keys that an issuer
-- publishes. The requests to the issuer, the reading of the header, the check of a token under a key
-- and the making of a key from its numbers are arguments.
--
-- Access.Requests: src/main.rs and src/status.rs, the user of a request, what counts as
-- authenticated, and whether the process may serve on its address.
--
-- Access.Gates, Access.Restrictions: src/engine/plan.rs and src/execute/runtime.rs, the gates of a
-- plan, the search for hidden dimensions, restricted users and drillthrough.
--
-- Xmla.Session: src/xmla/session.rs, `SessionRegistry`. Ids and times are arguments.
--
-- Xmla.Routing: src/main.rs, `route_request` with the checks of `route_full` and of the streamed
-- members. It calls the registry and the permission of a user.
--
-- Xmla.Discover: src/xmla/discover/mod.rs, the scope of names, the keys of dates and visibility.
--
-- Tests: runs at concrete inputs.
--
-- Not modelled: the planner proper and the queries on fact tables (src/engine/plan.rs and sql.rs),
-- the rendering of cell sets (src/execute), the XMLA protocol round them (src/xmla), the semantic
-- layer (src/mdx/semantic.rs) and the scanners of src/mdx/parser.rs: the modelled parts meet them in
-- the types of plans, statements and results only. Nor are settings (src/engine/settings.rs), HTTP,
-- the databases, the audit log, reopening the database and the tools (src/main.rs, src/backend,
-- src/audit.rs, src/tools), which are configuration, input and output. Unicode's `to_lowercase` is an
-- argument where the source uses it on any text.
pub mod Prelude
pub mod Xmla
pub mod Execute
pub mod Engine
pub mod Access
pub mod Mdx
mod Tests
