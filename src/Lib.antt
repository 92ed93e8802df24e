-- ===== src/Lib.antt =====
-- FocalSpan: a local code-context compiler (Go, internal/).
--
-- The program indexes a repository and, for a question, returns a packet of evidence that fits a
-- token budget. The parts modelled here are the ones that decide what is in a packet, the
-- arithmetic of source positions below them, the packer of context bundles, the supervisor that
-- replaces a worker process, the block of configuration that registers the server, and the
-- resolution of PHP names.
--
-- - Prelude: numbers, integers, lists, a stable sort for Go's sort package, and what the program
--   uses of the packages strings, strconv and path.
-- - Sourceutil: internal/extract/sourceutil. Intervals (intervals.go), SourceMap (source_map.go)
--   and Chunks (chunks.go). The extractors read their sources with the first two;
--   Chunks is not called yet.
-- - Evidence: internal/evidence. Model (model.go), Validate (validate.go), Candidate (the records
--   that the compiler is given), Wire (wire.go), Guidance (next.go, and applyGuidanceWithinBudget
--   of compiler.go), Runtime (what comes from outside the repository), Handles (StableHandle of
--   internal/model/handles.go) and Compiler (compiler.go). Its children are Utility (what a
--   candidate is worth), Build (buildPacket), Select (the anchor, the greedy rounds and the removal
--   of what does not fit), Metadata (prunePacketMetadata), Preprocess, Statistics and Compile.
--   Roles (roles.go) names the role of a candidate and orders the candidates; preprocess calls it.
--   Known (known.go) normalizes the handles that a client knows. Variants (fidelity.go) builds the
--   ways to show a candidate, the excerpt with Segments (segments.go).
-- - Budget: internal/budget/budget.go. Words (the tests on words), Elide and Pack: the bundle of
--   the records PackRequest, ContextItem and ContextBundle of internal/model/model.go.
-- - Codex: internal/integration/codex. Toml (quoteTOML and tomlStringState of managed_block.go),
--   Block (BuildManagedBlock and validateTOMLValues), Bounds (findManagedBounds) and Append
--   (appendManagedBlock of project_config.go), on lists of code points; offsets count code points.
-- - Mcpserver: internal/mcpserver. Supervisor (supervisor.go) replaces the worker process behind
--   the host's session. A step is what one goroutine of forward, Restart or Close does between two
--   points where it takes or releases a lock, so all their interleavings are sequences of steps;
--   what the process and the SDK answer to startSupervisedWorker is a record of outcomes.
-- - Scope: internal/phpscope. Php (resolve.go) names the symbols that a call or a reference may
--   mean.
-- - Tests: runs of the definitions, and the theorems at concrete inputs.
--
-- A Go int is an unbounded integer, or a number where it cannot be negative; in Chunks, whose sums
-- may exceed it, it has 64 bits and wraps around. A string is a native text, which is valid UTF-8;
-- where its characters are read, its code points. The values of a registration are code points,
-- with a byte that is not UTF-8 as a number behind the last one. A Go map is a list of its entries.
-- An error is a constructor; its text is left out. float64, the Unicode case tables, the digest of
-- a stable handle, the JSON encoder and the token estimator are arguments. Loops over a collection
-- are recursions; the others take fuel: settleWireUsage the four rounds of the source, the two
-- guidance loops and the removal loop the length of the list that they shorten, like the last loop
-- of Pack, the greedy selection the number of items that the plan admits, the line windows one
-- round for each line, which is enough where no sum wraps around, and the scanner of
-- tomlStringState one for each code point.
--
-- Not modelled: the language extractors, each a parser of its own, for their size; the mapping of
-- Git diffs, the fusion of ranked lists and the scopes of C# and C++, which the parts above do not
-- call; the SQLite store, the linker and the index lock, whose work is done by a database and the
-- operating system; the command line, the benchmark and evaluation tools, and file system access.
pub mod Prelude
pub mod Sourceutil
pub mod Budget
pub mod Codex
pub mod Evidence
pub mod Mcpserver
pub mod Scope
pub mod Tests
