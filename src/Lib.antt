-- ===== src/Lib.antt =====
-- kuli, a package and environment manager in C++, checked in antt.
--
-- The program applies a derivation graph: a front end makes an IR document (JSON), libs/kuli-ir checks it,
-- libs/kuli-engine runs it, libs/kuli-store downloads, verifies and unpacks what it names into a
-- content-addressed store, and libs/kuli-bp chooses assets, resolves capabilities and records generations.
-- All report failures as diagnostics of libs/kuli-diag, whose kind gives the exit code.
--
-- Which file models which part:
--   Common        text as lists of byte values, numbers, lists; the C library's character tests.
--   Diag          libs/kuli-diag: diagnostics, `render`, `exit_code_of`; `std::expected` as `Expected`.
--   Crypto        libs/kuli-crypto/src/hash.cpp: hash specifications, `parse` and `to_string`.
--   Json          the operations of nlohmann::json that the program calls, as parameters: JsonApi reads values,
--                 JsonMake builds them, with laws that say what is read back.
--   Graph         libs/kuli-luau/include/kuli/luau/derivation.hpp: the derivation graph.
--   Hashing       libs/kuli-luau/src/canonical_json.cpp: what the hash of a derivation covers.
--   Adapter       libs/kuli-bp/src/adapter.cpp: the traversal and the document. Adapter.Invariant is what holds
--                 between its calls, Adapter.Order the order against the graph, Adapter.Document the validator's view.
--   Ir            libs/kuli-ir/src/validate.cpp, all of it, one definition for each C++ function or loop.
--   Engine        libs/kuli-engine/src/engine.cpp: Engine.Glob the matcher, with suffixes for indices;
--                 Engine.Value what the handlers share; Engine.Queries and Engine.Search the reads; Engine.Stage
--                 and Engine.Exec commands and pipelines; Engine.Remote and Engine.Transport `route_remote`;
--                 Engine.Plan `expand_plan` and the preview; Engine.Realize and Engine.Run the loop over the
--                 derivations and `Engine::execute`. Engine.Keeps has rules for what a handler keeps of the
--                 state, Engine.Ends applies them to every handler, Engine.Calls to calls within calls;
--                 Engine.Depth, Engine.DryRun and Engine.WriteOnce are instances.
--   Archive       libs/kuli-store/src/archive.cpp: path checks and placement of entries; Archive.Paths the
--                 lexical operations of std::filesystem; Archive.Tar the tar reader; Archive.Gzip the gzip
--                 header; Archive.Format the choice of the format and the zip reader.
--   Store         libs/kuli-store/src/store.cpp: the three `realize_` operations on a disk of slots;
--                 Store.Laws what they promise, Store.WriteOnce what they leave of the published directories.
--   Resolver      libs/kuli-bp/src/resolver.cpp: which release asset suits a platform; Resolver.Urls the
--                 addresses of the downloads in a document.
--   Apply         libs/kuli-bp/src/apply.cpp: `apply` from the evaluated blueprint on; Apply.Progress is
--                 what it leaves of the profile.
--   Capability    libs/kuli-bp/src/capability.cpp: constraints, signature check, synchronisation, routing;
--                 Capability.Constraint is about the first, Capability.Sync about the cached record.
--   Generation    libs/kuli-bp/src/generation.cpp: what a generation deploys and its backups;
--                 Generation.Profile the manifests and the pointer to the current one.
--   Meshell       libs/kuli-bp/src/meshell.cpp: a line of stages into an Exec or a Pipeline node.
--   Source        libs/kuli-bp/src/source.cpp: the flat TOML of the registry, GitHub references; Source.Registry
--                 the entries and the resolution of a name, Source.Entries what is read back.
--   Samples       tests and instances at concrete inputs.
--
-- How the parts meet. The adapter makes the document of a graph, the validator reads it, and the engine
-- runs it: for a derivation it calls the store, for a stage of a pipeline itself. `apply` strings these
-- together, resolves the addresses before the run, and adds a generation after it.
--
-- State and effects. The engine's state is the store's disk and the rest of the machine, any type at all;
-- running a process is an argument that may change both. A handler gives the state and how it ended: with a
-- result, by an exception of the JSON library, which nothing in the program catches, in the over-read of the
-- store, or cut off where calls within calls go deeper than the depth given. A function that writes files returns the list of its effects beside its result; the
-- disk of the store, and a profile's directory, are records that operations take and return. A slot of the disk
-- is what stands at the root joined with a name. Two names of one component each (`is_component`: no slash, not
-- empty, neither `.` nor `..`) are two places. Any other name, such as `..` or `<slot>/bin`, may lead to the place of
-- another one, so what is done there changes the slots of other names in a way that is an argument of the
-- model (`Env.aliased`), and theorems on other slots speak of names of one component. The cache of downloads is
-- taken to be out of the reach of such names. A write that fails leaves
-- its file in any state: `half_written` among the effects, `Host.left_over` for a backup, `Env.spoiled` for a
-- download. A file that can be opened for writing is written in full. Texts are byte
-- lists, so a C++ index is a suffix or a number. In Apply, the profile, the deployed files and the machine that
-- the engine acts on lie apart, so what a run process does to the first two is not seen. `Expected` keeps the order of the C++ early returns.
--
-- Bounds and fuel. The tar reader's loop runs on fuel one above the length of the data, as each round moves
-- by at least 512 bytes. `glob_match` runs on fuel (|text| + 1) * (|pattern| + 1), above the rounds it takes.
-- The traversal of a graph runs on fuel one above the number of
-- its nodes, as every call below another has marked one more node. `Engine::execute` calls itself for the stages of
-- a pipeline only, so a depth of two is enough.
-- Sizes are unbounded numbers: the long long of a tar size has at most 12 octal digits, so 36 bits; a PAX size past
-- the range of a long long, which C++ leaves undefined, is taken as the number that it spells.
--
-- Not modelled: the digests and signatures (OpenSSL), the codecs of zip, deflate and zstd, downloads
-- (libcurl), JSON parsing, regular expressions, which are parameters; process, environment and host access,
-- the Luau glue and the command line, which are input and output. Process ids and exit codes are natural numbers.
-- Where std::sort may exchange equal items, their order is kept. Paths are those of a POSIX system.
pub mod Common
pub mod Diag
pub mod Crypto
pub mod Engine
pub mod Json
pub mod Ir
pub mod Archive
pub mod Store
pub mod Adapter
pub mod Apply
pub mod Capability
pub mod Generation
pub mod Graph
pub mod Hashing
pub mod Meshell
pub mod Resolver
pub mod Source
pub mod Samples
