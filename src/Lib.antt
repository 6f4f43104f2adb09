-- ===== src/Lib.antt =====
-- Verification library of setup-soldr, the GitHub action that installs soldr and keeps the caches of
-- Rust builds between runs.
--
-- The program has layers of caches (target directory, compiled dependencies, tools), and around them
-- the decisions that this library models. A run's setup step picks what to restore, its post step
-- asks the save policy, reserves keys, produces archives, uploads them, and evicts old entries when
-- the repository's cache is over its budget. Base holds the shared notation and lemmas; each other
-- folder is one part of the program:
--
--   LocalProfile    src/lib/local-profile.ts: runner detection and defaults by runner.
--   SavePolicy      src/lib/save-policy.ts: parseSaveCacheMode, decideCacheSave and
--                   currentSaveDecision; SavePolicy.Gate has the gates allowCacheSave,
--                   allowVerdictSave, gatedSaveCache and gatedVerdictSave, with the module's set of
--                   layers that have logged a skip as explicit state.
--   FailedJobSave   src/lib/failed-job-save.ts: decideBuildOutputSave and
--                   readBuildOutputSaveGate.
--   AncestorCache   src/lib/ancestor-cache.ts: makeAncestorKey and parseAncestorKey; Select has
--                   selectAncestorCache, with the backend's calls as parameters; Distances has
--                   dagDistances; History is BoundedGitHistory of src/lib/ancestor-cache-git.ts, an
--                   object whose state is passed on, with git's answers as a parameter; Trust has
--                   the reviewed writers of src/lib/ancestor-cache-trust.ts; CleanSave has
--                   hasCleanSaveProof and the cleanSave of planAncestorRestore in
--                   src/lib/ancestor-cache-github.ts, with the count of its requests passed on.
--   Eviction        src/lib/cache-eviction.ts: evictIfOverBudget up to its list of entries; Pool has
--                   its workers as a step relation, in which deletes settle in any order; Repair has
--                   deleteCacheEntriesByKeys.
--   TwoPhase        src/lib/two-phase-actions-cache.ts: saveReservedCache and
--                   prepareActionsCacheArchive, with the calls made to the world in order.
--   CookCache       src/lib/cook-cache.ts: keys, gates and flags; Layers restores and loads the base
--                   and the delta layer, and Save saves one of them.
--   CacheEncrypt    src/lib/cache-encrypt.ts: encryptFile, decryptFile, parseEncryptionKey and
--                   getEncryptionConfig on lists of bytes.
--   Verdict         src/lib/verdict-cache.ts: verdictPaths, parseRekey, restoreVerdicts and isLazy;
--                   Scope has manifestScope, Janitor has janitorPlan, and Preflight has
--                   verdictPreflight of src/lib/verdict-setup.ts, with its effects in order;
--                   Publish and Post have verdictPost, on the state of the save gate.
--   ToolCache       src/lib/tool-cache-store.ts: decideToolCacheStore and linkDir; Publish has
--                   publishEntry as a step relation of publishers that race for one entry.
--   InputParsers    src/lib/input-parsers.ts and src/lib/cleanup-inputs.ts: the parsers of inputs.
--   TargetLifecycle  src/lib/target-lifecycle.ts: assertTargetOperationSupported,
--                   mergeTargetEnvironment and buildTargetOperationOutputs; Plan has
--                   normalizeTargetPlan and Universal has buildUniversal2TargetContract.
--   CacheKeys       src/lib/cache-keys.ts: Quote and Canonical have canonicalJsonStringify,
--                   shortJsonHash and targetEnvHash, on the JSON of Records; Manifests has the walk
--                   over Cargo manifests, workspaceManifestHash and cargoConfigHash; Fragment has
--                   sanitizeFragment, CrossTool has crossToolCacheKeyFor, Normalize has the
--                   normalizers and the soft budget, and Paths has the paths of a setup.
--   ShutdownCache   src/lib/shutdown-cache.ts: runShutdown and shutdownCacheDaemons, with the calls
--                   made in order.
--   Toolchain       src/lib/toolchain.ts: the toolchain file and its resolution; Probe has what the
--                   rustup of the system satisfies.
--   DeferredCook    src/lib/deferred-cook.ts: selectDeferredCookSaveLayer and the parsers; Plan has
--                   buildDeferredCookPlan.
--   RawInputs       src/lib/raw-inputs.ts: the record of the inputs in the environment.
--   YankAudit       src/lib/yank-audit.ts: readRegistryDependencies; Index has fetchCrateYanks, Audit
--                   has auditDependencyYanks, and Resolve has resolveYankAuditResult.
--   ReleaseReadiness  src/lib/release-readiness.ts: assertReleaseReady and retryReleaseRequest.
--
-- They meet in these places: the eviction's list of foundation prefixes protects the base layer that
-- CookCache names; the two-phase save takes the answer of the save policy's gate, and CookCache saves
-- its layers through it; the policy reads the runner from LocalProfile; the local history answers by
-- the distances of dagDistances; the proof of a clean save asks the reviewed writers; the ledger's
-- post step saves through the policy's gate; the plan of a deferred cook is made of the keys of
-- CookCache and the hashes of CacheKeys.
--
-- A text is the list of its UTF-16 code units. A thrown error is an `err` with its message, and a
-- rejected promise is one too. Numbers are natural numbers, since every count, size, id and distance
-- is a non-negative integer; usage and thresholds are compared in bytes and half gigabytes, and ages
-- in milliseconds and half hours, because the thresholds of the source are multiples of 0.5. The
-- usage after a pass may fall below zero and is an integer. Lower-casing is that of ASCII, with the
-- Kelvin sign, which is all that a comparison with an ASCII word can tell apart. Lines of the log are
-- left out but for those of the save gates.
--
-- Parameters stand for what is not code of the repository: the parse of JSON, the order of
-- localeCompare, the milliseconds of a date (none for an invalid one), the backend of the ancestor
-- cache, the answers of the cache service, git, tar, the file system and soldr, the listing and the
-- deleting of entries, the TOML parser, rustup, the index of the registry, node's path functions,
-- SHA-256, AES-GCM and the decoders of Buffer. The last three have laws, which are hypotheses where they
-- are used. For encryption, 64 hex digits decode to 32 bytes, a tag has 16 bytes, a ciphertext is as
-- long as its plaintext, and the cipher opens what it sealed. Theorems that tell apart two keys by their
-- hashes suppose that the two texts hashed do not collide. The workers of
-- the yank audit are done in any order, in which no crate is left out.
--
-- Loops are structural recursions, but for three on fuel. The decimal digits of a number have the number
-- itself plus one, which is enough because each digit divides by ten. The search for distances has one
-- round more than there are commits, which is enough because each commit enters the queue once. The
-- walk over a workspace has a round for each entry of its tree, which enters the stack at most once.
--
-- Not modelled: the entry points, downloads and child processes, compression, the file and the process
-- of the yank audit, the timers of phases, the choice of a release to fetch, and the reports for the
-- log. These are input and output around the decisions.
pub mod Base
pub mod LocalProfile
pub mod SavePolicy
pub mod FailedJobSave
pub mod AncestorCache
pub mod DeferredCook
pub mod Eviction
pub mod Toolchain
pub mod TwoPhase
pub mod CookCache
pub mod RawInputs
pub mod ReleaseReadiness
pub mod CacheEncrypt
pub mod CacheKeys
pub mod Verdict
pub mod YankAudit
pub mod ToolCache
pub mod InputParsers
pub mod ShutdownCache
pub mod TargetLifecycle
