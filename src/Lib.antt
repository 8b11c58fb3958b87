-- ===== src/Lib.antt =====
-- v8App runs JavaScript applications on V8: libs/core has what does not need V8 (buffers and type
-- serializers, containers, queues, threads, the log), and libs/jsRuntime the runtime, with the task
-- queues, the jobs and the snapshots that V8 asks an embedder for.
--
-- How the parts interact, and where each is modelled. A path is from the repository's root.
-- - src/libs/core/{include,src}/Serialization: Serialization.Buffer has ReadBuffer and WriteBuffer over
--   BaseBuffer (SerializeRead is serialize_read, and so on), Serialization.Values the TypeSerializers,
--   Serialization.Swap SwapBytes and Serialization.Bytes the bytes of an object. Snapshots store their
--   data through these.
-- - src/libs/core/{include,src}/Containers: Containers.NamedIndexes, the names of a snapshot's contexts,
--   which is written and read by the type serializers.
-- - src/libs/core/include/Queues: Queues.SafeQueue is TThreadSafeQueue, Queues.Delayed is
--   TThreadSafeDelayedQueue, whose ready items move into the queue of its base class.
--   Queues.Nestable is src/libs/jsRuntime/{include,src}/NestableQueue, a delayed queue whose entries may
--   have to wait for the outermost task.
-- - src/libs/core/{include,src}/Threads: Threads.Pool is ThreadPoolQueue, workers that take from a
--   TThreadSafeQueue under a lock and a condition variable. It is a step relation, whose steps are a
--   worker's moves between two places in ProcessTasks, the notifications that are due, and the accesses
--   of other threads.
-- - src/libs/core/{include,src}/Logging: Logging is Log with its sinks and messages.
-- - src/libs/core/{include,src}/Utils/VersionString: Versions has the object, its printing and
--   CompareVersions, Versions.Parse the regular expression of ParseVersionString as a recogniser,
--   and Versions.Wire its serializers.
-- - src/libs/jsRuntime/{include,src}/ForegroundTaskRunner: Runners, one isolate's tasks over a nestable
--   queue, with the depth that TaskRunScope counts.
-- - src/libs/jsRuntime/{include,src}/V8Jobs: Jobs has the operations of V8JobState, Jobs.System the
--   step relation of the workers, the joining thread and the callers of the handle, Jobs.TaskIds the
--   task ids cut into their atomic accesses, and Jobs.Delegate V8JobDelegate.
-- - src/libs/core/{include,src}/Assets/AppAssetRoots and Utils/Paths: Assets has the table of the modules'
--   roots with their latest versions and the tokens of a path, Assets.Anchored MakeRelativePathToRoot and
--   MakeAbsolutePathToRoot, Assets.Scan the scan of the directories.
-- - src/libs/jsRuntime/{include,src}/JSModuleInfo, JSModuleAttributesInfo and JSContextModules: Modules has
--   the types, Modules.Attributes GetModuleAttributesInfo, Modules.Wire the serializers and the modules in
--   a snapshot, Modules.Info the module with what it puts into a snapshot, Modules.Table m_ModuleMap,
--   Modules.Tree LoadModuleTree, Modules.Build BuildModuleInfo, which Modules.Tree has as an argument, and
--   Modules.Context LoadModule, ResolveModuleCallback and the rest, Modules.Running InstantiateModule and
--   RunModule, Modules.CodeCaching GenerateCodeCache. A module is loaded by a call of itself for each import,
--   on fuel: one call more than there are files is enough, since each call adds a path.
-- - src/libs/jsRuntime/{include,src}/CodeCache: CodeCache has the cache of scripts with its operations,
--   CodeCache.Entries, CodeCache.Loads and CodeCache.Stores what they do to its entries.
-- - src/libs/jsRuntime/{include,src}/CppBridge/CallbackRegistry: Callbacks has the registry of callbacks,
--   setup functions and object infos.
-- - src/libs/jsRuntime/{include,src}/JSAppCreatorRegistry: Creators has the registry of applications.
-- Base has the shared names: numbers, lists, options, texts and maps by texts.
--
-- Conventions. A number is a natural number; what is computed in size_t, uint32_t or int wraps where the
-- code can reach the bound. Bytes and characters are numbers, `wide` is the size of wchar_t, `native`
-- the endianness of the platform, and a time is a number of clock ticks. Where the code reads a variable
-- that it never set, the value is an argument, `junk`. The result `none` of a read is undefined
-- behaviour. What V8, the task of a job (`task_max`), the clock (`now`) or a sink's filter answers is an
-- argument, with nothing assumed of it but what a theorem says. A method under its own lock is one step.
-- Loops run over the list or the count that they consume, so that no bound of rounds is chosen; only
-- AcquireTaskId is run for a number of accesses, five, which is always enough for a thread alone.
--
-- Not modelled. The delayed thread pool with its pumper and pause; the assets and the JSON log file, which
-- are file access and the JSON library; the callback wrappers, which are templates without state; the
-- dynamic import with its promises; the contexts, applications and runtimes of libs/jsRuntime, the
-- snapshots, the worker task runner and the platform, which rest on V8's objects; the rest of the bridge
-- to C++ objects; libs/application, the tests and the build files. The capacity that a buffer reserves
-- is left out, since it changes no result.
pub mod Assets
pub mod Callbacks
pub mod CodeCache
pub mod Base
pub mod Serialization
pub mod Containers
pub mod Queues
pub mod Creators
pub mod Jobs
pub mod Logging
pub mod Threads
pub mod Versions
pub mod Runners
pub mod Modules
