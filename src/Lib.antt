-- ===== src/Lib.antt =====
-- Testground, a platform for testing distributed systems: the core of its daemon (pkg/).
--
-- A user sends a composition, a TOML file that names groups of instances and runs over them. The
-- daemon checks it against the manifest of a test plan, fills in defaults, and queues a task for it.
-- Workers take tasks off the queue, build and run them, and record each change of a task's state in
-- an embedded key-value database, from which the queue is read again when the daemon starts.
--
-- Files and what they model:
--   Task: pkg/task/task.go, the task record (Created, State, IsCanceled, Name, CreatedByCI,
--     RenderCreatedBy).
--   Task/Order: taskQueue of pkg/task/queue.go, which container/heap calls (Less, Swap, Push, Pop).
--   Task/Backend: the libraries below the store (leveldb, encoding/json, xid) as a record of operations
--     with their documented behaviour; no code of theirs is modelled.
--   Task/Storage: pkg/task/storage.go. Its children are about: Keys, the keys of tasks; Moves, the
--     transaction of changePrefix; Lifecycle, Phases and Reads, the phase in which a task is found.
--   Task/Queue: pkg/task/queue.go (NewQueue, Push, PushUniqueByBranch, Pop, removeExisting,
--     cancelTask). Its children are about: Push and Pop, the priority queue; Remove and Unordered, the
--     removal of the tasks of a branch; Cancel, canceled tasks and tasks of a daemon that was
--     restarted; Load, the queue that a store is read into.
--   Heap: container/heap of the Go distribution (Push, Pop, up, down), over any type with its five
--     methods, each of which may panic; its lemmas are in Heap/Laws, Up, Down, Ops and Shuffle.
--   Engine: the body of the worker's loop of pkg/engine/supervisor.go, on a task that was popped. Its
--     children: Component, builders and runners as parameters; Build, doBuild, with Positions, Stored and
--     Shared about the groups that share a build; Run, doRun, with Groups and Started about what the
--     runner is given; Signals, the channels that Kill closes, with Owned and Kill; Queries, the requests
--     of pkg/engine/engine.go (QueueBuild, QueueRun, Tasks, DoTerminate and others), with Compatible and
--     Listed.
--   Manifest: pkg/api/manifest.go; Manifest/Found is about TestCaseByName.
--   Composition: pkg/api/composition.go, the data types, DefaultRunGroup, EffectiveGroupId; and
--     GenerateDefaultRun of pkg/api/composition_preparation.go.
--   Composition/Instances: Run.recalculateInstanceCounts of pkg/api/composition_preparation.go.
--   Composition/Select: GetGroup, getRun and FrameForRuns of pkg/api/composition.go, with PickGroups in
--     Composition/Select/Pick.
--   Composition/BuildKey: BuildKey and the List methods; Canonical is about what a key depends on.
--   Composition/Validate: pkg/api/composition_validation.go.
--   Composition/Defaults: the loops that fill in defaults, and Dependencies.ApplyDefaults.
--   Composition/Prepare: PrepareForBuild and PrepareForRun of pkg/api/composition_preparation.go, and
--     merge and mergeRun.
--   Results: pkg/runner/common_result.go and pkg/data/result.go, how a run and a task ended.
--   Health: the report of pkg/api/healthcheck.go, and RunChecks of pkg/healthcheck/helper.go.
--   Network: nextDataNetwork of pkg/runner/common.go.
--   Docker: pkg/docker (CheckContainer, EnsureContainerStarted, BuildImage, EnsureImage, FindImage,
--     GetImageID, EnsureVolume, EnsureBridgeNetwork), with Found about the image that is taken;
--     Docker/Delete: DeleteContainers; Docker/Watch: Watch of manager.go, with Once.
--   Runners: collectOutcomes and the outcome of Run of pkg/runner/local_docker.go, with Collected;
--     Runners/Pretty: processStdout of pkg/runner/pretty.go.
--   Conv: ParseKeyValues and ToOptionsSlice of pkg/conv/conversions.go, with Options.
--   Sidecar: ConfigureNetwork of pkg/sidecar/docker_network.go with route.go and the shape and rules of
--     link.go; Handler (sidecar_handler.go); Links, Configured and Followed.
--   Prelude: shared names, results of calls (Prelude/Run, Prelude/Res, Prelude/Call), integers,
--     text, lists, rearrangements of lists, sorting.
--   Tests: an in-memory database that meets the documented behaviour, and runs on small inputs.
--
-- Conventions. A method with a pointer receiver takes the receiver and returns it beside its result. An
-- error is a value of `Res`; a panic of Go (an index out of range, a nil dereference) is `panic` of
-- `Run`. The loops of container/heap take fuel, the length of the slice, and the results of the queue
-- are proved to be returned, so the fuel is enough and nothing panics. `int` and time.Time are ℤ and
-- ℕ without a bound where they are only compared; sums of `uint` wrap at 2^64. A float64 is the number
-- of its bits, and the operations on it are parameters. A Go map is an association list; the order
-- of a loop over a map, where it shows in the result, is a parameter. mergo.Merge and the struct validator
-- are parameters too.
--
-- Workers and Kill interleave as steps of a relation on the map of signals; the jobs of doBuild and the
-- goroutines of DeleteContainers are taken in the order in which they end, which is arbitrary.
--
-- Not modelled: the mutexes (each method runs as a whole), Task.Took, Storage.Filter, the opening of a
-- database, the messages to GitHub and Slack (but for the split of the repository, which can panic), the
-- copying of logs, and the parts of the daemon that call other systems: HTTP, Kubernetes, AWS, InfluxDB,
-- the reactors and the Kubernetes network of the sidecar, the builders, the processes and containers that
-- a runner starts, and the command line.
pub mod Composition
pub mod Conv
pub mod Docker
pub mod Engine
pub mod Health
pub mod Heap
pub mod Manifest
pub mod Network
pub mod Prelude
pub mod Results
pub mod Runners
pub mod Sidecar
pub mod Task
pub mod Tests
