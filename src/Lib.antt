-- ===== src/Lib.antt =====
-- A model of Go programs of the build tools: the controller of test services with its parallel task
-- runner, the lookup of runfiles, the generator and the merger of BUILD files, the writers of generated
-- code, the lists and work items of the image builder, the archive builder, the converter of coverage
-- profiles, the readers of /proc, the results of tests and of their services, and wrapped errors.
--
-- The controller (go/src/dropbox/build_tools/svcctl) creates services from messages, and starts and
-- stops them in the order of their dependencies. `CreateBatch` and `Start` of processor.go are
-- requests on one `SvcCtlProcessor`; `NewService` of service.go makes a service, with the help of
-- go/src/dropbox/runfiles for its version files; the tasks of topological_starter.go and
-- topological_stopper.go hand the services to the runner of topological/runner.go.
--
-- Base: shared names, Go strings as lists of bytes (`Str`), maps as association lists, the functions
--   of Go's package strings, and `Result`, whose third case is a panic.
-- Topological: go/src/dropbox/build_tools/svcctl/topological/runner.go.
--   Topological.Task: `Task`, `uniqueDeps` (`visit` is one round of its loop).
--   Topological.Runner: `runner`, `ready`, `nextTask`, `setErr`, `markDone`, `worker` and `Run`. The
--   workers share one lock; what one of them does between taking it and giving it up is a `Step`,
--   and `Runs` is any sequence of steps of any of them, so that every interleaving is covered. The
--   environment chooses which worker steps and whether `Run` of a task fails. A worker that waits is
--   woken only by a broadcast.
--   Topological.Runner.Plan: the abstract plan, without workers and lock, that the pool implements.
--   Topological.Reversed: `NewReversedRunner` and `reversedTask`.
--   Topological.Critical: `highestCost`, `taskCost` and `CriticalPath`, with 64-bit durations; the fuel
--   is more than the longest chain of dependencies has tasks.
-- Runfiles: go/src/dropbox/runfiles/runfiles.go. The functions of os, path and path/filepath that it
--   calls, and the variable that the build sets, are the fields of `PathEnv`.
-- Svcctl: go/src/dropbox/build_tools/svcctl.
--   Svcctl.Proto: the messages of go/src/dropbox/proto/build_tools/svclib/service.pb.go.
--   Svcctl.Service: `CommandFromProto` and `NewService` of service.go; a pointer to a service is its
--   address in the list of all services that were made.
--   Svcctl.Processor: `CreateBatch`, `create` and the first half of `Start` of processor.go. The
--   read-write lock is the number of read locks held between requests; the write lock, which every
--   request gives back, is not part of the state.
--   Svcctl.Lifecycle: `Start`, `stop`, `markStarted` and the goroutines of `waitTillHealthyAndMark` of
--   service.go, as steps of one service that the environment orders; what is done under the lock is
--   one step, also the reading of `svc.Process` by the goroutine that a `Start` spawned, and `stop` may
--   hold the lock while it waits for the process.
--   Svcctl.Processor.Status: `Status` and `Diagnostics`; the file system, the order of a Go map, and the
--   measurements of go/src/dropbox/procfs and go/src/dropbox/cputime are fields of `StatusEnv`.
--   Svcctl.Duration: `FmtDuration`.
--   Svcctl.Processor.Remove: `RemoveBatch`, `Stop` and `StopAll`; `Stop` of a service is a parameter.
--   Svcctl.Machine: go/src/dropbox/build_tools/svcctl/state_machine/state_machine.go; a call of
--   `WaitTillNotState` tests, sleeps or has returned, and a step is what one caller does under the lock.
-- GenBuild: go/src/dropbox/build_tools/gen-build-go/lib. GenBuild.Targets is targetlist.go, GenBuild.Uniq
--   is `Uniq` and `UniqSort` of utils.go, GenBuild.Tags is tagmap.go without its reading and writing of
--   files, and GenBuild.Write has `PathToExtRepoName`, `ValidateGoPkgPath` and `IsBuiltinPkg` of
--   genbuildgolib.go. Sorting, trimming and regular expressions are parameters.
--   GenBuild.Attributes: `PopulateBuildAttributes`; the name that `getRuleName` finds is a parameter.
--   GenBuild.Text: `writeTarget` and the functions of lib that it calls, with the tag map that all
--   targets of a package share.
--   GenBuild.Embed: the embedded files of a package; GenBuild.Workspace: `findWorkspace`, with fuel.
--   GenBuild.Process: `ConfigGenerator` of go/src/dropbox/build_tools/gen-build-go/gen-build-go.go, with
--   the recursion of `process` over imports. Reading packages, `PopulateBuildAttributes`, the tag map,
--   the embed configuration and the writing of a file are fields of `GenEnv`; a file is the lists of
--   targets in it. The fuel of the recursion is more than there are package directories.
-- Codegen: go/src/dropbox/build_tools/codegen. Codegen.Lines is line_writer.go, where fmt.Sprintf is a
--   parameter, Codegen.Alias the search for an alias that both import tables share, Codegen.Go
--   go_writer.go and Codegen.Python py_writer.go. The decimal notation of a count is a parameter. The
--   search has fuel for one more round than there are names in use, with which it ends.
-- Merge: go/src/dropbox/build_tools/build-merge/main.go. Merge.Expr has the syntax of BUILD files and
--   `maybeMergeExpr`, Merge.Call `mergeCallExpr` and `mergeLicenses`, Merge.Parse `parse` on the
--   statements of a file that the library has read, and Merge.File `merge`. Pointers to assignments and to
--   statements are addresses in two stores; the order in which Go walks a map is a parameter.
-- Sqfs: go/src/dropbox/build_tools/build-sqfs/main.go. Sqfs.Manifest has the lists that it reads, and
--   Sqfs.Link the parts of `linkOutputTree` that touch no files. The scanner, strings.TrimSpace and the
--   hash are parameters; the loop over the work items has one unit of fuel more than there are entries.
-- Coverage: go/src/dropbox/build_tools/gocov2cobertura/gocov2cobertura.go. The loop over the lines of a
--   block runs on fuel, one unit for each line and one more, since its counter is an `int` that wraps.
-- Procfs: go/src/dropbox/procfs and go/src/dropbox/cputime. The files of /proc are arguments; `Atoi` and
--   `Sscanf` are parameters, and so is the order of a walk over a Go map, which has each key once.
--   Procfs.Tree: the process trees of stat.go; Procfs.Stat: one entry, all entries and their cache;
--   Procfs.Env: environments and lists of children; Procfs.Usage: procfs.go and cputime.go. The walk of a
--   tree has two units of fuel for each entry, one to find it and one to process it.
-- Junit: go/src/dropbox/build_tools/junit/xml.go, with the XML decoder and encoder as parameters.
--   Junit.Events: go/src/dropbox/build_tools/gojunit/gojunit.go; sums and prints of seconds are
--   parameters, and the test cases come in the order of the association list.
-- Svcinit: go/src/dropbox/build_tools/svcctl/cmd/svcinit/svcinit.go, the results of services that are
--   added to those of a test; how numbers are printed is a parameter.
-- Tar: go/src/dropbox/build_tools/build-tar/main.go. `filepath.Dir` is a parameter that shortens a
--   path or leaves it as it is; the fuel is more than the deepest directory has parents, and one more.
--   An error of the writer ends the program, and is not part of the model.
-- Errors: go/src/godropbox/errors/errors.go; a stack is a list of frames.
--
-- Bounds and fuel: the walks of `uniqueDeps` and `NewReversedRunner` run on fuel, one unit for each
-- given task and for each dependency edge of the known tasks, with which they return; the loop of
-- `CreateBatch` has one round for each service of the request and one more, since each round but
-- the last adds a service.
--
-- Not modelled: processes, sockets and files, the generated code of the messages, logging, the polling
-- of health checks, the command line of the controller and its client, the versions of Go modules, the
-- arithmetic of floating point numbers, and the tools around the BUILD files that are not named above.
pub mod Base
pub mod Topological
pub mod Runfiles
pub mod Svcctl
pub mod GenBuild
pub mod Codegen
pub mod Merge
pub mod Sqfs
pub mod Coverage
pub mod Procfs
pub mod Junit
pub mod Tar
pub mod Svcinit
pub mod Errors
