-- ===== src/Lib.antt =====
-- The verification library of refresh, a command-line tool that upgrades Amazon EKS clusters.
--
-- The program derives a plan that takes a cluster from one Kubernetes version to another, hop by
-- hop, and executes it: control plane, addons and nodegroups in order, with a confirmation before
-- each phase. The calls of AWS modelled here go through a retry loop, and the lists through a
-- pagination loop as well.
--
-- Files:
--   Prelude     numbers, lists, Go's 64-bit int
--   Text        Go strings, and what the program uses of `strings` and `strconv`
--   Go          error values, results, and calls that read and change the world
--   Common      internal/services/common: retry.go in Common/Retry, paginate.go in Common/Paginate,
--               ttlcache.go in Common/TtlCache
--   Aws         internal/aws: errors.go in Aws/Errors (its texts in Aws/Messages), paginate.go in
--               Aws/Pages
--   Eks         the parts of the EKS API that the program uses, as records that the rest takes
--   Addons      internal/services/addons: version_analyzer.go in Addons/Versions, Addons/Service and
--               Addons/Update (the wait), service.go in Addons/Service, Addons/Update,
--               health_check.go in Addons/Health, addon_dependencies.go in Addons/Dependency
--   Upgrade     internal/services/upgrade: types.go in Upgrade/Version (versions and hops) and
--               Upgrade/Types (the plan), engine.go in Upgrade/Engine, service.go in
--               Upgrade/Service, plan.go in Upgrade/Planning (Steps, Skew, Gate and Hops),
--               controlplane.go in Upgrade/ControlPlane, addons.go in Upgrade/Addons,
--               nodegroups.go in Upgrade/Nodegroups; Upgrade/Whole puts the phases together
--   Contexts    internal/cliconfig: store.go in Contexts and, for the file, in Contexts/Disk
--   Health      internal/health: checker.go in Health, workloads.go in Health/Workloads
--   Noderoll    internal/noderoll: observer.go in Noderoll and Noderoll/Snapshots, tracker.go in
--               Noderoll/Tracker
--   Updates     internal/updatecheck: updatecheck.go, its cache in Updates/Checker
--   Support     internal/services/status: support.go, its cache in the same file
--   Tests       runs on small inputs
--
-- A text is a list of code points, which stands for a Go string that is valid UTF-8. An `int` is an
-- integer whose sums wrap as 64-bit integers do. Functions that call AWS take the state of the world
-- and return the new one. A duration is a number of nanoseconds, and
-- a time of a support window whole seconds since the zero time of Go; the backoff multiplier, a float in
-- the source, is the whole number that the program uses.
--
-- Loops with no bound in the source take a bound in the model and end as `unfinished`, or with
-- `none`, where it is met. `expandHops` is given one round for each hop that its bound allows, which
-- is enough below the largest int. The loop of `WithRetry` recurs on the attempts that are left.
--
-- The waits for an update, for an active cluster and the pages of a list have a bound on their
-- rounds; where the bound is met the call is `unfinished`, which is neither success nor an error. A call of
-- the source that panics is `unfinished` too.
--
-- The plan reads the cluster through `Service`, whose calls go through `WithRetry` and
-- `FormatAWSError`; the engine runs the phases that the plan has pending steps for, and the phases
-- read the live cluster again. Items that `ForEachParallel` handles at once are handled one after
-- the other here, in the order of their dispatch, and so are the updates of `UpdateAll` with
-- `Parallel`. `strings.ToLower` is modelled as far as a search
-- for ASCII texts can see it.
--
-- A loop over a Go map takes its names in any order: the order is an argument. A sort that is not
-- stable is modelled where no two items are equal in its order.
--
-- Not modelled: progress lines, logging, rendering and the parsing of the command line, which are
-- output and glue; the services and checks that no file above names.
pub mod Prelude
pub mod Text
pub mod Go
pub mod Upgrade
pub mod Common
pub mod Support
pub mod Tests
pub mod Aws
pub mod Addons
pub mod Eks
pub mod Contexts
pub mod Updates
pub mod Noderoll
pub mod Health
