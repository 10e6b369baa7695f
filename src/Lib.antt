-- ===== src/Lib.antt =====
-- Cargoship builds offline Kubernetes distro packages and drives a cluster of hosts over SSH.
-- This library models the parts that decide: how a run goes through its phases, what it reports
-- and what record is kept of it, how hosts are selected and visited, how calls are retried, how a
-- host is locked, which registries and redirections a configuration may have, how an encrypted
-- value is written back, and how chart values are addressed and merged.
--
-- The parts and how they interact. An action hands a list of phases to the manager
-- (pkg/phase/05_manager.go), which sends each through its hooks and publishes a result. Phases act
-- on the hosts of a cluster (api/colonel-byte.dev/v1alpha1/cluster/hosts.go), in batches where
-- there is a limit. Calls of a host are wrapped by pkg/retry/retry.go; one of them is `startLock`
-- of pkg/phase/91_lock.go. Values of packages and clusters meet in pkg/helmvalues/values.go.
-- What a phase records of its hosts (pkg/phase/00_host_changes.go) goes into the result, and
-- `Build` of internal/receipt/build.go makes a receipt of the result and the configuration.
--
-- Which file models which part:
-- - Retry: pkg/retry/retry.go. `context` and `times` are `Context` and `Times`; what `select`
--   receives is a list of events, and a tick says what the rest of the world did meanwhile.
--   A list that ends while the loop still waits gives the outcome `waiting`.
-- - Phase/Report: the results of pkg/phase/05_manager.go, `RunResult` with its methods and the
--   `ResultSink`.
-- - Phase/Manager: `Manager.Run` of that file. The state is a world of any type; a phase is a
--   record whose optional fields are the optional interfaces that the source tests for. The calls
--   of the heartbeat are recorded in order.
-- - Phase/Changes: pkg/phase/00_host_changes.go, what a phase records of each host. A call is one
--   step, and the loop over the map meets its entries in any order.
-- - Phase/Lock: `tryLock` and `startLock` of pkg/phase/91_lock.go on one host's lock file, with a
--   flag for each call of the file system that may fail.
-- - Phase/Removed: `unmanagedNodes` and `Run` of pkg/phase/13_detect_removed_hosts.go.
-- - Phase/Deletion: which hosts a reset removes, through which controller, and when it stops an
--   engine, pkg/phase/85_delete_common.go and what 86_delete_worker.go and 87_delete_controller.go
--   prepare; Phase/Deletion/Nodes is pkg/phase/04_node_names.go, on the lines that kubectl printed.
-- - Phase/Validation: pkg/phase/11_validate_hosts.go with `ParseArch` of api/arch.go, on what the
--   hosts answer; the first failing check stands for all that a sweep reports. Prelude/Durations is
--   what it uses of Go's `time.Duration`: rounding, saturation and wrap-around on 64 bits.
-- - Phase/Skew: `VersionSkewTooGreat` of pkg/phase/00_generic_phase.go.
-- - Cluster/Hosts and Cluster/Sweep: the host lists; `parallel_each` takes the order in which the
--   goroutines of a round act, and calls them one at a time. A filter is any function of a host
--   and the world.
-- - Cluster/Concurrency: the batch sizes of api/colonel-byte.dev/v1alpha1/cluster/spec.go.
-- - Cluster/Firewall: api/colonel-byte.dev/v1alpha1/cluster/firewall.go, the names of firewall
--   rules, their validation and the merge of a host's rules with its profile's. What package net
--   parses is a record of tests.
-- - Cluster/Registries and Cluster/Rewrites: the validation of registries of that file. The
--   parsers of URLs, PEM blocks and regular expressions are a record of functions.
-- - Receipt: the record that is kept of a run. Receipt and Receipt/Ledger are
--   internal/receipt/receipt.go, Receipt/Build is `Build` of build.go, on what the machine and the
--   configuration answer, Receipt/Redact and Receipt/Aliases are `Redact` and `hostAliases` of
--   redact.go, and Receipt/Args is `redactArgs` of write.go.
-- - Clustercfg: of internal/clustercfg/vaultpath.go how a value is quoted, measured and put into a
--   document with Windows line endings. What is written is read back by a reader of double quotes
--   that is stricter than YAML.
-- - Ansible: internal/ansibleinv, the translation of an inventory. Ansible/Roles is roles.go, with
--   the groups as a function and a role mapping as the list of its entries; Ansible/Vars is vars.go
--   and the hosts of `Translate`, with the JSON decoder as a test of variables.
-- - Overrides: pkg/fileoverride/fileoverride.go, the redirection of file sources.
-- - RpmVersions: magefiles/pkg/devtools/dnfpins/rpmvercmp.go, the comparison of versions that the
--   build tooling picks packages by.
-- - Values: pkg/helmvalues/values.go. Texts are lists of bytes; a map is an association list, its
--   first entry for a key counts.
--
-- Fuel. `batched_parallel_each` has fuel for its loop over batches: with at least one host in a
-- batch, more fuel than hosts is enough. `indices_loop` has the length of the text as fuel, which
-- is enough since a round takes at least two bytes. `compare_loop` has one more than the
-- lengths of both texts: a round takes a byte of one of them. All else is structural recursion.
--
-- Not modelled: connections and commands over SSH, logging, YAML, archives, ciphers,
-- signatures and templates, which are calls of libraries; the remaining phases, whose logic is mostly such
-- calls; and the concurrent effects of one round of `ParallelEach` inside single filters.
pub mod Prelude
pub mod Retry
pub mod Phase
pub mod Cluster
pub mod Values
pub mod Receipt
pub mod Clustercfg
pub mod Overrides
pub mod Ansible
pub mod RpmVersions
