-- ===== src/Lib.antt =====
-- D-PlaneOS is the daemon of a NAS. This library models the parts of it that decide what is done to
-- the storage of the machine and what is recorded about it, and states what makes them correct.
--
-- The parts and their files:
--   Gitops.State, Gitops.Validate (daemon/internal/gitops/state.go): the declared state of pools,
--     datasets and shares, with the types that diff.go and live.go add, and ValidState. A message is
--     a constructor with the values it is made from.
--   Gitops.Yaml with Lines and Schema (daemon/internal/gitops/state.go): the YAML reader, from the
--     text to the nodes and from the nodes to the declared state that ParseStateYAML returns.
--   Gitops.System (daemon/internal/cmdutil/cmdutil.go): what gitops does outside its memory. An
--     effect is a command (argv gives its line and its timeout), a statement on the table smb_shares
--     or the writing of smb.conf. An oracle, the record System, answers each effect and knows all
--     that was done before it; the record World keeps the trace of effects, the table and the file.
--   Gitops.Live with Read (daemon/internal/gitops/live.go): ReadLiveState with its three readers, the
--     probes DatasetUsedBytes and HasActiveSMBConnections, and the reading of `zpool status -P`.
--   Gitops.Drift (daemon/internal/gitops/drift.go): the check that reads the declaration and the
--     machine, compares them and broadcasts the result.
--   Gitops.Diff, Gitops.Plan (daemon/internal/gitops/diff.go): the differences of one resource, their
--     risk, the blocked checks, and ComputeDiff, whose phases make the plan that is then tallied.
--   Gitops.Apply with Outcome, Zfs and Shares (daemon/internal/gitops/apply.go): ApplyPlan takes the
--     items of a plan in order and runs the executor of each; an error is a value of Outcome.
--   Gitops.Approval (daemon/internal/handlers/gitops_handler.go): the handlers that plan, apply and
--     approve, with the approvals that an operator has given.
--   Audit (daemon/internal/audit/chain.go, daemon/internal/audit/buffered_logger.go and
--     daemon/internal/handlers/audit_verify.go): the logger with its buffer, its table of chained
--     rows, and the verification of that chain.
--   Ha (daemon/internal/ha/cluster.go): the peers of a node, their heartbeats, and the view of the
--     cluster.
--   Ldap (daemon/internal/handlers/ldap_circuit_breaker.go): the circuit breaker in front of LDAP and
--     the cache of credentials.
--   Security with Whitelist, Validate and Names (daemon/internal/security/whitelist.go): the commands
--     that may be run, ValidateCommand, and the validators of names and paths. Security.Regex matches
--     the patterns of package regexp by derivatives.
--   Rbac with Tables, Cache, Check, Manage, Session and Middleware (daemon/internal/security/rbac.go,
--     daemon/internal/security/session.go, daemon/internal/middleware/rbac.go): the tables of roles,
--     permissions and assignments with their queries, the cache of permissions, the checks, the calls
--     that change roles, the sessions, and the middleware in front of the routes.
--   Networkd with Names, Text and Disk (daemon/internal/networkdwriter/writer.go): the operations on the
--     units of systemd-networkd, the names that they accept, the names of the files and their contents,
--     and the atomic write with the temporary files that it can leave behind.
--   Nixwriter with Names and Text (daemon/internal/nixwriter/writer.go): the stanzas of the NixOS
--     fragment, the operations on them and the file that they make.
--   Reconciler (daemon/internal/reconciler/reconciler.go): the tables of the network and the
--     reconciliation of the kernel with them.
--   ApiTokens (daemon/internal/handlers/api_tokens.go): the table of tokens for automation, with their
--     creation, validation, listing and revocation.
-- The modules below a part prove what is listed at the end; the modules named Examples hold tests.
--
-- Conventions. A text is the list of its code points (Prelude.Text). A map of Go is a list in which
-- the entry that was put last under a key counts, and the order in which it is ranged over is a
-- function of the system. Nearly every loop of the source is a recursion on the list it goes
-- through and needs no fuel; printing a number has the number itself as fuel, and the two parsers of
-- the YAML reader, which call each other on what the other left, have one unit more than there are
-- lines, which is proved to be enough. The integers of the source that are
-- bounded (the count of missed heartbeats, the counts of a plan, a size in bytes) stay far below their
-- bound and are natural numbers; ashift and the size of the buffer, which can be negative, are
-- integers. For a text that strconv.ParseUint refuses, parse_uint gives what it returns beside its
-- error.
--
-- Not modelled: fmt.Sscanf, which is a parameter where an ashift is read; the other handlers
-- of gitops;
-- the goroutines, timers and HTTP client of the cluster manager and of the logger, which only call the
-- operations modelled here; HMAC-SHA256, which is a function of the key and the text. Two calls that
-- run at once are the sequence of their critical sections.
pub mod Prelude
pub mod Gitops
pub mod Audit
pub mod Ha
pub mod Ldap
pub mod Security
pub mod Rbac
pub mod Networkd
pub mod Nixwriter
pub mod Reconciler
pub mod ApiTokens
