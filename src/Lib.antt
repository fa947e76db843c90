-- ===== src/Lib.antt =====
-- Verification of the cluster manager of cdm-center.
--
-- The cluster manager keeps a copy of what clouds of OpenStack hold and watches over their
-- services. Its leader checks the services of each cluster (cluster-manager/leader), asks for a
-- synchronization of whole clusters and runs those that were reserved (cluster-manager/sync), and
-- stores the status of a synchronization (cluster-manager/internal/cluster). Requests from users
-- go through validators (cluster-manager/internal/*/validator.go), which ask whether a user owns
-- the cluster. What is made or deleted in a cloud goes through a client
-- (cluster-manager/client/openstack), which takes back what it made where a later call fails.
--
-- Prelude: shared names, tests on numbers and texts, Go maps as lists of entries, slices. Go
--   leaves the order of a map's entries open; here it is that of the list, and statements hold
--   for every list, except that the maps which `Cluster` makes have one order here.
-- Errors, Constant: the errors and the codes that the modelled code uses.
-- Sync.Resource: the types of resources, the option for a tenant, statuses
--   (cluster-manager/sync/sync.go, cluster-manager/sync/options.go,
--   cluster-manager/internal/cluster/cluster_util.go).
-- Sync.Reserve: `ReservedSynchronizer`, `reserve` and `Reserve`; Entry reads it as one table.
-- Sync.ReservedSync: `reservedSync` and `ReservedSync`; the errors of the calls are a parameter.
--   Loops, Run, Hits, Requeue, Zones, Tallies and Status hold the proofs.
-- Sync.Cluster: `Cluster` of cluster-manager/sync/cluster.go, with its progress messages; at
--   most three rounds, which is the bound of its loop. Rounds, Result and Progress hold the
--   proofs.
-- Sync.Zones: cluster-manager/sync/availability_zone.go over a database that is a parameter with
--   laws. Removed, Changed and Unlisted hold what deletions and changes do to the rows, Mirror,
--   Again and Get the proofs about whole runs; Tests has a table with one row.
-- Sync.Wait: the two loops of cluster-manager/sync/sync_util.go, on fuel; a pause of three
--   seconds fits 40 times into the timeout of a volume and 20 times into that of an instance.
--   Ends holds the proofs.
-- Leader.Service, Check, CheckStatus, CheckCluster: the messages of
--   cluster-manager/queue/message.go and cluster-manager/leader/check.go. A loop of two attempts
--   runs on the attempts left. The goroutines of `CheckCluster` write different variables and
--   are functions one behind the other.
-- Leader.Compute: `GetComputeServiceList` of cluster-manager/sync/hypervisor.go, which feeds the
--   check.
-- Leader.Monitor: cluster-manager/leader/monitor.go and the memory that
--   cluster-manager/leader/health_check.go shares with it; the handlers and the changes by
--   checks are the steps of a relation. Configured and Update hold the proofs.
-- Cluster.Store, Status, Owner: cluster-manager/internal/cluster/cluster_util.go over a store,
--   an encoding and a database that are parameters with named laws; Tests has concrete ones.
-- Connection, SecurityGroup, Router, Network: `CheckValidClusterConnectionInfo` of
--   cluster-manager/internal/cluster/validator.go and the validators of
--   cluster-manager/internal/security_group/validator.go and
--   cluster-manager/internal/router/validator.go, cluster-manager/internal/network/validator.go.
--   An early return is an entry of a list of checks, of which the first error counts.
-- Notification: cluster-manager/client/openstack/notification, which reserves synchronizations
--   for the events of a cluster. Payload has decoded JSON values, with type assertions that may
--   panic; Keys is `isExistedKey`, Calls and Cases are the cases of `HandleEvent`, Handler puts
--   them together and in front of `Reserve`. Returns, Reserved and its Elsewhere hold
--   the proofs.
-- Stored: cluster-manager/storage/storage.go, cluster-manager/volume/volume.go and
--   cluster-manager/config/config.go over the store of Cluster.Store; Merged holds the proofs,
--   over an encoding of maps that may bring values back as other ones, in any order of the keys.
--   Cluster.Memory is a store to run them on.
-- ErrorCodes: `createError` of cluster-manager/handler/util.go; which declared error an error
--   equals is a parameter. Codes holds the proofs.
-- Steps: calls one behind the other, and what a call that creates answers.
-- Groups: the groups of volumes of cluster-manager/client/openstack/openstack.go, over the calls of
--   cluster-manager/client/openstack/train; its loops take parts of six volumes and run on fuel, of
--   which one round more than there are volumes is enough. Creation and Deletion hold the other two
--   requests, Service the laws of the volume service, Parts, Rounds, Update, Delete and Create the
--   proofs; Tests has a service. Here and in the next two parts the laws say what is there behind a
--   creation that was done or that was refused, and nothing of one whose answer was lost or could
--   not be read (`is_refusal` of Errors).
-- Instances: `createPorts` and `CreateInstance` of the same file with
--   cluster-manager/client/openstack/codes.go. Cloud has the laws of the cloud, Ports and Undone
--   the proofs; Tests has a cloud.
-- Routers: `CreateRouter` and `DeleteRouter` of the same file, with a panic at an index out of
--   range, behind which the deferred function runs. Deletion holds the second, Cloud the laws,
--   Interfaces, Cut, Undone, Leak and Removed the proofs; Tests has a cloud.
--
-- Not modelled: logging, sleeping, locks, the requests over HTTP of cluster-
-- manager/client/openstack/train and those requests of the client that only convert answers,
-- generated code; the other validators, the leader's election and subscriptions to brokers, the
-- requests on resources of cluster-manager/internal and the reconciliation of other resources than
-- zones with the database.
mod Prelude
pub mod Errors
pub mod Constant
pub mod Sync
pub mod Leader
pub mod Cluster
pub mod Connection
pub mod SecurityGroup
pub mod Notification
pub mod ErrorCodes
pub mod Stored
pub mod Router
pub mod Network
pub mod Steps
pub mod Groups
pub mod Instances
pub mod Routers
