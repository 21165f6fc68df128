-- ===== src/Lib.antt =====
-- A verification library for the Cluster API provider for Harvester. The provider has two reconcilers:
-- the cluster's (internal/controller/harvestercluster_controller.go), which prepares the target
-- namespace, the pools of addresses and the load balancer in Harvester, and the machine's
-- (internal/controller/harvestermachine_controller.go), which makes a VM for each HarvesterMachine,
-- gives it an address from a pool, initializes its node in the workload cluster and takes all of it
-- down again. Both use util/ for pools, etcd, nodes, cloud-init and names, and share the resources of
-- api/v1beta1, which two webhooks validate.
--
-- Files and code:
--   Api: api/v1beta1. Api/Cluster and Api/Machine are harvestercluster_types.go and
--     harvestermachine_types.go, Api/Condition the conditions, Api/Meta object metadata and errors.
--   Pool: util/ippool.go. Pool/Types is the IPPool resource, Pool/Store the type Store,
--     Pool/Range MakeRange with its helpers, Pool/Allocate AllocateVMIPFromPool, Pool/Selection
--     PoolMatchesNetworks, Pool/Net the part of package net that they use. Proofs are in
--     Pool/Accounting, Pool/ById, Pool/Range/Bounds and beside the definitions.
--   Machine: the machine reconciler. Machine/Scope is its Scope, Machine/Address allocateVMIP and
--     releaseVMIP, Machine/Delete ReconcileDelete, Machine/Workload the work in the workload cluster,
--     Machine/Create createVMFromHarvesterMachine with Machine/Create/Disks, Networks, Scheduling and
--     Template for the parts of the VM, Machine/Normal ReconcileNormal. Machine/Create/Quiet and
--     Machine/Normal/Quiet are the lemmas on steps that send no VM.
--     Machine/Reconcile is Reconcile.
--   Cluster: the cluster reconciler. Cluster/Scope is its ClusterScope, Cluster/Pools the pools of the
--     load balancer, Cluster/VmPool reconcileVMIPPool, Cluster/LoadBalancer the load balancer and its
--     placeholder, Cluster/Delete ReconcileDelete, Cluster/Connection reconcileHarvesterConfig,
--     Cluster/Fleet reconcileFleetIntegration, Cluster/CloudConfig reconcileCloudProviderConfig,
--     Cluster/Machines the machines that count and the small functions, Cluster/Normal
--     ReconcileNormal, Cluster/Reconcile Reconcile. Proofs are in child modules; Cluster/Endpoint has the
--     lemmas on the endpoint that the steps of ReconcileNormal share.
--   CloudProvider: util/cloud_provider.go, the service account in Account, the manifests in Manifests,
--     the packages that encode and decode in Codec.
--   V1alpha1: api/v1alpha1, the types and conversion.go.
--   Etcd: util/etcd.go. NodeInit: util/node_init.go. CloudInit: util/cloudinit.go. Names: util/util.go, with
--     GenerateRFC1035Name in Names/Label.
--   FailureDomains: internal/controller/failure_domains.go.
--   Webhook: the two validating webhooks of api/v1beta1.
--   Harvester: the objects that are sent to servers and the calls, which are no code of the repository.
--   Common: numbers, lists, dictionaries and the monad of early returns.
--   Scenarios: the theorems applied at concrete inputs.
--
-- Conventions. A Go map is an association list in the order in which range walks it, which is
-- arbitrary; the theorems hold for every order. An int64 counter is its bit pattern below 2 ^ 64.
-- Objects that a reconciler changes are a Scope that is passed along, and an early return ends a block
-- of the monad of Common/Flow. A server is a record of functions from the calls so far to an answer,
-- so that every sequence of answers is covered, and each call is added to the calls. The cluster
-- reconciler has its own calls and servers (Harvester/Cluster). Package net's
-- parsers and printers, the CNI allocator, client-go, controllerutil, the CAPI conditions, yaml.v2 and
-- resource.ParseQuantity are records of functions, with the laws that the code relies on as fields.
-- All loops are over lists and are structural recursions: there is no fuel.
--
-- Not modelled: metrics, logs, the texts of conditions and the values in error messages; the set-up of
-- the managers and cmd/main.go; generated code (pkg, zz_generated.deepcopy.go); the fixed fields of
-- kubevirt objects; the webhooks of api/v1alpha1, which repeat those of v1beta1; CountIP and ipToInt of
-- util/ippool.go, whose result is not used; Healthcheck and ValidateB64Kubeconfig of util/util.go, which
-- only call the network and third-party parsers.
pub mod Common
pub mod Api
pub mod Pool
pub mod Harvester
pub mod Machine
pub mod Etcd
pub mod NodeInit
pub mod Webhook
pub mod FailureDomains
pub mod Names
pub mod CloudInit
pub mod CloudProvider
pub mod Cluster
pub mod V1alpha1
pub mod Scenarios
