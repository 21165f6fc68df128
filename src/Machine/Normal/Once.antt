-- ===== src/Machine/Normal/Once.antt =====
-- The normal reconciliation sends one VM at most.
use cluster_api_provider_har.Api.Condition.{Conditions, Finalizers}
use cluster_api_provider_har.Common.{Option, false, ◌≡◌, ◌⊎◌}
use cluster_api_provider_har.Common.Flow.{Code, Flow, done, next, ◌>>◌}
use cluster_api_provider_har.CloudInit.{Yaml}
use cluster_api_provider_har.Etcd.{ClientGo}
use cluster_api_provider_har.Harvester.Types.{Servers, VirtualMachine}
use cluster_api_provider_har.Machine.Create.Once.{Sends}
use cluster_api_provider_har.Machine.Create.Quiet.{created_vms}
use cluster_api_provider_har.Machine.Create.Template.{Json}
use cluster_api_provider_har.Machine.Normal.{ensure_created, finish}
use cluster_api_provider_har.Machine.Normal.Creates.{was_created}
use cluster_api_provider_har.Machine.Scope.{Outcome, Scope}
use cluster_api_provider_har.Pool.Allocate.{Allocator}
use cluster_api_provider_har.Pool.Net.{Net}
use cluster_api_provider_har.Webhook.{QuantityParser}

module _ (net : Net) (allocator : Allocator net) (conditions : Conditions) (finalizers : Finalizers)
    (client_go : ClientGo) (servers : Servers) (yaml : Yaml) (json : Json)
    (is_quantity : QuantityParser) where
  -- No VM was sent, or one of the machine, which did not say that its VM was created.
  abbrev pub AtMostOne : Scope → Scope → Type 0
  AtMostOne s t =
      (created_vms t.calls ≡ created_vms s.calls)
      ⊎ ((was_created conditions s ≡ false) × Sends servers yaml json is_quantity s t)

  abbrev EndsAtMostOne : {A : Type 0} → Scope → Flow Scope Outcome A → Type 0
  EndsAtMostOne s (next _ t) = AtMostOne s t
  EndsAtMostOne s (done _ t) = AtMostOne s t

  abbrev create_and_finish : Option VirtualMachine → Code Scope Outcome Outcome
  create_and_finish found =
      ensure_created conditions client_go servers yaml json is_quantity found
      >> finish conditions client_go servers
