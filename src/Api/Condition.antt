-- ===== src/Api/Condition.antt =====
-- The conditions of both resources (api/v1beta1/harvestermachine_types.go and
-- harvestercluster_types.go), and the packages `conditions` of Cluster API and `controllerutil` of
-- controller-runtime as interfaces with the behaviour that they document. Condition messages are
-- text for people and are not modelled.
use cluster_api_provider_har.Common.{String, Bool, true, false, List, ◌≡◌, ◌≢◌}

-- The constants that name a condition type.
pub data ConditionType : Type 0 where
  machine_created vm_provisioning_ready vm_running vm_ip_allocated : ConditionType
  load_balancer_ready custom_ip_pool_created cloud_provider_config_ready : ConditionType
  infrastructure_ready target_namespace_ready harvester_connection_ready : ConditionType
  vm_ip_pool_ready vm_ip_pool_created_by_controller fleet_integration_ready : ConditionType
  init_machine_created : ConditionType

-- The constants that name a reason.
pub data Reason : Type 0 where
  machine_created machine_not_found : Reason
  vm_provisioning_in_progress vm_provisioning_failed vm_provisioning_ready : Reason
  vm_ip_allocation_failed vm_ip_pool_exhausted vm_ip_allocated : Reason
  load_balancer_ready custom_pool_creation_in_harvester_failed : Reason
  custom_ip_pool_created_successfully cloud_provider_config_generated_successfully : Reason
  infrastructure_provisioning_in_progress infrastructure_provisioning_failed : Reason
  infrastructure_ready target_namespace_checking target_namespace_not_ready : Reason
  target_namespace_ready harvester_connection_in_progress harvester_connection_failed : Reason
  harvester_authentication_failed harvester_connection_ready vm_ip_pool_creation_failed : Reason
  vm_ip_pool_ready vm_ip_pool_created_by_controller fleet_integration_not_applicable : Reason
  fleet_integration_in_progress fleet_integration_ready fleet_integration_failed : Reason
  init_machine_created init_machine_not_yet_created vm_running vm_not_running : Reason
  load_balancer_not_ready load_balancer_no_backend_machine load_balancer_healthcheck_failed : Reason
  cloud_provider_config_not_ready cloud_provider_config_generation_failed : Reason

pub record Condition : Type 0 where
  pub type : ConditionType
  pub status : Bool  -- `metav1.ConditionTrue` or `metav1.ConditionFalse`
  pub reason : Reason

-- sigs.k8s.io/cluster-api/util/conditions
pub record Conditions : Type 0 where
  pub set : Condition → List Condition → List Condition
  pub delete : ConditionType → List Condition → List Condition
  pub is_true : List Condition → ConditionType → Bool
  pub is_true-set_self :
      (c : Condition) (cs : List Condition) → is_true (set c cs) c.type ≡ c.status
  pub is_true-set_ne :
      (c : Condition) (cs : List Condition) (t : ConditionType)
      → t ≢ c.type
      → is_true (set c cs) t ≡ is_true cs t
  pub is_true-delete_self :
      (t : ConditionType) (cs : List Condition) → is_true (delete t cs) t ≡ false
  pub is_true-delete_ne :
      (t u : ConditionType) (cs : List Condition) → u ≢ t → is_true (delete t cs) u ≡ is_true cs u

-- The finalizer functions of sigs.k8s.io/controller-runtime/pkg/controller/controllerutil. `remove`
-- also says whether it changed the list.
pub record Finalizers : Type 0 where
  pub has : List String → String → Bool
  pub add : List String → String → List String
  pub remove : List String → String → List String × Bool
  pub has-add_self : (fs : List String) (f : String) → has (add fs f) f ≡ true
  pub has-add_ne : (fs : List String) (f g : String) → g ≢ f → has (add fs f) g ≡ has fs g
  pub has-remove_self : (fs : List String) (f : String) → has (remove fs f).0 f ≡ false
  pub has-remove_ne : (fs : List String) (f g : String) → g ≢ f → has (remove fs f).0 g ≡ has fs g
  pub remove_reports : (fs : List String) (f : String) → (remove fs f).1 ≡ has fs f
