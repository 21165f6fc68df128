-- ===== src/Scenarios/Status.antt =====
-- Conditions as a list, the last one set first.
use cluster_api_provider_har.Common.{
  List, Bool, [], ◌∷◌, false, ◌≡◌, ◌≢◌, refl, sym, ap, ◌∙◌, ℕ, ◌==◌, if◌then◌else◌, arith,
}
use cluster_api_provider_har.Api.Condition.{
  Condition, ConditionType, Conditions, machine_created, vm_provisioning_ready, vm_running,
  vm_ip_allocated, load_balancer_ready, custom_ip_pool_created, cloud_provider_config_ready,
  infrastructure_ready, target_namespace_ready, harvester_connection_ready, vm_ip_pool_ready,
  vm_ip_pool_created_by_controller, fleet_integration_ready, init_machine_created,
}

unfoldable pub number : ConditionType → ℕ
number machine_created = 0
number vm_provisioning_ready = 1
number vm_running = 2
number vm_ip_allocated = 3
number load_balancer_ready = 4
number custom_ip_pool_created = 5
number cloud_provider_config_ready = 6
number infrastructure_ready = 7
number target_namespace_ready = 8
number harvester_connection_ready = 9
number vm_ip_pool_ready = 10
number vm_ip_pool_created_by_controller = 11
number fleet_integration_ready = 12
number init_machine_created = 13

unfoldable pub of_number : ℕ → ConditionType
of_number n =
    if n == 0
    then machine_created
    else if n == 1
    then vm_provisioning_ready
    else if n == 2
    then vm_running
    else if n == 3
    then vm_ip_allocated
    else if n == 4
    then load_balancer_ready
    else if n == 5
    then custom_ip_pool_created
    else if n == 6
    then cloud_provider_config_ready
    else if n == 7
    then infrastructure_ready
    else if n == 8
    then target_namespace_ready
    else if n == 9
    then harvester_connection_ready
    else if n == 10
    then vm_ip_pool_ready
    else if n == 11
    then vm_ip_pool_created_by_controller
    else if n == 12
    then fleet_integration_ready
    else init_machine_created

of_number-number : (t : ConditionType) → of_number (number t) ≡ t
unfolding number of_number
of_number-number machine_created = refl
of_number-number vm_provisioning_ready = refl
of_number-number vm_running = refl
of_number-number vm_ip_allocated = refl
of_number-number load_balancer_ready = refl
of_number-number custom_ip_pool_created = refl
of_number-number cloud_provider_config_ready = refl
of_number-number infrastructure_ready = refl
of_number-number target_namespace_ready = refl
of_number-number harvester_connection_ready = refl
of_number-number vm_ip_pool_ready = refl
of_number-number vm_ip_pool_created_by_controller = refl
of_number-number fleet_integration_ready = refl
of_number-number init_machine_created = refl

number_injective : (t u : ConditionType) → number t ≡ number u → t ≡ u
number_injective t u e = sym (of_number-number t) ∙ (ap of_number e ∙ of_number-number u)

abbrev pub is_true_in : List Condition → ConditionType → Bool
is_true_in [] t = false
is_true_in (c ∷ cs) t = if number c.type == number t then c.status else is_true_in cs t

abbrev pub delete_from : ConditionType → List Condition → List Condition
delete_from t [] = []
delete_from t (c ∷ cs) =
    let rest = delete_from t cs in if number c.type == number t then rest else c ∷ rest

pub is_true-set_self : (c : Condition) (cs : List Condition) → is_true_in (c ∷ cs) c.type ≡ c.status
is_true-set_self c cs = ground arith

pub is_true-set_ne :
    (c : Condition) (cs : List Condition) (t : ConditionType)
    → t ≢ c.type
    → is_true_in (c ∷ cs) t ≡ is_true_in cs t
is_true-set_ne c cs t ne =
    let differ : number c.type ≢ number t = λ e. ne (sym (number_injective c.type t e)) in
    ground (arith, differ)

pub is_true-delete_self :
    (t : ConditionType) (cs : List Condition) → is_true_in (delete_from t cs) t ≡ false
is_true-delete_self t [] = refl
is_true-delete_self t (c ∷ cs) = ground (arith, is_true-delete_self t cs)

pub is_true-delete_ne :
    (t u : ConditionType) (cs : List Condition)
    → u ≢ t
    → is_true_in (delete_from t cs) u ≡ is_true_in cs u
is_true-delete_ne t u [] ne = refl
is_true-delete_ne t u (c ∷ cs) ne =
    let differ : number u ≢ number t = λ e. ne (number_injective u t e) in
    ground (arith, differ, is_true-delete_ne t u cs ne)

abbrev pub list_conditions : Conditions
list_conditions = record {
  set = λ c cs. c ∷ cs;
  delete = delete_from;
  is_true = is_true_in;
  is_true-set_self = is_true-set_self;
  is_true-set_ne = is_true-set_ne;
  is_true-delete_self = is_true-delete_self;
  is_true-delete_ne = is_true-delete_ne;
}
