-- ===== src/Scenarios/World.antt =====
-- A network of three addresses, an allocator that answers with the address that is asked for or else a range's first one, servers that
-- know nothing, and finalizers as a list.
use cluster_api_provider_har.Common.{
  List, Option, String, Bool, [], ◌∷◌, ◌++◌, none, some, if◌then◌else◌, str_eq, true, false,
  contains, refl, ◌≡◌, ◌≢◌, arith, eq_iff, str_eq_refl, subst, ◌||◌, ap, sym,
}
use cluster_api_provider_har.Api.Meta.{Result, ok, failed, not_found, message, value, error, Error}
use cluster_api_provider_har.Pool.Allocate.{Allocator}
use cluster_api_provider_har.Pool.Net.{Ip, IpNet, Net, ip_equal, v4_prefix}
use cluster_api_provider_har.Pool.Range.{AllocatorRange}
use cluster_api_provider_har.Pool.Store.{reserve}
use cluster_api_provider_har.Pool.Types.{PoolStatus}
use cluster_api_provider_har.Api.Condition.{Finalizers}
use cluster_api_provider_har.Etcd.{ClientGo}
use cluster_api_provider_har.Harvester.Types.{Servers}

abbrev pub host_2 : Ip
host_2 = v4_prefix ++ (10 ∷ 0 ∷ 0 ∷ 2 ∷ [])

abbrev pub host_9 : Ip
host_9 = v4_prefix ++ (10 ∷ 0 ∷ 0 ∷ 9 ∷ [])

abbrev pub lan : IpNet
lan = record { ip = 10 ∷ 0 ∷ 0 ∷ 0 ∷ []; mask = 255 ∷ 255 ∷ 255 ∷ 0 ∷ [] }

abbrev pub parse_host : String → Option Ip
parse_host s =
    if str_eq s "10.0.0.2" then some host_2 else if str_eq s "10.0.0.9" then some host_9 else none

abbrev pub print_host : Ip → String
print_host ip = if ip_equal ip host_9 then "10.0.0.9" else "10.0.0.2"

abbrev pub net : Net
net = record {
  parse_ip = parse_host;
  parse_cidr =
      λ s. if str_eq s "10.0.0.0/24" then some (v4_prefix ++ (10 ∷ 0 ∷ 0 ∷ 0 ∷ []), lan) else none;
  ip_string = print_host;
  next_ip = λ ip. host_2;
}

abbrev pub kept_or_taken : Ip → PoolStatus → Bool × PoolStatus → Result Ip × PoolStatus
kept_or_taken ip s (true, s') = (value ip, s')
kept_or_taken ip s (false, _) = (error (message "no IP addresses available"), s)

abbrev pub get_first :
    List AllocatorRange → String → Option Ip → PoolStatus → Result Ip × PoolStatus
get_first [] id requested s = (error (message "no IP addresses available"), s)
get_first (r ∷ _) id (some a) s = kept_or_taken a s (reserve id (print_host a) s)
get_first (r ∷ _) id none s =
    kept_or_taken r.range_start s (reserve id (print_host r.range_start) s)

kept_or_taken-value :
    (first ip : Ip) (s s' : PoolStatus) (out : Bool × PoolStatus)
    → kept_or_taken first s out ≡ (value ip, s')
    → (first ≡ ip) × (out ≡ (true, s'))
kept_or_taken-value first ip s s' (true, t) e = (cc, cc)
kept_or_taken-value first ip s s' (false, t) e = cc

kept_or_taken-error :
    (first : Ip) (s s' : PoolStatus) (out : Bool × PoolStatus) (x : Error)
    → kept_or_taken first s out ≡ (error x, s')
    → s' ≡ s
kept_or_taken-error first s s' (true, t) x e = cc
kept_or_taken-error first s s' (false, t) x e = cc

pub get_first-reserves :
    (ranges : List AllocatorRange) (id : String) (requested : Option Ip) (s s' : PoolStatus)
    (ip : Ip)
    → get_first ranges id requested s ≡ (value ip, s')
    → reserve id (print_host ip) s ≡ (true, s')
get_first-reserves [] id requested s s' ip e = cc
get_first-reserves (r ∷ _) id (some a) s s' ip e =
    let (same, out) = kept_or_taken-value a ip s s' (reserve id (print_host a) s) e in
    subst (λ x. reserve id (print_host x) s ≡ (true, s')) same out
get_first-reserves (r ∷ _) id none s s' ip e =
    let (same, out) =
      kept_or_taken-value r.range_start ip s s' (reserve id (print_host r.range_start) s) e in
    subst (λ x. reserve id (print_host x) s ≡ (true, s')) same out

pub get_first_requested :
    (ranges : List AllocatorRange) (id : String) (a ip : Ip) (s s' : PoolStatus)
    → get_first ranges id (some a) s ≡ (value ip, s')
    → print_host ip ≡ print_host a
get_first_requested [] id a ip s s' e = cc
get_first_requested (r ∷ _) id a ip s s' e =
    sym (ap print_host (kept_or_taken-value a ip s s' (reserve id (print_host a) s) e).0)

pub get_first_error_keeps :
    (ranges : List AllocatorRange) (id : String) (requested : Option Ip) (s s' : PoolStatus)
    (x : Error)
    → get_first ranges id requested s ≡ (error x, s')
    → s' ≡ s
get_first_error_keeps [] id requested s s' x e = cc
get_first_error_keeps (r ∷ _) id (some a) s s' x e =
    kept_or_taken-error a s s' (reserve id (print_host a) s) x e
get_first_error_keeps (r ∷ _) id none s s' x e =
    kept_or_taken-error r.range_start s s' (reserve id (print_host r.range_start) s) x e

abbrev pub first_allocator : Allocator net
first_allocator = record {
  get = get_first;
  get_reserves = get_first-reserves;
  get_requested = get_first_requested;
  get_error_keeps = get_first_error_keeps;
}

abbrev pub add_finalizer : List String → String → List String
add_finalizer fs f = if contains fs f then fs else fs ++ (f ∷ [])

unfoldable pub remove_all : List String → String → List String
remove_all [] f = []
remove_all (g ∷ fs) f = let rest = remove_all fs f in if str_eq g f then rest else g ∷ rest

contains-append :
    (fs : List String) (f g : String) → contains (fs ++ (f ∷ [])) g ≡ contains fs g || str_eq f g
unfolding contains
contains-append [] f g = ground arith
contains-append (x ∷ fs) f g = ground (arith, contains-append fs f g)

pub contains-remove_all_self :
    (fs : List String) (f : String) → contains (remove_all fs f) f ≡ false
unfolding contains remove_all
contains-remove_all_self [] f = refl
contains-remove_all_self (x ∷ fs) f =
    ground (arith, eq_iff x f, eq_iff f x, contains-remove_all_self fs f)

pub contains-remove_all_ne :
    (fs : List String) (f g : String) → g ≢ f → contains (remove_all fs f) g ≡ contains fs g
unfolding contains remove_all
contains-remove_all_ne [] f g ne = refl
contains-remove_all_ne (x ∷ fs) f g ne =
    ground (arith, eq_iff x f, eq_iff f x, eq_iff x g, eq_iff g x, contains-remove_all_ne fs f g ne)

pub has-add_self : (fs : List String) (f : String) → contains (add_finalizer fs f) f ≡ true
has-add_self fs f = ground (arith, contains-append fs f f, str_eq_refl f)

pub has-add_ne :
    (fs : List String) (f g : String) → g ≢ f → contains (add_finalizer fs f) g ≡ contains fs g
has-add_ne fs f g ne = ground (arith, contains-append fs f g, eq_iff f g)

abbrev pub list_finalizers : Finalizers
list_finalizers = record {
  has = contains;
  add = add_finalizer;
  remove = λ fs f. (remove_all fs f, contains fs f);
  has-add_self = has-add_self;
  has-add_ne = has-add_ne;
  has-remove_self = contains-remove_all_self;
  has-remove_ne = contains-remove_all_ne;
  remove_reports = λ fs f. refl;
}

-- Servers that answer every question with "not found" and accept every change.
abbrev pub empty_servers : Servers
empty_servers = record {
  on_get_pool = λ _ _. failed not_found;
  on_update_pool = λ _ _. ok tt;
  on_create_pool = λ _ _. failed not_found;
  on_delete_pool = λ _ _. ok tt;
  on_get_vm = λ _ _ _. failed not_found;
  on_create_vm = λ _ _. ok tt;
  on_delete_vm = λ _ _ _. ok tt;
  on_get_vmi = λ _ _ _. failed not_found;
  on_get_secret = λ _ _ _. failed not_found;
  on_create_secret = λ _ _. ok tt;
  on_update_secret = λ _ _. ok tt;
  on_delete_secret = λ _ _ _. ok tt;
  on_list_pvcs = λ _ _. failed not_found;
  on_delete_pvc = λ _ _ _. ok tt;
  on_list_images = λ _ _. failed not_found;
  on_get_key_pair = λ _ _ _. failed not_found;
  on_get_management_secret = λ _ _ _. failed not_found;
  on_patch_cluster_status = λ _ _. ok tt;
  on_get_node = λ _ _. failed not_found;
  on_patch_provider_id = λ _ _ _. ok tt;
  on_patch_taints = λ _ _ _. ok tt;
  on_list_etcd_pods = λ _. failed not_found;
  on_list_system_pods = λ _. failed not_found;
  on_exec_member_list = λ _ _. failed not_found;
  on_exec_member_remove = λ _ _ _. ok tt;
  on_random_id = λ _. "x4c2a";
}

abbrev pub client_go : ClientGo
client_go = record { accepts = λ _. true; builds_client = λ _. true }
