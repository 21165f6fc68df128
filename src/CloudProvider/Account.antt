-- ===== src/CloudProvider/Account.antt =====
-- `GetCloudConfigB64` of util/cloud_provider.go and the functions that it calls.
use Prim.Native.Char.{code}
use cluster_api_provider_har.Common.{
  Bool, String, [], false, if◌then◌else◌, leb, none, some, str_append, true, ℕ, ◌&&◌, ◌+◌, ◌==◌,
  ◌||◌, ◌∷◌,
}
use cluster_api_provider_har.Common.Flow.{Code, done, next, pure, run, ◌>>=◌, ◌>>◌}
use cluster_api_provider_har.Api.Meta.{
  Response, Result, api, error, failed, is_already_exists, is_not_found, message, ok, value,
  wrapped,
}
use cluster_api_provider_har.CloudProvider.Codec.{Codec, KubeconfigContent}
use cluster_api_provider_har.Common.Dict.{lookup}
use cluster_api_provider_har.Harvester.Cluster.{
  ClusterCall, ClusterHistory, ClusterRoleBinding, ClusterServers, Service, ServiceAccount,
  TokenSecret, create_role_binding, create_service_account, create_token_secret, get_role_binding,
  get_service, get_service_account, get_token_secret,
}
use cluster_api_provider_har.Harvester.Types.{Secret}
use cluster_api_provider_har.Pool.Store.{value_or_empty}

-- `re.MatchString("\d+\.\d+\.\d+\.\d+", s)`, with the number of dots behind digits so far and
-- whether the last character was a digit.
unfoldable pub scan_ipv4 : ℕ → Bool → String → Bool
scan_ipv4 dots digit String.[] = false
scan_ipv4 dots digit (String.◌∷◌ c s) =
    if leb b'0' (code c) && leb (code c) b'9'
    then dots == 3 || scan_ipv4 dots true s
    else if code c == b'.' && digit
    then scan_ipv4 (dots + 1) false s
    else scan_ipv4 0 false s

unfoldable pub contains_ipv4 : String → Bool
unfolding scan_ipv4
contains_ipv4 s = scan_ipv4 0 false s

unfoldable pub has_colon : String → Bool
has_colon String.[] = false
has_colon (String.◌∷◌ c s) = code c == b':' || has_colon s

-- `net.JoinHostPort`
unfoldable pub join_host_port : String → String → String
unfolding has_colon
join_host_port host port =
    if has_colon host
    then str_append "[" (str_append host (str_append "]:" port))
    else str_append host (str_append ":" port)

-- The server's URL: that of the virtual address, where the annotation has one.
unfoldable pub server_url : Service → String → String
unfolding contains_ipv4 join_host_port
server_url svc given =
    let vip = value_or_empty (lookup "kube-vip.io/loadbalancerIPs" svc.annotations) in
    if contains_ipv4 vip then str_append "https://" (join_host_port vip "6443") else given

-- The content that is encoded.
unfoldable pub kubeconfig_content : String → String → String → String → KubeconfigContent
kubeconfig_content namespace server token ca = record {
  server = server;
  certificate_authority = ca;
  token = token;
  cluster = "default";
  auth_info = "default";
  context = "context";
  namespace = namespace;
}

module _ (codec : Codec) where
  unfoldable pub encode_config : KubeconfigContent → Result String
  encode_config content = elim (codec.encode_kubeconfig content) [
    | none ↦ error (message "unable to encode kubeconfig object")
    | some json ↦ elim (codec.json_to_yaml json) [
      | none ↦ error (message "unable to convert JSON to YAML")
      | some yaml ↦ value yaml
    ]
  ]

  -- `buildKubeconfigFromSecret`
  unfoldable pub build_kubeconfig_from_secret : Secret → String → String → Result String
  unfolding encode_config kubeconfig_content
  build_kubeconfig_from_secret secret namespace server = elim (lookup "token" secret.data_entries) [
    | none ↦ error (message "token not found in secret")
    | some token ↦ elim (lookup "ca.crt" secret.data_entries) [
      | none ↦ error (message "ca.crt not found in secret")
      | some ca ↦ encode_config (kubeconfig_content namespace server token ca)
    ]
  ]

-- The Secret for the account's token.
unfoldable pub token_secret : ServiceAccount → String → TokenSecret
token_secret sa namespace = record {
  name = str_append sa.name "-token";
  namespace = namespace;
  annotations =
      ("kubernetes.io/service-account.name", sa.name)
      ∷ ("kubernetes.io/service-account.uid", sa.uid)
      ∷ [];
  owner_name = sa.name;
  owner_uid = sa.uid;
  type = "kubernetes.io/service-account-token";
}

unfoldable pub role_binding : String → String → ClusterRoleBinding
role_binding sa_name namespace = record {
  name = sa_name;
  subject_kind = "ServiceAccount";
  subject_name = sa_name;
  subject_namespace = namespace;
  role_kind = "ClusterRole";
  role_name = "harvesterhci.io:cloudprovider";
}

-- The body of a function here: an early return has a result.
abbrev pub Preparing : Type 0 → Type 0
Preparing A = Code ClusterHistory (Result String) A

-- A call whose failure is returned.
abbrev pub ask_cloud : {A : Type 0} → ClusterCall → (ClusterHistory → Response A) → Preparing A
ask_cloud c answer h = elim (answer h) [
  | ok a ↦ next a (c ∷ h)
  | failed e ↦ done (error (api e)) (c ∷ h)
]

module _ (servers : ClusterServers) where
  -- `createServiceAccountIfNotExists`
  unfoldable pub create_service_account_if_not_exists : String → String → Preparing (Unit {0})
  create_service_account_if_not_exists sa_name namespace h =
      let h' = get_service_account namespace sa_name ∷ h in
      elim (servers.on_get_service_account h namespace sa_name) [
        | ok _ ↦ next tt h'
        | failed e ↦
            if is_not_found e
            then ask_cloud (create_service_account namespace sa_name)
                (λ k. servers.on_create_service_account k namespace sa_name) h'
            else done (error (api e)) h'
      ]

  -- `createClusterRoleBindingIfNotExists`
  unfoldable pub create_cluster_role_binding_if_not_exists : String → String → Preparing (Unit {0})
  unfolding role_binding
  create_cluster_role_binding_if_not_exists sa_name namespace h =
      let h' = get_role_binding sa_name ∷ h in
      let binding = role_binding sa_name namespace in
      elim (servers.on_get_role_binding h sa_name) [
        | ok _ ↦ next tt h'
        | failed e ↦
            if is_not_found e
            then ask_cloud (create_role_binding binding)
                (λ k. servers.on_create_role_binding k binding) h'
            else done (error (api e)) h'
      ]

  -- The token's Secret; that it exists is no error.
  unfoldable pub ensure_token_secret : TokenSecret → Preparing (Unit {0})
  ensure_token_secret secret h = elim (servers.on_create_token_secret h secret) [
    | ok _ ↦ next tt (create_token_secret secret ∷ h)
    | failed e ↦
        if is_already_exists e
        then next tt (create_token_secret secret ∷ h)
        else done (error (api e)) (create_token_secret secret ∷ h)
  ]

  unfoldable pub get_ingress_service : Preparing Service
  get_ingress_service h = elim (servers.on_get_service h "kube-system" "ingress-expose") [
    | ok svc ↦ next svc (get_service "kube-system" "ingress-expose" ∷ h)
    | failed e ↦
        done
          (error (
            wrapped
              "unable to compute the Harvester Endpoint: problem in getting the ingress-expose service"
              (api e)))
          (get_service "kube-system" "ingress-expose" ∷ h)
  ]

  module _ (codec : Codec) where
    -- The end of `getKubeConfig`.
    unfoldable pub encode_kubeconfig_of : Secret → Service → String → String → Result String
    unfolding build_kubeconfig_from_secret server_url
    encode_kubeconfig_of secret svc namespace given =
        elim (build_kubeconfig_from_secret codec secret namespace (server_url svc given)) [
          | error _ ↦ error (message "unable to build a kubeconfig from secret")
          | value kubeconfig ↦ value (codec.encode_base64 kubeconfig)
        ]

    -- `getKubeConfig`; the pause of a second is left out.
    unfoldable pub get_kubeconfig : String → String → String → Preparing (Result String)
    unfolding ensure_token_secret get_ingress_service encode_kubeconfig_of
    get_kubeconfig sa_name namespace given = do
      sa ←
          ask_cloud (get_service_account namespace sa_name)
            (λ h. servers.on_get_service_account h namespace sa_name)
      ensure_token_secret (token_secret sa namespace)
      secret ←
          ask_cloud (get_token_secret namespace (str_append sa.name "-token"))
            (λ h. servers.on_get_token_secret h namespace (str_append sa.name "-token"))
      svc ← get_ingress_service
      pure (encode_kubeconfig_of secret svc namespace given)

    -- `GetCloudConfigB64`
    unfoldable pub get_cloud_config_b64 :
        String → String → String → ClusterHistory → Result String × ClusterHistory
    unfolding create_service_account_if_not_exists create_cluster_role_binding_if_not_exists
        get_kubeconfig
    get_cloud_config_b64 sa_name namespace given = run (do
      create_service_account_if_not_exists sa_name namespace
      create_cluster_role_binding_if_not_exists sa_name namespace
      get_kubeconfig sa_name namespace given)
