-- ===== src/Scenarios/Creation.antt =====
-- The theorems on the making of VMs, at a machine that is to get its VM.
use cluster_api_provider_har.CloudInit.{YamlValue, sequence, merge_documents}
use cluster_api_provider_har.Common.{
  subst, ap, contains, ◌++◌, [], ◌∷◌, none, some, ◌≡◌, ◌≢◌, true, refl, Option, String,
}
use cluster_api_provider_har.Machine.Create.Template.{Json}
use cluster_api_provider_har.Api.Meta.{ok, value}
use cluster_api_provider_har.Api.Machine.{NodeAffinity}
use cluster_api_provider_har.CloudInit.{Yaml}
use cluster_api_provider_har.FailureDomains.{effective_failure_domain}
use cluster_api_provider_har.Harvester.Types.{Servers}
use cluster_api_provider_har.Machine.Create.Scheduling.{build_affinity}
use cluster_api_provider_har.Machine.Create.Scheduling.Pinned.{
  Pins, build_affinity-Pins, domain_requirement,
}
use cluster_api_provider_har.Machine.Scope.{Scope}
use cluster_api_provider_har.Scenarios.Machines.{scope}
use cluster_api_provider_har.Scenarios.Pools.{pool}
use cluster_api_provider_har.Scenarios.World.{empty_servers}
use cluster_api_provider_har.Names.{get_namespaced_name, itoa}
use cluster_api_provider_har.CloudInit.Sections.{all_items, items, merge_documents-items}
use cluster_api_provider_har.Common.Dict.{Dict, HasDistinctKeys, insert, lookup}

abbrev one_document : Yaml
one_document = record { unmarshal = λ _. some []; marshal = λ _. some "" }

abbrev short_json : Json
short_json = record { marshal_claims = λ _. some "[]"; marshal_names = λ _. some "[]" }

abbrev key_servers : Servers
key_servers = record empty_servers {
  on_get_pool = λ _ _. ok pool;
  on_get_key_pair = λ _ _ name. ok (record { name = name; public_key = "ssh-ed25519" });
  on_get_management_secret =
      λ _ ns name. ok (record { name = name; namespace = ns; data_entries = ("value", "") ∷ [] });
}

abbrev owned_scope : Scope
owned_scope = record scope {
  cluster = record {
    name = "c";
    namespace = "ns";
    labels = [];
    infrastructure_provisioned = some true;
  };
  machine = some (record {
    name = "b";
    namespace = "ns";
    failure_domain = "z1";
    data_secret_name = some "boot";
  });
}

pinned : effective_failure_domain owned_scope ≢ ""
unfolding effective_failure_domain
pinned = λ e. cc

build_affinity-Pins_example :
    (a : NodeAffinity) × ((build_affinity owned_scope).0.node_affinity ≡ some a)
    × Pins (domain_requirement owned_scope) none a
build_affinity-Pins_example = build_affinity-Pins owned_scope pinned

-- Documents that are read as one section with one item.
abbrev runcmd_yaml : Yaml
runcmd_yaml = record {
  unmarshal = λ doc. some (("runcmd", sequence (doc ∷ [])) ∷ []);
  marshal = λ _. some "";
}

runcmd_distinct :
    (doc : String) (obj : Dict YamlValue)
    → some (("runcmd", sequence (doc ∷ [])) ∷ []) ≡ some obj
    → HasDistinctKeys obj
unfolding lookup
runcmd_distinct doc obj e = subst HasDistinctKeys (ap (λ o. keys_of o) e) (refl, tt)
  where
    keys_of : Option (Dict YamlValue) → Dict YamlValue
    keys_of none = []
    keys_of (some d) = d

merge_two :
    merge_documents runcmd_yaml ("a" ∷ "b" ∷ []) []
    ≡ value (("runcmd", sequence ("a" ∷ "b" ∷ [])) ∷ [])
unfolding merge_documents contains lookup insert
merge_two = refl

merge_documents-items_example :
    items "runcmd" (("runcmd", sequence ("a" ∷ "b" ∷ [])) ∷ [])
    ≡ items "runcmd" [] ++ all_items runcmd_yaml "runcmd" ("a" ∷ "b" ∷ [])
unfolding contains
merge_documents-items_example =
    merge_documents-items runcmd_yaml runcmd_distinct "runcmd" ("a" ∷ "b" ∷ []) []
      (("runcmd", sequence ("a" ∷ "b" ∷ [])) ∷ []) refl merge_two

itoa_test : itoa 1209 ≡ "1209"
unfolding itoa
itoa_test = refl

split_test :
    get_namespaced_name "default/img.x" "ns"
    ≡ value (record { namespace = "default"; name = "img.x" })
unfolding get_namespaced_name
split_test = refl
