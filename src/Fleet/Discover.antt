-- ===== src/Fleet/Discover.antt =====
-- internal/fleet/discover.go and clouds.go: the clusters of the management cluster and the credentials
-- of each.
--
-- `Api` is the API server of the management cluster: a Secret read by its name, the Secrets with a
-- label, the resource of the kind Cluster and its list. `C` is the configuration of a client, which
-- `parse` reads from a kubeconfig. A text is the list of its bytes, and an error is its message.
use binnacle.Prelude.{
  ℕ, ◌+◌, Bool, true, false, List, [], ◌∷◌, ◌++◌, map, Option, none, some, Text, text, ◌⊎◌, inl,
  inr, is_some, keep, length, decimal, or_empty, text_lt,
}
use binnacle.Prelude.Sort.{sort_stable}
use binnacle.Store.{lookup}
pub mod Sole
pub mod Clouds
pub mod Whole

-- A Secret; `content` is its field Data.
pub record Secret : Type 0 where
  pub name : Text
  pub content : List (Text × Text)

-- The answer to a read by name; another error than NotFound is its message.
pub data Answer : Type 0 where
  found : Secret → Answer
  not_found : Answer
  failed : Text → Answer

pub record Api (C : Type 0) : Type 0 where
  pub get_secret : Text → Text → Answer
  pub list_secrets : Text → Text → Text ⊎ List Secret
  pub rest_mapping : Option Text
  pub list_clusters : Text → Text ⊎ List (Text × Text)
  pub parse : Text → Text ⊎ C
  pub trim_space : Text → Text

pub record CloudCredentials : Type 0 where
  pub clouds_yaml : Text
  pub cloud : Text
  pub secret : Text

pub record Discovered (C : Type 0) : Type 0 where
  pub namespace : Text
  pub name : Text
  pub config : Option C
  pub err : Option Text
  pub exec_config : Option C
  pub clouds : Option CloudCredentials
  pub clouds_err : Option Text

-- `Key`
unfoldable pub key_of : {C : Type 0} → Discovered C → Text
key_of d = d.namespace ++ text "/" ++ d.name

abbrev pub kubeconfig_suffix : Text
kubeconfig_suffix = text "-kubeconfig"

abbrev pub exec_kubeconfig_suffix : Text
exec_kubeconfig_suffix = text "-exec-kubeconfig"

abbrev pub cluster_name_label : Text
cluster_name_label = text "cluster.x-k8s.io/cluster-name"

abbrev pub clouds_suffix : Text
clouds_suffix = text "-clouds-yaml"

abbrev pub clouds_label : Text
clouds_label = text "binnacle/clouds-yaml"

abbrev pub value_key : Text
value_key = text "value"

abbrev pub clouds_key : Text
clouds_key = text "clouds.yaml"

abbrev pub cloud_key : Text
cloud_key = text "cloud"

-- `_, ok := s.Data[key]`
abbrev pub holds : Text → Secret → Bool
holds key s = is_some (lookup key s.content)

-- The names of some Secrets, sorted and with a comma and a blank between them.
unfoldable pub names_of : List Text → Text
names_of [] = []
names_of (n ∷ []) = n
names_of (n ∷ n' ∷ ns) = n ++ text ", " ++ names_of (n' ∷ ns)

abbrev pub listed_names : List Secret → Text
listed_names secrets = names_of (sort_stable text_lt (map (λ (s : Secret). s.name) secrets))

abbrev pub read_failed : Text → Text → Text
read_failed secret e = text "read " ++ secret ++ text ": " ++ e

abbrev pub label_is : Text → Text → Text
label_is label value = label ++ text "=" ++ value

abbrev pub no_kubeconfig : Text → Text
no_kubeconfig name =
    text "no kubeconfig for cluster "
    ++ name
    ++ text ": no secret named "
    ++ (name ++ kubeconfig_suffix)
    ++ text ", and none labeled "
    ++ label_is cluster_name_label name
    ++ text " holds a \"value\" key"

abbrev pub ambiguous_kubeconfig : Text → List Secret → Text
ambiguous_kubeconfig name secrets =
    text "ambiguous kubeconfig for cluster "
    ++ name
    ++ text ": no secret named "
    ++ (name ++ kubeconfig_suffix)
    ++ text ", and "
    ++ decimal (length secrets)
    ++ text " labeled secrets hold one ("
    ++ listed_names secrets
    ++ text "). Refusing to guess which credential belongs to this cluster"

abbrev pub ambiguous_clouds : Text → List Secret → Text
ambiguous_clouds name secrets =
    text "ambiguous OpenStack credentials for cluster "
    ++ name
    ++ text ": no secret named "
    ++ (name ++ clouds_suffix)
    ++ text ", and "
    ++ decimal (length secrets)
    ++ text " labeled "
    ++ label_is clouds_label name
    ++ text " hold a \"clouds.yaml\" key ("
    ++ listed_names secrets
    ++ text "). Refusing to guess which cloud belongs to this cluster"

module _ {C : Type 0} (api : Api C) where
  unfoldable pub config_from_secret : Secret → Text ⊎ C
  config_from_secret s = elim (lookup value_key s.content) [
    | none ↦ inl (text "secret " ++ s.name ++ text " has no \"value\" key")
    | some raw ↦ elim (api.parse raw) [
      | inl e ↦ inl (text "parse secret " ++ s.name ++ text ": " ++ e)
      | inr cfg ↦ inr cfg
    ]
  ]

  -- The `switch` on the number of candidates.
  unfoldable pub sole_config : Text → List Secret → Text ⊎ C
  unfolding config_from_secret
  sole_config name [] = inl (no_kubeconfig name)
  sole_config name (s ∷ []) = config_from_secret s
  sole_config name (s ∷ s' ∷ ss) = inl (ambiguous_kubeconfig name (s ∷ s' ∷ ss))

  unfoldable pub workload_config : Text → Text → Text ⊎ C
  unfolding sole_config
  workload_config namespace name = elim (api.get_secret namespace (name ++ kubeconfig_suffix)) [
    | found s ↦ config_from_secret s
    | failed e ↦ inl (read_failed (name ++ kubeconfig_suffix) e)
    | not_found ↦ elim (api.list_secrets namespace (label_is cluster_name_label name)) [
      | inl e ↦ inl (
          text "no secret "
          ++ (name ++ kubeconfig_suffix)
          ++ text ", and listing this cluster's secrets failed: "
          ++ e)
      | inr items ↦ sole_config name (keep (holds value_key) items)
    ]
  ]

  unfoldable pub exec_config : Text → Text → Option C
  unfolding config_from_secret
  exec_config namespace name = elim (api.get_secret namespace (name ++ exec_kubeconfig_suffix)) [
    | found s ↦ elim (config_from_secret s) [ inl e ↦ none | inr cfg ↦ some cfg ]
    | failed e ↦ none
    | not_found ↦ none
  ]

  unfoldable pub credentials_from : Secret → Text ⊎ CloudCredentials
  credentials_from s = elim (lookup clouds_key s.content) [
    | none ↦ inl (text "secret " ++ s.name ++ text " has no \"clouds.yaml\" key")
    | some raw ↦ inr (record {
      clouds_yaml = raw;
      cloud = api.trim_space (or_empty (lookup cloud_key s.content));
      secret = s.name;
    })
  ]

  -- An error, or the credentials if there are any.
  abbrev pub given : Text ⊎ CloudCredentials → Text ⊎ Option CloudCredentials
  given (inl e) = inl e
  given (inr c) = inr (some c)

  unfoldable pub sole_clouds : Text → List Secret → Text ⊎ Option CloudCredentials
  unfolding credentials_from
  sole_clouds name [] = inr none
  sole_clouds name (s ∷ []) = given (credentials_from s)
  sole_clouds name (s ∷ s' ∷ ss) = inl (ambiguous_clouds name (s ∷ s' ∷ ss))

  unfoldable pub clouds_of : Text → Text → Text ⊎ Option CloudCredentials
  unfolding sole_clouds
  clouds_of namespace name = elim (api.get_secret namespace (name ++ clouds_suffix)) [
    | found s ↦ given (credentials_from s)
    | failed e ↦ inl (read_failed (name ++ clouds_suffix) e)
    | not_found ↦ elim (api.list_secrets namespace (label_is clouds_label name)) [
      | inl e ↦ inr none
      | inr items ↦ sole_clouds name (keep (holds clouds_key) items)
    ]
  ]

  -- `x, err := …`: the value or the error.
  abbrev pub value_of : {A : Type 0} → Text ⊎ A → Option A
  value_of (inl e) = none
  value_of (inr a) = some a

  abbrev pub error_of : {A : Type 0} → Text ⊎ A → Option Text
  error_of (inl e) = some e
  error_of (inr a) = none

  abbrev pub flat : {A : Type 0} → Option (Option A) → Option A
  flat none = none
  flat (some o) = o

  -- The body of the loop of `List`.
  unfoldable pub discover : Text × Text → Discovered C
  unfolding workload_config exec_config clouds_of
  discover (namespace, name) =
      let config = workload_config namespace name in
      let clouds = clouds_of namespace name in
      record {
        namespace = namespace;
        name = name;
        config = value_of config;
        err = error_of config;
        exec_config = exec_config namespace name;
        clouds = flat (value_of clouds);
        clouds_err = error_of clouds;
      }

  -- `List`; the discoverer's namespace is empty for all of them.
  unfoldable pub list_all : Text → Text ⊎ List (Discovered C)
  unfolding discover
  list_all scope = elim api.rest_mapping [
    | some e ↦ inl (text "the management cluster does not have Cluster API installed: " ++ e)
    | none ↦ elim (api.list_clusters scope) [
      | inl e ↦ inl (text "list clusters: " ++ e)
      | inr items ↦ inr (map discover items)
    ]
  ]
