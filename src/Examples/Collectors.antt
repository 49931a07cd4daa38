-- ===== src/Examples/Collectors.antt =====
-- The discovery and the collectors of internal/fleet at concrete inputs: a Secret with a cluster's label,
-- and a fleet of one cluster whose configuration is found at the third tick.
use binnacle.Prelude.{
  false, List, [], ◌∷◌, map, none, some, Text, text, ◌≡◌, ◌↔◌, ◌⊎◌, inl, inr, Distinct,
}
use binnacle.Store.{lookup}
use binnacle.Fleet.Discover.{
  Secret, Api, not_found, Discovered, value_key, kubeconfig_suffix, cluster_name_label, key_of,
  workload_config, list_all,
}
use binnacle.Fleet.Discover.Sole.{IsChosen, Parses, workload_config_iff}
use binnacle.Fleet.Discover.Whole.{IsWhole, list_all-IsWhole}
use binnacle.Fleet.Reconcile.{Options, Fleet, new, start_management, reconcile, tick_all, run}
use binnacle.Fleet.Reconcile.Agree.{find, IsSettled, reconcile-IsSettled}
use binnacle.Fleet.Reconcile.Refines.{AreListings, tracks, replay, tick_all_refines}
use binnacle.Fleet.Reconcile.Tidy.{IsTidy, new-IsTidy}
use binnacle.Fleet.Reconcile.Close.{IsClosed, left_as, tick_all-IsTidy, run-IsClosed}

abbrev labeled : Secret
labeled = record { name = text "by-label"; content = (value_key, text "kubeconfig") ∷ [] }

abbrev api : Api Text
api = record {
  get_secret = λ namespace name. not_found;
  list_secrets = λ namespace selector. inr (labeled ∷ []);
  rest_mapping = none;
  list_clusters = λ scope. inr ((text "site", text "tenant-01") ∷ []);
  parse = λ raw. inr raw;
  trim_space = λ t. t;
}

workload_config_iff_example :
    (workload_config api (text "site") (text "tenant-01") ≡ inr (text "kubeconfig")) ↔ (
      (s : Secret) × IsChosen api kubeconfig_suffix cluster_name_label value_key
        (text "site")
        (text "tenant-01")
        s
      × Parses api s (text "kubeconfig"))
workload_config_iff_example =
    workload_config_iff api (text "site") (text "tenant-01") (text "kubeconfig")

list_all-IsWhole_example : IsWhole api [] (list_all api [])
list_all-IsWhole_example = list_all-IsWhole api []

abbrev found_later : Discovered Text
found_later = record {
  namespace = text "site";
  name = text "tenant-01";
  config = some (text "kubeconfig");
  err = none;
  exec_config = none;
  clouds = some (record { clouds_yaml = text "clouds"; cloud = []; secret = text "s" });
  clouds_err = none;
}

abbrev found_first : Discovered Text
found_first = record found_later { config = none; err = some (text "no kubeconfig"); clouds = none }

abbrev opts : Options
opts = record {
  os_cloud = text "site";
  clouds_dir = text "/run/clouds";
  disk = λ n path. none;
  partial = λ n path. none;
  stuck = λ n path. false;
}

abbrev ticks : List (Text ⊎ List (Discovered Text))
ticks = inr (found_first ∷ []) ∷ inl (text "timeout") ∷ inr (found_later ∷ []) ∷ []

abbrev waiting : Fleet Text
waiting = tick_all opts new (inr (found_first ∷ []) ∷ [])

alone : Distinct (map key_of (found_later ∷ []))
alone = ((λ i. elim i [ ]), tt)

reconcile-IsSettled_example :
    IsSettled waiting
      (find (key_of found_later) (found_later ∷ []))
      (lookup (key_of found_later) waiting.clusters)
      (lookup (key_of found_later) (reconcile opts waiting (inr (found_later ∷ []))).0.clusters)
reconcile-IsSettled_example =
    reconcile-IsSettled opts waiting (found_later ∷ []) (key_of found_later) alone

ticks-AreListings : AreListings ticks
ticks-AreListings = (((λ i. elim i [ ]), tt), (alone, tt))

tick_all_refines_example : tracks (tick_all opts new ticks) ≡ replay ticks (tracks new)
tick_all_refines_example = tick_all_refines opts ticks new ticks-AreListings

tick_all-IsTidy_example : IsTidy opts (tick_all opts (start_management new) ticks)
tick_all-IsTidy_example = tick_all-IsTidy opts ticks (start_management new) (new-IsTidy opts)

run-IsClosed_example :
    IsClosed opts (run opts (text "context canceled") (inr (found_first ∷ [])) ticks).0
    × ((run opts (text "context canceled") (inr (found_first ∷ [])) ticks).0.management
        ≡ left_as {C = Text} opts (inr (found_first ∷ [])))
run-IsClosed_example = run-IsClosed opts (text "context canceled") (inr (found_first ∷ [])) ticks
