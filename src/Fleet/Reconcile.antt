-- ===== src/Fleet/Reconcile.antt =====
-- internal/fleet/fleet.go: one collector for each discovered cluster (`reconcile`, `start`, `stop`,
-- `stopAll`, `Run`), and clouds.go, the file with a cluster's OpenStack credentials.
--
-- A collector is the goroutines that `start` launches, with its number: collectors are numbered in the
-- order of their start, and `cancelled` has the numbers of those whose context has been cancelled. The
-- files are those of the credentials, each with its contents. `C` is the configuration of a client, and
-- what the system does about a file is given for the number of the collector and the path: `disk` is the
-- error, if any, with which it refuses the write, `partial` what a refused write leaves in the file, if
-- anything, and `stuck` tells that it refuses the removal. The directory of the files is a clean path.
use binnacle.Prelude.{
  ℕ, ◌+◌, Bool, true, false, not, ◌&&◌, ◌||◌, List, [], ◌∷◌, ◌++◌, map, Option, none, some, Text,
  text, text_eq, ◌⊎◌, inl, inr, if◌then◌else◌, is_some, is_empty, some_of, keep, ◌==◌,
}
use binnacle.Store.{lookup, insert}
use binnacle.Fleet.Discover.{Discovered, CloudCredentials, key_of}
pub mod Maps
pub mod Agree
pub mod Refines
pub mod Tidy
pub mod Leaks
pub mod Close

pub record Options : Type 0 where
  pub os_cloud : Text
  pub clouds_dir : Text
  pub disk : ℕ → Text → Option Text
  pub partial : ℕ → Text → Option Text
  pub stuck : ℕ → Text → Bool

-- What `collect.Watch` is called with.
pub record Launch (C : Type 0) : Type 0 where
  pub workload : C
  pub exec_config : Option C
  pub capi_cluster_name : Text
  pub management_namespaces : List Text
  pub os_cloud : Text
  pub os_clouds_path : Text

-- `tracked`; a cluster without a configuration has no `launch`.
pub record Collector (C : Type 0) : Type 0 where
  pub discovered : Discovered C
  pub number : ℕ
  pub clouds_path : Text
  pub clouds_err : Option Text
  pub launch : Option (Launch C)

-- The collector of the management cluster: none yet, running, or with a cancelled context.
pub data Management : Type 0 where
  unstarted watching dismissed : Management

-- `changed` tells whether the channel holds a tick.
pub record Fleet (C : Type 0) : Type 0 where
  pub clusters : List (Text × Collector C)
  pub started : ℕ
  pub cancelled : List ℕ
  pub files : List (Text × Text)
  pub changed : Bool
  pub management : Management

unfoldable pub new : {C : Type 0} → Fleet C
new = record {
  clusters = [];
  started = 0;
  cancelled = [];
  files = [];
  changed = false;
  management = unstarted;
}

-- `strings.ReplaceAll(key, "/", "_")`
unfoldable pub flatten : Text → Text
flatten [] = []
flatten (c ∷ s) = (if c == 47 then 95 else c) ∷ flatten s

unfoldable pub clouds_file : Text → Text → Text
unfolding flatten
clouds_file dir key = dir ++ text "/" ++ flatten key ++ text ".yaml"

-- `delete(m, key)`, and the removal of a file.
unfoldable pub delete : {V : Type 0} → Text → List (Text × V) → List (Text × V)
delete k [] = []
delete k ((j, v) ∷ m) = let rest = delete k m in if text_eq j k then rest else (j, v) ∷ rest

unfoldable pub remove_clouds :
    {C : Type 0} → Options → Collector C → List (Text × Text) → List (Text × Text)
unfolding delete
remove_clouds opts t files =
    if is_empty t.clouds_path || opts.stuck t.number t.clouds_path
    then files
    else delete t.clouds_path files

-- What a refused write leaves.
unfoldable pub spoil : Option Text → Text → List (Text × Text) → List (Text × Text)
spoil none path files = files
spoil (some rest) path files = insert path rest files

-- What `start` makes of the credentials: the path of the file, empty for none, the error, and the name
-- of the cloud.
pub record Prepared : Type 0 where
  pub path : Text
  pub err : Option Text
  pub cloud : Text
  pub files : List (Text × Text)

unfoldable pub or_default : Text → Text → Text
or_default name default = if is_empty name then default else name

module _ {C : Type 0} (opts : Options) where
  unfoldable pub stop : Fleet C → Text → Fleet C
  unfolding remove_clouds
  stop f key = elim (lookup key f.clusters) [
    | none ↦ record f { clusters = delete key f.clusters }
    | some t ↦ record f {
      clusters = delete key f.clusters;
      cancelled = t.number ∷ f.cancelled;
      files = remove_clouds opts t f.files;
    }
  ]

  unfoldable pub stop_each : Fleet C → List Text → Fleet C
  unfolding stop
  stop_each f [] = f
  stop_each f (k ∷ ks) = stop_each (stop f k) ks

  -- The loop of `stopAll` over the collectors that it has taken out of the fleet.
  unfoldable pub end_each : List (Text × Collector C) → Fleet C → Fleet C
  unfolding remove_clouds
  end_each [] f = f
  end_each ((k, t) ∷ ts) f =
      end_each ts
        (record f { cancelled = t.number ∷ f.cancelled; files = remove_clouds opts t f.files })

  unfoldable pub stop_all : Fleet C → Fleet C
  unfolding end_each
  stop_all f = end_each f.clusters (record f { clusters = [] })

module _ {C : Type 0} where
  -- A collector without a configuration is started again once there is one.
  unfoldable pub is_upgrade : Discovered C → Discovered C → Bool
  is_upgrade old d = not (is_some old.config) && is_some d.config

  -- The keys of the clusters that are tracked and not seen.
  unfoldable pub gone : Fleet C → List (Discovered C) → List Text
  gone f ds = keep (λ k. not (some_of (λ d. text_eq (key_of d) k) ds)) (map (λ e. e.0) f.clusters)

  unfoldable pub start_management : Fleet C → Fleet C
  start_management f = record f { management = watching }

module _ {C : Type 0} (opts : Options) where
  unfoldable pub prepare : Discovered C → ℕ → List (Text × Text) → Prepared
  unfolding clouds_file or_default spoil
  prepare d number files = elim d.clouds [
    | none ↦ record { path = []; err = d.clouds_err; cloud = opts.os_cloud; files = files }
    | some creds ↦
        let path = clouds_file opts.clouds_dir (key_of d) in
        elim (opts.disk number path) [
          | some e ↦ record {
            path = [];
            err = some e;
            cloud = opts.os_cloud;
            files = spoil (opts.partial number path) path files;
          }
          | none ↦ record {
            path = path;
            err = none;
            cloud = or_default creds.cloud opts.os_cloud;
            files = insert path creds.clouds_yaml files;
          }
        ]
  ]

  -- The new collector and the files.
  unfoldable pub launched : Discovered C → ℕ → List (Text × Text) → Collector C × List (Text × Text)
  unfolding prepare
  launched d number files = elim d.config [
    | none ↦ (
      record {
        discovered = d;
        number = number;
        clouds_path = [];
        clouds_err = none;
        launch = none;
      },
      files,
    )
    | some cfg ↦
        let p = prepare d number files in
        (
          record {
            discovered = d;
            number = number;
            clouds_path = p.path;
            clouds_err = p.err;
            launch = some (record {
              workload = cfg;
              exec_config = d.exec_config;
              capi_cluster_name = d.name;
              management_namespaces = d.namespace ∷ [];
              os_cloud = p.cloud;
              os_clouds_path = p.path;
            });
          },
          p.files,
        )
  ]

  unfoldable pub start : Fleet C → Discovered C → Fleet C
  unfolding launched
  start f d =
      let (t, files) = launched d f.started f.files in
      record f { clusters = insert (key_of d) t f.clusters; started = f.started + 1; files = files }

  -- The body of the loop of `reconcile`.
  unfoldable pub visit : Fleet C → Discovered C → Fleet C
  unfolding start stop is_upgrade
  visit f d = elim (lookup (key_of d) f.clusters) [
    | none ↦ start f d
    | some t ↦ if is_upgrade t.discovered d then start (stop opts f (key_of d)) d else f
  ]

  unfoldable pub visit_all : Fleet C → List (Discovered C) → Fleet C
  unfolding visit
  visit_all f [] = f
  visit_all f (d ∷ ds) = visit_all (visit f d) ds

  -- `reconcile` on what `List` answers.
  unfoldable pub reconcile : Fleet C → Text ⊎ List (Discovered C) → Fleet C × Option Text
  unfolding visit_all stop_each gone
  reconcile f (inl e) = (f, some e)
  reconcile f (inr ds) =
      let f' = visit_all f ds in (record (stop_each opts f' (gone f' ds)) { changed = true }, none)

  -- The ticks of `Run`: what each list answered.
  unfoldable pub tick_all : Fleet C → List (Text ⊎ List (Discovered C)) → Fleet C
  unfolding reconcile
  tick_all f [] = f
  tick_all f (l ∷ ls) = tick_all (reconcile f l).0 ls

  -- `Run`, cancelled after some ticks, with the error that it returns; `canceled` is the context's. The
  -- collector of the management cluster has been started before, so it is there to be cancelled.
  unfoldable pub run :
      Text → Text ⊎ List (Discovered C) → List (Text ⊎ List (Discovered C)) → Fleet C × Text
  unfolding tick_all stop_all start_management
  run canceled first ticks =
      let (f, failed) = reconcile (start_management new) first in
      elim failed [
        | some e ↦ (f, e)
        | none ↦ (record (stop_all opts (tick_all f ticks)) { management = dismissed }, canceled)
      ]
