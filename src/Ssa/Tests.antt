-- ===== src/Ssa/Tests.antt =====
-- A tree of two waves on a cluster where the first bundle takes at the second attempt, with a service
-- and a volume of a bundle that was dropped.
use catallaxy.Prelude.{
  ◌≡◌, refl, ℕ, ◌+◌, Bool, true, false, Option, none, some, List, [], ◌∷◌, String, ◌<>◌, ◌==◌, map,
  get, arith, eqb, inl, if◌then◌else◌, not, ◌||◌, Map, trim, trim_matches, decimal, strip_prefix,
  to_ascii_lowercase,
}
use catallaxy.Prune.{is_prunable, is_storage}
use catallaxy.Ssa.{
  Values, Outside, Output, Session, Wave, WaveBundle, ApplyManifests, nil, cons, file, exists,
}
use catallaxy.Ssa.Owned.{parse_items, delete}
use catallaxy.Ssa.Workloads.{wait_targets_in_file}
use catallaxy.Ssa.Probe.{pod_name}
use catallaxy.Ssa.Bundle.{second, apply_args, apply_bundle_with_retry}
use catallaxy.Ssa.Waves.{apply_wave, prune_undeclared, apply_manifest_root}
use catallaxy.Ssa.Only.{Added}
use catallaxy.Ssa.Commands.{verb, IsDelete}
use catallaxy.Ssa.Pruned.{IsWarranted, apply_manifest_root-Deletes}
use catallaxy.Ssa.Order.{Gated, apply_wave-Gated}
use catallaxy.Ssa.Attempts.{KeepsTime, Tried, apply_bundle_with_retry-Tried}
use catallaxy.Ssa.Deployed.{Concluded, apply_manifest_root-Concluded}

-- Values, as far as the manifests of the test need them.
mutual
  data Value : Type 0 where
    text : String → Value
    object : Fields → Value
    array : Items → Value

  data Fields : Type 0 where
    no_field : Fields
    with_field : String → Value → Fields → Fields

  data Items : Type 0 where
    no_item : Items
    item : Value → Items → Items

abbrev lookup : String → Fields → Option Value
lookup k no_field = none
lookup k (with_field j v fs) = let rest = lookup k fs in if j == k then some v else rest

abbrev items : Items → List Value
items no_item = []
items (item v vs) = v ∷ items vs

abbrev field_of : Value → String → Option Value
field_of (object fs) k = lookup k fs
field_of _ k = none

abbrev named : String → String → Fields → Value
named kind name more = object (
    with_field "kind" (text kind) (
      with_field "metadata"
        (object (with_field "name" (text name) (with_field "namespace" (text "apps") more)))
        no_field))

abbrev labelled : String → String → Value
labelled kind name = named kind name (
    with_field "labels" (object (with_field "catallaxy.io/bundle" (text "harbor") no_field))
      no_field)

abbrev documents : String → List Value
documents raw =
    if raw == "owned"
    then object (
        with_field "items"
          (array (
            item (labelled "Service" "harbor")
              (item (labelled "PersistentVolumeClaim" "data") no_item)))
          no_field)
      ∷ []
    else if raw == "workload"
    then named "Deployment" "forgejo" no_field ∷ []
    else []

abbrev values : Values Value
values = record {
  parse = documents;
  field = field_of;
  as_str = λ v. elim v [ text t ↦ some t | _ ↦ none ];
  as_bool = λ v. none;
  as_array = λ v. elim v [ array vs ↦ some (items vs) | _ ↦ none ];
  is_object = λ v. elim v [ object fs ↦ true | _ ↦ false ];
  show = λ v. "";
}

abbrev bundle : String → WaveBundle Value
bundle key = record {
  key = key;
  dir = key;
  ready_probe = some (exists ("service/" <> key) none none);
  has_content = true;
  requires = [];
  provides = [];
}

abbrev wave : ℕ → String → Wave Value
wave index key = record { index = index; bundles = bundle key ∷ [] }

abbrev files : Map String
files =
    ("/lab/.wave-meta", "waves")
    ∷ ("/lab/.declared-bundles", "gateway\nforgejo\n")
    ∷ ("/lab/forgejo/app.yaml", "workload")
    ∷ []

-- The time in nanoseconds, and how many commands were run.
record Host : Type 0 where
  time : ℕ
  commands : ℕ

abbrev answer : String → ℕ → Output
answer v n =
    if v == "api-resources"
    then record { status_ok = true; stdout = "services\npods\n" }
    else if v == "get"
    then record { status_ok = true; stdout = "owned" }
    else if v == "apply"
    then record { status_ok = not (eqb n 0); stdout = "" }
    else record { status_ok = true; stdout = "" }

abbrev host : Outside Value Value String Host
host = record {
  json = values;
  yaml = values;
  parse_waves =
      λ raw. if raw == "waves" then some (wave 0 "gateway" ∷ wave 1 "forgejo" ∷ []) else none;
  exists = λ path. not (path == "/lab/gateway/.crd-wait" || path == "/lab/forgejo/.crd-wait");
  read_to_string = λ path. get path files;
  entries = λ path. if path == "/lab/forgejo" then cons (file "/lab/forgejo/app.yaml") nil else nil;
  has_extension = λ path e. e == "yaml";
  join = λ dir name. dir <> ("/" <> name);
  to_lowercase = to_ascii_lowercase;
  spawn = λ c w. (
    some (answer (verb c) w.commands),
    record { time = w.time + second; commands = w.commands + 1 },
  );
  now = λ w. w.time;
  sleep = λ n w. record w { time = w.time + n };
  unix_time = λ w. 0;
  parse_u64 = λ digits. if digits == "600" then some 600 else none;
  env_var = λ var. none;
  base64 = λ text. text;
  json_object = λ key value. value;
  parse_store = λ text.
      if text == "store" then some (("session-key", ("secret", "s3cret") ∷ []) ∷ []) else none;
  secret_yaml = λ name namespace texts. inl name;
  secure_tempdir = λ w. (inl "/tmp/secrets", w);
  create_dir_all = λ path w. (none, w);
  write = λ path contents w. (none, w);
}

abbrev opts : Bool → ApplyManifests
opts dry_run = record {
  kube_context = "k3d-lab";
  manifest_root = "/lab";
  field_manager = "catallaxy";
  wait_timeout_seconds = 600;
  dry_run = dry_run;
  lab_name = "lab";
  flake_uri = "/flake";
  secrets = record { stores = []; managed = []; env_file = none; host_projections = [] };
  secrets_cache = [];
  projections = [];
}

abbrev start : Session Host
start = record { world = record { time = 0; commands = 0 }; ran = [] }

abbrev verbs : Session Host → List (String × Bool)
verbs s = map (λ c. (verb c.0, c.1)) s.ran

host-KeepsTime : KeepsTime host
host-KeepsTime = record { spawns = λ c w. omega arith; sleeps = λ n w. omega arith }

apply_manifest_root-Deletes_example :
    Added
      (λ c. IsDelete c → IsWarranted host 30 (opts false) start c)
      start
      (apply_manifest_root host 30 (opts false) start).1
apply_manifest_root-Deletes_example = apply_manifest_root-Deletes host 30 (opts false) start

apply_wave-Gated_example :
    Gated host 30 (opts false) (wave 0 "gateway" ∷ []) (wave 1 "forgejo" ∷ []) start
apply_wave-Gated_example =
    apply_wave-Gated host 30 (opts false) refl (wave 0 "gateway" ∷ []) (wave 1 "forgejo" ∷ []) start

apply_bundle_with_retry-Tried_example :
    Tried host "gateway"
      (apply_args host "k3d-lab" "catallaxy" "/lab/gateway")
      start
      (apply_bundle_with_retry host 30 "k3d-lab" "catallaxy" "gateway" "/lab/gateway" false start)
apply_bundle_with_retry-Tried_example =
    apply_bundle_with_retry-Tried host 30 "k3d-lab" "catallaxy" "gateway" "/lab/gateway" start
      host-KeepsTime (omega arith)

apply_manifest_root-Concluded_example :
    Concluded host 30 (opts false) (apply_manifest_root host 30 (opts false) start)
apply_manifest_root-Concluded_example =
    apply_manifest_root-Concluded host 30 (opts false) refl host-KeepsTime (omega arith) start

deployed :
    verbs (apply_manifest_root host 30 (opts false) start).1
    ≡ ("apply", false)
      ∷ ("apply", true)
      ∷ ("wait", true)
      ∷ ("apply", true)
      ∷ ("-n", true)
      ∷ ("-n", true)
      ∷ ("wait", true)
      ∷ ("api-resources", true)
      ∷ ("get", true)
      ∷ ("delete", true)
      ∷ []
unfolding apply_manifest_root trim apply_wave strip_prefix wait_targets_in_file prune_undeclared
    parse_items is_prunable is_storage delete
deployed = refl

-- Of a key, a pod's name keeps letters, digits and 40 characters.
probe_pod : pod_name "apps/Forgejo-" 7 ≡ "probe-apps-forgejo-7"
unfolding pod_name trim_matches to_ascii_lowercase decimal
probe_pod = refl
