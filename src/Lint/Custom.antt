-- ===== src/Lint/Custom.antt =====
-- cli/src/lint/mod.rs: the checks that a floe brings along as scripts, and what their output says.
use catallaxy.Prelude.{
  Bool, false, Option, none, some, List, [], ◌∷◌, ◌⊎◌, inl, inr, String, ◌<>◌, ◌==◌, Map, get, map,
  flat_map, contains, is_empty, or_else, trim, if◌then◌else◌,
}
use catallaxy.Lint.{Diagnostic, Severity, error, warning}
use catallaxy.Lint.Context.{CustomCheck}

pub record CustomDiagnostic : Type 0 where
  pub severity : Option String
  pub resource : Option String
  pub message : String

-- The output of a script: whether it succeeded, and what it printed.
pub record ScriptOutput : Type 0 where
  pub success : Bool
  pub stdout : String

-- The scripts of a directory by name, the files below one with their extensions, and a run of a
-- script with its environment. A run, and the reading of JSON, may fail with the text of an error.
pub record Scripts : Type 0 where
  pub read_dir : String → Option (List String)
  pub walk_files : String → List (String × Option String)
  pub run : String → Map String → String ⊎ ScriptOutput
  pub parse_list : String → String ⊎ List CustomDiagnostic

unfoldable pub parse_severity : String → Severity
parse_severity s = if s == "error" then error else warning

-- What the diagnostics about one output share.
pub record CheckOrigin : Type 0 where
  pub default_severity : Severity
  pub check_name : String
  pub description : String
  pub cluster_name : String
  pub about_file : String

abbrev pub custom_diag : CheckOrigin → Severity → String → String → Diagnostic
custom_diag o severity resource message = record {
  severity = severity;
  check = "custom";
  cluster = o.cluster_name;
  file = o.about_file;
  resource = resource;
  message = message;
}

module _ (s : Scripts) where
  unfoldable pub from_json : CheckOrigin → String → List Diagnostic
  unfolding parse_severity
  from_json o stdout = elim (s.parse_list (trim stdout)) [
    | inr list ↦
        map
          (λ d.
            custom_diag o
              (elim d.severity [ none ↦ o.default_severity | some t ↦ parse_severity t ])
              (or_else d.resource o.check_name) d.message)
          list
    | inl e ↦
        custom_diag o error o.check_name
          (o.description <> (": check emitted invalid JSON (" <> (e <> ("): " <> trim stdout))))
        ∷ []
  ]

  abbrev pub from_status : CheckOrigin → ScriptOutput → List Diagnostic
  from_status o out =
      if out.success
      then []
      else custom_diag o o.default_severity o.check_name (
          if is_empty (trim out.stdout)
          then o.description
          else o.description <> (": " <> trim out.stdout))
        ∷ []

  unfoldable pub interpret_output : String ⊎ ScriptOutput → String → CheckOrigin → List Diagnostic
  unfolding from_json
  interpret_output (inl e) format o =
      custom_diag o error o.check_name (o.description <> (": check failed to execute: " <> e)) ∷ []
  interpret_output (inr out) format o =
      if format == "json" then from_json o out.stdout else from_status o out

  abbrev pub is_yaml : Option String → Bool
  is_yaml none = false
  is_yaml (some ext) = contains ("yaml" ∷ "yml" ∷ []) ext

  module _ (lint_dir manifest_dir cluster_name : String) where
    abbrev check_origin : String → Severity → String → String → CheckOrigin
    check_origin check_name severity description about_file = record {
      default_severity = severity;
      check_name = check_name;
      description = description;
      cluster_name = cluster_name;
      about_file = about_file;
    }

    -- One check, with its severity, description, scope and format.
    unfoldable pub run_check : String → Severity → String → String → String → List Diagnostic
    unfolding interpret_output
    run_check name severity description scope format =
        let script = lint_dir <> ("/" <> name) in
        if scope == "per-cluster"
        then interpret_output
            (s.run script (("CLUSTER", cluster_name) ∷ ("MANIFEST_DIR", manifest_dir) ∷ [])) format
            (check_origin name severity description manifest_dir)
        else flat_map
            (λ e.
              if is_yaml e.1
              then interpret_output (s.run script (("FILE", e.0) ∷ ("CLUSTER", cluster_name) ∷ []))
                  format (check_origin name severity description e.0)
              else [])
            (s.walk_files manifest_dir)

    abbrev pub run_named : Map CustomCheck → String → List Diagnostic
    run_named checks name = elim (get name checks) [
      | none ↦ run_check name warning name "per-file" "exit-code"
      | some c ↦ run_check name (parse_severity c.severity) c.description c.scope c.format
    ]

    unfoldable pub run_custom_checks : Map CustomCheck → List Diagnostic
    unfolding run_check parse_severity
    run_custom_checks checks = elim (s.read_dir lint_dir) [
      | none ↦ []
      | some names ↦ flat_map (run_named checks) names
    ]
