-- ===== src/Managed.antt =====
-- cli/src/io/poll.rs, cli/src/domain/crossplane.rs and the two steps that end a cloud resource:
-- plan/steps/delete_managed_resource.rs and plan/steps/wait_for_cluster_gone.rs.
-- This file has the loop that polls and what a custom resource says of itself. Loops run on fuel.
pub mod Poll
pub mod Wait
pub mod Delete
pub mod Removal
pub mod Evidence
pub mod Differs
mod Tests
use catallaxy.Prelude.{
  and_then, non_empty, is_space, ℕ, zero, suc, ◌+◌, ◌≤◌, Bool, true, false, not, ◌&&◌, Option, none,
  some, List, [], ◌∷◌, ◌++◌, String, ltb, leb, eqb, ◌||◌, any, is_empty, if◌then◌else◌,
}
use catallaxy.Teardown.{StepFailure}
use catallaxy.Executor.{Machine}
use text.Mathlib.Text.{find?, char_at?}
use Prim.Native.String.{len}
use Prim.Native.Char.{Char, code, len_utf8}

pub data Polled (S T : Type 0) : Type 0 where
  answered : T → S → Polled S T
  gave_up : S → Polled S T
  out_of_fuel : Polled S T

-- `S` is what the probe changes, and the clock.
module _ {S T : Type 0} (now : S → ℕ) (sleep : ℕ → S → S) (probe : S → Option T × S) where
  unfoldable pub poll_from : ℕ → ℕ → ℕ → S → Polled S T
  poll_from deadline interval zero s = out_of_fuel
  poll_from deadline interval (suc fuel) s = elim (ltb (now s) deadline) [
    | false ↦ gave_up s
    | true ↦
        let (answer, s') = probe s in
        elim answer [
          | some a ↦ answered a s'
          | none ↦ poll_from deadline interval fuel (sleep interval s')
        ]
  ]

  unfoldable pub poll_while_time_remains : ℕ → ℕ → ℕ → S → Polled S T
  unfolding poll_from
  poll_while_time_remains fuel budget interval s = poll_from (now s + budget) interval fuel s

-- What the code asks of a JSON value of serde_json.
pub record Json (V : Type 0) : Type 0 where
  pub pointer : V → String → Option V
  pub as_str : V → Option String
  pub as_array : V → Option (List V)

pub record ManagedState : Type 0 where
  pub external_name : Option String
  pub has_finalizer : Bool

abbrev pub external_name_pointer : String
external_name_pointer = "/metadata/annotations/crossplane.io~1external-name"

-- `s.contains(part)`
abbrev pub has_part : String → String → Bool
has_part s part = elim (find? s part) [ some i ↦ true | none ↦ false ]

abbrev names_crossplane : Option String → Bool
names_crossplane (some s) = has_part s "crossplane.io"
names_crossplane none = false

module _ {V : Type 0} (json : Json V) where
  unfoldable pub managed_state_of : V → ManagedState
  managed_state_of cr = record {
    external_name =
        and_then (and_then (json.pointer cr external_name_pointer) json.as_str) non_empty;
    has_finalizer = elim (and_then (json.pointer cr "/metadata/finalizers") json.as_array) [
      | none ↦ false
      | some arr ↦ any (λ f. names_crossplane (json.as_str f)) arr
    ];
  }

unfoldable pub is_deletable : ManagedState → Bool
is_deletable s = elim s.external_name [ none ↦ false | some n ↦ s.has_finalizer ]

unfoldable pub external_name_or_missing : ManagedState → String
external_name_or_missing s = elim s.external_name [ none ↦ "<missing>" | some n ↦ n ]

abbrev blank_from : ℕ → ℕ → String → Bool
blank_from zero i s = true
blank_from (suc fuel) i s = elim (char_at? s i) [
  | none ↦ true
  | some c ↦ is_space c && blank_from fuel (i + len_utf8 c) s
]

-- `s.trim().is_empty()`; a character is a byte or more.
unfoldable pub is_blank : String → Bool
is_blank s = blank_from (suc (len s)) 0 s

-- What a run of kubectl gives back; the bytes of its output are read as text.
pub record Output : Type 0 where
  pub success : Bool
  pub stdout : String

-- How a run of kubectl for its exit status ends: `code` is as messages show it.
pub data Exit : Type 0 where
  exited : Bool → String → Exit
  not_run : String → Exit

-- kubectl and the clock. `V` is the type of JSON values.
pub record Kubectl (W V : Type 0) : Type 0 where
  pub now : W → ℕ
  pub sleep : ℕ → W → W
  pub api_reachable : String → W → Bool × W
  pub resource_json : String → String → W → Option V × W
  -- `none` where kubectl could not be run.
  pub output : String → List String → W → Option Output × W
  pub status : String → List String → W → Exit × W
  -- How a custom resource of a kind is listed: its name and its external name.
  pub list_all_of_kind : String → String → W → List (String × String) × W
  pub cleanup_kubeconfig : String → W → W

-- `unwrap_or`
abbrev pub unwrap_or : {A : Type 0} → Option A → A → A
unwrap_or (some a) other = a
unwrap_or none other = other

-- `sctx.failures.borrow_mut().push(failure)`
abbrev pub fail : {W : Type 0} → Machine W → StepFailure → Machine W
fail m f = record m { failures = m.failures ++ (f ∷ []) }

-- kubectl and sleeping take time, and the clock does not run back.
pub record KeepsTime {W V : Type 0} (k : Kubectl W V) : Type 0 where
  pub sleeps : (n : ℕ) (w : W) → k.now w + n ≤ k.now (k.sleep n w)
  pub outputs :
      (kube_ctx : String) (args : List String) (w : W)
      → k.now w ≤ k.now (k.output kube_ctx args w).1
