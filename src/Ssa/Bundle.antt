-- ===== src/Ssa/Bundle.antt =====
-- cli/src/io/ssa/mod.rs: applying one bundle until it takes, and the wait for its definitions of
-- resources. The retries run on fuel.
use catallaxy.Prelude.{
  ℕ, zero, suc, ◌+◌, ◌-◌, ◌*◌, ◌/◌, Bool, true, false, none, some, List, [], ◌∷◌, String, ◌<>◌, ◌%◌,
  ◌^◌, Option, trim, strip_suffix, ltb, leb, is_nil, full_lines, if◌then◌else◌,
}
use catallaxy.Ssa.{
  Outside, Output, ok, err, out_of_fuel, Run, Session, not_applied, reading, pure, bail, ◌>>=◌,
  bad_timeout, crd_not_established, succeeded, require_named, output, kubectl, status, for_each,
}

-- Times are in nanoseconds.
abbrev pub second : ℕ
second = 1000000000

abbrev pub bundle_apply_deadline : ℕ
bundle_apply_deadline = 180 * second

abbrev pub phase_apply_backoff : ℕ
phase_apply_backoff = 6 * second

module _ {J Y E W : Type 0} (o : Outside J Y E W) where
  -- `sleep`
  abbrev pub rest_for : ℕ → Session W → Session W
  rest_for time s = record s { world = o.sleep time s.world }

  abbrev pub elapsed : ℕ → Session W → ℕ
  elapsed started s = o.now s.world - started

  abbrev pub apply_args : String → String → String → List String
  apply_args context field_manager dir = kubectl o context (
      "apply" ∷ "--server-side" ∷ "--force-conflicts" ∷ "--field-manager" ∷ field_manager ∷ "-f"
      ∷ dir ∷ "--recursive" ∷ [])

  module _ (started : ℕ) (bundle : String) (command : List String) where
    -- What follows attempt number `attempt`, with the rest of the loop given.
    abbrev pub after_attempt : ℕ → Run E W (Unit {0}) → Bool → Run E W (Unit {0})
    after_attempt attempt again true s = (ok tt, s)
    after_attempt attempt again false s =
        if leb bundle_apply_deadline (elapsed started s + phase_apply_backoff)
        then (err (not_applied bundle attempt (elapsed started s / second)), s)
        else again (rest_for phase_apply_backoff s)

    -- The loop from the attempt after number `attempt`.
    unfoldable pub retry : ℕ → ℕ → Run E W (Unit {0})
    retry zero attempt = λ s. (out_of_fuel, s)
    retry (suc fuel) attempt =
        status o command >>= after_attempt (suc attempt) (retry fuel (suc attempt))

  unfoldable pub apply_bundle_with_retry :
      ℕ → String → String → String → String → Bool → Run E W (Unit {0})
  unfolding retry
  apply_bundle_with_retry fuel context field_manager bundle dir dry_run =
      if dry_run then pure tt else λ s.
      retry (o.now s.world) bundle (apply_args context field_manager dir) fuel 0 s

  -- `parse_timeout` of io/kubectl/run.rs, in seconds: the digits and what a second of the unit is.
  abbrev unit_of : String → String × ℕ
  unit_of t = elim (strip_suffix t "h") [
    | some rest ↦ (rest, 3600)
    | none ↦ elim (strip_suffix t "m") [
      | some rest ↦ (rest, 60)
      | none ↦ elim (strip_suffix t "s") [ some rest ↦ (rest, 1) | none ↦ (t, 1) ]
    ]
  ]

  unfoldable pub parse_timeout : String → Option ℕ
  unfolding trim strip_suffix
  parse_timeout timeout =
      let (digits, multiplier) = unit_of (trim timeout) in
      elim (o.parse_u64 digits) [ none ↦ none | some n ↦ some (n * multiplier % 2 ^ 64) ]

  abbrev pub crd_args : String → String → List String
  crd_args context crd =
      kubectl o context
        ("wait" ∷ "--for=condition=Established" ∷ ("crd/" <> crd) ∷ "--timeout=10s" ∷ [])

  module _ (context crd : String) (started limit : ℕ) where
    -- What follows one wait of kubectl, with the rest of the loop given.
    abbrev pub after_wait : Run E W (Unit {0}) → Option Output → Run E W (Unit {0})
    after_wait again out = if succeeded out then pure tt else λ s.
        (if ltb (limit * second) (elapsed started s)
          then (err (crd_not_established crd limit), s)
          else again (rest_for (5 * second) s))

    unfoldable pub wait_rounds : ℕ → Run E W (Unit {0})
    unfolding trim
    wait_rounds zero = λ s. (out_of_fuel, s)
    wait_rounds (suc fuel) = require_named context >>= λ named.
        output o (crd_args named crd) >>= after_wait (wait_rounds fuel)

  -- `wait_crd_established` of io/kubectl/crossplane.rs. A round that goes on sleeps for 5 seconds, so
  -- that two more rounds than the limit has seconds are enough.
  unfoldable pub wait_crd : String → String → String → Run E W (Unit {0})
  unfolding parse_timeout wait_rounds
  wait_crd context timeout crd = elim (parse_timeout timeout) [
    | none ↦ bail (bad_timeout timeout)
    | some limit ↦ λ s. wait_rounds context crd (o.now s.world) limit (suc (suc limit)) s
  ]

  abbrev pub wait_crds : String → String → Bool → List String → Run E W (Unit {0})
  wait_crds context timeout dry_run crds =
      if is_nil crds
      then pure tt
      else if dry_run
      then pure tt
      else for_each (wait_crd context timeout) crds

  unfoldable pub wait_bundle_crds : String → String → String → Bool → Run E W (Unit {0})
  unfolding full_lines wait_crd
  wait_bundle_crds context dir timeout dry_run =
      let marker = o.join dir ".crd-wait" in
      if o.exists marker
      then elim (o.read_to_string marker) [
        | none ↦ bail (reading marker)
        | some content ↦ wait_crds context timeout dry_run (full_lines content)
      ]
      else pure tt
