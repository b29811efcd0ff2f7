-- ===== src/Boot/Traced.antt =====
-- Which lines the tracing functions of BootLaunchApp.c print, and in which order.
use apple_silicon_platforms.Prelude.{
  ℕ, ◌+◌, ◌<◌, ◌≡◌, refl, ap, ◌∙◌, Bool, true, not, ◌||◌, Option, none, some, List, [], ◌∷◌,
  if◌then◌else◌, leb, arith, inl, inr, Bool-cases,
}
use apple_silicon_platforms.Platform.Status.{Status, is_error}
use apple_silicon_platforms.Boot.Trace.{
  ServiceName, Line, returned, exiting, exit_data, exiting_boot_services, Call, traced, exits,
  exits_boot_services, Calls, no_call, call_then, Tracing, Run, finished, prints, trace, trace_exit,
  run_call, run_calls,
}
use apple_silicon_platforms.Boot.Lines.{
  is_sound, are_sound, own_line, exit_lines, lines_of, lines_of_all, with_lines, both,
  then_run-finished, then_run-lines, good_before, good_in_line,
}

prints-outer :
    (failures_only : Bool) (status : Status) (s : Tracing)
    → s.in_trace ≡ 0
    → s.failures_only ≡ failures_only
    → prints status s ≡ (not failures_only || is_error status)
unfolding prints
prints-outer failures_only status s outer same = ground arith

-- `print` prints one line within TRACE, and outside it, for states of `failures_only`, the line and
-- `extra`.
module _ (failures_only leaving : Bool) (print : Line → Tracing → Run) (extra : Line → List Line)
    (nested : (line : Line) (s : Tracing)
      → 0 < s.in_trace
      → print line s ≡ finished (with_lines (line ∷ []) s))
    (unguarded : leaving ≡ true
      → (line : Line) (s : Tracing) → s.in_trace ≡ 0
      → s.failures_only ≡ failures_only
      → print line s ≡ finished (with_lines (line ∷ extra line) s)) where
  trace-lines :
      (name : ServiceName) (status : Status) (good : Bool) (s : Tracing)
      → s.in_trace ≡ 0
      → s.failures_only ≡ failures_only
      → good ≡ true
      → trace print name status good s
        ≡ finished (with_lines (own_line failures_only name status) s)
  unfolding trace
  trace-lines name status good s outer same fine =
      elim (Bool-cases (not failures_only || is_error status)) [
        | inr e ↦ rw (prints-outer failures_only status s outer same, e) refl
        | inl e ↦
            rw (prints-outer failures_only status s outer same, e)
              (rw (good_in_line name status good fine) (
                then_run-finished _ _ _ (
                  nested (returned name status) (record s { in_trace = s.in_trace + 1 })
                    (omega arith))
                ∙ ap
                    (λ n.
                      finished (record s { in_trace = n; lines = returned name status ∷ s.lines }))
                    (omega arith)))
      ]

  trace_exit-lines :
      (size : Option ℕ) (status : Status) (s : Tracing)
      → leaving ≡ true
      → s.in_trace ≡ 0
      → s.failures_only ≡ failures_only
      → trace_exit print size status s ≡ finished (with_lines (exit_lines extra size status) s)
  unfolding trace_exit
  trace_exit-lines size status s may outer same =
      then_run-lines _ _ s (exiting status ∷ extra (exiting status)) _
        (unguarded may (exiting status) s outer same) (shown size)
    where
      u : Tracing
      u = with_lines (exiting status ∷ extra (exiting status)) s

      shown :
          (size : Option ℕ)
          → elim size [
            | none ↦ finished u
            | some n ↦ if leb 2 n then print exit_data u else finished u
          ]
            ≡ finished (
                with_lines
                  (elim size [
                    | none ↦ []
                    | some n ↦ if leb 2 n then exit_data ∷ extra exit_data else []
                  ])
                  u)
      shown none = refl
      shown (some n) = elim (Bool-cases (leb 2 n)) [
        | inl e ↦ rw e (unguarded may exit_data u outer same)
        | inr e ↦ rw e refl
      ]

  mutual
    unfolding run_call is_sound lines_of

    run_call-lines :
        (c : Call) (s : Tracing)
        → s.in_trace ≡ 0
        → s.failures_only ≡ failures_only
        → is_sound leaving c ≡ true
        → run_call print c s ≡ finished (with_lines (lines_of failures_only extra c) s)
    run_call-lines (traced name status good inner) s outer same ok =
        let (fine, rest) = both good (are_sound leaving inner) ok in
        rw (good_before name good fine) (
          then_run-lines _ _ s (lines_of_all failures_only extra inner) _
            (run_calls-lines inner s outer same rest)
            (trace-lines name status good _ outer same fine))
    run_call-lines (exits size status inner) s outer same ok =
        let (may, rest) = both leaving (are_sound leaving inner) ok in
        then_run-lines _ _ s (exit_lines extra size status) _
          (trace_exit-lines size status s may outer same) (run_calls-lines inner _ outer same rest)
    run_call-lines (exits_boot_services inner) s outer same ok =
        let (may, rest) = both leaving (are_sound leaving inner) ok in
        then_run-lines _ _ s (exiting_boot_services ∷ extra exiting_boot_services) _
          (unguarded may exiting_boot_services s outer same)
          (run_calls-lines inner _ outer same rest)

    run_calls-lines :
        (cs : Calls) (s : Tracing)
        → s.in_trace ≡ 0
        → s.failures_only ≡ failures_only
        → are_sound leaving cs ≡ true
        → run_calls print cs s ≡ finished (with_lines (lines_of_all failures_only extra cs) s)
    run_calls-lines no_call s outer same ok = refl
    run_calls-lines (call_then c cs) s outer same ok =
        let (one, rest) = both (is_sound leaving c) (are_sound leaving cs) ok in
        then_run-lines _ _ s (lines_of failures_only extra c) _ (run_call-lines c s outer same one)
          (run_calls-lines cs _ outer same rest)

-- What the console's calls for a line print, where no other line is being printed.
abbrev pub console_lines : (Line → Calls) → Bool → Line → List Line
console_lines console failures_only line = lines_of_all failures_only (λ l. []) (console line)
