-- ===== src/Boot/Lines.antt =====
-- The lines that a call of a tracing function of BootLaunchApp.c is to print, and that it prints none
-- while a line is being printed.
use apple_silicon_platforms.Prelude.{
  ℕ, ◌<◌, ◌≡◌, refl, sym, ap, ◌∙◌, Bool, true, false, not, ◌&&◌, ◌||◌, Option, none, some, List, [],
  ◌∷◌, ◌++◌, if◌then◌else◌, leb, arith, rev_onto,
}
use apple_silicon_platforms.Platform.Status.{Status, is_error}
use apple_silicon_platforms.Boot.Trace.{
  ServiceName, Line, returned, exiting, exit_data, exiting_boot_services, Call, traced, exits,
  exits_boot_services, Calls, no_call, call_then, Tracing, Run, finished, then_run, prints,
  reads_before, reads_in_line, trace, run_call, run_calls,
}

-- Every pointer that a tracing function reads is good, and, unless `leaving`, nothing exits.
unfoldable mutual
  pub is_sound : Bool → Call → Bool
  is_sound leaving (traced name status good inner) = good && are_sound leaving inner
  is_sound leaving (exits size status inner) = leaving && are_sound leaving inner
  is_sound leaving (exits_boot_services inner) = leaving && are_sound leaving inner

  pub are_sound : Bool → Calls → Bool
  are_sound leaving no_call = true
  are_sound leaving (call_then c cs) = is_sound leaving c && are_sound leaving cs

-- The line of a traced call: with -q for a failed one only.
abbrev pub own_line : Bool → ServiceName → Status → List Line
own_line failures_only name status =
    if not failures_only || is_error status then returned name status ∷ [] else []

-- Those of an exit, with what the console's calls for each of them print.
abbrev pub exit_lines : (Line → List Line) → Option ℕ → Status → List Line
exit_lines extra size status =
    (exiting status ∷ extra (exiting status))
    ++ elim size [ none ↦ [] | some n ↦ if leb 2 n then exit_data ∷ extra exit_data else [] ]

-- The lines of a call, in the order in which they are printed: those of the calls that the service makes
-- come first, and the service's own line comes last.
unfoldable mutual
  pub lines_of : Bool → (Line → List Line) → Call → List Line
  lines_of failures_only extra (traced name status good inner) =
      lines_of_all failures_only extra inner ++ own_line failures_only name status
  lines_of failures_only extra (exits size status inner) =
      exit_lines extra size status ++ lines_of_all failures_only extra inner
  lines_of failures_only extra (exits_boot_services inner) =
      (exiting_boot_services ∷ extra exiting_boot_services)
      ++ lines_of_all failures_only extra inner

  pub lines_of_all : Bool → (Line → List Line) → Calls → List Line
  lines_of_all failures_only extra no_call = []
  lines_of_all failures_only extra (call_then c cs) =
      lines_of failures_only extra c ++ lines_of_all failures_only extra cs

-- A state with further lines.
abbrev pub with_lines : List Line → Tracing → Tracing
with_lines new s = record s { lines = rev_onto new s.lines }

pub rev_onto-append :
    (xs ys acc : List Line) → rev_onto (xs ++ ys) acc ≡ rev_onto ys (rev_onto xs acc)
rev_onto-append [] ys acc = refl
rev_onto-append (x ∷ xs) ys acc = rev_onto-append xs ys (x ∷ acc)

pub both : (a b : Bool) → (a && b) ≡ true → (a ≡ true) × (b ≡ true)
both a b e = (ground arith, ground arith)

-- A run behind another that came back.
pub then_run-finished :
    (r : Run) (s : Tracing) (f : Tracing → Run) → r ≡ finished s → then_run r f ≡ f s
then_run-finished r s f e = ap (λ q. then_run q f) e

-- One run behind another: the lines of the first, then those of the second.
pub then_run-lines :
    (r : Run) (f : Tracing → Run) (s : Tracing) (xs ys : List Line)
    → r ≡ finished (with_lines xs s)
    → f (with_lines xs s) ≡ finished (with_lines ys (with_lines xs s))
    → then_run r f ≡ finished (with_lines (xs ++ ys) s)
then_run-lines r f s xs ys e g =
    then_run-finished r (with_lines xs s) f e
    ∙ g
    ∙ ap (λ l. finished (record s { lines = l })) (sym (rev_onto-append xs ys s.lines))

pub good_before :
    (name : ServiceName) (good : Bool) → good ≡ true → (reads_before name && not good) ≡ false
good_before name good e = ground arith

pub good_in_line :
    (name : ServiceName) (status : Status) (good : Bool)
    → good ≡ true
    → (reads_in_line name status && not good) ≡ false
good_in_line name status good e = ground arith

module _ (print : Line → Tracing → Run) where
  pub trace-quiet :
      (name : ServiceName) (status : Status) (good : Bool) (s : Tracing)
      → 0 < s.in_trace
      → trace print name status good s ≡ finished s
  unfolding trace
  trace-quiet name status good s p = rw (quiet status s p) refl
    where
      quiet : (status : Status) (s : Tracing) → 0 < s.in_trace → prints status s ≡ false
      quiet status s p = unfold prints in ground arith

  mutual
    unfolding run_call is_sound

    run_call-quiet :
        (c : Call) (s : Tracing)
        → 0 < s.in_trace
        → is_sound false c ≡ true
        → run_call print c s ≡ finished s
    run_call-quiet (traced name status good inner) s p ok =
        let (fine, rest) = both good (are_sound false inner) ok in
        rw (good_before name good fine) (
          then_run-finished (run_calls print inner s) s (trace print name status good)
            (run_calls-quiet inner s p rest)
          ∙ trace-quiet name status good s p)
    run_call-quiet (exits size status inner) s p ok = cc
    run_call-quiet (exits_boot_services inner) s p ok = cc

    pub run_calls-quiet :
        (cs : Calls) (s : Tracing)
        → 0 < s.in_trace
        → are_sound false cs ≡ true
        → run_calls print cs s ≡ finished s
    run_calls-quiet no_call s p ok = refl
    run_calls-quiet (call_then c cs) s p ok =
        let (one, rest) = both (is_sound false c) (are_sound false cs) ok in
        then_run-finished (run_call print c s) s (run_calls print cs) (run_call-quiet c s p one)
        ∙ run_calls-quiet cs s p rest
