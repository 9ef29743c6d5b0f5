-- ===== src/SconsTime/Commands/Order.antt =====
-- What a run shows, does and leaves behind.
use domq.Prelude.{
  ℕ, Bool, true, false, if◌then◌else◌, Option, none, some, List, [], ◌∷◌, ◌++◌, append_assoc, All,
  All-append, Exception, Result, ok, raise, diverge, ◌≡◌, refl, sym, ap, ◌∙◌, Text,
}
use domq.SconsTime.Commands.{
  Action, Command, call, Timer, attributes, subst_all, Event, shown, called, Steps, attempt,
  done_as, message, shown_event, display, execute, then_steps, run_commands, run_substituted,
  run_command_list,
}
use domq.SconsTime.Commands.Run.{
  World, Prepare, prep_aegis_run, prep_subversion_run, Prepared, prepare_aegis, prepare_subversion,
  prepared, with_defaults, with_run, commands_of, restored, ended, run_numbered, individual_run,
}

-- What is shown on the terminal, and not done.
pub data IsShown : Event → Type 0 where
  is_shown : {t : Text} → IsShown (shown t)

then_steps-IsShown :
    (first second : Steps)
    → All IsShown first.0
    → All IsShown second.0
    → All IsShown (then_steps first second).0
then_steps-IsShown (events, ok t) (more, ending) h k = All-append IsShown events more h k
then_steps-IsShown (events, raise e) second h k = h
then_steps-IsShown (events, diverge) second h k = h

shown_event-IsShown : (text : Result Text) → All IsShown (done_as (λ e. none) (shown_event text)).0
shown_event-IsShown (ok t) = (is_shown, tt)
shown_event-IsShown (raise e) = tt
shown_event-IsShown diverge = tt

display-IsShown : (st : Timer) (c : Command) → All IsShown (display st c).0
unfolding display
display-IsShown st c = on_display st.displays
  where
    on_display :
        (b : Bool)
        → All IsShown
            (if b then done_as (λ e. none) (shown_event (message st c)) else ([], ok tt)).0
    on_display true = shown_event-IsShown (message st c)
    on_display false = tt

run_commands-IsShown :
    (fails : Event → Option Exception) (st : Timer) (commands : List Command)
    → st.executes ≡ false
    → All IsShown (run_commands fails st commands).0
unfolding run_commands execute
run_commands-IsShown fails st [] h = tt
run_commands-IsShown fails st (c ∷ commands) h = rw h (
    then_steps-IsShown (display st c) (run_commands fails st commands) (display-IsShown st c)
      (run_commands-IsShown fails st commands h))

run_substituted-IsShown :
    (fails : Event → Option Exception) (st : Timer) (commands : Result (List Command))
    → st.executes ≡ false
    → All IsShown (run_substituted fails st commands).0
run_substituted-IsShown fails st (ok commands) h = run_commands-IsShown fails st commands h
run_substituted-IsShown fails st (raise e) h = tt
run_substituted-IsShown fails st diverge h = tt

pub ended-events : (st : Timer) (steps : Steps) → (ended st steps).0 ≡ steps.0
ended-events st (events, ok t) = refl
ended-events st (events, raise e) = refl
ended-events st (events, diverge) = refl

-- A run that has ended has ended all of its steps, and leaves the attributes that it should.
pub ended-ok :
    (st after : Timer) (steps : Steps)
    → (ended st steps).1 ≡ ok after
    → (st ≡ after) × (steps.1 ≡ ok tt)
ended-ok st after (events, ok t) e = (cc, refl)
ended-ok st after (events, raise x) e = absurd cc
ended-ok st after (events, diverge) e = absurd cc

pub prepared-executes :
    (w : World) (prepare : Option Prepare) (st : Timer)
    → (prepared w prepare st).0.executes ≡ st.executes
unfolding prepared prepare_aegis prepare_subversion
prepared-executes w none st = refl
prepared-executes w (some prep_aegis_run) st = refl
prepared-executes w (some prep_subversion_run) st = refl

-- What is known of a run, whether it has a number or not.
run_numbered-IsShown :
    (w : World) (archives : List Text) (p : Prepared) (run : Result ℕ)
    → p.0.executes ≡ false
    → All IsShown (run_numbered w archives p run).0
      × ((after : Timer) → (run_numbered w archives p run).1 ≡ ok after → after.executes ≡ false)
unfolding run_command_list with_run with_defaults
run_numbered-IsShown w archives (st, first, removals) (ok run) h =
    let now : Timer = with_run w run (with_defaults st) in
    let commands : Result (List Command) =
      subst_all (attributes now) (commands_of w archives first removals now) in
    (
      rw (ended-events (restored st now) (run_substituted w.fails now commands))
          (run_substituted-IsShown w.fails now commands h),
      λ after e.
          ap (λ (t : Timer). t.executes)
            (sym (ended-ok (restored st now) after (run_substituted w.fails now commands) e).0)
          ∙ h,
    )
run_numbered-IsShown w archives p (raise x) h = (tt, λ after e. absurd cc)
run_numbered-IsShown w archives p diverge h = (tt, λ after e. absurd cc)

pub individual_run-IsShown :
    (w : World) (run_number : Option ℕ) (archives : List Text) (prepare : Option Prepare)
    (st : Timer)
    → st.executes ≡ false
    → All IsShown (individual_run w run_number archives prepare st).0
      × ((after : Timer)
          → (individual_run w run_number archives prepare st).1 ≡ ok after
          → after.executes ≡ false)
unfolding individual_run
individual_run-IsShown w run_number archives prepare st h =
    run_numbered-IsShown w archives (prepared w prepare st) _ (prepared-executes w prepare st ∙ h)

-- One run after the other: what comes last in the commands comes last in the events.
then_steps-ok :
    (first second : Steps)
    → (then_steps first second).1 ≡ ok tt
    → ((then_steps first second).0 ≡ first.0 ++ second.0) × (second.1 ≡ ok tt)
then_steps-ok (events, ok t) (more, ending) e = (refl, e)
then_steps-ok (events, raise x) second e = absurd cc
then_steps-ok (events, diverge) second e = absurd cc

abbrev pub IsLast : Event → Steps → Type 0
IsLast event steps = steps.1 ≡ ok tt → (earlier : List Event) × (steps.0 ≡ earlier ++ event ∷ [])

then_steps-IsLast :
    (event : Event) (first second : Steps)
    → IsLast event second
    → IsLast event (then_steps first second)
then_steps-IsLast event first second h e =
    let (events, over) = then_steps-ok first second e in
    let (earlier, f) = h over in
    (
      first.0 ++ earlier,
      events ∙ ap (λ l. first.0 ++ l) f ∙ sym (append_assoc first.0 earlier (event ∷ [])),
    )

attempt-IsLast :
    (fails : Event → Option Exception) (event : Event) (failure : Option Exception)
    → IsLast event (then_steps (attempt fails event failure) ([], ok tt))
attempt-IsLast fails event none e = ([], refl)
attempt-IsLast fails event (some x) e = absurd cc

-- A call is done with its arguments as they are, whatever its text becomes.
pub run_commands-IsLast :
    (fails : Event → Option Exception) (st : Timer) (commands : List Command) (action : Action)
    (string : Text) (args : List Text)
    → st.executes ≡ true
    → IsLast (called action args) (run_commands fails st (commands ++ call action string args ∷ []))
unfolding run_commands execute
run_commands-IsLast fails st [] action string args h = rw h (
    then_steps-IsLast _ (display st (call action string args)) _
      (attempt-IsLast fails (called action args) (fails (called action args))))
run_commands-IsLast fails st (c ∷ commands) action string args h =
    then_steps-IsLast _ (display st c) _ (
      then_steps-IsLast _ (execute fails st c) _
        (run_commands-IsLast fails st commands action string args h))
