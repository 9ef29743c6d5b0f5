-- ===== src/SconsTime/Commands/CleanUp.antt =====
-- What a run leaves behind.
use domq.Prelude.{
  ℕ, true, false, Option, none, some, List, [], ◌∷◌, ◌++◌, append_assoc, Exception, Result, ok,
  raise, diverge, >>=-eq-ok, ◌≡◌, refl, sym, ap, ◌∙◌, Text, codes,
}
use domq.Strings.Percent.{subst}
use domq.SconsTime.Commands.{
  Action, rmtree, chdir, Command, call, Timer, attributes, subst_variables, subst_all, Event,
  called, Steps, run_commands, run_substituted, run_command_list,
}
use domq.SconsTime.Commands.Run.{
  World, Prepare, prep_aegis_run, prep_subversion_run, Prepared, prepare_aegis, prepare_subversion,
  prepared, or_else, with_defaults, with_run, remove_tree, removals_unless, log_commands,
  run_command_texts, commands_of, restored, run_numbered, individual_run,
}
use domq.SconsTime.Commands.Order.{
  prepared-executes, ended-ok, ended-events, IsLast, run_commands-IsLast,
}

-- A list that ends in an element.
EndsIn {ℓ} : {A : Type ℓ} → A → List A → Type ℓ
EndsIn {A} x l = (front : List A) × (l ≡ front ++ x ∷ [])

EndsIn-append {ℓ} : {A : Type ℓ} (x : A) (k l : List A) → EndsIn x l → EndsIn x (k ++ l)
unfolding EndsIn
EndsIn-append x k l (front, e) = (k ++ front, rw e (sym (append_assoc k front (x ∷ []))))

EndsIn-cons {ℓ} : {A : Type ℓ} (x y : A) (l : List A) → EndsIn x l → EndsIn x (y ∷ l)
EndsIn-cons x y l h = EndsIn-append x (y ∷ []) l h

removals-EndsIn :
    (w : World) (c : Command) (removals : List Command)
    → w.preserve ≡ false
    → EndsIn c (removals_unless w.preserve (removals ++ c ∷ []))
unfolding EndsIn
removals-EndsIn w c removals h = rw h (removals, refl)

commands_of-EndsIn :
    (w : World) (archives : List Text) (first removals : List Command) (st : Timer)
    → w.preserve ≡ false
    → EndsIn (remove_tree (or_else st.tmpdir [])) (commands_of w archives first removals st)
unfolding commands_of
commands_of-EndsIn w archives first removals st h =
    let last = removals-EndsIn w (remove_tree (or_else st.tmpdir [])) removals h in
    let logs : List Command =
      log_commands (or_else st.outdir []) (or_else st.prefix_run []) 0 run_command_texts in
    let timed =
      EndsIn-append _ logs _
        (EndsIn-cons _ (call chdir (codes "cd %%s") (st.orig_cwd ∷ [])) _ last) in
    let in_subdir =
      EndsIn-append _ st.initial_commands _
        (EndsIn-cons _ _ _ (EndsIn-cons _ _ _ (EndsIn-cons _ _ _ timed))) in
    EndsIn-append _ first _
      (EndsIn-cons _ _ _ (EndsIn-cons _ _ _ (EndsIn-append _ _ _ (EndsIn-cons _ _ _ in_subdir))))

-- A call that comes last is last when the attributes have been put into the commands.
subst_all-last :
    (dict : List (Text × Text)) (commands : List Command) (action : Action) (string : Text)
    (args : List Text) (all : List Command)
    → subst_all dict (commands ++ call action string args ∷ []) ≡ ok all
    → (front : List Command) × (text : Text) × (all ≡ front ++ call action text args ∷ [])
unfolding subst_all subst_variables
subst_all-last dict [] action string args all e =
    let (c, f, g) = >>=-eq-ok (subst_variables dict (call action string args)) _ e in
    let (text, i, j) = >>=-eq-ok (subst string dict) _ f in ([], text, cc)
subst_all-last dict (c ∷ commands) action string args all e =
    let (d, f, g) = >>=-eq-ok (subst_variables dict c) _ e in
    let (rest, i, j) = >>=-eq-ok (subst_all dict (commands ++ call action string args ∷ [])) _ g in
    let (front, text, k) = subst_all-last dict commands action string args rest i in
    (d ∷ front, text, cc)

run_substituted-IsLast :
    (fails : Event → Option Exception) (st : Timer) (commands : List Command) (dir : Text)
    → st.executes ≡ true
    → EndsIn (remove_tree dir) commands
    → IsLast (called rmtree (dir ∷ [])) (run_command_list fails st commands)
unfolding run_command_list EndsIn
run_substituted-IsLast fails st commands dir h (front, e) = rw e (λ over.
    let (all, f) = substituted (subst_all (attributes st) (front ++ remove_tree dir ∷ [])) over in
    let (now, text, g) = subst_all-last (attributes st) front rmtree _ (dir ∷ []) all f in
    let (earlier, k) = run_commands-IsLast fails st now rmtree text (dir ∷ []) h (
      sym (ap (λ l. (run_commands fails st l).1) g)
      ∙ sym (ap (λ r. (run_substituted fails st r).1) f)
      ∙ over) in
    (
      earlier,
      ap (λ r. (run_substituted fails st r).0) f ∙ ap (λ l. (run_commands fails st l).0) g ∙ k,
    ))
  where
    substituted :
        (commands : Result (List Command))
        → (run_substituted fails st commands).1 ≡ ok tt
        → (all : List Command) × (commands ≡ ok all)
    substituted (ok all) e = (all, refl)
    substituted (raise x) e = absurd cc
    substituted diverge e = absurd cc

-- The attributes and the last event of a run with a number.
abbrev LeavesClean : World → Prepared → Timer → List Event → Type 0
LeavesClean w p after events =
    (after.scons ≡ p.0.scons)
    × (after.scons_lib_dir ≡ p.0.scons_lib_dir)
    × (after.scons_wrapper ≡ p.0.scons_wrapper)
    × ((earlier : List Event) × (events
          ≡ earlier ++ called rmtree (w.make_temp_file (codes "scons-time-") ∷ []) ∷ []))

run_numbered-LeavesClean :
    (w : World) (archives : List Text) (p : Prepared) (run : Result ℕ) (after : Timer)
    → w.preserve ≡ false
    → p.0.executes ≡ true
    → (run_numbered w archives p run).1 ≡ ok after
    → LeavesClean w p after (run_numbered w archives p run).0
unfolding with_run with_defaults
run_numbered-LeavesClean w archives (st, first, removals) (ok run) after kept h e =
    let now : Timer = with_run w run (with_defaults st) in
    let steps : Steps = run_command_list w.fails now (commands_of w archives first removals now) in
    let (same, over) = ended-ok (restored st now) after steps e in
    let (earlier, f) =
      run_substituted-IsLast w.fails now (commands_of w archives first removals now)
        (w.make_temp_file (codes "scons-time-")) h
        (commands_of-EndsIn w archives first removals now kept) over in
    (
      sym (ap (λ (t : Timer). t.scons) same),
      sym (ap (λ (t : Timer). t.scons_lib_dir) same),
      sym (ap (λ (t : Timer). t.scons_wrapper) same),
      (earlier, ended-events (restored st now) steps ∙ f),
    )
run_numbered-LeavesClean w archives p (raise x) after kept h e = absurd cc
run_numbered-LeavesClean w archives p diverge after kept h e = absurd cc

prepared-wrapper :
    (w : World) (prepare : Option Prepare) (st : Timer)
    → (prepared w prepare st).0.scons_wrapper ≡ st.scons_wrapper
unfolding prepared prepare_aegis prepare_subversion
prepared-wrapper w none st = refl
prepared-wrapper w (some prep_aegis_run) st = refl
prepared-wrapper w (some prep_subversion_run) st = refl

-- A run that ends and executes its commands removes its temporary directory with its last command,
-- if PRESERVE is not set, and sets the tool, its library and its wrapper back to what they were: for
-- the wrapper, before the run, and for the other two, when the tool has been fetched, which is before
-- the run only if nothing is fetched.
pub individual_run-LeavesClean :
    (w : World) (run_number : Option ℕ) (archives : List Text) (prepare : Option Prepare)
    (st after : Timer)
    → w.preserve ≡ false
    → st.executes ≡ true
    → (individual_run w run_number archives prepare st).1 ≡ ok after
    → (after.scons ≡ (prepared w prepare st).0.scons)
      × (after.scons_lib_dir ≡ (prepared w prepare st).0.scons_lib_dir)
      × (after.scons_wrapper ≡ st.scons_wrapper)
      × ((earlier : List Event) × ((individual_run w run_number archives prepare st).0
            ≡ earlier ++ called rmtree (w.make_temp_file (codes "scons-time-") ∷ []) ∷ []))
unfolding individual_run
individual_run-LeavesClean w run_number archives prepare st after kept h e =
    let (tool, lib, wrapper, last) =
      run_numbered-LeavesClean w archives (prepared w prepare st) _ after kept
        (prepared-executes w prepare st ∙ h) e in
    (tool, lib, wrapper ∙ prepared-wrapper w prepare st, last)
