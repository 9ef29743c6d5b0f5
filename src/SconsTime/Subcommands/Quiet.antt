-- ===== src/SconsTime/Subcommands/Quiet.antt =====
-- The options of `do_run`: what is left of `self.execute` when they have been read.
use domq.Prelude.{
  some, Bool, true, false, if◌then◌else◌, List, [], ◌∷◌, ◌++◌, All, Result, ok, raise, diverge, ◌≡◌,
  refl, ◌⊎◌, inl, inr, Text, codes, same_text,
}
use domq.SconsTime.Names.{split_run_numbers}
use domq.SconsTime.Options.{
  Ends, go, complained, helped, failed, hangs, ◌>>=◌, ending, is_one, RunState, option_loop,
}
use domq.SconsTime.Subcommands.Dispatch.{numbered, run_option}

-- What a subcommand goes on with, if it goes on.
abbrev pub OnGo {ℓ} : {A : Type ℓ} → (A → Type 0) → Ends A → Type 0
OnGo P (go a) = P a
OnGo P (helped subcommand) = Unit
OnGo P (complained c) = Unit
OnGo P (failed e) = Unit
OnGo P hangs = Unit

pub OnGo-bind {ℓ κ} :
    {A : Type ℓ} {B : Type κ} (P : A → Type 0) (Q : B → Type 0) (e : Ends A) (next : A → Ends B)
    → OnGo P e
    → ((a : A) → P a → OnGo Q (next a))
    → OnGo Q (e >>= next)
OnGo-bind P Q (go a) next h k = k a h
OnGo-bind P Q (helped subcommand) next h k = tt
OnGo-bind P Q (complained c) next h k = tt
OnGo-bind P Q (failed e) next h k = tt
OnGo-bind P Q hangs next h k = tt

pub OnGo-any {ℓ} : {A : Type ℓ} (e : Ends A) → OnGo (λ a. Unit {0}) e
OnGo-any (go a) = tt
OnGo-any (helped subcommand) = tt
OnGo-any (complained c) = tt
OnGo-any (failed e) = tt
OnGo-any hangs = tt

pub OnGo-ending {ℓ} :
    {A : Type ℓ} (P : A → Type 0) (r : Result A) → ((a : A) → r ≡ ok a → P a) → OnGo P (ending r)
OnGo-ending P (ok a) h = h a refl
OnGo-ending P (raise e) h = tt
OnGo-ending P diverge h = tt

-- A chain of `elif`, as a list of its tests and what they lead to.
abbrev first_of {ℓ} : {A : Type ℓ} → List (Bool × A) → A → A
first_of [] otherwise = otherwise
first_of ((test, a) ∷ branches) otherwise = if test then a else first_of branches otherwise

OnGo-first_of {ℓ} :
    {A : Type ℓ} (P : A → Type 0) (branches : List (Bool × Ends A)) (otherwise : Ends A)
    → All (λ (b : Bool × Ends A). OnGo P b.1) branches
    → OnGo P otherwise
    → OnGo P (first_of branches otherwise)
OnGo-first_of P [] otherwise h k = k
OnGo-first_of P ((true, e) ∷ branches) otherwise (here, h) k = here
OnGo-first_of P ((false, e) ∷ branches) otherwise (here, h) k =
    OnGo-first_of P branches otherwise h k

abbrev pub IsQuiet : RunState → Type 0
IsQuiet s = s.0.executes ≡ false

-- The options of `do_run`.
abbrev run_branches : Text → Text → RunState → List (Bool × Ends RunState)
run_branches o a (st, numbers) =
    (is_one o (codes "--aegis" ∷ []), go (record st { aegis_project = a }, numbers))
    ∷ (is_one o (codes "-f" ∷ codes "--file" ∷ []), go (record st { config_file = a }, numbers))
    ∷ (is_one o (codes "-?" ∷ codes "-h" ∷ codes "--help" ∷ []), helped (codes "run"))
    ∷ (is_one o (codes "-n" ∷ codes "--no-exec" ∷ []), go (record st { executes = false }, numbers))
    ∷ (
      is_one o (codes "--number" ∷ []),
      ending (split_run_numbers a) >>= (λ ns. go (st, numbered ns)),
    )
    ∷ (is_one o (codes "--outdir" ∷ []), go (record st { outdir = some a }, numbers))
    ∷ (is_one o (codes "-p" ∷ codes "--prefix" ∷ []), go (record st { prefix = a }, numbers))
    ∷ (is_one o (codes "--python" ∷ []), go (record st { python = a }, numbers))
    ∷ (is_one o (codes "-q" ∷ codes "--quiet" ∷ []), go (record st { displays = false }, numbers))
    ∷ (is_one o (codes "-s" ∷ codes "--subdir" ∷ []), go (record st { subdir = a }, numbers))
    ∷ (is_one o (codes "--scons" ∷ []), go (record st { scons = some a }, numbers))
    ∷ (
      is_one o (codes "--svn" ∷ codes "--subversion" ∷ []),
      go (record st { subversion_url = a }, numbers),
    )
    ∷ (
      is_one o (codes "-v" ∷ codes "--verbose" ∷ []),
      go (record st { tees = true; verbose = true; svn_co_flag = [] }, numbers),
    )
    ∷ []

run_option-IsQuiet : (o a : Text) (s : RunState) → IsQuiet s → OnGo IsQuiet (run_option o a s)
unfolding run_option
run_option-IsQuiet o a (st, numbers) h =
    let number =
      OnGo-bind (λ ns. Unit {0}) IsQuiet (ending (split_run_numbers a)) (λ ns. go (st, numbered ns))
        (OnGo-any (ending (split_run_numbers a))) (λ ns u. h) in
    OnGo-first_of IsQuiet (run_branches o a (st, numbers)) (go (st, numbers))
      (h, (h, (tt, (refl, (number, (h, (h, (h, (h, (h, (h, (h, (h, tt))))))))))))) h

-- The two spellings of the option.
abbrev pub IsNoExec : Text → Type 0
IsNoExec o = (o ≡ codes "-n") ⊎ (o ≡ codes "--no-exec")

run_option-no_exec : (o a : Text) (s : RunState) → IsNoExec o → OnGo IsQuiet (run_option o a s)
unfolding run_option same_text
run_option-no_exec o a (st, numbers) (inl short) = rw (short) refl
run_option-no_exec o a (st, numbers) (inr long) = rw (long) refl

option_loop-IsQuiet :
    (opts : List (Text × Text)) (s : RunState)
    → IsQuiet s
    → OnGo IsQuiet (option_loop run_option opts s)
unfolding option_loop
option_loop-IsQuiet [] s h = h
option_loop-IsQuiet ((o, a) ∷ opts) s h =
    OnGo-bind IsQuiet IsQuiet (run_option o a s) (option_loop run_option opts)
      (run_option-IsQuiet o a s h) (option_loop-IsQuiet opts)

-- Wherever the option stands, and whatever stands before and after it.
pub option_loop-no_exec :
    (first : List (Text × Text)) (o a : Text) (rest : List (Text × Text)) (s : RunState)
    → IsNoExec o
    → OnGo IsQuiet (option_loop run_option (first ++ (o, a) ∷ rest) s)
unfolding option_loop
option_loop-no_exec [] o a rest s h =
    OnGo-bind IsQuiet IsQuiet (run_option o a s) (option_loop run_option rest)
      (run_option-no_exec o a s h) (option_loop-IsQuiet rest)
option_loop-no_exec ((p, b) ∷ first) o a rest s h =
    OnGo-bind (λ next. Unit {0}) IsQuiet (run_option p b s)
      (option_loop run_option (first ++ (o, a) ∷ rest)) (OnGo-any (run_option p b s))
      (λ next u. option_loop-no_exec first o a rest next h)
