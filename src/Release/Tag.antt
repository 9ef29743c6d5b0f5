-- ===== src/Release/Tag.antt =====
-- The tag of the release, at every end of `main`.
use domq.Prelude.{if◌then◌else◌, Bool, true, false, List, [], ◌∷◌, Exception, ◌≡◌, Text, same_text}
use domq.Release.{
  Note, Step, svn_remove_tag, svn_tag_sandbox, Exit, usage_error, pending_changes, tag_exists,
  tests_failed, done, failed, Run, Environment,
}

-- Whether the tag at a URL is there after a step, and after several.
abbrev pub tag_after : Text → Step → Bool → Bool
tag_after tag (svn_tag_sandbox url note) tagged = if same_text url tag then true else tagged
tag_after tag (svn_remove_tag url note) tagged = if same_text url tag then false else tagged
tag_after tag _ tagged = tagged

unfoldable pub tag_at_end : Text → List Step → Bool → Bool
tag_at_end tag [] tagged = tagged
tag_at_end tag (s ∷ steps) tagged = tag_at_end tag steps (tag_after tag s tagged)

-- What is promised of the tag for each end, `before` telling whether it was there at the start: it is
-- there when the release is done, it is not when the run stopped since the last build had failed, and
-- it is as it was when the run stopped before. An exception promises nothing.
abbrev pub IsTagged : Bool → Exit → Bool → Type 0
IsTagged before done tagged = tagged ≡ true
IsTagged before tests_failed tagged = tagged ≡ false
IsTagged before tag_exists tagged = tagged ≡ before
IsTagged before pending_changes tagged = tagged ≡ before
IsTagged before usage_error tagged = tagged ≡ before
IsTagged before (failed e) tagged = Unit

-- What holds of a tag at the ends of a run, `Q`, and at its points, `R`, however main sets and removes
-- the tag of the release.
record Promise (tag tag_url : Text) (before : Bool) (Q : Exit → Bool → Type 0) (R : Bool → Type 0)
    : Type 0 where
  fails : (e : Exception) (b : Bool) → R b → Q (failed e) b
  set : (note : Note) (b : Bool) → R b → R (tag_after tag (svn_tag_sandbox tag_url note) b)
  removed : (note : Note) (b : Bool) → R b → R (tag_after tag (svn_remove_tag tag_url note) b)
  finished :
      (note : Note) (b : Bool) → R b → Q done (tag_after tag (svn_tag_sandbox tag_url note) b)
  undone :
      (note : Note) (b : Bool)
      → R b
      → Q tests_failed (tag_after tag (svn_remove_tag tag_url note) b)
  kept : Q tag_exists before
  pending : Q pending_changes before
  unused : Q usage_error before
  start : R before

module _ (env : Environment) (tag tag_url : Text) (before : Bool) (Q : Exit → Bool → Type 0)
    (R : Bool → Type 0) (promise : Promise tag tag_url before Q R) where
  -- A run from a point where `b` tells whether the tag is there.
  abbrev Keeps : Bool → Run → Type 0
  Keeps b run = Q run.1 (tag_at_end tag run.0 b)
