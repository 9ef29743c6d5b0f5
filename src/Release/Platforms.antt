-- ===== src/Release/Platforms.antt =====
-- Which platforms' builds a release depends on.
use domq.Prelude.{
  if◌then◌else◌, Bool, true, false, ◌&&◌, Option, none, some, List, [], ◌∷◌, Result, ok, raise,
  diverge, ◌≡◌, refl, ap, ◌∙◌, ◌==◌, Bool-cases, inl, inr, Text,
}
use domq.Release.{
  check_compile, sourceforge_release_tarball, svn_remove_tag, overwriting, tag_exists, Run, Options,
  Environment, split_commas, svn_check_if_tag_exist, step_or, step, platform_loop, set_next,
  synchro_unless, upload_for, after_tests, build_release, with_tag, start_release, svn_join_url,
  main,
}

-- The last of some platforms, or the one given where there is none.
abbrev pub last_or : Text → List Text → Text
last_or p [] = p
last_or p (q ∷ platforms) = last_or q platforms

abbrev pub last_platform : Options → Text
last_platform options = last_or [] (split_commas options.platforms)

-- The same world, but for what the builds come to.
abbrev pub with_builds : Environment → (Text → Bool) → Environment
with_builds env builds = record env { compiles = builds }

-- A loop over at least one platform goes on with the flag of the last one.
platform_loop-last :
    (env : Environment) (builds : Text → Bool) (p : Text) (platforms : List Text) (b c a d : Bool)
    (rest other : Bool → Bool → Run)
    → env.compiles (last_or p platforms) ≡ builds (last_or p platforms)
    → ((x y z : Bool) → rest x y ≡ other x z)
    → platform_loop env (p ∷ platforms) b a rest
      ≡ platform_loop (with_builds env builds) (p ∷ platforms) c d other
unfolding platform_loop step
platform_loop-last env builds p [] b c a d rest other e same =
    ap (step_or (env.fails (check_compile p)) (check_compile p)) (
      same (env.compiles p) (a && env.compiles p) (d && builds p)
      ∙ ap (λ x. other x (d && builds p)) e)
platform_loop-last env builds p (q ∷ platforms) b c a d rest other e same =
    ap (step_or (env.fails (check_compile p)) (check_compile p)) (
      platform_loop-last env builds q platforms (env.compiles p) (builds p) (a && env.compiles p)
        (d && builds p) rest other e same)

split_commas-cons : (t : Text) → (p : Text) × (more : List Text) × (split_commas t ≡ p ∷ more)
unfolding split_commas
split_commas-cons [] = ([], [], refl)
split_commas-cons (c ∷ t) =
    let (p, more, e) = split_commas-cons t in
    elim (Bool-cases (c == b',')) [
      | inl comma ↦ ([], split_commas t, rw comma)
      | inr other ↦ (c ∷ p, more, rw (other, e))
    ]

module _ (env : Environment) (builds : Text → Bool) (options : Options)
    (release_version next_version tag_url : Text) where
  abbrev elsewhere : Environment
  elsewhere = with_builds env builds

  upload_for-same :
      (user : Option Text)
      → upload_for env options release_version next_version tag_url user
        ≡ upload_for elsewhere options release_version next_version tag_url user
  unfolding set_next step
  upload_for-same none = refl
  upload_for-same (some []) = refl
  upload_for-same (some (c ∷ user)) = go options.no_web
    where
      go :
          (b : Bool)
          → synchro_unless env options release_version next_version tag_url b (
              step env sourceforge_release_tarball
                (set_next env options release_version next_version tag_url))
            ≡ synchro_unless elsewhere options release_version next_version tag_url b (
                step elsewhere sourceforge_release_tarball
                  (set_next elsewhere options release_version next_version tag_url))
      go true = refl
      go false = refl

  after_tests-same :
      (x y z : Bool)
      → after_tests env options release_version next_version tag_url x y
        ≡ after_tests elsewhere options release_version next_version tag_url x z
  unfolding after_tests step
  after_tests-same true y z = upload_for-same options.user
  after_tests-same false y z = refl

  build_release-same :
      env.compiles (last_platform options) ≡ builds (last_platform options)
      → build_release env options release_version next_version tag_url
        ≡ build_release elsewhere options release_version next_version tag_url
  unfolding build_release step
  build_release-same e = rw loops
    where
      cut : (p : Text) × (more : List Text) × (split_commas options.platforms ≡ p ∷ more)
      cut = split_commas-cons options.platforms

      loops :
          platform_loop env
            (split_commas options.platforms)
            false
            true
            (after_tests env options release_version next_version tag_url)
          ≡ platform_loop elsewhere
              (split_commas options.platforms)
              false
              true
              (after_tests elsewhere options release_version next_version tag_url)
      loops = rw cut.2 (
          platform_loop-last env builds cut.0 cut.1 false false true true
            (after_tests env options release_version next_version tag_url)
            (after_tests elsewhere options release_version next_version tag_url) (rw cut.2 at e)
            after_tests-same)

  with_tag-same :
      (exists : Result Bool)
      → env.compiles (last_platform options) ≡ builds (last_platform options)
      → with_tag env options release_version next_version tag_url exists
        ≡ with_tag elsewhere options release_version next_version tag_url exists
  unfolding step
  with_tag-same (ok true) e = go options.retag_release
    where
      go :
          (b : Bool)
          → (if b
              then step env
                  (svn_remove_tag tag_url overwriting)
                  (build_release env options release_version next_version tag_url)
              else ([], tag_exists))
            ≡ (if b
                then step elsewhere
                    (svn_remove_tag tag_url overwriting)
                    (build_release elsewhere options release_version next_version tag_url)
                else ([], tag_exists))
      go true = rw (build_release-same e)
      go false = refl
  with_tag-same (ok false) e = build_release-same e
  with_tag-same (raise x) e = refl
  with_tag-same diverge e = refl

  start_release-same :
      env.compiles (last_platform options) ≡ builds (last_platform options)
      → start_release env options release_version next_version tag_url
        ≡ start_release elsewhere options release_version next_version tag_url
  unfolding start_release step
  start_release-same e = rw (with_tag-same (svn_check_if_tag_exist env.tag_listing) e)

-- The builds of the platforms before the last one do not matter: in two worlds that agree but for
-- what these builds come to, `main` takes the same steps to the same end.
pub main-last_platform :
    (env : Environment) (builds : Text → Bool) (options : Options)
    (svn_tag_root release_version next_version : Text)
    → env.compiles (last_platform options) ≡ builds (last_platform options)
    → main env options svn_tag_root release_version next_version
      ≡ main (with_builds env builds) options svn_tag_root release_version next_version
unfolding main
main-last_platform env builds options svn_tag_root release_version next_version e = rw (
    start_release-same env builds options release_version next_version
      (svn_join_url svn_tag_root release_version) e)
