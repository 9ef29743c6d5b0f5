-- ===== src/Antglob/Walk/Select.antt =====
-- The walk finds what a plain recursion over the tree selects.
use mathlib.Core.List.Perm
use native.Mathlib.Nat.{le_trans}
use mathlib.Core.List.{Perm, perm_append_comm}
use domq.Prelude.{
  ℕ, zero, suc, ◌+◌, ◌≤◌, if◌then◌else◌, Bool, List, [], ◌∷◌, ◌++◌, ok, ◌≡◌, refl, append-nil,
  append_assoc, arith, map, Bool-cases, inl, inr, Text,
}
use domq.Antglob.Pattern.Tokens.{tokens, parts, ant_pattern_to_re-tokens}
use domq.Antglob.Walk.{
  Node, file, dir, other, Entries, end, entry, Search, Dirs, join, is_pruned_dir, is_kept, push,
  visit, walk, size_node, size_entries, replace_slash, compile_all, glob,
}

-- A path is selected if its entry passes the tests of `glob` and no directory above it is pruned,
-- the start of the search set apart.
module _ (s : Search) where
  unfoldable mutual
    pub selected : Text → Entries → List Text
    selected path end = []
    selected path (entry name node more) =
        (if is_kept s (join s.os_sep path name) node then join s.os_sep path name ∷ [] else [])
        ++ (below (join s.os_sep path name) name node ++ selected path more)

    pub below : Text → Text → Node → List Text
    below path name (dir link sub) = if is_pruned_dir s name then [] else selected path sub
    below path name (file link) = []
    below path name other = []

  all_selected : Dirs s → List Text
  all_selected [] = []
  all_selected ((path, es) ∷ stack) = selected path es ++ all_selected stack

  weight : Dirs s → ℕ
  weight [] = 0
  weight ((path, es) ∷ stack) = suc (size_entries es) + weight stack

  push-selected :
      (path name : Text) (node : Node) (stack : Dirs s)
      → all_selected (push s path name node stack) ≡ below path name node ++ all_selected stack
  unfolding push all_selected selected
  push-selected path name (dir link sub) stack = elim (Bool-cases (is_pruned_dir s name)) [
    | inl pruned ↦ rw pruned
    | inr visited ↦ rw visited
  ]
  push-selected path name (file link) stack = refl
  push-selected path name other stack = refl

  push-weight :
      (path name : Text) (node : Node) (stack : Dirs s)
      → weight (push s path name node stack) ≤ suc (size_node node) + weight stack
  unfolding push weight size_entries
  push-weight path name (dir link sub) stack = elim (Bool-cases (is_pruned_dir s name)) [
    | inl pruned ↦ rw pruned (omega arith)
    | inr visited ↦ rw visited (omega arith)
  ]
  push-weight path name (file link) stack = omega arith
  push-weight path name other stack = omega arith

  -- What one entry does to the stack and to the paths that are found.
  abbrev stack_after : Text → Text → Node → Dirs s → Dirs s
  stack_after path name node stack = push s (join s.os_sep path name) name node stack

  abbrev found_after : Text → Text → Node → List Text → List Text
  found_after path name node found =
      if is_kept s (join s.os_sep path name) node
      then found ++ join s.os_sep path name ∷ []
      else found

  visit-weight :
      (path : Text) (es : Entries) (stack : Dirs s) (found : List Text)
      → weight (visit s path es stack found).0 ≤ size_entries es + weight stack
  unfolding visit size_entries
  visit-weight path end stack found = omega arith
  visit-weight path (entry name node more) stack found =
      le_trans
        (visit-weight path more (stack_after path name node stack)
          (found_after path name node found))
        (omega (arith, push-weight (join s.os_sep path name) name node stack))

  regroup :
      (f k b t r : List Text) → Perm (((f ++ k) ++ (b ++ t)) ++ r) ((f ++ t) ++ (k ++ (b ++ r)))
  regroup f k b t r =
      let left : ((f ++ k) ++ (b ++ t)) ++ r ≡ f ++ (((k ++ b) ++ t) ++ r) = simp append_assoc in
      let right : (f ++ t) ++ (k ++ (b ++ r)) ≡ f ++ ((t ++ (k ++ b)) ++ r) = simp append_assoc in
      rw (left, right) (Perm.append_left f (Perm.append_right r (perm_append_comm (k ++ b) t)))

  found_after-append :
      (path name : Text) (node : Node) (found : List Text)
      → found_after path name node found
        ≡ found
          ++ (if is_kept s (join s.os_sep path name) node then join s.os_sep path name ∷ [] else [])
  found_after-append path name node found =
      elim (Bool-cases (is_kept s (join s.os_sep path name) node)) [
        | inl kept ↦ rw kept
        | inr dropped ↦ rw (dropped, append-nil)
      ]

  visit-perm :
      (path : Text) (es : Entries) (stack : Dirs s) (found : List Text)
      → Perm
          ((visit s path es stack found).1 ++ all_selected (visit s path es stack found).0)
          ((found ++ all_selected stack) ++ selected path es)
  unfolding visit selected
  visit-perm path end stack found = rw append-nil (Perm.refl _)
  visit-perm path (entry name node more) stack found =
      Perm.trans
        (visit-perm path more (stack_after path name node stack) (found_after path name node found))
        (rw
          (
            found_after-append path name node found,
            push-selected (join s.os_sep path name) name node stack,
          )
          (regroup found _ (below (join s.os_sep path name) name node) (all_selected stack)
            (selected path more)))

  walk-perm :
      (fuel : ℕ) (stack : Dirs s) (found : List Text)
      → weight stack ≤ fuel
      → (result : List Text) × (walk s fuel stack found ≡ ok result)
        × Perm result (found ++ all_selected stack)
  unfolding walk weight all_selected
  walk-perm fuel [] found h = (found, refl, rw append-nil (Perm.refl _))
  walk-perm zero ((path, es) ∷ stack) found h = absurd (omega arith)
  walk-perm (suc fuel) ((path, es) ∷ stack) found h =
      let (result, returned, same) =
        walk-perm fuel (visit s path es stack found).0 (visit s path es stack found).1
          (omega (arith, visit-weight path es stack found)) in
      (
        result,
        returned,
        Perm.trans same (
            Perm.trans (visit-perm path es stack found) (
              rw append_assoc (
                Perm.append_left found
                  (perm_append_comm (all_selected stack) (selected path es))))),
      )

compile_all-tokens :
    (patterns : List Text) → compile_all patterns ≡ ok (map (λ p. parts (tokens p)) patterns)
unfolding compile_all
compile_all-tokens [] = refl
compile_all-tokens (p ∷ more) = rw ((ant_pattern_to_re-tokens p).1, compile_all-tokens more)

-- The search that a call of `glob` makes.
pub search_of :
    (os_sep : ℕ) (fnmatch : Text → Text → Bool) (includes excludes : List Text) (entry_type : ℕ)
    (prune_dirs : List Text)
    → Search
search_of os_sep fnmatch includes excludes entry_type prune_dirs = record {
  os_sep = os_sep;
  fnmatch = fnmatch;
  include_filter = map (λ p. parts (tokens p)) includes;
  exclude_filter = map (λ p. parts (tokens p)) excludes;
  entry_type_filter = entry_type;
  prune_dirs = map (replace_slash os_sep) prune_dirs;
}

-- `glob` ends on every tree and with every list of patterns, and returns the paths that the plain
-- recursion over the tree selects, each as often, in some order.
pub glob-perm :
    (os_sep : ℕ) (fnmatch : Text → Text → Bool) (dir_path : Text) (entries : Entries)
    (includes excludes : List Text) (entry_type : ℕ) (prune_dirs : List Text)
    → (result : List Text) × (glob os_sep fnmatch dir_path entries includes excludes entry_type
          prune_dirs
        ≡ ok result)
      × Perm result (
          selected
            (search_of os_sep fnmatch includes excludes entry_type prune_dirs)
            (replace_slash os_sep dir_path)
            entries)
unfolding glob search_of
glob-perm os_sep fnmatch dir_path entries includes excludes entry_type prune_dirs =
    let s : Search = search_of os_sep fnmatch includes excludes entry_type prune_dirs in
    let (result, returned, same) =
      walk-perm s (suc (size_entries entries)) ((replace_slash os_sep dir_path, entries) ∷ []) []
        (unfold weight in omega arith) in
    (
      result,
      rw (compile_all-tokens includes, compile_all-tokens excludes) returned,
      unfold all_selected in (rw append-nil at same),
    )
