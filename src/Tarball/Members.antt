-- ===== src/Tarball/Members.antt =====
-- The members of an archive of one directory.
use mathlib.Core.List.Perm
use mathlib.Core.List.{Perm, perm_append_comm}
use domq.Prelude.{
  ℕ, if◌then◌else◌, Bool, true, false, List, [], ◌∷◌, ◌++◌, map, All, ◌≡◌, ◌≢◌, refl, sym, ap, ◌∙◌,
  append_assoc, append-nil, Text,
}
use domq.Antglob.Walk.{Node, file, dir, other, Entries, end, entry, join, ends_with}
use domq.Tarball.{slash_code, join_prefix, Member, archive_name, visit, walk_dirs, make_tarball}
use domq.Tarball.Names.{archive_name-below}

-- The regular files of a directory and of the directories in it, by their relative paths. A
-- directory behind a symbolic link is left out.
unfoldable mutual
  pub files_of : Entries → List Text
  files_of end = []
  files_of (entry name node more) = files_at name node ++ files_of more

  pub files_at : Text → Node → List Text
  files_at name (file link) = name ∷ []
  files_at name (dir link sub) =
      if link then [] else map (λ r. name ++ slash_code ∷ r) (files_of sub)
  files_at name other = []

-- A path that a name is joined to with a separator.
abbrev pub IsOpen : Text → Type 0
IsOpen path = (path ≢ []) × (ends_with slash_code path ≡ false)

-- Every entry has a name, and no name ends in a separator.
abbrev mutual
  pub IsNamed : Entries → Type 0
  IsNamed end = Unit
  IsNamed (entry name node more) = IsOpen name × (IsNamedNode node × IsNamed more)

  pub IsNamedNode : Node → Type 0
  IsNamedNode (file link) = Unit
  IsNamedNode (dir link sub) = IsNamed sub
  IsNamedNode other = Unit

join-IsOpen :
    (path name : Text) → IsOpen path → join slash_code path name ≡ path ++ slash_code ∷ name
unfolding join
join-IsOpen [] name (h, k) = absurd (h refl)
join-IsOpen (c ∷ path) name (h, k) = rw k

ends_with-append :
    (path : Text) (c : ℕ) (name : Text)
    → ends_with slash_code (path ++ c ∷ name) ≡ ends_with slash_code (c ∷ name)
ends_with-append [] c name = refl
ends_with-append (d ∷ []) c name = refl
ends_with-append (d ∷ e ∷ path) c name = ends_with-append (e ∷ path) c name

append-IsOpen : (path name : Text) → IsOpen name → IsOpen (path ++ slash_code ∷ name)
append-IsOpen path [] (h, k) = absurd (h refl)
append-IsOpen path (c ∷ name) (h, k) =
    (filled path, ends_with-append path slash_code (c ∷ name) ∙ k)
  where
    filled : (p : Text) → p ++ slash_code ∷ c ∷ name ≢ []
    filled [] e = cc
    filled (d ∷ p) e = cc

map-map {ℓ} :
    {A B C : Type ℓ} (f : B → C) (g : A → B) (l : List A) → map f (map g l) ≡ map (λ x. f (g x)) l
map-map f g [] = refl
map-map f g (x ∷ l) = ap (λ r. f (g x) ∷ r) (map-map f g l)

map-append {ℓ} :
    {A B : Type ℓ} (f : A → B) (xs ys : List A) → map f (xs ++ ys) ≡ map f xs ++ map f ys
map-append f [] ys = refl
map-append f (x ∷ xs) ys = ap (λ r. f x ∷ r) (map-append f xs ys)

module _ (norm : Text → Text) (base_dir prefix_dir : Text) where
  abbrev member : Text → Text → Member
  member path r =
      (path ++ slash_code ∷ r, archive_name norm base_dir prefix_dir (path ++ slash_code ∷ r))

  abbrev found : Text → Entries → List Member
  found path es =
      visit norm base_dir prefix_dir path es ++ walk_dirs norm base_dir prefix_dir path es

  regroup : (v w d : List Member) → Perm (v ++ (w ++ d)) (w ++ (v ++ d))
  regroup v w d =
      rw (sym (append_assoc v w d), sym (append_assoc w v d))
        (Perm.append_right d (perm_append_comm v w))

  members-nested :
      (path name : Text) (files : List Text)
      → map (member (path ++ slash_code ∷ name)) files
        ≡ map (member path) (map (λ r. name ++ slash_code ∷ r) files)
  members-nested path name [] = refl
  members-nested path name (r ∷ files) = rw (append_assoc, members-nested path name files)

  -- The files in a directory come before the files of the directories in it.
  found-perm :
      (path : Text) (es : Entries)
      → IsOpen path
      → IsNamed es
      → Perm (found path es) (map (member path) (files_of es))
  unfolding visit walk_dirs files_of
  found-perm path end h k = Perm.refl _
  found-perm path (entry name (file link) more) h (kn, (k, ks)) =
      rw (join-IsOpen path name h) (Perm.cons _ (found-perm path more h ks))
  found-perm path (entry name other more) h (kn, (k, ks)) = found-perm path more h ks
  found-perm path (entry name (dir true sub) more) h (kn, (k, ks)) = found-perm path more h ks
  found-perm path (entry name (dir false sub) more) h (kn, (k, ks)) =
      let inside : Perm (found (path ++ slash_code ∷ name) sub)
          (map (member (path ++ slash_code ∷ name)) (files_of sub)) =
        found-perm (path ++ slash_code ∷ name) sub (append-IsOpen path name kn) k in
      rw (join-IsOpen path name h, map-append, sym (members-nested path name (files_of sub)))
        (Perm.trans
          (regroup (visit norm base_dir prefix_dir path more)
            (found (path ++ slash_code ∷ name) sub) (walk_dirs norm base_dir prefix_dir path more))
          (Perm.trans (Perm.append_right (found path more) inside) (
            Perm.append_left (map (member (path ++ slash_code ∷ name)) (files_of sub))
              (found-perm path more h ks))))

members-relative :
    (norm : Text → Text) (base_dir prefix_dir : Text) (files : List Text)
    → All (λ (r : Text). norm (base_dir ++ slash_code ∷ r) ≡ norm base_dir ++ slash_code ∷ r) files
    → map (member norm base_dir prefix_dir base_dir) files
      ≡ map (λ r. (base_dir ++ slash_code ∷ r, join_prefix prefix_dir r)) files
members-relative norm base_dir prefix_dir [] h = refl
members-relative norm base_dir prefix_dir (r ∷ files) (e, h) = rw (
  archive_name-below norm base_dir prefix_dir (base_dir ++ slash_code ∷ r) r e,
  members-relative norm base_dir prefix_dir files h,
)

-- `make_tarball` with one source, a directory that is the base directory too and whose path does not
-- end in a separator, as the release tool calls it: the members are the regular files in it and in
-- its directories, each once, symbolic links to directories not followed, and each is stored under
-- the prefix and its path relative to the directory. The condition on `norm` says that a file's
-- relative path behind the directory stays as it is when the path is normalised.
pub make_tarball-perm :
    (norm : Text → Text) (base_dir prefix_dir : Text) (link : Bool) (es : Entries)
    → IsOpen base_dir
    → IsNamed es
    → All
        (λ (r : Text). norm (base_dir ++ slash_code ∷ r) ≡ norm base_dir ++ slash_code ∷ r)
        (files_of es)
    → Perm
        (make_tarball norm base_dir prefix_dir ((base_dir, dir link es) ∷ []))
        (map (λ r. (base_dir ++ slash_code ∷ r, join_prefix prefix_dir r)) (files_of es))
unfolding make_tarball
make_tarball-perm norm base_dir prefix_dir link es h k e =
    rw (append-nil, sym (members-relative norm base_dir prefix_dir (files_of es) e))
      (found-perm norm base_dir prefix_dir base_dir es h k)
