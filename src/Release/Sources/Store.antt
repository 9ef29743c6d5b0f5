-- ===== src/Release/Sources/Store.antt =====
-- The files after `fix_sources_eol`.
use domq.Prelude.{
  if◌then◌else◌, Bool, true, false, ◌||◌, List, [], ◌∷◌, ok, ◌≡◌, ◌⊎◌, refl, ap, ◌∙◌, Bool-cases,
  inl, inr, Text, same_text, same_text_iff, or_left, or_right,
}
use domq.Fixeol.{lf, cr, Source, source, fix_source_eol}
use domq.Fixeol.Laws.{IsEol, unix, windows, fix_source_eol-lines, fix_source_eol_idem}
use domq.Release.Sftp.{is_in}
use domq.Release.Sources.{Store, with_file, fix_all, fix_sources_eol}

-- The file that `fix_source_eol` leaves.
abbrev pub fixed : Text → Source → Source
fixed eol file = (fix_source_eol file false eol).1

-- Every one of some paths is that of a file.
abbrev pub HasFiles : Store → List Text → Type 0
HasFiles store paths = (q : Text) → is_in q paths ≡ true → (c : Text) × (store q ≡ source c)

fix_source_eol-ok :
    (eol c : Text)
    → IsEol eol
    → (after : Text) × (fix_source_eol (source c) false eol ≡ (ok true, source after))
      × (fixed eol (source after) ≡ source after)
fix_source_eol-ok eol c e =
    let (after, run, lines, stripped) = fix_source_eol-lines c eol e in
    let again : fix_source_eol (fixed eol (source c)) false eol ≡ (ok true, fixed eol (source c)) =
      (fix_source_eol_idem c eol false e).0 in
    let kept : fixed eol (source c) ≡ source after = ap (λ r. r.1) run in
    (after, run, rw (← kept) (ap (λ r. r.1) again))

fix_all_lem :
    (paths : List Text) (eol : Text) (store : Store)
    → IsEol eol
    → HasFiles store paths
    → (after : Store) × (fix_all paths eol store ≡ ok after)
      × ((q : Text) → after q ≡ (if is_in q paths then fixed eol (store q) else store q))
unfolding fix_all is_in
fix_all_lem [] eol store e h = (store, refl, λ q. refl)
fix_all_lem (p ∷ paths) eol store e h =
    let (c, at) = h p (or_left (same_text p p) (is_in p paths) ((same_text_iff p p).1 refl)) in
    let (left, run, stays) = fix_source_eol-ok eol c e in
    let (after, more, agree) =
      fix_all_lem paths eol (with_file store p (source left)) e (kept left) in
    (
      after,
      rw (at, run) more,
      λ q. agree q ∙ step left c at (ap (λ r. r.1) run) stays q (Bool-cases (same_text q p)),
    )
  where
    kept : (left : Text) → HasFiles (with_file store p (source left)) paths
    kept left q i = elim (Bool-cases (same_text q p)) [
      | inl same ↦ (left, rw same)
      | inr apart ↦
          let (c, at) = h q (or_right (same_text q p) (is_in q paths) i) in (c, rw apart at)
    ]

    step :
        (left c : Text)
        → store p ≡ source c
        → fixed eol (source c) ≡ source left
        → fixed eol (source left) ≡ source left
        → (q : Text) → (same_text q p ≡ true) ⊎ (same_text q p ≡ false)
        → (if is_in q paths
            then fixed eol (with_file store p (source left) q)
            else with_file store p (source left) q)
          ≡ (if same_text q p || is_in q paths then fixed eol (store q) else store q)
    step left c at run stays q (inl same) =
        let here : q ≡ p = (same_text_iff q p).0 same in
        let there : store q ≡ source c = ap store here ∙ at in
        rw (same, there, run, stays) (both (is_in q paths))
      where
        both : (b : Bool) → (if b then source left else source left) ≡ source left
        both true = refl
        both false = refl
    step left c at run stays q (inr apart) = rw apart

-- A file as the first loop leaves it.
abbrev pub win_fixed : List Text → Store → Text → Source
win_fixed win_sources store q =
    if is_in q win_sources then fixed (cr ∷ lf ∷ []) (store q) else store q

win_fixed-source :
    (win_sources : List Text) (store : Store) (q c : Text)
    → store q ≡ source c
    → (d : Text) × (win_fixed win_sources store q ≡ source d)
win_fixed-source win_sources store q c at =
    let (left, run, stays) = fix_source_eol-ok (cr ∷ lf ∷ []) c (windows refl) in
    elim (Bool-cases (is_in q win_sources)) [
      | inl listed ↦ (left, rw (listed, at) (ap (λ r. r.1) run))
      | inr other ↦ (c, rw (other, at))
    ]

-- If there is a file at every path of both lists, `fix_sources_eol` comes to its end. A file on the
-- first list is then as `fix_source_eol` leaves it with the line ending of Windows, one on the second
-- list as it leaves that file with the one of Unix, and no other file has changed.
pub fix_sources_eol_lem :
    (win_sources unix_sources : List Text) (store : Store)
    → HasFiles store win_sources
    → HasFiles store unix_sources
    → (after : Store) × (fix_sources_eol win_sources unix_sources store ≡ ok after)
      × ((q : Text)
          → after q ≡ (
              if is_in q unix_sources
              then fixed (lf ∷ []) (win_fixed win_sources store q)
              else win_fixed win_sources store q))
unfolding fix_sources_eol
fix_sources_eol_lem win_sources unix_sources store h k =
    let (mid, first, agree) = fix_all_lem win_sources (cr ∷ lf ∷ []) store (windows refl) h in
    let (after, second, finally) = fix_all_lem unix_sources (lf ∷ []) mid (unix refl) (λ q i.
      let (c, at) = k q i in
      let (d, e) = win_fixed-source win_sources store q c at in (d, agree q ∙ e)) in
    (
      after,
      rw (first, second),
      λ q. finally q ∙ ap (λ f. if is_in q unix_sources then fixed (lf ∷ []) f else f) (agree q),
    )
