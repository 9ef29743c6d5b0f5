-- ===== src/Fixeol/Laws.antt =====
-- What a run of `fix_source_eol` leaves in a file.
use domq.Prelude.{
  ℕ, ◌==◌, ==_iff, Bool, true, false, List, [], ◌∷◌, ◌++◌, map, All, ok, ◌≡◌, ◌≢◌, ◌⊎◌, inl, inr,
  refl, sym, ap, ◌∙◌, arith, Bool-cases, append_assoc, and_true, true_and, Text, same_text,
  same_text_iff,
}
use domq.Fixeol.{
  lf, cr, readlines, add_to_first, is_eol, strip_behind, rstrip, fixed_lines, writelines,
  same_lines, source, fix_source_eol,
}

-- A text in which no line ends.
abbrev pub IsUnbroken : Text → Type 0
IsUnbroken t = All (λ (c : ℕ). c ≢ lf) t

-- A line as `readlines` returns it.
abbrev IsLine : Text → Type 0
IsLine l = (b : Text) × IsUnbroken b × ((l ≡ b) ⊎ (l ≡ b ++ lf ∷ []))

add_to_first-IsLine :
    (c : ℕ) (ls : List Text) → c ≢ lf → All IsLine ls → All IsLine (add_to_first c ls)
add_to_first-IsLine c [] h k = ((c ∷ [], (h, tt), inl refl), tt)
add_to_first-IsLine c (l ∷ ls) h ((b, unbroken, inl e), k) =
    ((c ∷ b, (h, unbroken), inl (ap (λ x. c ∷ x) e)), k)
add_to_first-IsLine c (l ∷ ls) h ((b, unbroken, inr e), k) =
    ((c ∷ b, (h, unbroken), inr (ap (λ x. c ∷ x) e)), k)

readlines-IsLine : (t : Text) → All IsLine (readlines t)
unfolding readlines
readlines-IsLine [] = tt
readlines-IsLine (c ∷ t) = elim (Bool-cases (c == lf)) [
  | inl e ↦ rw e (([], tt, inr (ap (λ x. x ∷ []) ((==_iff c lf).0 e))), readlines-IsLine t)
  | inr e ↦ rw e (add_to_first-IsLine c (readlines t) (ground arith) (readlines-IsLine t))
]

rstrip-eol : (e : Text) → All (λ (c : ℕ). is_eol c ≡ true) e → rstrip e ≡ []
unfolding rstrip
rstrip-eol [] h = refl
rstrip-eol (c ∷ e) (hc, h) = rw (rstrip-eol e h, hc)

rstrip-append_eol : (l e : Text) → All (λ (c : ℕ). is_eol c ≡ true) e → rstrip (l ++ e) ≡ rstrip l
unfolding rstrip
rstrip-append_eol [] e h = rstrip-eol e h
rstrip-append_eol (c ∷ l) e h = ap (strip_behind c) (rstrip-append_eol l e h)

rstrip-strip_behind :
    (c : ℕ) (t : Text) → rstrip t ≡ t → rstrip (strip_behind c t) ≡ strip_behind c t
unfolding rstrip
rstrip-strip_behind c [] h = ground arith
rstrip-strip_behind c (d ∷ t) h = ap (strip_behind c) h

rstrip-rstrip : (l : Text) → rstrip (rstrip l) ≡ rstrip l
unfolding rstrip
rstrip-rstrip [] = refl
rstrip-rstrip (c ∷ l) = rstrip-strip_behind c (rstrip l) (rstrip-rstrip l)

strip_behind-IsUnbroken : (c : ℕ) (t : Text) → c ≢ lf → IsUnbroken t → IsUnbroken (strip_behind c t)
strip_behind-IsUnbroken c [] h k = ground arith
strip_behind-IsUnbroken c (d ∷ t) h k = (h, k)

rstrip-IsUnbroken : (b : Text) → IsUnbroken b → IsUnbroken (rstrip b)
unfolding rstrip
rstrip-IsUnbroken [] h = tt
rstrip-IsUnbroken (c ∷ b) (hc, h) = strip_behind-IsUnbroken c (rstrip b) hc (rstrip-IsUnbroken b h)

rstrip-IsLine : (l : Text) → IsLine l → IsUnbroken (rstrip l)
rstrip-IsLine l (b, unbroken, inl e) = rw e (rstrip-IsUnbroken b unbroken)
rstrip-IsLine l (b, unbroken, inr e) =
    rw (e, rstrip-append_eol b (lf ∷ []) (refl, tt)) (rstrip-IsUnbroken b unbroken)

-- The two line endings that the release tool uses: the newline, behind a carriage return or not.
pub data IsEol : Text → Type 0 where
  unix : {e : Text} → e ≡ lf ∷ [] → IsEol e
  windows : {e : Text} → e ≡ cr ∷ lf ∷ [] → IsEol e

readlines-IsUnbroken :
    (b t : Text) → IsUnbroken b → readlines (b ++ lf ∷ t) ≡ (b ++ lf ∷ []) ∷ readlines t
unfolding readlines
readlines-IsUnbroken [] t h = refl
readlines-IsUnbroken (c ∷ b) t (hc, h) =
    let other : (c == lf) ≡ false = ground arith in rw (other, readlines-IsUnbroken b t h)

writelines-readlines : (t : Text) → writelines (readlines t) ≡ t
unfolding readlines writelines
writelines-readlines [] = refl
writelines-readlines (c ∷ t) = elim (Bool-cases (c == lf)) [
  | inl e ↦ rw e (ap (λ l. c ∷ l) (writelines-readlines t))
  | inr e ↦ rw e (first (readlines t) ∙ ap (λ l. c ∷ l) (writelines-readlines t))
]
  where
    first : (ls : List Text) → writelines (add_to_first c ls) ≡ c ∷ writelines ls
    first [] = refl
    first (l ∷ ls) = refl

-- A fixed line is an unbroken text and a newline.
fixed-line :
    (eol l : Text)
    → IsEol eol
    → IsLine l
    → (b : Text) × IsUnbroken b × (rstrip l ++ eol ≡ b ++ lf ∷ [])
fixed-line eol l (unix e) h = (rstrip l, rstrip-IsLine l h, rw e)
fixed-line eol l (windows e) h =
    (rstrip l ++ cr ∷ [], All-snoc (rstrip l) (rstrip-IsLine l h), rw (e, append_assoc))
  where
    All-snoc : (b : Text) → IsUnbroken b → IsUnbroken (b ++ cr ∷ [])
    All-snoc [] h = (omega arith, tt)
    All-snoc (c ∷ b) h = (h.0, All-snoc b h.1)

readlines-fixed_lines :
    (eol : Text) (ls : List Text)
    → IsEol eol
    → All IsLine ls
    → readlines (writelines (fixed_lines eol ls)) ≡ fixed_lines eol ls
unfolding writelines fixed_lines
readlines-fixed_lines eol [] e h = unfold readlines in refl
readlines-fixed_lines eol (l ∷ ls) e (hl, h) =
    let (b, unbroken, same) = fixed-line eol l e hl in
    let rest : List Text = fixed_lines eol ls in
    rw (same, append_assoc)
      (readlines-IsUnbroken b (writelines rest) unbroken
        ∙ ap (λ r. (b ++ lf ∷ []) ∷ r) (readlines-fixed_lines eol ls e h))

IsEol-All : (eol : Text) → IsEol eol → All (λ (c : ℕ). is_eol c ≡ true) eol
IsEol-All eol (unix e) = rw e (refl, tt)
IsEol-All eol (windows e) = rw e (refl, (refl, tt))

rstrip-fixed : (eol l : Text) → IsEol eol → rstrip (rstrip l ++ eol) ≡ rstrip l
rstrip-fixed eol l e = rstrip-append_eol (rstrip l) eol (IsEol-All eol e) ∙ rstrip-rstrip l

map-rstrip-fixed_lines :
    (eol : Text) (ls : List Text) → IsEol eol → map rstrip (fixed_lines eol ls) ≡ map rstrip ls
unfolding fixed_lines
map-rstrip-fixed_lines eol [] e = refl
map-rstrip-fixed_lines eol (l ∷ ls) e = rw (rstrip-fixed eol l e, map-rstrip-fixed_lines eol ls e)

fixed_lines-fixed_lines :
    (eol : Text) (ls : List Text)
    → IsEol eol
    → fixed_lines eol (fixed_lines eol ls) ≡ fixed_lines eol ls
unfolding fixed_lines
fixed_lines-fixed_lines eol [] e = refl
fixed_lines-fixed_lines eol (l ∷ ls) e = rw (rstrip-fixed eol l e, fixed_lines-fixed_lines eol ls e)

same_lines→eq : (s t : List Text) → same_lines s t ≡ true → s ≡ t
unfolding same_lines
same_lines→eq [] [] h = refl
same_lines→eq [] (b ∷ t) h = cc
same_lines→eq (a ∷ s) [] h = cc
same_lines→eq (a ∷ s) (b ∷ t) h =
    let (e, more) = and_true (same_text a b) _ h in
    cc ((same_text_iff a b).0 e, same_lines→eq s t more)

same_lines_refl : (s : List Text) → same_lines s s ≡ true
unfolding same_lines
same_lines_refl [] = refl
same_lines_refl (a ∷ s) = true_and _ _ ((same_text_iff a a).1 refl) (same_lines_refl s)

-- Whether the file was written or not, it holds the fixed lines then.
fix_source_eol-writelines :
    (contents eol : Text)
    → fix_source_eol (source contents) false eol
      ≡ (ok true, source (writelines (fixed_lines eol (readlines contents))))
unfolding fix_source_eol
fix_source_eol-writelines contents eol =
    elim (Bool-cases (same_lines (readlines contents) (fixed_lines eol (readlines contents)))) [
      | inr differ ↦ rw differ
      | inl same ↦ rw same (
          ap (λ t. (ok true, source t))
            (sym (writelines-readlines contents)
              ∙ ap writelines
                  (same_lines→eq (readlines contents) (fixed_lines eol (readlines contents)) same)))
    ]

-- A run of `fix_source_eol` with one of the two line endings returns True. It leaves a file that has
-- the same lines up to their endings, each with the wanted ending, the last one too.
pub fix_source_eol-lines :
    (contents eol : Text)
    → IsEol eol
    → (after : Text) × (fix_source_eol (source contents) false eol ≡ (ok true, source after))
      × (readlines after ≡ fixed_lines eol (readlines contents))
      × (map rstrip (readlines after) ≡ map rstrip (readlines contents))
fix_source_eol-lines contents eol e =
    let lines : List Text = readlines contents in
    let kept : readlines (writelines (fixed_lines eol lines)) ≡ fixed_lines eol lines =
      readlines-fixed_lines eol lines e (readlines-IsLine contents) in
    (
      writelines (fixed_lines eol lines),
      fix_source_eol-writelines contents eol,
      kept,
      ap (map rstrip) kept ∙ map-rstrip-fixed_lines eol lines e,
    )

fix_source_eol-fixed :
    (eol : Text) (ls : List Text) (is_dry_run : Bool)
    → IsEol eol
    → All IsLine ls
    → fix_source_eol (source (writelines (fixed_lines eol ls))) is_dry_run eol
      ≡ (ok true, source (writelines (fixed_lines eol ls)))
unfolding fix_source_eol
fix_source_eol-fixed eol ls is_dry_run e h = rw (
  readlines-fixed_lines eol ls e h,
  fixed_lines-fixed_lines eol ls e,
  same_lines_refl (fixed_lines eol ls),
)

fix_source_eol-dry :
    (contents eol : Text) → fix_source_eol (source contents) true eol ≡ (ok true, source contents)
unfolding fix_source_eol
fix_source_eol-dry contents eol = ground arith

-- After one run a second run with the same line ending, dry or not, changes nothing; and a dry run
-- changes nothing at all.
pub fix_source_eol_idem :
    (contents eol : Text) (is_dry_run : Bool)
    → IsEol eol
    → (fix_source_eol (fix_source_eol (source contents) false eol).1 is_dry_run eol
        ≡ (ok true, (fix_source_eol (source contents) false eol).1))
      × (fix_source_eol (source contents) true eol ≡ (ok true, source contents))
fix_source_eol_idem contents eol is_dry_run e = (
  rw (fix_source_eol-writelines contents eol)
      (fix_source_eol-fixed eol (readlines contents) is_dry_run e (readlines-IsLine contents)),
  fix_source_eol-dry contents eol,
)
