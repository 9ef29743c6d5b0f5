-- ===== src/Antglob/Pattern/Language.antt =====
-- The texts that a pattern's expression matches, said without a matcher: those that can be cut into
-- one piece for each part.
use domq.Prelude.{
  ℕ, ◌==◌, ==_iff, Bool, true, not, List, [], ◌∷◌, ◌++◌, ◌≡◌, refl, sym, ap, ◌∙◌, ◌↔◌, ◌⊎◌, inl,
  inr, All, append_assoc, or_true, or_left, or_right, and_true, true_and, Text,
}
use domq.Antglob.Pattern.{
  Part, sep, dirs, any, names, lit, is_sep, is_dot, at_end, match_sep, match_any, match_names,
  match_lit, match_part, re_match,
}

module _ (os_sep : ℕ) where
  abbrev pub IsDots : Text → Type 0
  IsDots t = All (λ (c : ℕ). is_dot os_sep c ≡ true) t

  abbrev pub IsName : Text → Type 0
  IsName t = All (λ (c : ℕ). not (is_sep os_sep c) ≡ true) t

  -- Any characters but newlines, and a separator.
  abbrev pub IsDir : Text → Type 0
  IsDir t = (u : Text) × (c : ℕ) × IsDots u × (is_sep os_sep c ≡ true) × (t ≡ u ++ c ∷ [])

  abbrev pub Fits : Part → Text → Type 0
  Fits sep t = (c : ℕ) × (is_sep os_sep c ≡ true) × (t ≡ c ∷ [])
  Fits dirs t = IsDir t ⊎ (t ≡ [])
  Fits any t = IsDots t
  Fits names t = IsName t
  Fits (lit s) t = t ≡ s

  -- A text that is cut as the parts say. `$` allows for a newline behind the last piece.
  abbrev pub Matches : List Part → Text → Type 0
  Matches [] t = (t ≡ []) ⊎ (t ≡ 10 ∷ [])
  Matches (p ∷ rex) t = (u : Text) × (v : Text) × Fits p u × Matches rex v × (t ≡ u ++ v)

  -- A matcher that goes on with `k` finds only front pieces that fit, and finds all of them.
  abbrev Sound : (Text → Type 0) → ((Text → Bool) → Text → Bool) → Type 0
  Sound P m =
      (k : Text → Bool) (t : Text)
      → m k t ≡ true
      → (u : Text) × (v : Text) × P u × (k v ≡ true) × (t ≡ u ++ v)

  abbrev Complete : (Text → Type 0) → ((Text → Bool) → Text → Bool) → Type 0
  Complete P m = (k : Text → Bool) (u v : Text) → P u → k v ≡ true → m k (u ++ v) ≡ true

  match_sep-Sound : Sound (Fits sep) (match_sep os_sep)
  unfolding match_sep
  match_sep-Sound k [] h = cc
  match_sep-Sound k (c ∷ t) h =
      let (s, more) = and_true (is_sep os_sep c) (k t) h in (c ∷ [], t, (c, s, refl), more, refl)

  match_sep-Complete : Complete (Fits sep) (match_sep os_sep)
  unfolding match_sep
  match_sep-Complete k u v (c, s, e) h = rw e (true_and _ _ s h)

  match_any-Sound : Sound IsDots (match_any os_sep)
  unfolding match_any
  match_any-Sound k [] h = ([], [], tt, h, refl)
  match_any-Sound k (c ∷ t) h = elim (or_true (k (c ∷ t)) _ h) [
    | inl stop ↦ ([], c ∷ t, tt, stop, refl)
    | inr go ↦
        let (dot, more) = and_true (is_dot os_sep c) _ go in
        let (u, v, d, kv, e) = match_any-Sound k t more in
        (c ∷ u, v, (dot, d), kv, ap (λ l. c ∷ l) e)
  ]

  match_any-Complete : Complete IsDots (match_any os_sep)
  unfolding match_any
  match_any-Complete k [] [] d h = h
  match_any-Complete k [] (c ∷ v) d h = or_left _ _ h
  match_any-Complete k (c ∷ u) v (dot, d) h =
      or_right (k (c ∷ u ++ v)) _ (true_and _ _ dot (match_any-Complete k u v d h))

  match_names-Sound : Sound IsName (match_names os_sep)
  unfolding match_names
  match_names-Sound k [] h = ([], [], tt, h, refl)
  match_names-Sound k (c ∷ t) h = elim (or_true (k (c ∷ t)) _ h) [
    | inl stop ↦ ([], c ∷ t, tt, stop, refl)
    | inr go ↦
        let (plain, more) = and_true (not (is_sep os_sep c)) _ go in
        let (u, v, d, kv, e) = match_names-Sound k t more in
        (c ∷ u, v, (plain, d), kv, ap (λ l. c ∷ l) e)
  ]

  match_names-Complete : Complete IsName (match_names os_sep)
  unfolding match_names
  match_names-Complete k [] [] d h = h
  match_names-Complete k [] (c ∷ v) d h = or_left _ _ h
  match_names-Complete k (c ∷ u) v (plain, d) h =
      or_right (k (c ∷ u ++ v)) _ (true_and _ _ plain (match_names-Complete k u v d h))

  match_lit-Sound : (s : Text) → Sound (λ t. t ≡ s) (match_lit os_sep s)
  unfolding match_lit
  match_lit-Sound [] k t h = ([], t, refl, h, refl)
  match_lit-Sound (a ∷ s) k [] h = cc
  match_lit-Sound (a ∷ s) k (c ∷ t) h =
      let (same, more) = and_true (a == c) _ h in
      let (u, v, d, kv, e) = match_lit-Sound s k t more in
      (c ∷ u, v, cc ((==_iff a c).0 same), kv, ap (λ l. c ∷ l) e)

  match_lit_self :
      (s : Text) (k : Text → Bool) (v : Text) → k v ≡ true → match_lit os_sep s k (s ++ v) ≡ true
  unfolding match_lit
  match_lit_self [] k v h = h
  match_lit_self (a ∷ s) k v h = true_and _ _ ((==_iff a a).1 refl) (match_lit_self s k v h)

  match_part-Sound : (p : Part) → Sound (Fits p) (match_part os_sep p)
  unfolding match_part
  match_part-Sound sep = match_sep-Sound
  match_part-Sound dirs = λ k t h.
      elim (or_true (match_any os_sep (match_sep os_sep k) t) (k t) h) [
        | inl some_dir ↦
            let (u, v, d, kv, e) = match_any-Sound (match_sep os_sep k) t some_dir in
            let (w, x, (c, s, f), kx, g) = match_sep-Sound k v kv in
            (
              u ++ w,
              x,
              inl (u, c, d, s, ap (λ l. u ++ l) f),
              kx,
              e ∙ ap (λ l. u ++ l) g ∙ sym (append_assoc u w x),
            )
        | inr no_dir ↦ ([], t, inr refl, no_dir, refl)
      ]
  match_part-Sound any = match_any-Sound
  match_part-Sound names = match_names-Sound
  match_part-Sound (lit s) = match_lit-Sound s

  match_part-Complete : (p : Part) → Complete (Fits p) (match_part os_sep p)
  unfolding match_part
  match_part-Complete sep k u v fits h = match_sep-Complete k u v fits h
  match_part-Complete dirs k u v (inl (w, c, d, s, e)) h =
      or_left (match_any os_sep (match_sep os_sep k) (u ++ v)) (k (u ++ v)) (
        rw (e, append_assoc)
          (match_any-Complete (match_sep os_sep k) w (c ∷ v) d
            (match_sep-Complete k (c ∷ []) v (c, s, refl) h)))
  match_part-Complete dirs k u v (inr e) h =
      or_right (match_any os_sep (match_sep os_sep k) (u ++ v)) (k (u ++ v)) (rw e h)
  match_part-Complete any k u v fits h = match_any-Complete k u v fits h
  match_part-Complete names k u v fits h = match_names-Complete k u v fits h
  match_part-Complete (lit s) k u v e h = rw e (match_lit_self s k v h)

  at_end_iff : (t : Text) → (at_end os_sep t ≡ true) ↔ Matches [] t
  unfolding at_end
  at_end_iff [] = (λ h. inl refl, λ h. refl)
  at_end_iff (c ∷ []) = (
    λ h. inr (ap (λ x. x ∷ []) ((==_iff c 10).0 h)),
    λ h. elim h [ inl e ↦ cc | inr e ↦ (==_iff c 10).1 (cc) ],
  )
  at_end_iff (c ∷ d ∷ t) = (λ h. cc, λ h. elim h [ inl e ↦ cc | inr e ↦ cc ])

  -- The matcher answers true exactly on the texts that the parts describe.
  pub re_match_iff : (rex : List Part) (t : Text) → (re_match os_sep rex t ≡ true) ↔ Matches rex t
  unfolding re_match
  re_match_iff [] t = at_end_iff t
  re_match_iff (p ∷ rex) t = (
    λ h.
        let (u, v, fits, kv, e) = match_part-Sound p (re_match os_sep rex) t h in
        (u, v, fits, (re_match_iff rex v).0 kv, e),
    λ (u, v, fits, more, e).
        rw e (match_part-Complete p (re_match os_sep rex) u v fits ((re_match_iff rex v).1 more)),
  )
