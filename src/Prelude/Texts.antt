-- ===== src/Prelude/Texts.antt =====
-- Texts: lists of the characters' codes, and whether two of them are the same.
use Prim.Native.Nat.{ℕ}
use Prim.Native.Char.{code}
use Prim.Native.String.{String}
use mathlib.Core.Path.{◌≡◌, refl}
use mathlib.Core.Logic.{◌↔◌, ◌≢◌, inl, inr}
use mathlib.Core.Bool.{Bool, true, false, ◌&&◌}
use mathlib.Core.List.{List, [], ◌∷◌}
use domq.Prelude.Tests.{Bool-cases, ◌==◌, ==_iff, and_true, true_and}

abbrev pub Text : Type 0
Text = List ℕ

-- The codes of a text that the source spells out.
abbrev pub codes : String → Text
codes String.[] = []
codes (String.◌∷◌ c s) = code c ∷ codes s

-- `s == t`
unfoldable pub same_text : Text → Text → Bool
same_text [] [] = true
same_text (a ∷ s) (b ∷ t) = a == b && same_text s t
same_text _ _ = false

same_text→eq : (s t : Text) → same_text s t ≡ true → s ≡ t
unfolding same_text
same_text→eq [] [] h = refl
same_text→eq [] (b ∷ t) h = cc
same_text→eq (a ∷ s) [] h = cc
same_text→eq (a ∷ s) (b ∷ t) h =
    let (e, more) = and_true (a == b) _ h in cc ((==_iff a b).0 e, same_text→eq s t more)

same_text_refl : (s : Text) → same_text s s ≡ true
unfolding same_text
same_text_refl [] = refl
same_text_refl (a ∷ s) = true_and _ _ ((==_iff a a).1 refl) (same_text_refl s)

pub same_text_iff : (s t : Text) → (same_text s t ≡ true) ↔ (s ≡ t)
same_text_iff s t = (same_text→eq s t, λ e. rw e (same_text_refl t))

pub same_text-ne : (s t : Text) → s ≢ t → same_text s t ≡ false
same_text-ne s t ne = elim (Bool-cases (same_text s t)) [
  | inl same ↦ absurd (ne ((same_text_iff s t).0 same))
  | inr other ↦ other
]
