-- ===== src/Sconsign/Modules/Order.antt =====
-- The order in which the modules of a dotted name are imported.
use domq.Prelude.{
  ℕ, zero, suc, ◌+◌, ◌≤◌, ◌<◌, ◌≡◌, refl, ◌∙◌, false, none, some, List, [], ◌∷◌, ◌++◌, length,
  length-append, Result, ok, raise, diverge, ◌>>=◌, Text, All, arith,
}
use domq.Strings.{has_char}
use domq.Strings.Split.{last_dot-free, last_dot-append}
use domq.Sconsign.Modules.{Importer, import_within, my_import}

-- A name and the names behind it, with a dot before each.
abbrev pub dotted : Text → List Text → Text
dotted name [] = name
dotted name (piece ∷ pieces) = dotted (name ++ b'.' ∷ piece) pieces

-- A name without a dot.
abbrev pub IsPlainName : Text → Type 0
IsPlainName name = has_char b'.' name ≡ false

length-dotted :
    (name : Text) (pieces : List Text) → length name + length pieces ≤ length (dotted name pieces)
length-dotted name [] = omega arith
length-dotted name (piece ∷ pieces) =
    let more = length-dotted (name ++ b'.' ∷ piece) pieces in
    omega (arith, length-append name (b'.' ∷ piece))

bind_assoc :
    {A B C : Type 0} (r : Result A) (f : A → Result B) (g : B → Result C)
    → ((r >>= f) >>= g) ≡ (r >>= λ a. f a >>= g)
bind_assoc (ok a) f g = refl
bind_assoc (raise e) f g = refl
bind_assoc diverge f g = refl

bind_ok : {A : Type 0} (r : Result A) → r ≡ (r >>= λ a. ok a)
bind_ok (ok a) = refl
bind_ok (raise e) = refl
bind_ok diverge = refl

module _ (importer : Importer) where
  open importer use {Module, import_one}

  -- From a module on, each of the names that follow, in the module before it.
  abbrev pub import_behind : Text → Module → List Text → Result Module
  import_behind name parent [] = ok parent
  import_behind name parent (piece ∷ pieces) = do
    next ← import_one (name ++ b'.' ∷ piece) piece (some parent)
    import_behind (name ++ b'.' ∷ piece) next pieces

  import_within-plain :
      (name : Text) (fuel : ℕ)
      → IsPlainName name
      → 0 < fuel
      → import_within importer fuel name ≡ import_one name name none
  unfolding import_within
  import_within-plain name zero plain enough = absurd (omega arith)
  import_within-plain name (suc fuel) plain enough = rw (last_dot-free name plain)

  import_within-behind :
      (n : ℕ) (name piece : Text) (r : Result Module)
      → ((fuel : ℕ) → n < fuel → import_within importer fuel name ≡ r)
      → IsPlainName piece
      → (fuel : ℕ) → suc n < fuel
      → import_within importer fuel (name ++ b'.' ∷ piece)
        ≡ (r >>= λ parent. import_one (name ++ b'.' ∷ piece) piece (some parent))
  unfolding import_within
  import_within-behind n name piece r h plain zero enough = absurd (omega arith)
  import_within-behind n name piece r h plain (suc fuel) enough =
      rw (last_dot-append name piece plain, h fuel (omega arith))

  import_within-dotted :
      (n : ℕ) (name : Text) (pieces : List Text) (r : Result Module)
      → ((fuel : ℕ) → n < fuel → import_within importer fuel name ≡ r)
      → All IsPlainName pieces
      → (fuel : ℕ) → n + length pieces < fuel
      → import_within importer fuel (dotted name pieces)
        ≡ (r >>= λ parent. import_behind name parent pieces)
  import_within-dotted n name [] r h clean fuel enough = h fuel (omega arith) ∙ bind_ok r
  import_within-dotted n name (piece ∷ pieces) r h (plain, clean) fuel enough =
      import_within-dotted (suc n) (name ++ b'.' ∷ piece) pieces
        (r >>= λ parent. import_one (name ++ b'.' ∷ piece) piece (some parent))
        (import_within-behind n name piece r h plain) clean fuel (omega arith)
      ∙ bind_assoc r _ _

  -- A name that is put together of names without dots, with a dot between each and the next: the
  -- module of the first name is imported from the search path, and each of the others in the module
  -- of the names before it, in their order, until one import fails.
  pub my_import-dotted :
      (name : Text) (pieces : List Text)
      → IsPlainName name
      → All IsPlainName pieces
      → my_import importer (dotted name pieces)
        ≡ (import_one name name none >>= λ parent. import_behind name parent pieces)
  unfolding my_import
  my_import-dotted name pieces plain clean =
      import_within-dotted zero name pieces (import_one name name none)
        (λ fuel enough. import_within-plain name fuel plain enough) clean
        (suc (length (dotted name pieces))) (omega (arith, length-dotted name pieces))
