-- ===== src/Prelude/Dict.antt =====
-- A Python dictionary as an association list.
use mathlib.Core.Path.{◌≡◌}
use mathlib.Core.Logic.{◌≢◌, ite}
use mathlib.Core.Option.{Option, none, some}
use mathlib.Core.List.{List, [], ◌∷◌}
use native.Mathlib.Omega.{arith}

module _ {ℓ} {K V : Type ℓ} (same : Discrete K) where
  -- `d[k]`, where `none` is the KeyError.
  unfoldable pub get : K → List (K × V) → Option V
  get k [] = none
  get k ((j, v) ∷ d) = ite (same k j) (some v) (get k d)

  -- `d[k] = v`
  unfoldable pub put : K → V → List (K × V) → List (K × V)
  put k v [] = (k, v) ∷ []
  put k v ((j, w) ∷ d) = ite (same k j) ((k, v) ∷ d) ((j, w) ∷ put k v d)

  pub get-put_self : (k : K) (v : V) (d : List (K × V)) → get k (put k v d) ≡ some v
  unfolding get put
  get-put_self k v [] = ground arith
  get-put_self k v ((j, w) ∷ d) = ground (arith, get-put_self k v d)

  pub get-put_ne : (k j : K) (v : V) (d : List (K × V)) → j ≢ k → get j (put k v d) ≡ get j d
  unfolding get put
  get-put_ne k j v [] h = ground arith
  get-put_ne k j v ((i, w) ∷ d) h = ground (arith, get-put_ne k j v d h)
