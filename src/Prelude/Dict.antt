-- ===== src/Prelude/Dict.antt =====
-- Python's `dict` with text keys, as the list of its items in insertion order.
use Prim.Native.String.{String}
use mathlib.Core.Path.{◌≡◌, refl}
use mathlib.Core.Option.{Option, none, some}
use mathlib.Core.List.{List, [], ◌∷◌}
use native.Mathlib.Omega.{arith}
use text.Mathlib.Text.{◌==◌}
use text.Mathlib.TextEquality.{eq_iff}
use asante_secure_multi_agen.Prelude.Tests.{if◌then◌else◌}

abbrev pub Dict {ℓ} : Type ℓ → Type ℓ
Dict V = List (String × V)

module _ {ℓ} {V : Type ℓ} where
  -- `d.get(k)`
  abbrev pub get : Dict V → String → Option V
  get [] k = none
  get ((j, v) ∷ d) k = if j == k then some v else get d k

  -- `d[k] = v`, and `{**d, k: v}` on a copy: a key that is there keeps its place.
  abbrev pub put : Dict V → String → V → Dict V
  put [] k v = (k, v) ∷ []
  put (e ∷ d) k v = if e.0 == k then (k, v) ∷ d else e ∷ put d k v

  -- `d.pop(k, None)`
  abbrev pub remove : Dict V → String → Dict V
  remove [] k = []
  remove (e ∷ d) k = let rest = remove d k in if e.0 == k then rest else e ∷ rest

  pub get-put :
      (d : Dict V) (k j : String) (v : V) → get (put d k v) j ≡ (if k == j then some v else get d j)
  get-put [] k j v = refl
  get-put (e ∷ d) k j v = ground (arith, eq_iff e.0 k, eq_iff e.0 j, eq_iff k j, get-put d k j v)

  pub get-remove :
      (d : Dict V) (k j : String) → get (remove d k) j ≡ (if k == j then none else get d j)
  get-remove [] k j = ground arith
  get-remove (e ∷ d) k j = ground (arith, eq_iff e.0 k, eq_iff e.0 j, eq_iff k j, get-remove d k j)

pub ruleset dict_laws = (get-put, get-remove)
