-- ===== src/Values.antt =====
-- The values of the result dictionaries that the tools return (`dict[str, object]`), over the
-- type of floats. A nested dictionary is the list of its items.
use asante_secure_multi_agen.Prelude.{ℕ, String, Bool, Option, none, some, [], ◌∷◌}
use asante_secure_multi_agen.Prelude.Dict.{Dict, put}

mutual
  pub data Value (N : Type 0) : Type 0 where
    text : String → Value N
    flag : Bool → Value N
    num : N → Value N
    instant : ℕ → Value N
    null : Value N
    obj : Items N → Value N

  pub data Items (N : Type 0) : Type 0 where
    end : Items N
    item : String → Value N → Items N → Items N

abbrev pub Fields : Type 0 → Type 0
Fields N = Dict (Value N)

module _ {N : Type 0} where
  abbrev pub items : Fields N → Items N
  items [] = end
  items ((k, v) ∷ d) = item k v (items d)

  -- `str | None`
  abbrev pub opt_text : Option String → Value N
  opt_text none = null
  opt_text (some s) = text s

  abbrev pub opt_instant : Option ℕ → Value N
  opt_instant none = null
  opt_instant (some t) = instant t

  -- `dict | None`
  abbrev pub opt_obj : Option (Fields N) → Value N
  opt_obj none = null
  opt_obj (some d) = obj (items d)

  -- `{**a, **b}`
  abbrev pub merge : Fields N → Fields N → Fields N
  merge a [] = a
  merge a ((k, v) ∷ b) = merge (put a k v) b
