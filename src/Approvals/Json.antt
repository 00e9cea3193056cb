-- ===== src/Approvals/Json.antt =====
-- `json.dumps(result, sort_keys=True)` and `json.loads` on the result of an execution: the JSON
-- text of a dictionary lists its items by key, and so do the dictionaries in it.
use mathlib.Core.Option
use Prim.Native.String.{compare}
use package.text.Mathlib.Text.{is_le}
use asante_secure_multi_agen.Prelude.{
  String, ◌≡◌, refl, ap, ◌∙◌, Option, none, some, List, [], ◌∷◌, arith, ◌==◌, eq_iff, if◌then◌else◌,
}
use asante_secure_multi_agen.Prelude.Dict.{get}
use asante_secure_multi_agen.Values.{
  Value, text, flag, num, instant, null, obj, Items, end, item, Fields,
}

module _ {N : Type 0} where
  insert_nested : String → Value N → Items N → Items N
  insert_nested k v end = item k v end
  insert_nested k v (item j u d) =
      if is_le (compare k j) then item k v (item j u d) else item j u (insert_nested k v d)

  unfoldable mutual
    unfolding insert_nested

    pub sorted_value : Value N → Value N
    sorted_value (text s) = text s
    sorted_value (flag b) = flag b
    sorted_value (num x) = num x
    sorted_value (instant t) = instant t
    sorted_value null = null
    sorted_value (obj d) = obj (sorted_items d)

    pub sorted_items : Items N → Items N
    sorted_items end = end
    sorted_items (item k v d) = insert_nested k (sorted_value v) (sorted_items d)

  insert_item : String × Value N → Fields N → Fields N
  insert_item e [] = e ∷ []
  insert_item e (x ∷ d) = if is_le (compare e.0 x.0) then e ∷ x ∷ d else x ∷ insert_item e d

  unfoldable pub dumps : Fields N → Fields N
  unfolding insert_item sorted_value
  dumps [] = []
  dumps (e ∷ d) = insert_item (e.0, sorted_value e.1) (dumps d)

  unfoldable pub loads : Fields N → Fields N
  loads payload = payload

  get-insert_item :
      (e : String × Value N) (d : Fields N) (k : String)
      → get (insert_item e d) k ≡ (if e.0 == k then some e.1 else get d k)
  unfolding insert_item
  get-insert_item e [] k = refl
  get-insert_item e (x ∷ d) k =
      ground (arith, eq_iff e.0 x.0, eq_iff e.0 k, eq_iff x.0 k, get-insert_item e d k)

  sorted_get :
      (d : Fields N) (k : String) → get (loads (dumps d)) k ≡ Option.map sorted_value (get d k)
  unfolding loads dumps
  sorted_get [] k = refl
  sorted_get (e ∷ d) k =
      rw (get-insert_item (e.0, sorted_value e.1) (dumps d) k, sorted_get d k) (ground arith)

  -- The value under a key of a nested dictionary.
  abbrev pub get_nested : Items N → String → Option (Value N)
  get_nested end k = none
  get_nested (item j v d) k = if j == k then some v else get_nested d k

  abbrev pub child : Value N → String → Option (Value N)
  child (obj d) k = get_nested d k
  child _ k = none

  -- A value but for what is in it, if it is a dictionary.
  abbrev pub outline : Value N → Value N
  outline (obj d) = obj end
  outline v = v

  -- What one reads under a path of keys.
  abbrev pub read : List String → Option (Value N) → Option (Value N)
  read path none = none
  read [] (some v) = some (outline v)
  read (k ∷ path) (some v) = read path (child v k)

  get_nested-insert :
      (k : String) (v : Value N) (d : Items N) (j : String)
      → get_nested (insert_nested k v d) j ≡ (if k == j then some v else get_nested d j)
  unfolding insert_nested
  get_nested-insert k v end j = refl
  get_nested-insert k v (item i u d) j =
      ground (arith, eq_iff k i, eq_iff k j, eq_iff i j, get_nested-insert k v d j)

  sorted_get_nested :
      (d : Items N) (k : String)
      → get_nested (sorted_items d) k ≡ Option.map sorted_value (get_nested d k)
  unfolding sorted_items
  sorted_get_nested end k = refl
  sorted_get_nested (item j v d) k =
      rw (get_nested-insert j (sorted_value v) (sorted_items d) k, sorted_get_nested d k)
        (ground arith)

  read-sorted :
      (path : List String) (o : Option (Value N))
      → read path (Option.map sorted_value o) ≡ read path o
  unfolding sorted_value
  read-sorted [] none = refl
  read-sorted (k ∷ path) none = refl
  read-sorted [] (some (text s)) = refl
  read-sorted [] (some (flag b)) = refl
  read-sorted [] (some (num x)) = refl
  read-sorted [] (some (instant t)) = refl
  read-sorted [] (some null) = refl
  read-sorted [] (some (obj d)) = refl
  read-sorted (k ∷ path) (some (text s)) = refl
  read-sorted (k ∷ path) (some (flag b)) = refl
  read-sorted (k ∷ path) (some (num x)) = refl
  read-sorted (k ∷ path) (some (instant t)) = refl
  read-sorted (k ∷ path) (some null) = refl
  read-sorted (k ∷ path) (some (obj d)) =
      ap (read path) (sorted_get_nested d k) ∙ read-sorted path (get_nested d k)

  -- The JSON text of a dictionary reads back with the same value under each key and path.
  pub read-loads-dumps :
      (d : Fields N) (k : String) (path : List String)
      → read path (get (loads (dumps d)) k) ≡ read path (get d k)
  read-loads-dumps d k path = ap (read path) (sorted_get d k) ∙ read-sorted path (get d k)
