-- ===== src/Floats.antt =====
-- Python's `float` (IEEE 754), which no `.antt` type gives: its comparisons, the literals `n.0`,
-- and the format `:.2f`. The comparisons are three separate tests, since all of them fail on NaN.
-- `IsOrdered` has the facts of IEEE order that theorems use; a NaN meets them, being in no order.
use asante_secure_multi_agen.Prelude.{ℕ, String, ◌≡◌, ◌<◌, ◌≤◌, Bool, true, false}

pub record Floats : Type 1 where
  pub Float : Type 0
  pub eqf : Float → Float → Bool
  pub ltf : Float → Float → Bool
  pub lef : Float → Float → Bool
  pub whole : ℕ → Float
  pub mul : Float → Float → Float
  pub format_2f : Float → String

-- Every whole number up to this one has its own float.
abbrev pub float_limit : ℕ
float_limit = 9_007_199_254_740_992

pub record IsOrdered (F : Floats) : Type 0 where
  pub ltf-whole : (m n : ℕ) → m < n → n ≤ float_limit → F.ltf (F.whole m) (F.whole n) ≡ true
  pub lef_of_ltf : (x y : F.Float) → F.ltf x y ≡ true → F.lef x y ≡ true
  pub lef_trans : (x y z : F.Float) → F.lef x y ≡ true → F.lef y z ≡ true → F.lef x z ≡ true
  pub ltf-lef : (x y z : F.Float) → F.ltf x y ≡ true → F.lef y z ≡ true → F.ltf x z ≡ true
  pub not-lef_of_ltf : (x y : F.Float) → F.ltf x y ≡ true → F.lef y x ≡ false
  pub not-ltf_of_lef : (x y : F.Float) → F.lef x y ≡ true → F.ltf y x ≡ false
