-- ===== src/Prelude/Table.antt =====
-- A JavaScript `Map` with text keys: an association list in insertion order. Setting a key that is
-- there keeps its place, as `Map.prototype.set` does.
use Prim.Native.Nat.{◌+◌, ◌≤◌}
use Prim.Native.String.{String}
use mathlib.Core.Path.{◌≡◌, refl, subst}
use mathlib.Core.Logic.{inl, inr}
use mathlib.Core.Option.{Option, none, some}
use mathlib.Core.List.{List, [], ◌∷◌}
use native.Mathlib.Omega.{arith}
use text.Mathlib.Text.{◌==◌}
use text.Mathlib.TextEquality.{eq_iff}
use text.Mathlib.TextPositions.{eq_refl}
use glyph_protocol.Prelude.Tests.{if◌then◌else◌, Bool-cases}
use glyph_protocol.Prelude.Lists.{length}

abbrev pub Table {ℓ} : Type ℓ → Type ℓ
Table V = List (String × V)

module _ {ℓ} {V : Type ℓ} where
  unfoldable pub get : Table V → String → Option V
  get [] k = none
  get ((j, v) ∷ m) k = if j == k then some v else get m k

  unfoldable pub set : Table V → String → V → Table V
  set [] k v = (k, v) ∷ []
  set ((j, w) ∷ m) k v = if j == k then (j, v) ∷ m else (j, w) ∷ set m k v

  unfoldable pub delete : Table V → String → Table V
  delete [] k = []
  delete ((j, v) ∷ m) k = let rest = delete m k in if j == k then rest else (j, v) ∷ rest

  unfoldable pub keys : Table V → List String
  keys [] = []
  keys ((j, v) ∷ m) = j ∷ keys m

  unfoldable pub values : Table V → List V
  values [] = []
  values ((j, v) ∷ m) = v ∷ values m

  pub get-set :
      (m : Table V) (k j : String) (v : V)
      → get (set m k v) j ≡ (if k == j then some v else get m j)
  unfolding get set
  get-set [] k j v = refl
  get-set ((i, w) ∷ m) k j v = ground (arith, eq_iff i k, eq_iff i j, eq_iff k j, get-set m k j v)

  pub get-delete :
      (m : Table V) (k j : String) → get (delete m k) j ≡ (if k == j then none else get m j)
  unfolding get delete
  get-delete [] k j = ground arith
  get-delete ((i, w) ∷ m) k j = ground (arith, eq_iff i k, eq_iff i j, eq_iff k j, get-delete m k j)

  pub get-set_self : (m : Table V) (k : String) (v : V) → get (set m k v) k ≡ some v
  get-set_self m k v = simp (get-set, eq_refl)

  pub get-delete_self : (m : Table V) (k : String) → get (delete m k) k ≡ none
  get-delete_self m k = simp (get-delete, eq_refl)

  pub length-set : (m : Table V) (k : String) (v : V) → length (set m k v) ≤ length m + 1
  unfolding set
  length-set [] k v = omega arith
  length-set ((i, w) ∷ m) k v = ground (arith, length-set m k v)

  pub length-delete : (m : Table V) (k : String) → length (delete m k) ≤ length m
  unfolding delete
  length-delete [] k = omega arith
  length-delete ((i, w) ∷ m) k = ground (arith, length-delete m k)

pub ruleset table_laws = (get-set, get-delete, get-set_self, get-delete_self)

-- A property of every value of a table.
module _ {ℓ κ} {V : Type ℓ} (P : V → Type κ) where
  abbrev pub AllValues : Table V → Type κ
  AllValues [] = Unit
  AllValues ((k, v) ∷ m) = P v × AllValues m

  pub AllValues-get : (m : Table V) (k : String) {v : V} → AllValues m → get m k ≡ some v → P v
  unfolding get
  AllValues-get [] k h e = absurd (cc)
  AllValues-get ((j, w) ∷ m) k {v} h e = elim (Bool-cases (j == k)) [
    | inl here ↦ let same : some w ≡ some v = rw here at e in subst P (cc) h.0
    | inr there ↦ AllValues-get m k h.1 (rw there at e)
  ]

  pub AllValues-set : (m : Table V) (k : String) (v : V) → AllValues m → P v → AllValues (set m k v)
  unfolding set
  AllValues-set [] k v h p = (p, tt)
  AllValues-set ((j, w) ∷ m) k v h p = elim (Bool-cases (j == k)) [
    | inl here ↦ rw here (p, h.1)
    | inr there ↦ rw there (h.0, AllValues-set m k v h.1 p)
  ]

  pub AllValues-delete : (m : Table V) (k : String) → AllValues m → AllValues (delete m k)
  unfolding delete
  AllValues-delete [] k h = tt
  AllValues-delete ((j, w) ∷ m) k h = elim (Bool-cases (j == k)) [
    | inl here ↦ rw here (AllValues-delete m k h.1)
    | inr there ↦ rw there (h.0, AllValues-delete m k h.1)
  ]
