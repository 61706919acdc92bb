-- ===== src/Prelude/Assoc.antt =====
-- A Go map with text keys, as an association list. The order of an iteration over a map is not
-- fixed in Go, and no statement below depends on it.
use mathlib.Core.Path.{◌≡◌, refl}
use mathlib.Core.Bool.{true, false}
use mathlib.Core.Logic.{◌≢◌}
use mathlib.Core.Option.{Option, none, some}
use mathlib.Core.List.{List, [], ◌∷◌}
use Prim.Native.String.{String}
use native.Mathlib.Omega.{arith}
use text.Mathlib.Text.{◌==◌}
use text.Mathlib.TextEquality.{eq_iff}
use home_work_ad_processor_g.Prelude.Tests.{if◌then◌else◌}

-- An entry is a name and what it stands for.
abbrev pub Entries {ℓ} : Type ℓ → Type ℓ
Entries V = List (String × V)

module _ {ℓ} {V : Type ℓ} where
  -- `v, ok := m[key]`.
  unfoldable pub lookup : String → Entries V → Option V
  lookup key [] = none
  lookup key ((name, value) ∷ entries) =
      let later = lookup key entries in if name == key then some value else later

  -- `delete(m, key)`.
  unfoldable pub delete : String → Entries V → Entries V
  delete key [] = []
  delete key ((name, value) ∷ entries) =
      let others = delete key entries in if name == key then others else (name, value) ∷ others

  -- `m[key] = value`: the entry stands in front of the others.
  unfoldable pub insert : String → V → Entries V → Entries V
  unfolding delete
  insert key value entries = (key, value) ∷ delete key entries

  pub lookup-delete :
      (gone key : String) (entries : Entries V)
      → lookup key (delete gone entries) ≡ (if gone == key then none else lookup key entries)
  unfolding lookup delete
  lookup-delete gone key [] = ground arith
  lookup-delete gone key ((name, value) ∷ entries) =
      let others = lookup-delete gone key entries in
      ground (arith, eq_iff name gone, eq_iff name key, eq_iff gone key)

  pub lookup-insert :
      (new key : String) (value : V) (entries : Entries V)
      → lookup key (insert new value entries)
        ≡ (if new == key then some value else lookup key entries)
  unfolding lookup insert
  lookup-insert new key value entries = let others = lookup-delete new key entries in ground arith

  unfoldable pub values : Entries V → List V
  values [] = []
  values ((name, value) ∷ entries) = value ∷ values entries

pub str_refl : (k : String) → (k == k) ≡ true
str_refl k = (eq_iff k k).1 refl

pub str_ne : (a b : String) → a ≢ b → (a == b) ≡ false
str_ne a b ne = ground (arith, eq_iff a b)
