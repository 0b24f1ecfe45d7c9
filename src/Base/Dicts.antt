-- ===== src/Base/Dicts.antt =====
-- A dict with text keys, in insertion order.
use Prim.Native.String.{String}
use mathlib.Core.Path.{◌≡◌, refl}
use mathlib.Core.Logic.{ite}
use mathlib.Core.Bool.{Bool, false, ◌||◌}
use mathlib.Core.Option.{Option, none, some}
use mathlib.Core.List.{List, [], ◌∷◌}
use native.Mathlib.Omega.{arith}
use linux_debug_mcp.Base.Tests.{holds, if◌then◌else◌}
use linux_debug_mcp.Base.Text.{String-discrete}

module _ {ℓ} {V : Type ℓ} where
  -- `d[key] = value`: a key that is there keeps its place.
  unfoldable pub set_item : String → V → List (String × V) → List (String × V)
  set_item key value [] = (key, value) ∷ []
  set_item key value ((k, v) ∷ rest) =
      ite (String-discrete k key) ((k, value) ∷ rest) ((k, v) ∷ set_item key value rest)

  -- `key in d`.
  unfoldable pub has_key : String → List (String × V) → Bool
  has_key key [] = false
  has_key key ((k, v) ∷ rest) = holds (String-discrete k key) || has_key key rest

  pub has_key-set_item :
      (name key : String) (value : V) (d : List (String × V))
      → has_key name (set_item key value d) ≡ (holds (String-discrete key name) || has_key name d)
  unfolding has_key set_item
  has_key-set_item name key value [] = refl
  has_key-set_item name key value ((k, v) ∷ rest) =
      ground (arith, has_key-set_item name key value rest)

  -- `d.get(key, default)`.
  unfoldable pub get_item : String → V → List (String × V) → V
  get_item key default [] = default
  get_item key default ((k, v) ∷ rest) = ite (String-discrete k key) v (get_item key default rest)

  -- `d.pop(key, None)`, what is left. A key stands once in a dict.
  unfoldable pub pop_item : String → List (String × V) → List (String × V)
  pop_item key [] = []
  pop_item key ((k, v) ∷ rest) =
      ite (String-discrete k key) (pop_item key rest) ((k, v) ∷ pop_item key rest)

  pub get_item-set_item :
      (name key : String) (default value : V) (d : List (String × V))
      → get_item name default (set_item key value d)
        ≡ ite (String-discrete key name) value (get_item name default d)
  unfolding get_item set_item
  get_item-set_item name key default value [] = refl
  get_item-set_item name key default value ((k, v) ∷ rest) =
      ground (arith, get_item-set_item name key default value rest)

  pub get_item-pop_item :
      (name key : String) (default : V) (d : List (String × V))
      → get_item name default (pop_item key d)
        ≡ ite (String-discrete key name) default (get_item name default d)
  unfolding get_item pop_item
  get_item-pop_item name key default [] = ground arith
  get_item-pop_item name key default ((k, v) ∷ rest) =
      ground (arith, get_item-pop_item name key default rest)

  pub has_key-pop_item :
      (name key : String) (d : List (String × V))
      → has_key name (pop_item key d) ≡ ite (String-discrete key name) false (has_key name d)
  unfolding has_key pop_item
  has_key-pop_item name key [] = ground arith
  has_key-pop_item name key ((k, v) ∷ rest) = ground (arith, has_key-pop_item name key rest)

  -- `d.get(key)`.
  unfoldable pub find_item : String → List (String × V) → Option V
  find_item key [] = none
  find_item key ((k, v) ∷ rest) =
      if holds (String-discrete k key) then some v else find_item key rest

  pub find_item-set_item :
      (name key : String) (value : V) (d : List (String × V))
      → find_item name (set_item key value d)
        ≡ (if holds (String-discrete key name) then some value else find_item name d)
  unfolding find_item set_item
  find_item-set_item name key value [] = refl
  find_item-set_item name key value ((k, v) ∷ rest) =
      ground (arith, find_item-set_item name key value rest)
