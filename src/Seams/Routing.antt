-- ===== src/Seams/Routing.antt =====
-- The routing data of a channel (`target_ref` and `opts`, src/kdive/seams/transport_state.py):
-- JSON values, with Python's equality of them. A float is not modelled.
use linux_debug_mcp.Base.{
  ℕ, ◌+◌, String, Bool, true, false, ◌&&◌, ◌==◌, holds, ite, String-discrete,
}

mutual
  -- `negative n` is -(n + 1). A tuple and a list differ, also under `==`.
  pub data Json : Type 0 where
    null : Json
    bool : Bool → Json
    int : ℕ → Json
    negative : ℕ → Json
    str : String → Json
    list : Items → Json
    tuple : Items → Json
    mapping : Fields → Json

  pub data Items : Type 0 where
    nil : Items
    cons : Json → Items → Items

  pub data Fields : Type 0 where
    end : Fields
    field : String → Json → Fields → Fields

-- `True == 1` and `False == 0`.
abbrev as_number : Bool → ℕ
as_number true = 1
as_number false = 0

abbrev size : Fields → ℕ
size end = 0
size (field k v fs) = size fs + 1

-- The test at the value of `key`, `false` where the key is missing.
at_key : (Json → Bool) → String → Fields → Bool
at_key test key end = false
at_key test key (field k v fs) = ite (String-discrete k key) (test v) (at_key test key fs)

mutual
  unfolding at_key

  json_eq : Json → Json → Bool
  json_eq null null = true
  json_eq (bool a) (bool b) = as_number a == as_number b
  json_eq (bool a) (int n) = as_number a == n
  json_eq (int m) (bool b) = m == as_number b
  json_eq (int m) (int n) = m == n
  json_eq (negative m) (negative n) = m == n
  json_eq (str s) (str t) = holds (String-discrete s t)
  json_eq (list xs) (list ys) = items_eq xs ys
  json_eq (tuple xs) (tuple ys) = items_eq xs ys
  json_eq (mapping fs) (mapping gs) = (size fs == size gs) && fields_in fs gs
  json_eq _ _ = false

  items_eq : Items → Items → Bool
  items_eq nil nil = true
  items_eq (cons x xs) (cons y ys) = json_eq x y && items_eq xs ys
  items_eq _ _ = false

  -- Each key of the first mapping has an equal value in the second.
  fields_in : Fields → Fields → Bool
  fields_in end gs = true
  fields_in (field k v fs) gs = at_key (json_eq v) k gs && fields_in fs gs

-- `==` of two mappings: their order plays no part.
unfoldable pub routing_eq : Fields → Fields → Bool
unfolding json_eq items_eq fields_in
routing_eq fs gs = (size fs == size gs) && fields_in fs gs
