-- ===== src/Json.antt =====
-- JSON values, which the program handles as `dict`, `list`, `str`, `int`, `float`, `bool` and
-- `None`. A number is an integer here, its unit left open: the program copies numbers, and tests
-- them for zero.
use openbotflow.Prelude.{String, Bool, true, false, not, Option, none, some}
use openbotflow.Prelude.{◌==◌, nat_key, string_key, if◌then◌else◌, or_else}
use openbotflow.Prelude.Int.{ℤ, pos, negsuc}

mutual
  pub data Json : Type 0 where
    null : Json
    bool : Bool → Json
    num : ℤ → Json
    str : String → Json
    arr : Items → Json
    obj : Fields → Json

  pub data Items : Type 0 where
    nil : Items
    cons : Json → Items → Items

  pub data Fields : Type 0 where
    end : Fields
    field : String → Json → Fields → Fields

-- `bool(x)`
unfoldable pub truthy : Json → Bool
truthy null = false
truthy (bool b) = b
truthy (num (pos n)) = not (n == 0)
truthy (num (negsuc n)) = true
truthy (str s) = not (s == "")
truthy (arr nil) = false
truthy (arr (cons x xs)) = true
truthy (obj end) = false
truthy (obj (field k v m)) = true

-- d.get(k)
unfoldable pub get_field : String → Fields → Option Json
get_field k end = none
get_field k (field j v m) = if j == k then some v else get_field k m

-- d.get(k), with JSON's null for a key that is missing
unfoldable pub get_value : String → Fields → Json
unfolding get_field
get_value k m = or_else (get_field k m) null

-- d[k] = v
unfoldable pub put_field : String → Json → Fields → Fields
put_field k v end = field k v end
put_field k v (field j w m) = if j == k then field k v m else field j w (put_field k v m)

-- {k: v for k, v in d.items() if p(k)}
unfoldable pub keep_fields : (String → Bool) → Fields → Fields
keep_fields p end = end
keep_fields p (field k v m) = let rest = keep_fields p m in if p k then field k v rest else rest
