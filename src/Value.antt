-- ===== src/Value.antt =====
-- The values of the program: what `JSON.parse` returns, and `undefined` for a property that is
-- not there. A number keeps its size only, which the program reads for its truth value alone.
use inter_agent_bus.Base.{
  Bool, Option, String, Text, [], codes, eqb, false, if◌then◌else◌, none, not, some, true, ℕ, ◌==◌,
  ◌∷◌,
}

mutual
  pub data Value : Type 0 where
    undefined null : Value
    bool : Bool → Value
    num : ℕ → Value
    str : Text → Value
    arr : Items → Value
    obj : Fields → Value

  pub data Items : Type 0 where
    nil : Items
    cons : Value → Items → Items

  pub data Fields : Type 0 where
    end : Fields
    field : Text → Value → Fields → Fields

unfoldable pub lookup : Text → Fields → Value
lookup k end = undefined
lookup k (field j v fs) = if j == k then v else lookup k fs

-- `v.k`, which is `undefined` on all but objects. On `null` and `undefined` JavaScript throws:
-- `is_nullish` is tested first where that can happen.
unfoldable pub get_prop : String → Value → Value
get_prop k (obj fs) = lookup (codes k) fs
get_prop k _ = undefined

unfoldable pub put_field : Text → Value → Fields → Fields
put_field k v end = field k v end
put_field k v (field j w fs) = if j == k then field j v fs else field j w (put_field k v fs)

-- `{ ...v, k: w }`
unfoldable pub with_prop : String → Value → Value → Value
with_prop k w (obj fs) = obj (put_field (codes k) w fs)
with_prop k w _ = obj (field (codes k) w end)

-- `v == null`
unfoldable pub is_nullish : Value → Bool
is_nullish undefined = true
is_nullish null = true
is_nullish _ = false

-- The truth value of a value in a condition.
unfoldable pub truthy : Value → Bool
truthy undefined = false
truthy null = false
truthy (bool b) = b
truthy (num n) = not (eqb n 0)
truthy (str []) = false
truthy (str (c ∷ s)) = true
truthy (arr vs) = true
truthy (obj fs) = true

-- `a || b`
unfoldable pub or_else : Value → Value → Value
or_else a b = if truthy a then a else b

unfoldable pub is_array : Value → Bool
is_array (arr vs) = true
is_array _ = false

-- The text of a string value, where the code asks `typeof v === 'string'`.
unfoldable pub as_text : Value → Option Text
as_text (str s) = some s
as_text _ = none

-- `v === "k"`
unfoldable pub is_text : String → Value → Bool
is_text k (str s) = s == codes k
is_text k _ = false

-- What a text or nothing is as a value.
abbrev pub of_option : Option Text → Value
of_option none = null
of_option (some s) = str s
