-- ===== src/Common/Value.antt =====
-- The values behind interface{} in common/types.go and common/metadata.go, and Dict.ToBSON.
use durandal.Prelude.{ℕ, Bool}
use durandal.Prelude.Int.{ℤ}
use durandal.Prelude.Str.{Str}

-- `dict` is a common.Dict, `bson` a bson.M; `other` is a value that the program only passes on.
mutual
  pub data Value : Type 0 where
    str : Str → Value
    bool : Bool → Value
    time : ℤ → Value
    other : ℕ → Value
    list : Values → Value
    dict : Fields → Value
    bson : Fields → Value

  pub data Values : Type 0 where
    nil : Values
    cons : Value → Values → Values

  pub data Fields : Type 0 where
    end : Fields
    field : Str → Value → Fields → Fields

unfoldable mutual
  -- The type switch of ToBSON: a Dict is converted, any other value is kept.
  pub value_to_bson : Value → Value
  value_to_bson (str s) = str s
  value_to_bson (bool b) = bool b
  value_to_bson (time t) = time t
  value_to_bson (other n) = other n
  value_to_bson (list vs) = list vs
  value_to_bson (dict d) = bson (to_bson d)
  value_to_bson (bson d) = bson d

  pub to_bson : Fields → Fields
  to_bson end = end
  to_bson (field k v d) = field k (value_to_bson v) (to_bson d)
