-- ===== src/Json.antt =====
-- The values of JavaScript that travel through the program: variables of the store and the
-- parameters of commands. Numbers are whole numbers.
use not_gt.Base.{Text, codes, Bool, true, false, List, [], ◌∷◌, ◌++◌, show_nat, Dict}
use not_gt.Base.Int.{ℤ, pos, negsuc}
use Prim.Native.Nat.{suc}

mutual
  pub data Value : Type 0 where
    undef : Value
    null : Value
    bool : Bool → Value
    num : ℤ → Value
    str : Text → Value
    arr : Items → Value
    obj : Fields → Value

  pub data Items : Type 0 where
    nil : Items
    cons : Value → Items → Items

  pub data Fields : Type 0 where
    end : Fields
    field : Text → Value → Fields → Fields

abbrev pub items : Items → List Value
items nil = []
items (cons v vs) = v ∷ items vs

abbrev pub fields : Fields → Dict Value
fields end = []
fields (field k v fs) = (k, v) ∷ fields fs

abbrev pub of_fields : Dict Value → Fields
of_fields [] = end
of_fields ((k, v) ∷ m) = field k v (of_fields m)

abbrev pub of_items : List Value → Items
of_items [] = nil
of_items (v ∷ vs) = cons v (of_items vs)

-- `String(n)`.
unfoldable pub show_int : ℤ → Text
show_int (pos n) = show_nat n
show_int (negsuc n) = b'-' ∷ show_nat (suc n)

abbrev show_bool : Bool → Text
show_bool true = codes "true"
show_bool false = codes "false"

-- `String(value)`. The elements of an array are joined with commas, and a missing one is empty.
unfoldable mutual
  unfolding show_int

  pub to_text : Value → Text
  to_text undef = codes "undefined"
  to_text null = codes "null"
  to_text (bool b) = show_bool b
  to_text (num n) = show_int n
  to_text (str s) = s
  to_text (arr nil) = []
  to_text (arr (cons v vs)) = element_text v ++ rest_text vs
  to_text (obj fs) = codes "[object Object]"

  element_text : Value → Text
  element_text undef = []
  element_text null = []
  element_text (bool b) = show_bool b
  element_text (num n) = show_int n
  element_text (str s) = s
  element_text (arr nil) = []
  element_text (arr (cons v vs)) = element_text v ++ rest_text vs
  element_text (obj fs) = codes "[object Object]"

  rest_text : Items → Text
  rest_text nil = []
  rest_text (cons v vs) = b',' ∷ (element_text v ++ rest_text vs)
