-- ===== src/Json.antt =====
-- Decoded JSON, the `Dict[str, Any]` of policy documents (consoleme/models.py, PolicyModel). A number is
-- kept as its literal. Dictionaries are compared as Python does, without regard to order.
use consoleme.Base.{
  String, Bool, true, false, ◌&&◌, Option, none, some, ◌==◌, str_eq, if◌then◌else◌,
}
use Prim.Native.Nat.{ℕ, suc}

mutual
  pub data Json : Type 0 where
    null : Json
    boolean : Bool → Json
    number : String → Json
    text : String → Json
    array : Items → Json
    object : Fields → Json

  pub data Items : Type 0 where
    nil : Items
    cons : Json → Items → Items

  pub data Fields : Type 0 where
    end : Fields
    field : String → Json → Fields → Fields

-- `d.get(k)`
unfoldable pub get : String → Fields → Option Json
get k end = none
get k (field j v fs) = if str_eq k j then some v else get k fs

-- `k in d`
unfoldable pub has_key : String → Fields → Bool
has_key k end = false
has_key k (field j v fs) = if str_eq k j then true else has_key k fs

unfoldable pub size : Fields → ℕ
size end = 0
size (field k v fs) = suc (size fs)

bool_eq : Bool → Bool → Bool
bool_eq true b = b
bool_eq false true = false
bool_eq false false = true

unfoldable mutual
  unfolding get size bool_eq

  -- `a == b`
  pub json_eq : Json → Json → Bool
  json_eq null null = true
  json_eq (boolean a) (boolean b) = bool_eq a b
  json_eq (number a) (number b) = str_eq a b
  json_eq (text a) (text b) = str_eq a b
  json_eq (array xs) (array ys) = items_eq xs ys
  json_eq (object fs) (object gs) = (size fs == size gs) && fields_in fs gs
  json_eq _ _ = false

  pub items_eq : Items → Items → Bool
  items_eq nil nil = true
  items_eq (cons x xs) (cons y ys) = json_eq x y && items_eq xs ys
  items_eq _ _ = false

  -- Every entry of `fs` is one of `gs`.
  pub fields_in : Fields → Fields → Bool
  fields_in end gs = true
  fields_in (field k v fs) gs =
      (elim (get k gs) [ none ↦ false | some w ↦ json_eq v w ]) && fields_in fs gs

-- Whether a document counts as true: it is not `None` and not an empty dictionary.
unfoldable pub truthy : Json → Bool
truthy null = false
truthy (boolean b) = b
truthy (number s) = if str_eq s "0" then false else true
truthy (text s) = if str_eq s "" then false else true
truthy (array nil) = false
truthy (array (cons x xs)) = true
truthy (object end) = false
truthy (object (field k v fs)) = true
