-- ===== src/Contracts/Json.antt =====
-- A JSON value, for the fields that the program declares as `dict[str, Any]`, and its comparison. Floats are left
-- out; the keys of an object are expected to differ, as those of a dict do.
use prodkit_control.Prelude.{
  ℕ, ◌+◌, ℕ_discrete, String, Bool, true, false, ◌&&◌, Option, none, some, ◌==◌, same, text_eq,
}
use prodkit_control.Prelude.Int.{ℤ, pos}

mutual
  pub data Json : Type 0 where
    null : Json
    boolean : Bool → Json
    number : ℤ → Json
    text : String → Json
    array : Items → Json
    object : Fields → Json

  pub data Items : Type 0 where
    nil : Items
    cons : Json → Items → Items

  pub data Fields : Type 0 where
    end : Fields
    field : String → Json → Fields → Fields

unfoldable pub ℤ_discrete : Discrete ℤ
ℤ_discrete = hlevel ℕ_discrete

-- Python's `True` and `False` as numbers
unfoldable pub as_int : Bool → ℤ
as_int true = pos 1
as_int false = pos 0

unfoldable pub get_field : String → Fields → Option Json
get_field k end = none
get_field k (field l v fs) = elim (text_eq l k) [ true ↦ some v | false ↦ get_field k fs ]

unfoldable pub size : Fields → ℕ
size end = 0
size (field k v fs) = size fs + 1

-- Python's `==`: a truth value is the number 0 or 1, an array is compared item by item, and an object
-- key by key, in any order.
unfoldable mutual
  pub same_json : Json → Json → Bool
  same_json null null = true
  same_json (boolean a) (boolean b) = same ℤ_discrete (as_int a) (as_int b)
  same_json (boolean a) (number b) = same ℤ_discrete (as_int a) b
  same_json (number a) (boolean b) = same ℤ_discrete a (as_int b)
  same_json (number a) (number b) = same ℤ_discrete a b
  same_json (text a) (text b) = text_eq a b
  same_json (array a) (array b) = same_items a b
  same_json (object a) (object b) = size a == size b && fields_within a b
  same_json _ _ = false

  pub same_items : Items → Items → Bool
  same_items nil nil = true
  same_items (cons a l) (cons b k) = same_json a b && same_items l k
  same_items _ _ = false

  -- every field of the first is one of the second, with the same value
  pub fields_within : Fields → Fields → Bool
  fields_within end b = true
  fields_within (field k v a) b =
      let rest = fields_within a b in
      elim (get_field k b) [ none ↦ false | some w ↦ same_json v w && rest ]
