-- ===== src/Prelude/Json.antt =====
-- A JSON value, for the fields of type map[string]any and for what json.Marshal is given.
use Prim.Native.Nat.{ℕ}
use Prim.Native.String.{String}
use mathlib.Core.Bool.{Bool, true, false, not, ◌&&◌}
use mathlib.Core.Path.{◌≡◌, refl}
use native.Mathlib.Omega.{arith}
use device_platform.Prelude.Tests.{◌==◌, ==_refl, nat_eq, string_eq}
use mathlib.Core.Option.{Option, none, some}

mutual
  pub data Json : Type 0 where
    null : Json
    boolean : Bool → Json
    number : ℕ → Json
    text : String → Json
    array : Items → Json
    object : Fields → Json

  pub data Items : Type 0 where
    nil : Items
    cons : Json → Items → Items

  pub data Fields : Type 0 where
    end : Fields
    field : String → Json → Fields → Fields

abbrev pub empty_object : Json
empty_object = object end

-- A *string: null when it is nil.
abbrev pub optional_text : Option String → Json
optional_text none = null
optional_text (some s) = text s

-- Whether two values have the same encoding: the fields of an object stand in the order in which
-- json.Marshal writes them, which is that of their names.
unfoldable mutual
  pub same_json : Json → Json → Bool
  same_json null null = true
  same_json (boolean true) (boolean b) = b
  same_json (boolean false) (boolean b) = not b
  same_json (number a) (number b) = a == b
  same_json (text s) (text t) = s == t
  same_json (array xs) (array ys) = same_items xs ys
  same_json (object fs) (object gs) = same_fields fs gs
  same_json _ _ = false

  pub same_items : Items → Items → Bool
  same_items nil nil = true
  same_items (cons x xs) (cons y ys) = same_json x y && same_items xs ys
  same_items _ _ = false

  pub same_fields : Fields → Fields → Bool
  same_fields end end = true
  same_fields (field k x fs) (field l y gs) = k == l && same_json x y && same_fields fs gs
  same_fields _ _ = false

mutual
  unfolding same_json same_items same_fields

  pub same_json_refl : (x : Json) → same_json x x ≡ true
  same_json_refl null = refl
  same_json_refl (boolean true) = refl
  same_json_refl (boolean false) = refl
  same_json_refl (number n) = ==_refl n
  same_json_refl (text s) = ==_refl s
  same_json_refl (array xs) = same_items_refl xs
  same_json_refl (object fs) = same_fields_refl fs

  pub same_items_refl : (xs : Items) → same_items xs xs ≡ true
  same_items_refl nil = refl
  same_items_refl (cons x xs) = ground (arith, same_json_refl x, same_items_refl xs)

  pub same_fields_refl : (fs : Fields) → same_fields fs fs ≡ true
  same_fields_refl end = refl
  same_fields_refl (field k x fs) = ground (arith, ==_refl k, same_json_refl x, same_fields_refl fs)
