-- ===== src/Json.antt =====
-- The values of jansson and the operations on its objects that the program uses.
use dnsconfd.Prelude.{Bool, Option, none, some, List, [], ◌∷◌, Text, text_eq, if◌then◌else◌}
use dnsconfd.Prelude.Int.{ℤ}

mutual
  pub data Json : Type 0 where
    null : Json
    boolean : Bool → Json
    integer : ℤ → Json
    real : Text → Json
    string : Text → Json
    array : Items → Json
    object : Fields → Json

  pub data Items : Type 0 where
    no_items : Items
    item : Json → Items → Items

  pub data Fields : Type 0 where
    no_fields : Fields
    entry : Text → Json → Fields → Fields

unfoldable pub json_object_get : Text → Fields → Option Json
json_object_get key no_fields = none
json_object_get key (entry k v m) = if text_eq k key then some v else json_object_get key m

-- A key that is there gets the new value.
unfoldable pub json_object_set_new : Text → Json → Fields → Fields
json_object_set_new key value no_fields = entry key value no_fields
json_object_set_new key value (entry k v m) =
    if text_eq k key then entry k value m else entry k v (json_object_set_new key value m)

-- The array that `json_array_append_new` builds from the texts of a list.
unfoldable pub strings : List Text → Items
strings [] = no_items
strings (t ∷ l) = item (string t) (strings l)
