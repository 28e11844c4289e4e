-- ===== src/Json.antt =====
-- JSON values as Python's `json` module reads them: `num` is a non-negative integer and
-- `other_num` the text of any other number. A dict keeps its keys in insertion order.
use estate_os_service.Base.{ℕ, String, Bool, Option, none, some, str_eq, if◌then◌else◌}

mutual
  pub data Json : Type 0 where
    null : Json
    bool : Bool → Json
    num : ℕ → Json
    other_num : String → Json
    text : String → Json
    arr : Items → Json
    obj : Fields → Json

  pub data Items : Type 0 where
    nil : Items
    item : Json → Items → Items

  pub data Fields : Type 0 where
    end : Fields
    field : String → Json → Fields → Fields

-- `d.get(key)`
abbrev pub get : String → Fields → Option Json
get k end = none
get k (field j v d) = if str_eq j k then some v else get k d

-- `d[key] = value`
abbrev pub put : String → Json → Fields → Fields
put k v end = field k v end
put k v (field j w d) = if str_eq j k then field k v d else field j w (put k v d)
