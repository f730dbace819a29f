-- ===== src/Json.antt =====
-- The values of `nlohmann::json` that the program reads and builds. An integer stands for both of the
-- library's integer kinds; a float is kept by its text, which the program never looks at.
use s_size_store.Prelude.{
  ℤ, Bool, List, [], ◌∷◌, Option, none, some, ◌==◌, if◌then◌else◌, nat_eq, list_eq,
}
use s_size_store.Bytes.{Bytes}

mutual
  pub data Json : Type 0 where
    null : Json
    boolean : Bool → Json
    integer : ℤ → Json
    float : Bytes → Json
    string : Bytes → Json
    array : Elements → Json
    object : Members → Json

  pub data Elements : Type 0 where
    nil : Elements
    cons : Json → Elements → Elements

  pub data Members : Type 0 where
    end : Members
    member : Bytes → Json → Members → Members

-- `e.find(key)`
unfoldable pub find_member : Bytes → Members → Option Json
find_member key end = none
find_member key (member k v rest) = if k == key then some v else find_member key rest

-- `json[key] = value` on an object
unfoldable pub set_member : Bytes → Json → Members → Members
set_member key value end = member key value end
set_member key value (member k v rest) =
    if k == key then member k value rest else member k v (set_member key value rest)

-- An array of strings.
unfoldable pub strings : List Bytes → Elements
strings [] = nil
strings (s ∷ ss) = cons (string s) (strings ss)
