-- ===== src/Domain/Json.antt =====
-- The values that `JSON.parse` makes: `unknown` in the source.
pub mod Stringify
pub mod Parse
pub mod Plain
use log_stream.Base.{Bool, List, [], ◌∷◌, Option, none, some, if◌then◌else◌}
use log_stream.Base.Number.{Number}
use log_stream.Base.Text.{Text, text_eq}

-- An object's members are its own properties, in the order of `Object.entries`.
mutual
  pub data Json : Type 0 where
    null : Json
    boolean : Bool → Json
    number : Number → Json
    string : Text → Json
    array : Items → Json
    object : Members → Json

  pub data Items : Type 0 where
    no_items : Items
    item : Json → Items → Items

  pub data Members : Type 0 where
    no_members : Members
    member : (key : Text) → Json → Members → Members

-- An own property: `hasOwn` and the read behind it.
unfoldable pub get_own : Text → Members → Option Json
get_own key no_members = none
get_own key (member k value rest) = if text_eq k key then some value else get_own key rest

-- The elements that `entries()` runs over.
unfoldable pub items : Items → List Json
items no_items = []
items (item value rest) = value ∷ items rest
