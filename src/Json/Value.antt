-- ===== src/Json/Value.antt =====
-- JSON values, as the bodies of requests and the stored objects are: `undefined` is `none`. A number is
-- a natural number. An array may have members beside its items, as in JavaScript; printing drops them.
use nodejs_k8s.Prelude.{ℕ, Bool, Text}

mutual
  pub data Json : Type 0 where
    null : Json
    boolean : Bool → Json
    number : ℕ → Json
    string : Text → Json
    array : Items → Members → Json
    object : Members → Json

  pub data Items : Type 0 where
    no_items : Items
    item : Json → Items → Items

  pub data Members : Type 0 where
    no_members : Members
    member : Text → Json → Members → Members
