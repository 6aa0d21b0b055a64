-- ===== src/Json.antt =====
-- JSON values as encoding/json decodes them into `any`: a number is its text, an object the list of its
-- members.
use qubership_authz_agent.Base.{Bytes, Bool}

mutual
  pub data Json : Type 0 where
    null : Json
    boolean : Bool → Json
    number : Bytes → Json
    string : Bytes → Json
    array : Items → Json
    object : Members → Json

  pub data Items : Type 0 where
    end : Items
    item : Json → Items → Items

  pub data Members : Type 0 where
    close : Members
    member : Bytes → Json → Members → Members
