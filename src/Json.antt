-- ===== src/Json.antt =====
-- JSON values as the program reads them through encoding/json: a `json.RawMessage` is the value
-- that its text denotes. Each list inside a value has a type of its own.
use sealbox.Base.{Bool, Option, none, some, [], Text, Dict, insert}

mutual
  pub data Json : Type 0 where
    null : Json
    bool : Bool → Json
    num : Text → Json
    str : Text → Json
    arr : Elems → Json
    obj : Members → Json

  pub data Elems : Type 0 where
    nil : Elems
    cons : Json → Elems → Elems

  -- the members of an object as they stand in the text, repeated keys included
  pub data Members : Type 0 where
    end : Members
    member : Text → Json → Members → Members

-- Decoding into a `map[string]json.RawMessage`: a repeated key keeps its last value.
unfoldable pub decode_members : Members → Dict Json → Dict Json
decode_members end out = out
decode_members (member k v rest) out = decode_members rest (insert k v out)

-- `json.Unmarshal(raw, &v)` for a string `v` that is empty before: null leaves it so.
unfoldable pub unmarshal_string : Json → Option Text
unmarshal_string null = some []
unmarshal_string (str s) = some s
unmarshal_string _ = none

unfoldable pub is_null : Json → Bool
is_null null = Bool.true
is_null _ = Bool.false
