-- ===== src/State/Cadence.antt =====
-- What the indexer uses of the packages cadence, ccf and jsoncdc: decoded values and their fields.
use rosetta.Shared.{ℕ, ◌^◌, ◌<◌, ◌≡◌, Bool, Option, none, some, Bytes, length, if◌then◌else◌}
use Prim.Native.String.{String}

-- A type assertion with `ok` is an option. `search_field` is SearchFieldByName, where `none` is a nil
-- interface; `as_optional` reads an Optional's value, which may be nil. An Address is an array of 8
-- bytes, a UFix64 a uint64.
pub record Cadence : Type 1 where
  pub Value : Type 0
  pub Event : Type 0
  pub has_ccf_prefix : Bytes → Bool
  pub ccf_decode : Bytes → Option Value
  pub json_decode : Bytes → Option Value
  pub as_event : Value → Option Event
  pub empty_event : Event
  pub field_count : Event → ℕ
  pub search_field : Event → String → Option Value
  pub as_address : Value → Option Bytes
  pub as_ufix64 : Value → Option ℕ
  pub as_string : Value → Option Bytes
  pub as_optional : Value → Option (Option Value)
  pub address_parameter : String
  pub public_key_parameter : String
  pub length-as_address : (v : Value) (a : Bytes) → as_address v ≡ some a → length a ≡ 8
  pub as_ufix64_lt : (v : Value) (n : ℕ) → as_ufix64 v ≡ some n → n < 2 ^ 64

module _ (c : Cadence) where
  -- `decodePayload`
  unfoldable pub decode_payload : Bytes → Option c.Value
  decode_payload payload =
      if c.has_ccf_prefix payload then c.ccf_decode payload else c.json_decode payload

  -- `decodeEvent`: a value that is no event is returned as an empty event, with the nil error of the
  -- decoding before it.
  unfoldable pub decode_event : Bytes → Option c.Event
  unfolding decode_payload
  decode_event payload = elim (decode_payload payload) [
    | none ↦ none
    | some val ↦ elim (c.as_event val) [ none ↦ some c.empty_event | some event ↦ some event ]
  ]
