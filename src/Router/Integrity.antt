-- ===== src/Router/Integrity.antt =====
-- services/opportunity-router/src/opportunity_router/integrity.py. `json.dumps`, `json.loads`, SHA-256
-- and `datetime.isoformat` are parameters.
use roboinvest.Prelude.{ℕ, Bool, false, not, Option, none, some, String, str_eq, if◌then◌else◌}
use roboinvest.Contracts.Time.{DateTime}

-- the JSON-compatible values that are hashed
mutual
  pub data Json : Type 0 where
    null : Json
    boolean : Bool → Json
    number : ℕ → Json
    text : String → Json
    array : Items → Json
    object : Members → Json

  pub data Items : Type 0 where
    end : Items
    item : Json → Items → Items

  pub data Members : Type 0 where
    close : Members
    member : String → Json → Members → Members

-- `dumps` is `json.dumps` with sorted keys and no white space, `loads` gives none for a
-- `JSONDecodeError`, and `sha256` is the hexadecimal digest of a text.
pub record Codec : Type 0 where
  pub dumps : Json → String
  pub loads : String → Option Json
  pub sha256 : String → String
  pub isoformat : DateTime → String

unfoldable pub canonical_sha256 : Codec → Json → String
canonical_sha256 codec payload = codec.sha256 (codec.dumps payload)

-- `verify_canonical_payload` behind `json.loads`
unfoldable pub is_canonical : Codec → Option Json → String → String → Bool
is_canonical codec none payload_json declared_sha256 = false
is_canonical codec (some payload) payload_json declared_sha256 =
    if not (str_eq (codec.dumps payload) payload_json)
    then false
    else str_eq (codec.sha256 payload_json) declared_sha256

unfoldable pub verify_canonical_payload : Codec → String → String → Bool
unfolding is_canonical
verify_canonical_payload codec payload_json declared_sha256 =
    is_canonical codec (codec.loads payload_json) payload_json declared_sha256

abbrev pub text_or_null : Option String → Json
text_or_null none = null
text_or_null (some s) = text s
