-- ===== src/Neutral/Kept.antt =====
-- What a value of neutral.rs looks like after a server has widened it and a client has received and
-- narrowed it: a size is cut to the 63 bits that the wires carry, and an audio block is an image, since
-- the decoding of a block without its tag takes the first variant that fits.
use mathlib.Core.Option
use turbomcp.Prelude.{map, if◌then◌else◌, Option, none, some, String}
use turbomcp.Neutral.Serde.{Serde}
use turbomcp.Neutral.Convert.{clamped}
use turbomcp.Neutral.Types.{
  CachePolicy, private_scope, Resource, Content, text, image, audio, resource, resource_link,
  CallToolResult, ListResourcesResult, PromptMessage, GetPromptResult,
}

-- The cache policy of the 2026-07-28 wire: private and stale where the handler left it open.
abbrev pub kept_cache : Option CachePolicy → Option CachePolicy
kept_cache none = some (record { scope = private_scope; ttl_ms = 0 })
kept_cache (some p) = some p

module _ (S : Serde) where
  -- The `type` that the schema gives to a content block.
  abbrev pub kind_tag : Content S → String
  kind_tag (text t a m) = "text"
  kind_tag (image p t a m) = "image"
  kind_tag (audio p t a m) = "audio"
  kind_tag (resource c a m) = "resource"
  kind_tag (resource_link r) = "resource_link"

  abbrev pub kept_resource : Resource S → Resource S
  kept_resource r = record r { size = Option.map clamped r.size }

  abbrev pub kept_content : Content S → Content S
  kept_content (text t a m) = text t a m
  kept_content (image p t a m) = image p t a m
  kept_content (audio p t a m) = image p t a m
  kept_content (resource c a m) = resource c a m
  kept_content (resource_link r) = resource_link (kept_resource r)

  abbrev pub kept_message : PromptMessage S → PromptMessage S
  kept_message m = record m { content = kept_content m.content }

  -- A null that stands for nothing.
  abbrev pub kept_value : Option S.json.Value → Option S.json.Value
  kept_value none = none
  kept_value (some v) = if S.is_null v then none else some v

  abbrev pub kept_call_tool : CallToolResult S → CallToolResult S
  kept_call_tool r = record r {
    content = map kept_content r.content;
    structured_content = kept_value r.structured_content;
  }

  abbrev pub kept_get_prompt : GetPromptResult S → GetPromptResult S
  kept_get_prompt r = record r { messages = map kept_message r.messages }

  abbrev pub kept_list_resources : ListResourcesResult S → ListResourcesResult S
  kept_list_resources r = record r { resources = map kept_resource r.resources }
