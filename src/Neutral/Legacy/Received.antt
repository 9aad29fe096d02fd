-- ===== src/Neutral/Legacy/Received.antt =====
-- crates/turbomcp-protocol/src/v2025_11_25/types.rs: the content blocks that a client decodes. The enum
-- `ContentBlock` is untagged: a block is decoded as the first variant whose required members are
-- there. A text has `text`, which no later block has; an image and an audio block have the same
-- required members, `data`, `mimeType` and `type`, so that either is an image; a link has `name` and
-- `uri`, and an embedded resource has `resource`.
use turbomcp.Prelude.{map}
use turbomcp.Neutral.Serde.{Serde}
use turbomcp.Neutral.Legacy.Wire.{
  ContentBlock, text_content, image_content, audio_content, resource_link, embedded_resource,
  PromptMessage, CallToolResult, GetPromptResult,
}

module _ (S : Serde) where
  unfoldable pub received_content : ContentBlock S → ContentBlock S
  received_content (text_content t) = text_content t
  received_content (image_content i) = image_content i
  received_content (audio_content a) = image_content (record {
    annotations = a.annotations;
    payload = a.payload;
    meta = a.meta;
    mime_type = a.mime_type;
    type_name = a.type_name;
  })
  received_content (resource_link l) = resource_link l
  received_content (embedded_resource e) = embedded_resource e

  unfoldable pub received_message : PromptMessage S → PromptMessage S
  unfolding received_content
  received_message m = record m { content = received_content m.content }

  unfoldable pub received_call_tool : CallToolResult S → CallToolResult S
  unfolding received_content
  received_call_tool r = record r { content = map received_content r.content }

  unfoldable pub received_get_prompt : GetPromptResult S → GetPromptResult S
  unfolding received_message
  received_get_prompt r = record r { messages = map received_message r.messages }
