-- ===== src/Headers.antt =====
-- crates/turbomcp-service/src/mcp_headers.rs: the values of the request-metadata headers.
pub mod RoundTrip
use Prim.Native.Char.{Char, code}
use Prim.Native.String
use turbomcp.Prelude.{
  ℕ, ◌≡◌, Bool, true, false, not, ◌&&◌, ◌||◌, String, Option, none, some, leb, if◌then◌else◌, ◌==◌,
  ◌==ℕ◌, string_key,
}
use turbomcp.Core.Json.{◌>>=◌}

-- A text is a list of characters. The bytes that the source tests are the characters' numbers, for
-- the bytes of a character outside ASCII are outside every tested range too.
abbrev pub all_chars : (ℕ → Bool) → String → Bool
all_chars p String.[] = true
all_chars p (String.◌∷◌ c s) = p (code c) && all_chars p s

-- `str::strip_prefix`.
abbrev pub strip_prefix : String → String → Option String
strip_prefix String.[] v = some v
strip_prefix (String.◌∷◌ c p) String.[] = none
strip_prefix (String.◌∷◌ c p) (String.◌∷◌ d v) =
    let rest = strip_prefix p v in if code c ==ℕ code d then rest else none

abbrev pub with_char : Char → Option String → Option String
with_char c none = none
with_char c (some s) = some (String.◌∷◌ c s)

-- `str::strip_suffix`.
abbrev pub strip_suffix : String → String → Option String
strip_suffix s String.[] = if String.[] == s then some String.[] else none
strip_suffix s (String.◌∷◌ c v) =
    let rest = with_char c (strip_suffix s v) in
    if String.◌∷◌ c v == s then some String.[] else rest

abbrev pub is_stripped : Option String → Bool
is_stripped none = false
is_stripped (some _) = true

abbrev pub starts_with : String → String → Bool
starts_with p v = is_stripped (strip_prefix p v)

abbrev pub ends_with : String → String → Bool
ends_with s v = is_stripped (strip_suffix s v)

unfoldable pub name_field_for : String → Option String
name_field_for method =
    if (method == "tools/call") || (method == "prompts/get")
    then some "name"
    else if method == "resources/read"
    then some "uri"
    else none

-- A byte of visible ASCII, a space or a tab.
unfoldable pub is_header_byte : ℕ → Bool
is_header_byte b = (leb 33 b && leb b 126) || (b ==ℕ 32) || (b ==ℕ 9)

abbrev pub tab : String
tab = "\t"

unfoldable pub is_header_safe : String → Bool
unfolding is_header_byte
is_header_safe value =
    if starts_with " " value || starts_with tab value || ends_with " " value || ends_with tab value
    then false
    else if starts_with "=?base64?" value && ends_with "?=" value
    then false
    else all_chars is_header_byte value

abbrev pub is_one_of : String → ℕ → Bool
is_one_of String.[] b = false
is_one_of (String.◌∷◌ c s) b = (code c ==ℕ b) || is_one_of s b

abbrev pub is_ascii_alphanumeric : ℕ → Bool
is_ascii_alphanumeric b =
    (leb 48 b && leb b 57) || (leb 65 b && leb b 90) || (leb 97 b && leb b 122)

unfoldable pub is_valid_header_name : String → Bool
is_valid_header_name name =
    not (name == "")
    && all_chars (λ b. is_ascii_alphanumeric b || is_one_of "!#$%&'*+-.^_`|~" b) name

-- What the codec uses of the `base64` crate (`STANDARD`), and the bytes of a text.
pub record Base64 : Type 1 where
  pub Bytes : Type 0
  pub as_bytes : String → Bytes
  pub from_utf8 : Bytes → Option String
  pub encode : Bytes → String
  pub decode : String → Option Bytes
  pub from_utf8-as_bytes : (s : String) → from_utf8 (as_bytes s) ≡ some s
  pub decode-encode : (b : Bytes) → decode (encode b) ≡ some b
  -- The alphabet, with the padding, is visible ASCII.
  pub encode_visible : (b : Bytes) → all_chars (λ c. leb 33 c && leb c 126) (encode b) ≡ true

module _ (B : Base64) where
  open B use {as_bytes, from_utf8, encode, decode}

  unfoldable pub encode_value : String → String
  encode_value value =
      if is_header_safe value
      then value
      else String.◌++◌ "=?base64?" (String.◌++◌ (encode (as_bytes value)) "?=")

  -- From what `decode_value` finds between the marks, if the value has them.
  abbrev pub from_payload : String → Option String → Option String
  from_payload value none = some value
  from_payload value (some payload) = decode payload >>= from_utf8

  unfoldable pub decode_value : String → Option String
  decode_value value = from_payload value (strip_prefix "=?base64?" value >>= strip_suffix "?=")
