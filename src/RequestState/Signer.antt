-- ===== src/RequestState/Signer.antt =====
-- crates/turbomcp-server/src/mrtr.rs, `StateSigner`: the opaque text that carries a handler's state
-- through the client. Clocks are in seconds since the epoch.
pub mod Redeem
use Prim.Native.Char.{Char, code}
use Prim.Native.String
use turbomcp.Prelude.{
  ℕ, ◌+◌, ◌*◌, ◌≤◌, ◌≡◌, ◌↔◌, Bool, true, false, not, ◌&&◌, String, Option, none, some, List, [],
  ◌∷◌, ltb, if◌then◌else◌, ◌==ℕ◌, ==ℕ_iff, ◌==◌, Key, string_key, option_key, arith, length, Result,
  ok, err,
}
use turbomcp.Core.Json.{Json, member, ◌>>=◌}
use mathlib.Core.Option
use turbomcp.Core.Error.{McpError, internal, invalid_params}

-- `str::split_once` at a character: what stands before its first place, and what stands after.
abbrev pub split_once : Char → String → String × Option String
split_once d String.[] = (String.[], none)
split_once d (String.◌∷◌ c s) =
    let (before, after) = split_once d s in
    if code c ==ℕ code d then (String.[], some s) else (String.◌∷◌ c before, after)

-- The character does not occur.
abbrev pub avoids : Char → String → Bool
avoids d String.[] = true
avoids d (String.◌∷◌ c s) = not (code c ==ℕ code d) && avoids d s

-- What the signer uses of the crates `serde_json`, `base64` (`URL_SAFE_NO_PAD`), `hmac` and `sha2`.
pub record Crypto : Type 1 where
  pub json : Json
  -- `Vec<u8>`, with its equality and its length.
  pub Bytes : Type 0
  pub same_bytes : Bytes → Bytes → Bool
  pub size : Bytes → ℕ
  pub number : ℕ → json.Value
  pub as_u64 : json.Value → Option ℕ
  pub to_vec : json.Value → Result Bytes String
  pub from_slice : Bytes → Option json.Value
  pub encode : Bytes → String
  pub decode : String → Option Bytes
  -- HMAC-SHA-256, by the key and the message.
  pub hmac : Bytes → Bytes → Bytes
  pub same_bytes-refl : (b : Bytes) → same_bytes b b ≡ true
  pub as_u64-number : (n : ℕ) → as_u64 (number n) ≡ some n
  pub as_str-null : json.as_str json.null ≡ none
  pub from_slice-to_vec : (v : json.Value) (b : Bytes) → to_vec v ≡ ok b → from_slice b ≡ some v
  pub decode-encode : (b : Bytes) → decode (encode b) ≡ some b
  pub encode-avoids : (b : Bytes) → avoids "." (encode b) ≡ true
  pub len-encode : (b : Bytes) → 3 * String.len (encode b) ≤ 4 * size b + 2
  pub length-hmac : (key message : Bytes) → size (hmac key message) ≡ 32

abbrev pub max_state_bytes : ℕ
max_state_bytes = 32 * 1024

abbrev pub state_ttl : ℕ
state_ttl = 10 * 60

module _ (C : Crypto) where
  open C use {
    json, Bytes, same_bytes, size, number, as_u64, to_vec, from_slice, encode, decode, hmac,
  }
  open json use {Value, Object, insert, empty, object, string, null, as_str}

  abbrev pub subject_value : Option String → Value
  subject_value none = null
  subject_value (some s) = string s

  -- `json!({ "m": method, "sub": subject, "exp": expires, "d": data })`.
  unfoldable pub payload_value : String → Option String → ℕ → Value → Value
  payload_value method subject expires value = object (
      insert "d" value (
        insert "exp" (number expires)
          (insert "sub" (subject_value subject) (insert "m" (string method) empty))))

  abbrev pub too_large : McpError
  too_large = invalid_params "request state exceeds the 32768-byte limit"

  -- `format!("v1.{}.{}", ..)`.
  abbrev pub token_of : Bytes → Bytes → String
  token_of payload tag =
      String.◌++◌ "v1." (String.◌++◌ (encode payload) (String.◌++◌ "." (encode tag)))

  unfoldable pub sign : ℕ → Bytes → String → Option String → Value → Result String McpError
  unfolding payload_value
  sign now key method subject value =
      elim (to_vec (payload_value method subject (now + state_ttl) value)) [
        | err e ↦ err (internal (String.◌++◌ "serialize request state: " e))
        | ok payload ↦
            if ltb max_state_bytes (size payload)
            then err too_large
            else ok (token_of payload (hmac key payload))
      ]

  abbrev pub rejected : Result Value McpError
  rejected = err (invalid_params "requestState failed verification")

  -- `token.splitn(3, '.')`, when it has three parts of which the first is `v1`.
  unfoldable pub parts_of : String → Option (String × String)
  parts_of token =
      let (version, after) = split_once "." token in
      elim after [
        | none ↦ none
        | some rest ↦
            let (payload, tag) = split_once "." rest in
            if version == "v1" then tag >>= (λ t. some (payload, t)) else none
      ]

  -- The conditions on the parsed payload, in the order of the source.
  unfoldable pub check_payload : ℕ → String → Option String → Value → Result Value McpError
  check_payload now method subject parsed =
      if not ((member json "m" parsed >>= as_str) == some method)
      then rejected
      else if not ((member json "sub" parsed >>= as_str) == subject)
      then rejected
      else if ltb (Option.get_or (member json "exp" parsed >>= as_u64) 0) now
      then rejected
      else ok (Option.get_or (member json "d" parsed) null)

  unfoldable pub check_bytes :
      ℕ → Bytes → String → Option String → Bytes → Bytes → Result Value McpError
  check_bytes now key method subject payload tag =
      if not (same_bytes (hmac key payload) tag) then rejected else elim (from_slice payload) [
        | none ↦ rejected
        | some parsed ↦ check_payload now method subject parsed
      ]

  unfoldable pub verify : ℕ → Bytes → String → Option String → String → Result Value McpError
  verify now key method subject token =
      if ltb (2 * max_state_bytes) (String.len token) then rejected else elim (parts_of token) [
        | none ↦ rejected
        | some (p, t) ↦ elim (decode p) [
          | none ↦ rejected
          | some payload ↦ elim (decode t) [
            | none ↦ rejected
            | some tag ↦ check_bytes now key method subject payload tag
          ]
        ]
      ]
