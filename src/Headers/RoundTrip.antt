-- ===== src/Headers/RoundTrip.antt =====
-- A header value that was encoded is legal in a header and decodes to the text it stands for.
use Prim.Native.Char.{Char, code}
use Prim.Native.String
use text.Mathlib.TextLemmas.{nil-append, cons-append}
use turbomcp.Prelude.{
  ℕ, suc, ◌+◌, ◌≡◌, ◌≢◌, ◌∙◌, refl, ap, sym, Bool, true, ◌&&◌, String, none, some, leb, arith, ◌==◌,
  ==ℕ_iff, string_key, same_refl, Bool-cases, Option-cases, inl, inr,
}
use turbomcp.Core.Json.{◌>>=◌}
use turbomcp.Headers.{
  all_chars, strip_prefix, strip_suffix, with_char, is_stripped, ends_with, is_header_byte,
  is_header_safe, Base64, from_payload, encode_value, decode_value,
}

strip_prefix-append : (p v : String) → strip_prefix p (String.◌++◌ p v) ≡ some v
strip_prefix-append String.[] v = ap some (nil-append v)
strip_prefix-append (String.◌∷◌ c p) v =
    rw (cons-append c p v) (rw ((==ℕ_iff (code c) (code c)).1 refl) (strip_prefix-append p v))

abbrev length : String → ℕ
length String.[] = 0
length (String.◌∷◌ c s) = suc (length s)

length-append : (s t : String) → length (String.◌++◌ s t) ≡ length s + length t
length-append String.[] t = omega (arith, ap length (nil-append t))
length-append (String.◌∷◌ c s) t = omega (arith, ap length (cons-append c s t), length-append s t)

longer : (c : Char) (v s : String) → length (String.◌++◌ (String.◌∷◌ c v) s) ≢ length s
longer c v s e = omega (arith, e, length-append (String.◌∷◌ c v) s)

strip_suffix_self : (s : String) → strip_suffix s s ≡ some String.[]
strip_suffix_self String.[] = refl
strip_suffix_self (String.◌∷◌ c s) = rw (same_refl (String.◌∷◌ c s)) refl

strip_suffix-append : (s v : String) → strip_suffix s (String.◌++◌ v s) ≡ some v
strip_suffix-append s String.[] = rw (nil-append s) (strip_suffix_self s)
strip_suffix-append s (String.◌∷◌ c v) = elim (Bool-cases (String.◌++◌ (String.◌∷◌ c v) s == s)) [
  | inl e ↦ elim (longer c v s (ap length ((string_key.same_iff _ s).0 e))) [ ]
  | inr e ↦ rw (cons-append c v s) (
      rw (ap (λ t. t == s) (sym (cons-append c v s)) ∙ e)
        (ap (with_char c) (strip_suffix-append s v)))
]

ends_with-strip_prefix :
    (s p v r : String) → strip_prefix p v ≡ some r → ends_with s r ≡ true → ends_with s v ≡ true
ends_with-strip_prefix s String.[] v r h e = ground (arith, h, e)
ends_with-strip_prefix s (String.◌∷◌ c p) String.[] r h e = ground (arith, h)
ends_with-strip_prefix s (String.◌∷◌ c p) (String.◌∷◌ d v) r h e =
    ground (arith, ends_with-strip_prefix s p v r)

all_chars-append :
    (p : ℕ → Bool) (s t : String) → all_chars p (String.◌++◌ s t) ≡ (all_chars p s && all_chars p t)
all_chars-append p String.[] t = ap (all_chars p) (nil-append t)
all_chars-append p (String.◌∷◌ c s) t =
    rw (cons-append c s t) (ground (arith, all_chars-append p s t))

all_chars-weaken :
    (s : String)
    → all_chars (λ c. leb 33 c && leb c 126) s ≡ true
    → all_chars is_header_byte s ≡ true
unfolding is_header_byte
all_chars-weaken String.[] h = refl
all_chars-weaken (String.◌∷◌ c s) h = ground (arith, all_chars-weaken s)

safe-visible : (v : String) → is_header_safe v ≡ true → all_chars is_header_byte v ≡ true
unfolding is_header_safe
safe-visible v h = ground arith

-- A safe value does not look like an encoded one.
safe-strip :
    (v : String)
    → is_header_safe v ≡ true
    → (strip_prefix "=?base64?" v >>= strip_suffix "?=") ≡ none
unfolding is_header_safe
safe-strip v h = elim (Option-cases (strip_prefix "=?base64?" v)) [
  | inl e ↦ rw e refl
  | inr (r, e) ↦ elim (Option-cases (strip_suffix "?=" r)) [
    | inl f ↦ rw (e, f) refl
    | inr (x, f) ↦
        let ends : ends_with "?=" v ≡ true =
          ends_with-strip_prefix "?=" "=?base64?" v r e (ap is_stripped f) in
        ground (arith, h, e, ends)
  ]
]

module _ (B : Base64) where
  open B use {as_bytes, encode, decode, from_utf8}

  abbrev wrapped : String → String
  wrapped v = String.◌++◌ "=?base64?" (String.◌++◌ (encode (as_bytes v)) "?=")

  decode-wrapped : (v : String) → decode_value B (wrapped v) ≡ some v
  unfolding decode_value
  decode-wrapped v =
      ap (λ o. from_payload B (wrapped v) (o >>= strip_suffix "?="))
        (strip_prefix-append "=?base64?" (String.◌++◌ (encode (as_bytes v)) "?="))
      ∙ ap (from_payload B (wrapped v)) (strip_suffix-append "?=" (encode (as_bytes v)))
      ∙ ap (λ o. o >>= from_utf8) (B.decode-encode (as_bytes v))
      ∙ B.from_utf8-as_bytes v

  visible-wrapped : (v : String) → all_chars is_header_byte (wrapped v) ≡ true
  unfolding is_header_byte
  visible-wrapped v =
      all_chars-append is_header_byte "=?base64?" (String.◌++◌ (encode (as_bytes v)) "?=")
      ∙ all_chars-append is_header_byte (encode (as_bytes v)) "?="
      ∙ rw (all_chars-weaken (encode (as_bytes v)) (B.encode_visible (as_bytes v))) refl

  decode-safe : (v : String) → is_header_safe v ≡ true → decode_value B v ≡ some v
  unfolding decode_value
  decode-safe v e = ap (from_payload B v) (safe-strip v e)

  -- Every text, encoded as a header value, consists of visible ASCII, spaces and tabs, and decodes
  -- to the same text.
  pub decode-encode_value :
      (v : String)
      → (decode_value B (encode_value B v) ≡ some v)
        × (all_chars is_header_byte (encode_value B v) ≡ true)
  unfolding encode_value
  decode-encode_value v = elim (Bool-cases (is_header_safe v)) [
    | inl e ↦ rw e (decode-safe v e, safe-visible v e)
    | inr e ↦ rw e (decode-wrapped v, visible-wrapped v)
  ]
