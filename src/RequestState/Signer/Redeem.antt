-- ===== src/RequestState/Signer/Redeem.antt =====
-- Which tokens the signer takes back.
use Prim.Native.Char.{Char, code}
use Prim.Native.String
use text.Mathlib.TextLemmas.{nil-append, cons-append}
use text.Mathlib.TextPositions.{len-append}
use turbomcp.Prelude.{
  ℕ, ◌+◌, ◌*◌, ◌≤◌, ◌≡◌, ◌∙◌, ap, sym, refl, true, false, ◌&&◌, String, Option, none, some, ltb,
  leb, if◌then◌else◌, ◌==ℕ◌, ==ℕ_iff, ◌==◌, string_key, option_key, arith, ok, Result-cases,
  Bool-cases, inl, inr,
}
use turbomcp.RequestState.Signer.{
  split_once, avoids, Crypto, max_state_bytes, state_ttl, subject_value, payload_value, token_of,
  sign, rejected, parts_of, check_payload, check_bytes, verify,
}

split_once-append :
    (d : Char) (s t : String)
    → avoids d s ≡ true
    → split_once d (String.◌++◌ s (String.◌∷◌ d t)) ≡ (s, some t)
split_once-append d String.[] t h =
    rw (nil-append (String.◌∷◌ d t)) (rw ((==ℕ_iff (code d) (code d)).1 refl) refl)
split_once-append d (String.◌∷◌ c s) t h =
    let other : (code c ==ℕ code d) ≡ false = ground arith in
    let rest : avoids d s ≡ true = ground arith in
    rw (cons-append c s (String.◌∷◌ d t)) (rw other (rw (split_once-append d s t rest) refl))

dot_cons : (x : String) → String.◌++◌ "." x ≡ String.◌∷◌ "." x
dot_cons x = cons-append "." String.[] x ∙ ap (λ y. String.◌∷◌ "." y) (nil-append x)

after_version : (x : String) → String.◌++◌ "v1." x ≡ String.◌++◌ "v1" (String.◌∷◌ "." x)
after_version x =
    cons-append "v" "1." x
    ∙ ap (λ y. String.◌∷◌ "v" y) (cons-append "1" "." x ∙ ap (λ y. String.◌∷◌ "1" y) (dot_cons x))
    ∙ sym (
        cons-append "v" "1" (String.◌∷◌ "." x)
        ∙ ap (λ y. String.◌∷◌ "v" y)
            (cons-append "1" String.[] (String.◌∷◌ "." x)
              ∙ ap (λ y. String.◌∷◌ "1" y) (nil-append (String.◌∷◌ "." x))))

dot_then : (x y : String) → String.◌++◌ x (String.◌++◌ "." y) ≡ String.◌++◌ x (String.◌∷◌ "." y)
dot_then x y = ap (λ z. String.◌++◌ x z) (dot_cons y)

module _ (C : Crypto) where
  open C use {
    json, Bytes, same_bytes, size, number, as_u64, to_vec, from_slice, encode, decode, hmac,
  }
  open json use {Value, null, as_str, insert, empty, string}

  parts_of-token_of :
      (payload tag : Bytes)
      → parts_of C (token_of C payload tag) ≡ some (encode payload, encode tag)
  unfolding parts_of
  parts_of-token_of payload tag =
      let body = String.◌++◌ (encode payload) (String.◌++◌ "." (encode tag)) in
      let first : split_once "." (token_of C payload tag) ≡ ("v1", some body) =
        ap (split_once ".") (after_version body) ∙ split_once-append "." "v1" body refl in
      let second : split_once "." body ≡ (encode payload, some (encode tag)) =
        ap (split_once ".") (dot_then (encode payload) (encode tag))
        ∙ split_once-append "." (encode payload) (encode tag) (C.encode-avoids payload) in
      rw (first, parts_of) (rw second (rw first refl))

  len-token_of :
      (key payload : Bytes)
      → size payload ≤ max_state_bytes
      → String.len (token_of C payload (hmac key payload)) ≤ 2 * max_state_bytes
  len-token_of key payload h =
      let tag = encode (hmac key payload) in
      let body = String.◌++◌ (encode payload) (String.◌++◌ "." tag) in
      omega (
        arith,
        len-append "v1." body,
        len-append (encode payload) (String.◌++◌ "." tag),
        len-append "." tag,
        C.len-encode payload,
        C.len-encode (hmac key payload),
        C.length-hmac key payload,
        h,
      )

  as_str-subject_value : (subject : Option String) → as_str (subject_value C subject) ≡ subject
  as_str-subject_value none = C.as_str-null
  as_str-subject_value (some s) = json.as_str-string s

  check_payload-payload_value :
      (now expires : ℕ) (method method' : String) (subject subject' : Option String) (value : Value)
      → check_payload C now method' subject' (payload_value C method subject expires value) ≡ (
          if (method == method') && (subject == subject') && leb now expires
          then ok value
          else rejected C)
  unfolding check_payload payload_value
  check_payload-payload_value now expires method method' subject subject' value =
      let o0 = insert "m" (string method) empty in
      let o1 = insert "sub" (subject_value C subject) o0 in
      let o2 = insert "exp" (number expires) o1 in
      let at_m : json.get "m" (insert "d" value o2) ≡ some (string method) =
        json.get-insert "d" "m" value o2
        ∙ json.get-insert "exp" "m" (number expires) o1
        ∙ json.get-insert "sub" "m" (subject_value C subject) o0
        ∙ json.get-insert "m" "m" (string method) empty in
      let at_sub : json.get "sub" (insert "d" value o2) ≡ some (subject_value C subject) =
        json.get-insert "d" "sub" value o2
        ∙ json.get-insert "exp" "sub" (number expires) o1
        ∙ json.get-insert "sub" "sub" (subject_value C subject) o0 in
      let at_exp : json.get "exp" (insert "d" value o2) ≡ some (number expires) =
        json.get-insert "d" "exp" value o2 ∙ json.get-insert "exp" "exp" (number expires) o1 in
      let at_d : json.get "d" (insert "d" value o2) ≡ some value =
        json.get-insert "d" "d" value o2 in
      let opened = json.as_object-object (insert "d" value o2) in
      rw (opened, check_payload, payload_value)
        (rw (at_m, at_sub)
          (rw (json.as_str-string method, as_str-subject_value subject)
            (rw (at_exp, at_d) (rw (C.as_u64-number expires) (ground arith)))))

  record Signed (key : Bytes) (content : Value) (token : String) : Type 0 where
    payload : Bytes
    serialized : to_vec content ≡ ok payload
    small : size payload ≤ max_state_bytes
    written : token ≡ token_of C payload (hmac key payload)

  sign-Signed :
      (now : ℕ) (key : Bytes) (method : String) (subject : Option String) (value : Value)
      (token : String)
      → sign C now key method subject value ≡ ok token
      → Signed key (payload_value C method subject (now + state_ttl) value) token
  unfolding sign
  sign-Signed now key method subject value token h =
      elim (Result-cases (to_vec (payload_value C method subject (now + state_ttl) value))) [
        | inr (e, bad) ↦ ground arith
        | inl (payload, good) ↦ elim (Bool-cases (ltb max_state_bytes (size payload))) [
          | inl large ↦ ground arith
          | inr fits ↦ record {
            payload = payload;
            serialized = good;
            small = ground arith;
            written = ground arith;
          }
        ]
      ]

  -- A token that `sign` minted is redeemed by `verify` with the same key exactly if the method and
  -- the subject are those that it was minted for and it is at most ten minutes old: then the
  -- handler's state comes back, and otherwise the one error that every failed check reports.
  pub verify-sign :
      (minted now : ℕ) (key : Bytes) (method method' : String) (subject subject' : Option String)
      (value : Value) (token : String)
      → sign C minted key method subject value ≡ ok token
      → verify C now key method' subject' token ≡ (
          if (method == method') && (subject == subject') && leb now (minted + state_ttl)
          then ok value
          else rejected C)
  unfolding verify check_bytes
  verify-sign minted now key method method' subject subject' value token h =
      let signed = sign-Signed minted key method subject value token h in
      let p = signed.payload in
      let t = hmac key p in
      let short : ltb (2 * max_state_bytes) (String.len (token_of C p t)) ≡ false =
        ground (arith, len-token_of key p signed.small) in
      rw signed.written (
        rw (short, verify)
          (rw (parts_of-token_of p t) (
            rw (C.decode-encode p) (
              rw (C.decode-encode t) (
                rw (C.same_bytes-refl t, check_bytes)
                  (rw
                    (C.from_slice-to_vec (payload_value C method subject (minted + state_ttl) value)
                      p signed.serialized)
                    (check_payload-payload_value now (minted + state_ttl) method method' subject
                      subject' value)))))))
