-- ===== src/Tests/Headers.antt =====
-- A text codec with the laws of `Base64`: each character stands as its number in unary.
use Prim.Native.Char.{Char, char, code, IsScalar}
use Prim.Native.Nat.{Ordering, compare}
use turbomcp.Prelude.{
  ℕ, zero, suc, ◌+◌, ◌≡◌, ◌∙◌, ap, refl, true, ◌&&◌, String, Option, none, some, leb, arith,
  if◌then◌else◌, ◌==ℕ◌,
}
use turbomcp.Core.Json.{◌>>=◌}
use turbomcp.Headers.{all_chars, with_char, is_header_byte, Base64, encode_value, decode_value}
use turbomcp.Headers.RoundTrip.{decode-encode_value}

abbrev Less : Ordering → Type 0
Less Ordering.lt = Unit
Less Ordering.eq = ⊥
Less Ordering.gt = ⊥

abbrev BothLess : Ordering → Ordering → Type 0
BothLess Ordering.lt o = Less o
BothLess Ordering.eq _ = ⊥
BothLess Ordering.gt _ = ⊥

-- The clauses of `IsScalar`.
abbrev Scalar : Ordering → Ordering → Ordering → Type 0
Scalar Ordering.lt _ _ = Unit
Scalar Ordering.eq o p = BothLess o p
Scalar Ordering.gt o p = BothLess o p

abbrev less : (o : Ordering) → Option (Less o)
less Ordering.lt = some tt
less Ordering.eq = none
less Ordering.gt = none

abbrev both_less : (o p : Ordering) → Option (BothLess o p)
both_less Ordering.lt p = less p
both_less Ordering.eq p = none
both_less Ordering.gt p = none

abbrev scalar : (o p q : Ordering) → Option (Scalar o p q)
scalar Ordering.lt p q = some tt
scalar Ordering.eq p q = both_less p q
scalar Ordering.gt p q = both_less p q

less_complete : (o : Ordering) (h : Less o) → less o ≡ some h
less_complete Ordering.lt h = refl
less_complete Ordering.eq h = elim h [ ]
less_complete Ordering.gt h = elim h [ ]

both_less_complete : (o p : Ordering) (h : BothLess o p) → both_less o p ≡ some h
both_less_complete Ordering.lt p h = less_complete p h
both_less_complete Ordering.eq p h = elim h [ ]
both_less_complete Ordering.gt p h = elim h [ ]

scalar_complete : (o p q : Ordering) (h : Scalar o p q) → scalar o p q ≡ some h
scalar_complete Ordering.lt p q h = refl
scalar_complete Ordering.eq p q h = both_less_complete p q h
scalar_complete Ordering.gt p q h = both_less_complete p q h

abbrev with_proof : (n : ℕ) → Option (IsScalar n) → Option Char
with_proof n none = none
with_proof n (some h) = some (char n h)

abbrev char_of : ℕ → Option Char
char_of n = with_proof n (scalar (compare n 55296) (compare 57343 n) (compare n 1114112))

char_of-code : (c : Char) → char_of (code c) ≡ some c
char_of-code (char n h) =
    ap (with_proof n) (scalar_complete (compare n 55296) (compare 57343 n) (compare n 1114112) h)

abbrev unary : ℕ → String → String
unary zero t = String.◌∷◌ "b" t
unary (suc n) t = String.◌∷◌ "a" (unary n t)

abbrev encode : String → String
encode String.[] = String.[]
encode (String.◌∷◌ c s) = unary (code c) (encode s)

abbrev decode_from : ℕ → String → Option String
decode_from zero String.[] = some String.[]
decode_from (suc n) String.[] = none
decode_from n (String.◌∷◌ c s) =
    let more = decode_from (suc n) s in
    let done = char_of n >>= λ d. with_char d (decode_from 0 s) in
    if code c ==ℕ 97 then more else done

abbrev decode_char : ℕ → String → Option String
decode_char n t = char_of n >>= λ d. with_char d (decode_from 0 t)

decode_from-unary :
    (n k m : ℕ) (t : String) → n + k ≡ m → decode_from k (unary n t) ≡ decode_char m t
decode_from-unary zero zero m t h =
    let same : 0 ≡ m = omega (arith, h) in ap (λ i. decode_char i t) same
decode_from-unary zero (suc k) m t h =
    let same : suc k ≡ m = omega (arith, h) in ap (λ i. decode_char i t) same
decode_from-unary (suc n) zero m t h = decode_from-unary n 1 m t (omega (arith, h))
decode_from-unary (suc n) (suc k) m t h = decode_from-unary n (suc (suc k)) m t (omega (arith, h))

decode-encode_text : (s : String) → decode_from 0 (encode s) ≡ some s
decode-encode_text String.[] = refl
decode-encode_text (String.◌∷◌ c s) =
    decode_from-unary (code c) 0 (code c) (encode s) (omega arith)
    ∙ ap (λ o. o >>= λ d. with_char d (decode_from 0 (encode s))) (char_of-code c)
    ∙ ap (with_char c) (decode-encode_text s)

all_chars-unary :
    (n : ℕ) (t : String)
    → all_chars (λ c. leb 33 c && leb c 126) (unary n t) ≡ all_chars (λ c. leb 33 c && leb c 126) t
all_chars-unary zero t = refl
all_chars-unary (suc n) t = all_chars-unary n t

encode_visible_text : (s : String) → all_chars (λ c. leb 33 c && leb c 126) (encode s) ≡ true
encode_visible_text String.[] = refl
encode_visible_text (String.◌∷◌ c s) = all_chars-unary (code c) (encode s) ∙ encode_visible_text s

abbrev codec : Base64
codec = record {
  Bytes = String;
  as_bytes = λ s. s;
  from_utf8 = some;
  encode = encode;
  decode = decode_from 0;
  from_utf8-as_bytes = λ s. refl;
  decode-encode = decode-encode_text;
  encode_visible = encode_visible_text;
}

decode-encode_value_example :
    (decode_value codec (encode_value codec " padded ") ≡ some " padded ")
    × (all_chars is_header_byte (encode_value codec " padded ") ≡ true)
decode-encode_value_example = decode-encode_value codec " padded "
