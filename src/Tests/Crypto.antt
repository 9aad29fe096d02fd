-- ===== src/Tests/Crypto.antt =====
-- A signer's surroundings in which the laws of the interface hold: byte strings are numbers, of
-- which a payload keeps its expiry alone, and every tag is the same.
use Prim.Native.String
use Prim.Native.String.len
use turbomcp.Prelude.{
  ℕ, zero, suc, ◌≡◌, ◌∙◌, refl, ap, true, ◌&&◌, String, Option, none, some, arith, if◌then◌else◌,
  ◌==◌, ◌==ℕ◌, ==ℕ_iff, string_key, Result, ok, err, Option-cases, inl, inr,
}
use turbomcp.RequestState.Signer.{Crypto, avoids}
use turbomcp.Tests.Json.{tree, Tree, null, number, text, object, nil, member, number_of}

abbrev pub payload_at : ℕ → Tree
payload_at n = object (
    member "d" null
      (member "exp" (number n) (member "sub" null (member "m" (text "tools/call") nil))))

abbrev pub expiry_of : Tree → Option ℕ
expiry_of (object (member d null (member e (number n) (member s null (member m (text t) nil))))) =
    if d == "d" && e == "exp" && s == "sub" && m == "m" && t == "tools/call" then some n else none
expiry_of _ = none

payload_at-expiry_of : (v : Tree) (n : ℕ) → expiry_of v ≡ some n → payload_at n ≡ v
payload_at-expiry_of
      (object (member d null (member e (number k) (member s null (member m (text t) nil))))) n h =
    let k_n : k ≡ n = ground arith in
    rw
      (
        (string_key.same_iff d "d").0 (ground arith),
        (string_key.same_iff e "exp").0 (ground arith),
        (string_key.same_iff s "sub").0 (ground arith),
        (string_key.same_iff m "m").0 (ground arith),
        (string_key.same_iff t "tools/call").0 (ground arith),
        k_n,
      )
      refl
payload_at-expiry_of _ n h = cc

abbrev pub to_vec : Tree → Result ℕ String
to_vec v = elim (expiry_of v) [ none ↦ err "unsupported" | some n ↦ ok n ]

pub from_slice-to_vec_tree : (v : Tree) (b : ℕ) → to_vec v ≡ ok b → some (payload_at b) ≡ some v
from_slice-to_vec_tree v b h = elim (Option-cases (expiry_of v)) [
  | inl e ↦ ground arith
  | inr (n, e) ↦
      let same : n ≡ b = ground arith in ap some (payload_at-expiry_of v b (e ∙ ap some same))
]

-- A number in unary.
abbrev pub encode : ℕ → String
encode zero = String.[]
encode (suc n) = String.◌∷◌ "a" (encode n)

abbrev pub decode : String → Option ℕ
decode String.[] = some 0
decode (String.◌∷◌ c s) = elim (decode s) [ none ↦ none | some n ↦ some (suc n) ]

pub decode-encode_unary : (n : ℕ) → decode (encode n) ≡ some n
decode-encode_unary zero = refl
decode-encode_unary (suc n) = rw (decode-encode_unary n) refl

pub encode-avoids_unary : (n : ℕ) → avoids "." (encode n) ≡ true
encode-avoids_unary zero = refl
encode-avoids_unary (suc n) = encode-avoids_unary n

pub len-encode_unary : (n : ℕ) → String.len (encode n) ≡ n
len-encode_unary zero = refl
len-encode_unary (suc n) = omega (arith, len.cons "a" (encode n), len-encode_unary n)

abbrev pub crypto : Crypto
crypto = record {
  json = tree;
  Bytes = ℕ;
  same_bytes = ◌==ℕ◌;
  size = λ n. n;
  number = number;
  as_u64 = number_of;
  to_vec = to_vec;
  from_slice = λ n. some (payload_at n);
  encode = encode;
  decode = decode;
  hmac = λ _ _. 32;
  same_bytes-refl = λ b. (==ℕ_iff b b).1 refl;
  as_u64-number = λ n. refl;
  as_str-null = refl;
  from_slice-to_vec = from_slice-to_vec_tree;
  decode-encode = decode-encode_unary;
  encode-avoids = encode-avoids_unary;
  len-encode = λ n. omega (arith, len-encode_unary n);
  length-hmac = λ _ _. refl;
}
