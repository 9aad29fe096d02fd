-- ===== src/Prelude/Decimal/RoundTrip.antt =====
-- Parsing a printed number gives it back, so that printing is injective.
use Prim.Native.Char.{code}
use turbomcp.Prelude.{
  ℕ, zero, suc, ◌+◌, ◌-◌, ◌*◌, ◌/◌, ◌%◌, ◌<◌, ◌≤◌, String, ◌≡◌, refl, sym, ap, ◌∙◌, some, arith,
  ltb, leb, ltb→lt, false, ◌||◌, Bool-cases, inl, inr,
}
use turbomcp.Prelude.Decimal.{digit_char, emit, to_string, usize_bound, scan, parse}

code-digit_char : (d : ℕ) → d < 10 → code (digit_char d) ≡ b'0' + d
code-digit_char zero h = refl
code-digit_char (suc zero) h = refl
code-digit_char (suc (suc zero)) h = refl
code-digit_char (suc (suc (suc zero))) h = refl
code-digit_char (suc (suc (suc (suc zero)))) h = refl
code-digit_char (suc (suc (suc (suc (suc zero))))) h = refl
code-digit_char (suc (suc (suc (suc (suc (suc zero)))))) h = refl
code-digit_char (suc (suc (suc (suc (suc (suc (suc zero))))))) h = refl
code-digit_char (suc (suc (suc (suc (suc (suc (suc (suc zero)))))))) h = refl
code-digit_char (suc (suc (suc (suc (suc (suc (suc (suc (suc zero))))))))) h = refl
code-digit_char (suc (suc (suc (suc (suc (suc (suc (suc (suc (suc n)))))))))) h =
    absurd (omega arith)

scan-digit :
    (n d : ℕ) (out : String)
    → d < 10
    → n * 10 + d < usize_bound
    → scan n (String.◌∷◌ (digit_char d) out) ≡ scan (n * 10 + d) out
unfolding scan
scan-digit n d out h b = rw (code-digit_char d h, is_digit, drop_offset, in_range)
  where
    is_digit : (ltb (b'0' + d) b'0' || ltb b'9' (b'0' + d)) ≡ false
    is_digit = ground arith

    drop_offset : b'0' + d - b'0' ≡ d
    drop_offset = omega arith

    in_range : leb usize_bound (n * 10 + d) ≡ false
    in_range = ground arith

scan-emit :
    (fuel n : ℕ) (out : String) → n ≤ fuel → n < usize_bound → scan 0 (emit fuel n out) ≡ scan n out
unfolding emit
scan-emit zero n out h b =
    scan-digit 0 (n % 10) out (omega arith) (omega arith) ∙ ap (λ m. scan m out) (omega arith)
scan-emit (suc fuel) n out h b = elim (Bool-cases (ltb n 10)) [
  | inl small ↦
      let lt = ltb→lt n 10 small in
      rw small
        (scan-digit 0 (n % 10) out (omega arith) (omega arith) ∙ ap (λ m. scan m out) (omega arith))
  | inr large ↦
      let ge : 10 ≤ n = ground arith in
      rw large (
        scan-emit fuel (n / 10) (String.◌∷◌ (digit_char (n % 10)) out) (omega arith) (omega arith)
        ∙ scan-digit (n / 10) (n % 10) out (omega arith) (omega arith)
        ∙ ap (λ m. scan m out) (omega arith))
]

emit-head :
    (fuel n : ℕ) (out : String)
    → (d : ℕ) × (s : String) × (d < 10) × (emit fuel n out ≡ String.◌∷◌ (digit_char d) s)
unfolding emit
emit-head zero n out = (n % 10, out, omega arith, refl)
emit-head (suc fuel) n out = elim (Bool-cases (ltb n 10)) [
  | inl small ↦ (n % 10, out, omega arith, rw small)
  | inr large ↦
      let (d, s, lt, e) = emit-head fuel (n / 10) (String.◌∷◌ (digit_char (n % 10)) out) in
      (d, s, lt, rw large e)
]

parse-digit :
    (d : ℕ) (s : String)
    → d < 10
    → parse (String.◌∷◌ (digit_char d) s) ≡ scan 0 (String.◌∷◌ (digit_char d) s)
unfolding parse
parse-digit d s h = rw (code-digit_char d h) (ground arith)

-- A printed number in range is read back.
pub parse-to_string : (n : ℕ) → n < usize_bound → parse (to_string n) ≡ some n
unfolding to_string scan
parse-to_string n h =
    let (d, s, lt, e) = emit-head n n String.[] in
    ap parse e ∙ parse-digit d s lt ∙ ap (scan 0) (sym e) ∙ scan-emit n n String.[] (omega arith) h

-- Two numbers in range with the same text are the same.
pub to_string-injective :
    (m n : ℕ) → m < usize_bound → n < usize_bound → to_string m ≡ to_string n → m ≡ n
to_string-injective m n hm hn e = cc (parse-to_string m hm, parse-to_string n hn)
