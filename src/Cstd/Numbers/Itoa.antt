-- ===== src/Cstd/Numbers/Itoa.antt =====
-- Where itoa writes, and that atoi reads back what itoa has written.
use ko.Base.{
  ℕ, zero, suc, ◌+◌, ◌-◌, ◌*◌, ◌%◌, ◌^◌, ◌<◌, ◌≤◌, ◌≡◌, ◌≢◌, refl, ◌⊎◌, inl, inr, true, false, ◌==◌,
  ltb, leb, update, List, [], ◌∷◌, length, arith, Bool-cases, subst, sym, ◌∙◌, ap,
}
use ko.Base.Run.{done, Returns, Returns-bind, ◌>>=◌}
use ko.Cstd.Bytes.{Memory}
use ko.Cstd.Strings.{HasText}
use ko.Cstd.Strings.Fill.{HasText-update}
use ko.Cstd.Numbers.{int_min, itoa_loop, itoa, skip_blanks, atoi_loop, atoi}
use ko.Cstd.Numbers.Value.{
  value, digit_of, Digits, IsPrinted, itoa_loop-IsPrinted, digit_of-digit_char,
}
use ko.Cstd.Numbers.Buffer.{itoa_parts}

value-mod : (a : ℕ) (zs : List ℕ) → value 10 (a % 2 ^ 32) zs % 2 ^ 32 ≡ value 10 a zs % 2 ^ 32
value-mod a [] = omega arith
value-mod a (z ∷ zs) =
    sym (value-mod (a % 2 ^ 32 * 10 + digit_of z) zs)
    ∙ ap (λ x. value 10 x zs % 2 ^ 32) (wrap a (digit_of z))
    ∙ value-mod (a * 10 + digit_of z) zs
  where
    wrap : (a d : ℕ) → (a % 2 ^ 32 * 10 + d) % 2 ^ 32 ≡ (a * 10 + d) % 2 ^ 32
    wrap a d = omega arith

atoi_loop-value :
    (fuel : ℕ) (m : Memory) (p res : ℕ) (zs : List ℕ)
    → res < 2 ^ 32
    → HasText m p zs
    → Digits 10 zs
    → length zs < fuel
    → atoi_loop fuel m p res ≡ done (value 10 res zs % 2 ^ 32)
unfolding atoi_loop
atoi_loop-value zero m p res zs h t d l = absurd (omega arith)
atoi_loop-value (suc fuel) m p res [] h t d l = ground arith
atoi_loop-value (suc fuel) m p res (z ∷ zs) h t ((x, below, e), d) l =
    let c : m p ≡ x + 48 = ground (arith, t.0) in
    let nz : m p == 0 ≡ false = ground arith in
    let next : (res * 10 + m p + 2 ^ 32 - 48) % 2 ^ 32 ≡ (res * 10 + x) % 2 ^ 32 =
      omega (arith, c) in
    let dz : digit_of z ≡ x = rw e (digit_of-digit_char x) in
    rw (nz, next)
      (atoi_loop-value fuel m (p + 1) ((res * 10 + x) % 2 ^ 32) zs (omega arith) t.2 d (omega arith)
        ∙ ap done
            (value-mod (res * 10 + x) zs ∙ ap (λ y. value 10 (res * 10 + y) zs % 2 ^ 32) (sym dz)))

-- The decimal text of a value below 2^31 at `p`.
record IsDecimal (m : Memory) (p val : ℕ) : Type 0 where
  text : List ℕ
  holds : HasText m p text
  digits : Digits 10 text
  size : (0 < length text) × (length text < 34)
  reads : value 10 0 text ≡ val

skip_blanks-stays :
    (fuel : ℕ) (m : Memory) (p : ℕ)
    → 0 < fuel
    → (m p ≡ b'-') ⊎ (b'0' ≤ m p)
    → skip_blanks fuel m p ≡ done p
unfolding skip_blanks
skip_blanks-stays zero m p f h = absurd (omega arith)
skip_blanks-stays (suc fuel) m p f h = ground arith

atoi_loop-IsDecimal :
    (fuel : ℕ) (m : Memory) (p val : ℕ)
    → 34 < fuel
    → val < 2 ^ 31
    → IsDecimal m p val
    → atoi_loop fuel m p 0 ≡ done val
atoi_loop-IsDecimal fuel m p val f v d =
    atoi_loop-value fuel m p 0 d.text (omega arith) d.holds d.digits (omega (arith, d.size))
    ∙ ap done (rw d.reads (omega arith))

IsDecimal-head : (m : Memory) (p val : ℕ) → IsDecimal m p val → (b'0' ≤ m p) × (m p ≤ b'9')
IsDecimal-head m p val d = head d.text d.holds d.digits d.size.0
  where
    head :
        (zs : List ℕ) → HasText m p zs → Digits 10 zs → 0 < length zs → (b'0' ≤ m p) × (m p ≤ b'9')
    head [] t g l = absurd (omega arith)
    head (z ∷ zs) t ((x, below, e), g) l = ground (arith, t.0)

atoi-IsDecimal :
    (fuel : ℕ) (m : Memory) (p val : ℕ)
    → 34 < fuel
    → val < 2 ^ 31
    → IsDecimal m p val
    → atoi fuel m p ≡ done val
unfolding atoi
atoi-IsDecimal fuel m p val f v d =
    let h = IsDecimal-head m p val d in
    let plus : m p == b'-' ≡ false = ground (arith, h) in
    rw
      (
        skip_blanks-stays fuel m p (omega arith) (inr h.0),
        plus,
        atoi_loop-IsDecimal fuel m p val f v d,
      )
      refl

atoi_minus :
    (fuel : ℕ) (m : Memory) (p val : ℕ)
    → 34 < fuel
    → val < 2 ^ 31
    → m p ≡ b'-'
    → IsDecimal m (p + 1) val
    → atoi fuel m p ≡ done ((2 ^ 32 - val) % 2 ^ 32)
unfolding atoi
atoi_minus fuel m p val f v e d =
    let minus : m p == b'-' ≡ true = ground arith in
    rw
      (
        skip_blanks-stays fuel m p (omega arith) (inl e),
        minus,
        atoi_loop-IsDecimal fuel m (p + 1) val f v d,
      )
      refl

printed-IsDecimal :
    (m : Memory) (ptr val : ℕ) (r : Memory × ℕ)
    → IsPrinted m 10 ptr 32 val [] r
    → IsDecimal r.0 r.1 val
printed-IsDecimal m ptr val r p = record {
  text = p.text;
  holds = p.holds;
  digits = p.digits;
  size = (omega (arith, p.size, p.room), omega (arith, p.size, p.room));
  reads = p.reads;
}

minus-IsDecimal :
    (m : Memory) (ptr p val : ℕ)
    → p ≡ ptr + 1
    → IsDecimal m p val
    → IsDecimal (update m ptr b'-') (ptr + 1) val
minus-IsDecimal m ptr p val e d = record {
  text = d.text;
  holds =
      HasText-update m (ptr + 1) ptr b'-' d.text (inl (omega arith))
        (subst (λ z. HasText m z d.text) e d.holds);
  digits = d.digits;
  size = d.size;
  reads = d.reads;
}

loop_ten :
    (m : Memory) (buffer val : ℕ)
    → val < 2 ^ 31
    → Returns
        (IsPrinted (update m (buffer + 33) 0) 10 (buffer + 33) 32 val [])
        (itoa_loop 32 (update m (buffer + 33) 0) (buffer + 33) val 10)
loop_ten m buffer val v =
    itoa_loop-IsPrinted 32 (update m (buffer + 33) 0) (buffer + 33) val 10 [] (omega arith)
      (omega arith) (omega arith) (omega arith) tt (ground arith)

itoa_plus :
    (m : Memory) (buffer val : ℕ)
    → val < 2 ^ 31
    → itoa m buffer val 10
      ≡ itoa_loop 32 (update m (buffer + 33) 0) (buffer + 33) val 10 >>= λ r. done r
itoa_plus m buffer val v =
    let e : leb int_min val ≡ false = ground arith in
    itoa_parts m buffer val 10 (inr (inl refl)) ∙ rw (e, e) refl

itoa_minus :
    (m : Memory) (buffer val : ℕ)
    → 2 ^ 31 < val
    → val < 2 ^ 32
    → itoa m buffer val 10
      ≡ itoa_loop 32 (update m (buffer + 33) 0) (buffer + 33) (2 ^ 32 - val) 10 >>= λ r.
          done (update r.0 (r.1 - 1) b'-', r.1 - 1)
itoa_minus m buffer val v h =
    let e : leb int_min val ≡ true = ground arith in
    let f : (2 ^ 32 - val) % 2 ^ 32 ≡ 2 ^ 32 - val = omega arith in
    let g : leb int_min (2 ^ 32 - val) ≡ false = ground arith in
    itoa_parts m buffer val 10 (inr (inl refl)) ∙ rw (e, f, g) refl

-- What itoa writes in base 10, atoi reads back: for every `int` but the least, for which itoa leaves
-- no digits.
pub itoa-atoi :
    (m : Memory) (buffer val fuel : ℕ)
    → val < 2 ^ 32
    → val ≢ 2 ^ 31
    → 34 < fuel
    → Returns (λ r. atoi fuel r.0 r.1 ≡ done val) (itoa m buffer val 10)
itoa-atoi m buffer val fuel v n f =
    let m1 = update m (buffer + 33) 0 in
    elim (Bool-cases (ltb val (2 ^ 31))) [
      | inl e ↦
          let small : val < 2 ^ 31 = ground arith in
          rw (itoa_plus m buffer val small) (
            Returns-bind (IsPrinted m1 10 (buffer + 33) 32 val [])
              (λ r. atoi fuel r.0 r.1 ≡ done val) (itoa_loop 32 m1 (buffer + 33) val 10)
              (λ r. done r) (loop_ten m buffer val small)
              (λ r p.
                atoi-IsDecimal fuel r.0 r.1 val f small
                  (printed-IsDecimal m1 (buffer + 33) val r p)))
      | inr e ↦
          let large : 2 ^ 31 < val = ground arith in
          rw (itoa_minus m buffer val large v) (
            Returns-bind (IsPrinted m1 10 (buffer + 33) 32 (2 ^ 32 - val) [])
              (λ r. atoi fuel r.0 r.1 ≡ done val) (itoa_loop 32 m1 (buffer + 33) (2 ^ 32 - val) 10)
              (λ r. done (update r.0 (r.1 - 1) b'-', r.1 - 1))
              (loop_ten m buffer (2 ^ 32 - val) (omega arith))
              (λ r p.
                atoi_minus fuel (update r.0 (r.1 - 1) b'-') (r.1 - 1) (2 ^ 32 - val) f (omega arith)
                  (ground arith)
                  (minus-IsDecimal r.0 (r.1 - 1) r.1 (2 ^ 32 - val) (omega (arith, p.room))
                    (printed-IsDecimal m1 (buffer + 33) (2 ^ 32 - val) r p))
                ∙ ap done (omega arith)))
    ]
