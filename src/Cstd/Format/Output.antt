-- ===== src/Cstd/Format/Output.antt =====
-- What vsnprintf leaves in the buffer.
use ko.Base.{
  ℕ, zero, suc, ◌+◌, ◌-◌, ◌%◌, ◌^◌, ◌<◌, ◌≤◌, ◌≡◌, refl, true, false, ◌==◌, if◌then◌else◌, List, [],
  ◌∷◌, length, arith, Bool-cases, inl, inr, ◌∙◌, subst, sym, ap, update, some, ◌⊎◌,
}
use ko.Cstd.Bytes.{Memory}
use ko.Cstd.Strings.Compare.{take}
use ko.Cstd.Strings.Fill.{char_at, written, written_cons}
use ko.Cstd.Format.{Printing, Step, more, abort, put, put_all, finish, vsnprintf}
use ko.Cstd.Format.Expand.{expand, IsComplete, print-expand}

-- The characters that go out before the counter is 0.
abbrev room : ℕ → ℕ
room count = if count == 0 then 2 ^ 32 else count

take-nil : (n : ℕ) → take n [] ≡ []
take-nil zero = refl
take-nil (suc n) = refl

-- Where the output of `xs` has ended: in `z`, with `shown` in memory.
record Puts (st : Printing) (xs shown : List ℕ) (z : Printing) : Type 0 where
  ends : (put_all xs st ≡ more z) ⊎ (put_all xs st ≡ abort z)
  buf : z.buf ≡ st.buf + length shown
  bytes : (q : ℕ) → z.mem q ≡ written st.mem st.buf (length shown) shown q

Puts-nil : (st : Printing) → Puts st [] [] st
unfolding put_all
Puts-nil st = record { ends = inl refl; buf = omega arith; bytes = λ q. ground arith }

abbrev next : ℕ → Printing → Printing
next c st = record {
  mem = update st.mem st.buf c;
  buf = st.buf + 1;
  count = (st.count + 2 ^ 32 - 1) % 2 ^ 32;
}

Puts-last :
    (st : Printing) (x : ℕ) (xs : List ℕ)
    → (next x st).count == 0 ≡ true
    → Puts st (x ∷ xs) (x ∷ []) (next x st)
unfolding put_all put
Puts-last st x xs h = record { ends = inr (rw h refl); buf = refl; bytes = λ q. ground arith }

Puts-cons :
    (st : Printing) (x : ℕ) (xs shown : List ℕ) (z : Printing)
    → (next x st).count == 0 ≡ false
    → Puts (next x st) xs shown z
    → Puts st (x ∷ xs) (x ∷ shown) z
unfolding put_all put
Puts-cons st x xs shown z h p = record {
  ends = rw h p.ends;
  buf = omega (arith, p.buf);
  bytes = λ q. p.bytes q ∙ written_cons st.mem st.buf (length shown) x shown q;
}

put_all-Puts :
    (xs : List ℕ) (st : Printing)
    → st.count < 2 ^ 32
    → (z : Printing) × Puts st xs (take (room st.count) xs) z
put_all-Puts [] st c =
    (st, subst (λ l. Puts st [] l st) (sym (take-nil (room st.count))) (Puts-nil st))
put_all-Puts (x ∷ xs) st c = elim (Bool-cases ((next x st).count == 0)) [
  | inl h ↦
      let one : room st.count ≡ 1 = ground arith in
      (
        next x st,
        subst (λ n. Puts st (x ∷ xs) (take n (x ∷ xs)) (next x st)) (sym one) (Puts-last st x xs h),
      )
  | inr h ↦
      let (z, p) = put_all-Puts xs (next x st) (omega arith) in
      let r : room st.count ≡ suc (room (next x st).count) = ground arith in
      (z, subst (λ n. Puts st (x ∷ xs) (take n (x ∷ xs)) z) (sym r) (Puts-cons st x xs _ z h p))
]

take-length-le : (n : ℕ) (xs : List ℕ) → length (take n xs) ≤ n
take-length-le zero xs = omega arith
take-length-le (suc n) [] = omega arith
take-length-le (suc n) (x ∷ xs) = omega (arith, take-length-le n xs)

take_all : (n : ℕ) (xs : List ℕ) → length xs ≤ n → take n xs ≡ xs
take_all zero [] h = refl
take_all zero (x ∷ xs) h = absurd (omega arith)
take_all (suc n) [] h = refl
take_all (suc n) (x ∷ xs) h = ap (λ l. x ∷ l) (take_all n xs (omega arith))

char_at_end : (xs : List ℕ) → char_at xs (length xs) ≡ 0
char_at_end [] = refl
char_at_end (x ∷ xs) = char_at_end xs

written_end :
    (m : Memory) (d q : ℕ) (xs : List ℕ)
    → (if q == d + length xs then 0 else written m d (length xs) xs q)
      ≡ written m d (suc (length xs)) xs q
written_end m d q xs = elim (Bool-cases (q == d + length xs)) [
  | inl e ↦ let g : q - d ≡ length xs = ground arith in rw (e, g) (ground (arith, char_at_end xs))
  | inr e ↦ rw e (ground arith)
]

module _ (text : ℕ → List ℕ) (arg : ℕ → ℕ) where
  -- vsnprintf writes `shown` and a NUL, and nothing else.
  abbrev Shows : Memory → ℕ → ℕ → List ℕ → List ℕ → Type 0
  Shows m buffer size fmt shown =
      (m' : Memory) × (vsnprintf text arg m buffer size fmt ≡ some (m', length shown))
      × ((q : ℕ) → m' q ≡ written m buffer (suc (length shown)) shown q)

  vsnprintf-shown :
      (m : Memory) (buffer size : ℕ) (fmt : List ℕ)
      → IsComplete fmt
      → Shows m buffer size fmt (take (room ((size + 2 ^ 32 - 1) % 2 ^ 32)) (expand text arg fmt 0))
  unfolding vsnprintf finish
  vsnprintf-shown m buffer size fmt h =
      let count = (size + 2 ^ 32 - 1) % 2 ^ 32 in
      let st : Printing = record { mem = m; buf = buffer; count = count } in
      let out = expand text arg fmt 0 in
      let shown = take (room count) out in
      let (z, p) = put_all-Puts out st (omega arith) in
      let n : z.buf - buffer ≡ length shown = omega (arith, p.buf) in
      (
        update z.mem z.buf 0,
        rw (print-expand text arg fmt 0 st h)
            (finish_same buffer z (put_all out st) (length shown) p.ends n),
        λ q. rw p.buf (rw (p.bytes q) (written_end m buffer q shown)),
      )
    where
      finish_same :
          (buffer : ℕ) (z : Printing) (s : Step) (n : ℕ)
          → (s ≡ more z) ⊎ (s ≡ abort z)
          → z.buf - buffer ≡ n
          → finish text arg buffer s ≡ some (update z.mem z.buf 0, n)
      finish_same buffer z s n (inl e) f = rw (e, f) refl
      finish_same buffer z s n (inr e) f = rw (e, f) refl

  -- For a size from 2 on, vsnprintf writes the first `size - 1` characters of the output of the format
  -- and a NUL behind them, returns their number, and changes no byte outside of the first `size` of
  -- the buffer.
  pub vsnprintf-expand :
      (m : Memory) (buffer size : ℕ) (fmt : List ℕ)
      → 2 ≤ size
      → size < 2 ^ 32
      → IsComplete fmt
      → let shown = take (size - 1) (expand text arg fmt 0) in
        (m' : Memory) × (vsnprintf text arg m buffer size fmt ≡ some (m', length shown))
        × (length shown < size)
        × ((q : ℕ) → m' q ≡ written m buffer (suc (length shown)) shown q)
  vsnprintf-expand m buffer size fmt l h c =
      let e : room ((size + 2 ^ 32 - 1) % 2 ^ 32) ≡ size - 1 = ground arith in
      let (m', run, bytes) =
        subst (λ n. Shows m buffer size fmt (take n (expand text arg fmt 0))) e
          (vsnprintf-shown m buffer size fmt c) in
      (m', run, omega (arith, take-length-le (size - 1) (expand text arg fmt 0)), bytes)

  -- A size of 0 or 1 does not bound the output: vsnprintf writes all of it and a NUL.
  pub vsnprintf-overruns :
      (m : Memory) (buffer size : ℕ) (fmt : List ℕ)
      → size ≤ 1
      → length (expand text arg fmt 0) < 2 ^ 32 - 1
      → IsComplete fmt
      → let out = expand text arg fmt 0 in
        (m' : Memory) × (vsnprintf text arg m buffer size fmt ≡ some (m', length out))
        × ((q : ℕ) → m' q ≡ written m buffer (suc (length out)) out q)
  vsnprintf-overruns m buffer size fmt l h c =
      let out = expand text arg fmt 0 in
      subst (Shows m buffer size fmt)
        (take_all (room ((size + 2 ^ 32 - 1) % 2 ^ 32)) out (ground arith))
        (vsnprintf-shown m buffer size fmt c)
