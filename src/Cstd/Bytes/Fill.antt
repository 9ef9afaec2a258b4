-- ===== src/Cstd/Bytes/Fill.antt =====
-- What memset leaves in memory, whatever the alignment.
use ko.Base.{
  ℕ, zero, suc, ◌+◌, ◌*◌, ◌%◌, ◌^◌, ◌-◌, ◌<◌, ◌≤◌, ◌≡◌, refl, Bool, true, ◌&&◌, ◌==◌, leb, ltb,
  if◌then◌else◌, arith, update, Bool-cases, inl, inr, false, subst, sym,
}
use ko.Cstd.Bytes.{
  Memory, store_word, fill_word, Filling, fill_head, fill_words, fill_bytes, memset,
}

-- The memory `m` with the `n` bytes from `p` on set to `b`.
abbrev pub filled : Memory → ℕ → ℕ → ℕ → Memory
filled m p n b q = if leb p q && ltb q (p + n) then b else m q

-- Whether fill_word repeats every byte below `limit`.
repeats : ℕ → Bool
repeats zero = true
repeats (suc c) = if fill_word c == c * 16843009 then repeats c else false

fill_word-repeats : (c limit : ℕ) → c < limit → repeats limit ≡ true → fill_word c ≡ c * 16843009
unfolding repeats
fill_word-repeats c zero l h = absurd (omega (arith, l))
fill_word-repeats c (suc k) l h = elim (Bool-cases (c == k)) [
  | inl e ↦
      let z : c ≡ k = ground arith in
      subst (λ x. fill_word x ≡ x * 16843009) (sym z) (ground (arith, h))
  | inr e ↦ fill_word-repeats c k (ground arith) (ground (arith, h))
]

all_repeat : repeats 256 ≡ true
unfolding repeats fill_word
all_repeat = refl

fill_word_low : (c : ℕ) → fill_word c ≡ fill_word (c % 2 ^ 8)
unfolding fill_word
fill_word_low c = let e : c % 2 ^ 8 % 2 ^ 8 ≡ c % 2 ^ 8 = omega arith in rw e

-- Four times the same byte.
fill_word_lem : (c : ℕ) → fill_word c ≡ c % 2 ^ 8 * 16843009
fill_word_lem c =
    let here = fill_word-repeats (c % 2 ^ 8) 256 (omega arith) all_repeat in
    ground (arith, fill_word_low c, here)

store_word-filled :
    (m : Memory) (p c q : ℕ) → store_word m p (fill_word c) q ≡ filled m p 4 (c % 2 ^ 8) q
unfolding store_word
store_word-filled m p c q = rw (fill_word_lem c) (ground arith)

-- A loop from `p` on over `n` bytes has written `b` into all bytes before its pointer.
pub record IsFilling (m : Memory) (p n b : ℕ) (r : Filling) : Type 0 where
  pub total : r.ptr + r.left ≡ p + n
  pub ahead : p ≤ r.ptr
  pub bytes : (q : ℕ) → r.mem q ≡ filled m p (r.ptr - p) b q

fill_head-IsFilling : (m : Memory) (p c n : ℕ) → IsFilling m p n (c % 2 ^ 8) (fill_head m p c n)
unfolding fill_head
fill_head-IsFilling m p c zero = record {
  total = refl;
  ahead = omega arith;
  bytes = λ q. ground arith;
}
fill_head-IsFilling m p c (suc n) =
    let ih = fill_head-IsFilling (update m p (c % 2 ^ 8)) (p + 1) c n in
    elim (Bool-cases (p % 4 == 0)) [
      | inl e ↦ rw e record { total = refl; ahead = omega arith; bytes = λ q. ground arith }
      | inr e ↦ rw e record {
        total = omega (arith, ih.total);
        ahead = omega (arith, ih.ahead);
        bytes = λ q. ground (arith, ih.bytes q, ih.ahead);
      }
    ]

fill_words-IsFilling :
    (m : Memory) (p c n : ℕ) → IsFilling m p n (c % 2 ^ 8) (fill_words m p (fill_word c) n)
unfolding fill_words
fill_words-IsFilling m p c (suc (suc (suc (suc n)))) =
    let ih = fill_words-IsFilling (store_word m p (fill_word c)) (p + 4) c n in
    record {
      total = omega (arith, ih.total);
      ahead = omega (arith, ih.ahead);
      bytes = λ q. ground (arith, ih.bytes q, ih.ahead, store_word-filled m p c q);
    }
fill_words-IsFilling m p c n = record {
  total = refl;
  ahead = omega arith;
  bytes = λ q. ground arith;
}

fill_bytes-filled : (m : Memory) (p c n q : ℕ) → fill_bytes m p c n q ≡ filled m p n (c % 2 ^ 8) q
unfolding fill_bytes
fill_bytes-filled m p c zero q = ground arith
fill_bytes-filled m p c (suc n) q =
    ground (arith, fill_bytes-filled (update m p (c % 2 ^ 8)) (p + 1) c n q)

-- memset by words sets exactly the `n` bytes from `s` on to the low byte of `c`, for every alignment
-- of `s` and every `n`.
pub memset-filled : (m : Memory) (s c n q : ℕ) → memset m s c n q ≡ filled m s n (c % 2 ^ 8) q
unfolding memset
memset-filled m s c n q =
    let h = fill_head m s c n in
    let r = fill_words h.mem h.ptr (fill_word c) h.left in
    let head = fill_head-IsFilling m s c n in
    let body = fill_words-IsFilling h.mem h.ptr c h.left in
    ground (
      arith,
      head.total,
      head.ahead,
      head.bytes q,
      body.total,
      body.ahead,
      body.bytes q,
      fill_bytes-filled r.mem r.ptr c r.left q,
    )
