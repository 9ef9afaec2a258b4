-- ===== src/Cstd/Bytes/Move.antt =====
-- What memcpy and memmove leave in memory.
use ko.Base.{
  ℕ, zero, suc, ◌+◌, ◌-◌, ◌%◌, ◌^◌, ◌<◌, ◌≤◌, ◌≡◌, refl, ◌&&◌, ◌⊎◌, ◌==◌, leb, ltb, if◌then◌else◌,
  arith, update, Bool-cases, inl, inr, sym, ◌∙◌, subst,
}
use ko.Cstd.Bytes.{
  Memory, store_word, load_word, Copying, copy_head, copy_words, copy_bytes, memcpy, move_down,
  memmove,
}

-- The memory `m` with the `n` bytes from `d` on replaced by those that `m` has from `s` on.
abbrev pub copied : Memory → ℕ → ℕ → ℕ → Memory
copied m d s n q = if leb d q && ltb q (d + n) then m (s + (q - d)) else m q

abbrev pub IsBytes : Memory → Type 0
IsBytes m = (q : ℕ) → m q < 2 ^ 8

-- A copy from low to high addresses does not overwrite what it has still to read.
abbrev pub Forward : ℕ → ℕ → ℕ → Type 0
Forward d s n = (d ≤ s) ⊎ (s + n ≤ d)

store_word-load_word :
    (m : Memory) (d s q : ℕ) → IsBytes m → store_word m d (load_word m s) q ≡ copied m d s 4 q
unfolding store_word load_word
store_word-load_word m d s q b = ground (arith, b s, b (s + 1), b (s + 2), b (s + 3))

copied-IsBytes : (m : Memory) (d s n : ℕ) → IsBytes m → IsBytes (copied m d s n)
copied-IsBytes m d s n b q = ground (arith, b q, b (s + (q - d)))

update-copied : (m : Memory) (d s q : ℕ) → update m d (m s) q ≡ copied m d s 1 q
update-copied m d s q = ground arith

-- Two copies one behind the other are one.
copied_join :
    (m w : Memory) (d s k l d' s' q : ℕ)
    → ((p : ℕ) → w p ≡ copied m d s k p)
    → d' ≡ d + k
    → s' ≡ s + k
    → Forward d s (k + l)
    → copied w d' s' l q ≡ copied m d s (k + l) q
copied_join m w d s k l d' s' q h e g f = rw (e, g) (ground (arith, h q, h (s + k + (q - (d + k)))))

Forward-tail : (d s k l : ℕ) → Forward d s (k + l) → Forward (d + k) (s + k) l
Forward-tail d s k l (inl h) = inl (omega arith)
Forward-tail d s k l (inr h) = inr (omega arith)

-- A loop from `d` and `s` on over `n` bytes has copied the `k` bytes before its pointers.
pub record IsCopying (m : Memory) (d s n k : ℕ) (r : Copying) : Type 0 where
  pub total : k + r.left ≡ n
  pub dst : r.dst ≡ d + k
  pub src : r.src ≡ s + k
  pub bytes : (q : ℕ) → r.mem q ≡ copied m d s k q

copied_none : (m : Memory) (d s q : ℕ) → m q ≡ copied m d s 0 q
copied_none m d s q = ground arith

start-IsCopying :
    (m : Memory) (d s n : ℕ) → IsCopying m d s n 0 (record { mem = m; dst = d; src = s; left = n })
start-IsCopying m d s n = record {
  total = omega arith;
  dst = omega arith;
  src = omega arith;
  bytes = copied_none m d s;
}

Forward-shorter : (d s a b : ℕ) → a ≤ b → Forward d s b → Forward d s a
Forward-shorter d s a b h (inl g) = inl g
Forward-shorter d s a b h (inr g) = inr (omega arith)

-- A loop that goes on where another has stopped.
IsCopying-join :
    (m w : Memory) (d s k n j : ℕ) (r : Copying)
    → ((p : ℕ) → w p ≡ copied m d s k p)
    → Forward d s (k + n)
    → IsCopying w (d + k) (s + k) n j r
    → IsCopying m d s (k + n) (k + j) r
IsCopying-join m w d s k n j r h f c = record {
  total = omega (arith, c.total);
  dst = omega (arith, c.dst);
  src = omega (arith, c.src);
  bytes = λ q.
      c.bytes q
      ∙ copied_join m w d s k j (d + k) (s + k) q h refl refl
          (Forward-shorter d s (k + j) (k + n) (omega (arith, c.total)) f);
}

abbrev Copies : Memory → ℕ → ℕ → ℕ → Copying → Type 0
Copies m d s n r = (k : ℕ) × IsCopying m d s n k r

copy_bytes-copied :
    (m : Memory) (d s n q : ℕ) → Forward d s n → copy_bytes m d s n q ≡ copied m d s n q
unfolding copy_bytes
copy_bytes-copied m d s zero q f = copied_none m d s q
copy_bytes-copied m d s (suc n) q f =
    let f' : Forward d s (1 + n) = subst (Forward d s) (omega arith) f in
    let e : suc n ≡ 1 + n = omega arith in
    rw e (
      copy_bytes-copied (update m d (m s)) (d + 1) (s + 1) n q (Forward-tail d s 1 n f')
      ∙ copied_join m (update m d (m s)) d s 1 n (d + 1) (s + 1) q (update-copied m d s) refl refl
          f')

copy_head-Copies : (m : Memory) (d s n : ℕ) → Forward d s n → Copies m d s n (copy_head m d s n)
unfolding copy_head
copy_head-Copies m d s zero f = (0, start-IsCopying m d s 0)
copy_head-Copies m d s (suc n) f =
    let e : suc n ≡ 1 + n = omega arith in
    let f' : Forward d s (1 + n) = subst (Forward d s) e f in
    let w = update m d (m s) in
    let (k, ih) = copy_head-Copies w (d + 1) (s + 1) n (Forward-tail d s 1 n f') in
    let joined = IsCopying-join m w d s 1 n k _ (update-copied m d s) f' ih in
    elim (Bool-cases (d % 4 == 0)) [
      | inl t ↦ rw t (0, start-IsCopying m d s (suc n))
      | inr t ↦ rw (t, e) (1 + k, joined)
    ]

copy_words-Copies :
    (m : Memory) (d s n : ℕ) → IsBytes m → Forward d s n → Copies m d s n (copy_words m d s n)
unfolding copy_words
copy_words-Copies m d s (suc (suc (suc (suc n)))) b f =
    let e : suc (suc (suc (suc n))) ≡ 4 + n = omega arith in
    let f' : Forward d s (4 + n) = subst (Forward d s) e f in
    let w = store_word m d (load_word m s) in
    let h : (p : ℕ) → w p ≡ copied m d s 4 p = λ p. store_word-load_word m d s p b in
    let (k, ih) =
      copy_words-Copies w (d + 4) (s + 4) n (λ q. rw (h q) (copied-IsBytes m d s 4 b q))
        (Forward-tail d s 4 n f') in
    rw e (4 + k, IsCopying-join m w d s 4 n k _ h f' ih)
copy_words-Copies m d s n b f = (0, start-IsCopying m d s n)

-- The bytes that are left after the words.
copied_rest :
    (m : Memory) (d s n : ℕ) (w : Memory) (k hd hs left : ℕ) (r : Copying)
    → Forward d s n
    → k + left ≡ n
    → hd ≡ d + k
    → hs ≡ s + k
    → ((p : ℕ) → w p ≡ copied m d s k p)
    → Copies w hd hs left r
    → (q : ℕ) → copy_bytes r.mem r.dst r.src r.left q ≡ copied m d s n q
copied_rest m d s n w k hd hs left r f e1 e2 e3 h (j, c) q =
    let f' : Forward d s (k + left) = subst (Forward d s) (sym e1) f in
    let c' : IsCopying w (d + k) (s + k) left j r =
      subst (λ z. IsCopying w z (s + k) left j r) e2
        (subst (λ z. IsCopying w hd z left j r) e3 c) in
    let all = IsCopying-join m w d s k left j r h f' c' in
    let f2 : Forward d s (k + j + r.left) = subst (Forward d s) (sym all.total) f' in
    let g : Forward r.dst r.src r.left =
      subst (λ z. Forward z r.src r.left) (sym all.dst)
        (subst (λ z. Forward (d + (k + j)) z r.left) (sym all.src)
          (Forward-tail d s (k + j) r.left f2)) in
    subst (λ z. copy_bytes r.mem r.dst r.src r.left q ≡ copied m d s z q) (all.total ∙ e1)
      (copy_bytes-copied r.mem r.dst r.src r.left q g
        ∙ copied_join m r.mem d s (k + j) r.left r.dst r.src q all.bytes all.dst all.src f2)

-- memcpy copies exactly the `n` bytes from `src` to `dest`, whether it goes by words or by bytes,
-- where the areas are apart or `dest` is the lower one.
pub memcpy-copied :
    (m : Memory) (dest src n q : ℕ)
    → IsBytes m
    → Forward dest src n
    → memcpy m dest src n q ≡ copied m dest src n q
unfolding memcpy
memcpy-copied m d s n q b f =
    let h = copy_head m d s n in
    let (k, head) = copy_head-Copies m d s n f in
    let bs : IsBytes h.mem = λ p. rw (head.bytes p) (copied-IsBytes m d s k b p) in
    let f' : Forward d s (k + h.left) = subst (Forward d s) (sym head.total) f in
    let body =
      copy_words-Copies h.mem h.dst h.src h.left bs
        (rw (head.dst, head.src) (Forward-tail d s k h.left f')) in
    let r = copy_words h.mem h.dst h.src h.left in
    let rest =
      copied_rest m d s n h.mem k h.dst h.src h.left r f head.total head.dst head.src head.bytes
        body in
    elim (Bool-cases (d % 4 == s % 4)) [
      | inr e ↦ rw e (copy_bytes-copied m d s n q f)
      | inl e ↦ rw e (rest q)
    ]

move_down-copied :
    (m : Memory) (d s n q : ℕ) → s ≤ d → move_down m (d + n - 1) (s + n - 1) n q ≡ copied m d s n q
unfolding move_down
move_down-copied m d s zero q h = ground arith
move_down-copied m d s (suc n) q h =
    let e : d + suc n - 1 ≡ d + n = omega arith in
    let g : s + suc n - 1 ≡ s + n = omega arith in
    rw (e, g) (ground (arith, move_down-copied (update m (d + n) (m (s + n))) d s n q))

-- memmove copies the `n` bytes from `src` to `dest`, however the two areas overlap.
pub memmove-copied :
    (m : Memory) (dest src n q : ℕ) → memmove m dest src n q ≡ copied m dest src n q
unfolding memmove
memmove-copied m d s n q = ground (arith, copy_bytes-copied m d s n q, move_down-copied m d s n q)
