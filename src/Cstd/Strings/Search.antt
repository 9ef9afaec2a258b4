-- ===== src/Cstd/Strings/Search.antt =====
-- memchr, strlen, strnlen, strchr and strrchr against the sequence of the bytes.
use ko.Base.{
  ℕ, zero, suc, ◌+◌, ◌<◌, ◌≡◌, refl, ◌==◌, leb, if◌then◌else◌, List, [], ◌∷◌, ◌++◌, length, arith,
  Option, none, some,
}
use ko.Base.Run.{done}
use ko.Cstd.Bytes.{Memory}
use ko.Cstd.Strings.{
  HasText, memchr, strlen_loop, strlen, strnlen_loop, strnlen, strchr, strrchr_loop, strrchr,
}
use ko.Cstd.Strings.Compare.{bytes}

-- The place of the first `c`.
abbrev pub first : ℕ → List ℕ → Option ℕ
first c [] = none
first c (x ∷ xs) =
    if x == c then some 0 else elim (first c xs) [ none ↦ none | some i ↦ some (suc i) ]

-- The place of the last `c`.
abbrev pub last : ℕ → List ℕ → Option ℕ
last c [] = none
last c (x ∷ xs) = elim (last c xs) [
  | some i ↦ some (suc i)
  | none ↦ if x == c then some 0 else none
]

-- The address of a place, or NULL.
abbrev pub address : ℕ → Option ℕ → ℕ
address p none = 0
address p (some i) = p + i

address-suc :
    (p : ℕ) (o : Option ℕ)
    → address (p + 1) o ≡ address p (elim o [ none ↦ none | some i ↦ some (suc i) ])
address-suc p none = refl
address-suc p (some i) = omega arith

-- memchr finds the first of the `n` bytes that is `c`, and NULL where there is none.
pub memchr-first :
    (m : Memory) (src c n : ℕ) → memchr m src c n ≡ address src (first c (bytes m src n))
unfolding memchr
memchr-first m src c zero = refl
memchr-first m src c (suc n) =
    ground (arith, memchr-first m (src + 1) c n, address-suc src (first c (bytes m (src + 1) n)))

strlen_loop-length :
    (m : Memory) (s n fuel : ℕ) (xs : List ℕ)
    → HasText m s xs
    → length xs < fuel
    → strlen_loop fuel m s n ≡ done (n + length xs)
unfolding strlen_loop
strlen_loop-length m s n zero xs t h = absurd (omega arith)
strlen_loop-length m s n (suc fuel) [] t h = ground arith
strlen_loop-length m s n (suc fuel) (x ∷ xs) t h =
    ground (arith, strlen_loop-length m (s + 1) (n + 1) fuel xs t.2)

strnlen_loop-length :
    (m : Memory) (s p i n : ℕ) (xs : List ℕ)
    → p ≡ s + i
    → HasText m p xs
    → strnlen_loop m s i n ≡ (if leb (length xs) n then i + length xs else i + n)
unfolding strnlen_loop
strnlen_loop-length m s p i zero [] e t = ground arith
strnlen_loop-length m s p i zero (x ∷ xs) e t = ground arith
strnlen_loop-length m s p i (suc n) [] e t = ground arith
strnlen_loop-length m s p i (suc n) (x ∷ xs) e t =
    ground (arith, strnlen_loop-length m s (p + 1) (i + 1) n xs (omega arith) t.2)

-- strlen ends with the length of the text, and strnlen with the smaller of the length and `n`.
pub strlen-length :
    (m : Memory) (s n fuel : ℕ) (xs : List ℕ)
    → 0 < s
    → HasText m s xs
    → length xs < fuel
    → (strlen fuel m s ≡ done (length xs))
      × (strnlen m s n ≡ (if leb (length xs) n then length xs else n))
unfolding strlen strnlen
strlen-length m s n fuel xs p t h = (
  ground (arith, strlen_loop-length m s 0 fuel xs t h),
  ground (arith, strnlen_loop-length m s s 0 n xs (omega arith) t),
)

-- strchr finds the first `c` of the text with its terminator, and NULL where there is none.
pub strchr-first :
    (m : Memory) (s c fuel : ℕ) (xs : List ℕ)
    → HasText m s xs
    → length xs < fuel
    → strchr fuel m s c ≡ done (address s (first c (xs ++ 0 ∷ [])))
unfolding strchr
strchr-first m s c zero xs t h = absurd (omega arith)
strchr-first m s c (suc fuel) [] t h = ground arith
strchr-first m s c (suc fuel) (x ∷ xs) t h =
    ground (arith, strchr-first m (s + 1) c fuel xs t.2, address-suc s (first c (xs ++ 0 ∷ [])))

abbrev or_before : ℕ → ℕ → Option ℕ → ℕ
or_before p r none = r
or_before p r (some i) = p + i

strrchr_loop-last :
    (m : Memory) (s c r fuel : ℕ) (xs : List ℕ)
    → HasText m s xs
    → length xs < fuel
    → strrchr_loop fuel m s c r ≡ done (or_before s r (last c (xs ++ 0 ∷ [])))
unfolding strrchr_loop
strrchr_loop-last m s c r zero xs t h = absurd (omega arith)
strrchr_loop-last m s c r (suc fuel) [] t h = ground arith
strrchr_loop-last m s c r (suc fuel) (x ∷ xs) t h =
    ground (arith, strrchr_loop-last m (s + 1) c (if m s == c then s else r) fuel xs t.2)

-- strrchr finds the last `c` of the text with its terminator, and NULL where there is none.
pub strrchr-last :
    (m : Memory) (s c fuel : ℕ) (xs : List ℕ)
    → HasText m s xs
    → length xs < fuel
    → strrchr fuel m s c ≡ done (address s (last c (xs ++ 0 ∷ [])))
unfolding strrchr
strrchr-last m s c fuel xs t h = ground (arith, strrchr_loop-last m s c 0 fuel xs t h)
