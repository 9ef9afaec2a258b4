-- ===== src/Device/Names.antt =====
-- In kernel/kdev.c a tag and a minor number name one device.
use ko.Base.{
  ℕ, ◌+◌, ◌%◌, ◌^◌, ◌≤◌, ◌<◌, ◌≡◌, ◌≢◌, ◌∙◌, sym, subst, Bool, refl, inl, inr, false, Option, none,
  some, List, [], ◌∷◌, ◌++◌, arith, ◌==◌, ◌&&◌, if◌then◌else◌, Bool-cases,
}
use ko.Device.{Device, backward, next_of, dev_next_minor, dev_alloc, dev_get}

-- The devices of a tag have minor numbers from `b` on, or below `b`.
abbrev pub From : (tag b : ℕ) → List Device → Type 0
From tag b [] = Unit
From tag b (d ∷ ds) = (d.tag ≡ tag → b ≤ d.minor) × From tag b ds

abbrev pub Below : (tag b : ℕ) → List Device → Type 0
Below tag b [] = Unit
Below tag b (d ∷ ds) = (d.tag ≡ tag → d.minor < b) × Below tag b ds

-- The minor numbers of each tag go up along the list, and do not overflow.
abbrev pub IsOrdered : List Device → Type 0
IsOrdered [] = Unit
IsOrdered (d ∷ ds) = (d.minor + 1 < 2 ^ 32) × From d.tag (d.minor + 1) ds × IsOrdered ds

next_of-append :
    (tag o : ℕ) (ds : List Device) (d : Device)
    → next_of tag o (ds ++ d ∷ [])
      ≡ next_of tag (if d.tag == tag then (d.minor + 1) % 2 ^ 32 else o) ds
next_of-append tag o [] d = refl
next_of-append tag o (e ∷ ds) d = rw (next_of-append tag o ds d) refl

From-weaken : (tag a b : ℕ) (ds : List Device) → a ≤ b → From tag b ds → From tag a ds
From-weaken tag a b [] h f = tt
From-weaken tag a b (d ∷ ds) h f = (λ e. ground (arith, f.0 e), From-weaken tag a b ds h f.1)

-- The next number is above all that are in use.
next_of-Below :
    (tag o : ℕ) (ds : List Device)
    → From tag o ds
    → IsOrdered ds
    → Below tag (next_of tag o (backward ds)) ds × (o ≤ next_of tag o (backward ds))
next_of-Below tag o [] f v = (tt, omega arith)
next_of-Below tag o (d ∷ ds) f (small, up, v) =
    let step = next_of-append tag o (backward ds) d in
    elim (Bool-cases (d.tag == tag)) [
      | inl e ↦
          let same : d.tag ≡ tag = ground arith in
          let w : (d.minor + 1) % 2 ^ 32 ≡ d.minor + 1 = omega arith in
          let (b, l) = next_of-Below tag (d.minor + 1) ds (rw same at up) v in
          let q : next_of tag o (backward (d ∷ ds)) ≡ next_of tag (d.minor + 1) (backward ds) =
            rw (e, w) at step in
          subst (λ z. Below tag z (d ∷ ds) × (o ≤ z)) (sym q)
            ((λ _. omega (arith, l), b), omega (arith, f.0 same, l))
      | inr n ↦
          let (b, l) = next_of-Below tag o ds f.1 v in
          let q : next_of tag o (backward (d ∷ ds)) ≡ next_of tag o (backward ds) = rw n at step in
          subst (λ z. Below tag z (d ∷ ds) × (o ≤ z)) (sym q) ((λ e. absurd (ground arith), b), l)
    ]

From-append :
    (tag b : ℕ) (ds : List Device) (d : Device)
    → From tag b ds
    → (d.tag ≡ tag → b ≤ d.minor)
    → From tag b (ds ++ d ∷ [])
From-append tag b [] d f h = (h, tt)
From-append tag b (e ∷ ds) d f h = (f.0, From-append tag b ds d f.1 h)

IsOrdered-append :
    (ds : List Device) (d : Device)
    → IsOrdered ds
    → Below d.tag d.minor ds
    → d.minor + 1 < 2 ^ 32
    → IsOrdered (ds ++ d ∷ [])
IsOrdered-append [] d v b s = (s, tt, tt)
IsOrdered-append (e ∷ ds) d (small, up, v) b s = (
  small,
  From-append e.tag (e.minor + 1) ds d up (λ q. ground (arith, b.0, q)),
  IsOrdered-append ds d v b.1 s,
)

dev_get-Below : (ds : List Device) (tag m b : ℕ) → Below tag b ds → b ≤ m → dev_get ds tag m ≡ none
unfolding dev_get
dev_get-Below [] tag m b f h = refl
dev_get-Below (d ∷ ds) tag m b f h =
    let ne : (d.tag == tag && d.minor == m) ≡ false = ground (arith, f.0) in
    rw ne (dev_get-Below ds tag m b f.1 h)

pub dev_get-From :
    (ds : List Device) (tag m b : ℕ) → From tag b ds → m < b → dev_get ds tag m ≡ none
unfolding dev_get
dev_get-From [] tag m b f h = refl
dev_get-From (d ∷ ds) tag m b f h =
    let ne : (d.tag == tag && d.minor == m) ≡ false = ground (arith, f.0) in
    rw ne (dev_get-From ds tag m b f.1 h)

dev_get-append :
    (ds : List Device) (d : Device) (tag m : ℕ)
    → dev_get (ds ++ d ∷ []) tag m ≡ elim (dev_get ds tag m) [
      | some e ↦ some e
      | none ↦ if d.tag == tag && d.minor == m then some d else none
    ]
unfolding dev_get
dev_get-append [] d tag m = refl
dev_get-append (e ∷ ds) d tag m = elim (Bool-cases (e.tag == tag && e.minor == m)) [
  | inl y ↦ rw y refl
  | inr n ↦ rw n (dev_get-append ds d tag m)
]

or_else-none :
    (o : Option Device) (d : Device) (c : Bool)
    → c ≡ false
    → elim o [ some e ↦ some e | none ↦ if c then some d else none ] ≡ o
or_else-none none d c e = rw e refl
or_else-none (some x) d c e = refl

-- What `dev_alloc` leaves.
pub record IsListed (devs : List Device) (tag fresh : ℕ) (out : Device × List Device) : Type 0 where
  pub ordered : IsOrdered out.1
  pub was_free : dev_get devs tag out.0.minor ≡ none
  pub found : dev_get out.1 tag out.0.minor ≡ some out.0
  pub others : (t m : ℕ) → t ≢ tag → dev_get out.1 t m ≡ dev_get devs t m
  pub older : (m : ℕ) → m ≢ out.0.minor → dev_get out.1 tag m ≡ dev_get devs tag m

-- `dev_alloc` gives the new device a name that no device has, under which `dev_get` finds it from then
-- on, and every other name finds what it found before, as long as the minor numbers do not overflow.
pub dev_alloc-IsListed :
    (devs : List Device) (tag fresh : ℕ)
    → IsOrdered devs
    → dev_next_minor devs tag + 1 < 2 ^ 32
    → IsListed devs tag fresh (dev_alloc devs tag fresh)
unfolding dev_alloc dev_next_minor
dev_alloc-IsListed devs tag fresh v s =
    let m = next_of tag 0 (backward devs) in
    let d : Device = record { at = fresh; tag = tag; minor = m } in
    let (b, _) = next_of-Below tag 0 devs (From-zero tag devs) v in
    let free = dev_get-Below devs tag m m b (omega arith) in
    record {
      ordered = IsOrdered-append devs d v b s;
      was_free = free;
      found = dev_get-append devs d tag m ∙ rw free (ground arith);
      others = λ t k ne.
          dev_get-append devs d t k
          ∙ or_else-none (dev_get devs t k) d (tag == t && m == k) (ground arith);
      older = λ k ne.
          dev_get-append devs d tag k
          ∙ or_else-none (dev_get devs tag k) d (tag == tag && m == k) (ground arith);
    }
  where
    From-zero : (t : ℕ) (ds : List Device) → From t 0 ds
    From-zero t [] = tt
    From-zero t (d ∷ ds) = (λ e. omega arith, From-zero t ds)
