-- ===== src/Device/Removal.antt =====
-- dev_free of kernel/kdev.c takes one device off the list.
use ko.Base.{
  ℕ, ◌+◌, ◌≡◌, refl, inl, inr, true, false, none, some, List, [], ◌∷◌, arith, ◌==◌, ◌&&◌,
  Bool-cases, has, Distinct,
}
use ko.Device.{Device, dev_get, dev_free}
use ko.Device.Names.{From, IsOrdered, dev_get-From}

abbrev pub addresses : List Device → List ℕ
addresses [] = []
addresses (d ∷ ds) = d.at ∷ addresses ds

-- A device that is found stands in the list, under the name that was asked for.
dev_get-has :
    (ds : List Device) (tag m : ℕ) (d : Device)
    → dev_get ds tag m ≡ some d
    → (has d.at (addresses ds) ≡ true) × (d.tag ≡ tag) × (d.minor ≡ m)
unfolding dev_get
dev_get-has [] tag m d e = absurd (cc)
dev_get-has (x ∷ xs) tag m d e = elim (Bool-cases (x.tag == tag && x.minor == m)) [
  | inl y ↦ let q : some x ≡ some d = rw y at e in ground (arith, q, y)
  | inr n ↦ let (h, t, k) = dev_get-has xs tag m d (rw n at e) in (ground (arith, h), t, k)
]

From-dev_free : (tag b : ℕ) (ds : List Device) (a : ℕ) → From tag b ds → From tag b (dev_free ds a)
unfolding dev_free
From-dev_free tag b [] a f = tt
From-dev_free tag b (d ∷ ds) a f = elim (Bool-cases (d.at == a)) [
  | inl y ↦ rw y f.1
  | inr n ↦ rw n (f.0, From-dev_free tag b ds a f.1)
]

IsOrdered-dev_free : (ds : List Device) (a : ℕ) → IsOrdered ds → IsOrdered (dev_free ds a)
unfolding dev_free
IsOrdered-dev_free [] a v = tt
IsOrdered-dev_free (d ∷ ds) a (s, up, v) = elim (Bool-cases (d.at == a)) [
  | inl y ↦ rw y v
  | inr n ↦ rw n (s, From-dev_free d.tag (d.minor + 1) ds a up, IsOrdered-dev_free ds a v)
]

-- What `dev_free` leaves of the device `d`.
pub record IsGone (devs : List Device) (d : Device) (devs' : List Device) : Type 0 where
  pub ordered : IsOrdered devs'
  pub gone : dev_get devs' d.tag d.minor ≡ none
  pub others :
      (t m : ℕ) → (d.tag == t && d.minor == m) ≡ false → dev_get devs' t m ≡ dev_get devs t m

-- After `dev_free` of a device that `dev_get` finds, its name is free, and every other name finds what
-- it found before.
pub dev_free-IsGone :
    (devs : List Device) (tag m : ℕ) (d : Device)
    → IsOrdered devs
    → Distinct (addresses devs)
    → dev_get devs tag m ≡ some d
    → IsGone devs d (dev_free devs d.at)
unfolding dev_free dev_get
dev_free-IsGone [] tag m d v u e = absurd (cc)
dev_free-IsGone (x ∷ xs) tag m d (s, up, v) u e = elim (Bool-cases (x.tag == tag && x.minor == m)) [
  | inl y ↦
      let q : some x ≡ some d = rw y at e in
      let here : x.at ≡ d.at = ground (arith, q) in
      let t : x.tag ≡ d.tag = ground (arith, q) in
      let k : x.minor ≡ d.minor = ground (arith, q) in
      let at : (x.at == d.at) ≡ true = ground arith in
      rw at (record {
        ordered = v;
        gone = rw t at (dev_get-From xs x.tag d.minor (x.minor + 1) up (omega arith));
        others = λ t2 m2 ne.
            let no_match : (x.tag == t2 && x.minor == m2) ≡ false = rw (t, k) ne in
            rw no_match refl;
      })
  | inr n ↦
      let e' : dev_get xs tag m ≡ some d = rw n at e in
      let (h, t, k) = dev_get-has xs tag m d e' in
      let at : (x.at == d.at) ≡ false = ground (arith, u.0, h) in
      let r = dev_free-IsGone xs tag m d v u.1 e' in
      rw at (record {
        ordered = (s, From-dev_free x.tag (x.minor + 1) xs d.at up, r.ordered);
        gone =
            let no_match : (x.tag == d.tag && x.minor == d.minor) ≡ false = rw (t, k) n in
            rw no_match r.gone;
        others = λ t2 m2 ne. elim (Bool-cases (x.tag == t2 && x.minor == m2)) [
          | inl y ↦ rw y refl
          | inr o ↦ rw o (r.others t2 m2 ne)
        ];
      })
]
