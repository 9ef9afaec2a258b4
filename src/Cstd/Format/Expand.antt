-- ===== src/Cstd/Format/Expand.antt =====
-- The loops of vsnprintf over the format, against the whole output of the format.
use ko.Base.{
  ℕ, ◌+◌, ◌-◌, ◌%◌, ◌^◌, ◌≡◌, refl, true, false, ◌==◌, leb, if◌then◌else◌, List, [], ◌∷◌, ◌++◌,
  length, Bool-cases, inl, inr, ◌∙◌, sym, ap, fun_ext,
}
use ko.Cstd.Numbers.{int_min}
use ko.Cstd.Format.{
  Printing, Step, more, abort, beyond, ◌>>=◌, put, put_all, decimal, hex, pad, directive, takes,
  print,
}

module _ (text : ℕ → List ℕ) (arg : ℕ → ℕ) where
  -- The output of one directive.
  abbrev pub piece : ℕ → ℕ → List ℕ
  piece c ap =
      if c == b'%'
      then b'%' ∷ []
      else if c == b'c'
      then (arg ap % 2 ^ 8) ∷ []
      else if c == b's'
      then if arg ap == 0 then b'(' ∷ b'n' ∷ b'u' ∷ b'l' ∷ b'l' ∷ b')' ∷ [] else text (arg ap)
      else if c == b'd'
      then (if leb int_min (arg ap) then b'-' ∷ decimal (arg ap) else decimal (arg ap))
      else if c == b'p'
      then pad (8 - length (hex (arg ap))) (hex (arg ap))
      else if c == b'x'
      then hex (arg ap)
      else c ∷ []

  -- The whole output.
  abbrev pub expand : List ℕ → ℕ → List ℕ
  expand [] ap = []
  expand (c ∷ []) ap = c ∷ []
  expand (c ∷ d ∷ fmt) ap = elim (c == b'%') [
    | true ↦ piece d ap ++ expand fmt (ap + takes text arg d)
    | false ↦ c ∷ expand (d ∷ fmt) ap
  ]

-- The format does not end inside of a directive.
abbrev pub IsComplete : List ℕ → Type 0
IsComplete [] = Unit
IsComplete (c ∷ []) = c == b'%' ≡ false
IsComplete (c ∷ d ∷ fmt) = elim (c == b'%') [ true ↦ IsComplete fmt | false ↦ IsComplete (d ∷ fmt) ]

bind_assoc : (s : Step) (f g : Printing → Step) → ((s >>= f) >>= g) ≡ (s >>= λ st. f st >>= g)
bind_assoc (more st) f g = refl
bind_assoc (abort st) f g = refl
bind_assoc beyond f g = refl

put_all-append :
    (xs ys : List ℕ) (st : Printing) → put_all (xs ++ ys) st ≡ (put_all xs st >>= put_all ys)
unfolding put_all
put_all-append [] ys st = refl
put_all-append (x ∷ xs) ys st =
    ap (λ f. put x st >>= f) (fun_ext (put_all-append xs ys))
    ∙ sym (bind_assoc (put x st) (put_all xs) (put_all ys))

put_one : (c : ℕ) (st : Printing) → put c st ≡ put_all (c ∷ []) st
unfolding put_all
put_one c st = bind_end (put c st)
  where
    bind_end : (s : Step) → s ≡ (s >>= λ z. more z)
    bind_end (more z) = refl
    bind_end (abort z) = refl
    bind_end beyond = refl

signed-piece :
    (w : ℕ) (st : Printing)
    → ((if leb int_min w then put b'-' st else more st) >>= put_all (decimal w))
      ≡ put_all (if leb int_min w then b'-' ∷ decimal w else decimal w) st
unfolding put_all
signed-piece w st = elim (Bool-cases (leb int_min w)) [ inl e ↦ rw e refl | inr e ↦ rw e refl ]

module _ (text : ℕ → List ℕ) (arg : ℕ → ℕ) where
  directive-piece :
      (c ap : ℕ) (st : Printing) → directive text arg c ap st ≡ put_all (piece text arg c ap) st
  unfolding directive
  directive-piece c ap st = elim (Bool-cases (c == b'%')) [
    | inl e ↦ rw e (put_one b'%' st)
    | inr e1 ↦ elim (Bool-cases (c == b'c')) [
      | inl e ↦ rw (e1, e) (put_one (arg ap % 2 ^ 8) st)
      | inr e2 ↦ elim (Bool-cases (c == b's')) [
        | inl e ↦ rw (e1, e2, e) refl
        | inr e3 ↦ elim (Bool-cases (c == b'd')) [
          | inl e ↦ rw (e1, e2, e3, e) (signed-piece (arg ap) st)
          | inr e4 ↦ elim (Bool-cases (c == b'p')) [
            | inl e ↦ rw (e1, e2, e3, e4, e) refl
            | inr e5 ↦ elim (Bool-cases (c == b'x')) [
              | inl e ↦ rw (e1, e2, e3, e4, e5, e) refl
              | inr e ↦ rw (e1, e2, e3, e4, e5, e) (put_one c st)
            ]
          ]
        ]
      ]
    ]
  ]

  pub print-expand :
      (fmt : List ℕ) (ap : ℕ) (st : Printing)
      → IsComplete fmt
      → print text arg fmt ap st ≡ put_all (expand text arg fmt ap) st
  unfolding print put_all
  print-expand [] n st h = refl
  print-expand (c ∷ []) n st h = rw h (put_one c st)
  print-expand (c ∷ d ∷ fmt) n st h = elim (Bool-cases (c == b'%')) [
    | inl e ↦
        let h' : IsComplete fmt = rw (e, IsComplete) at h in
        rw (e, print, expand)
          (ap (λ s. s >>= print text arg fmt (n + takes text arg d)) (directive-piece d n st)
            ∙ ap (λ f. put_all (piece text arg d n) st >>= f)
                (fun_ext (λ z. print-expand fmt (n + takes text arg d) z h'))
            ∙ sym (
                put_all-append (piece text arg d n) (expand text arg fmt (n + takes text arg d))
                  st))
    | inr e ↦
        let h' : IsComplete (d ∷ fmt) = rw (e, IsComplete) at h in
        rw (e, print, expand)
          (ap (λ f. put c st >>= f) (fun_ext (λ z. print-expand (d ∷ fmt) n z h')))
  ]
