-- ===== src/Kfs/Tree/Path.antt =====
-- The names that kfs_open takes from a path.
use ko.Base.{
  ℕ, zero, suc, ◌<◌, ◌≤◌, ◌≡◌, refl, sym, ap, ◌∙◌, true, ◌==◌, leb, if◌then◌else◌, arith,
  Bool-cases, inl, inr, List, [], ◌∷◌, ◌++◌, append-nil, append_assoc, length, fun_ext, false, none,
  some,
}
use ko.Base.Run.{Run, done, ◌>>=◌, panic_if}
use ko.Base.Int.{pos, negsuc}
use ko.Kfs.State.{Kfs}
use ko.Kfs.Tree.{
  name_size, slash, starts_with_slash, segment, after, skip_slashes, past_slash, next_name,
  kfs_getname, kfs_openat, open_loop, kfs_open,
}
use ko.Base.{update}

-- The names of a path: what stands between slashes and is not empty. `name` is what was read of the first.
abbrev pub add_name : List ℕ → List (List ℕ) → List (List ℕ)
add_name [] names = names
add_name (c ∷ cs) names = (c ∷ cs) ∷ names

abbrev pub names_of : List ℕ → List ℕ → List (List ℕ)
names_of name [] = add_name name []
names_of name (c ∷ cs) =
    if c == slash then add_name name (names_of [] cs) else names_of (name ++ c ∷ []) cs

-- kfs_openat in one directory after the other. A name of 32 or more characters is written behind the buffer.
pub walk : ℕ → Kfs → ℕ → List (List ℕ) → Run (ℕ × Kfs)
walk fuel s d [] = done (d, record s { next = [] })
walk fuel s d (name ∷ names) =
    panic_if (leb name_size (length name))
      (kfs_openat fuel s d name >>= λ r. walk fuel r.1 r.0 names)

skip-cons : (c : ℕ) (cs : List ℕ) → c == slash ≡ false → skip_slashes (c ∷ cs) ≡ c ∷ cs
unfolding skip_slashes
skip-cons c cs e = rw e refl

skip-slash : (c : ℕ) (cs : List ℕ) → c == slash ≡ true → skip_slashes (c ∷ cs) ≡ skip_slashes cs
unfolding skip_slashes
skip-slash c cs e = rw e refl

names_of-slash : (c : ℕ) (cs : List ℕ) → c == slash ≡ true → names_of [] (c ∷ cs) ≡ names_of [] cs
names_of-slash c cs e = rw e refl

names_of-skip : (cs : List ℕ) → names_of [] (skip_slashes cs) ≡ names_of [] cs
unfolding skip_slashes
names_of-skip [] = refl
names_of-skip (c ∷ cs) = elim (Bool-cases (c == slash)) [
  | inl e ↦ ap (names_of []) (skip-slash c cs e) ∙ names_of-skip cs ∙ sym (names_of-slash c cs e)
  | inr e ↦ ap (names_of []) (skip-cons c cs e)
]

-- The first name ends at the next slash.
names_of-segment :
    (name cs : List ℕ)
    → names_of name cs ≡ add_name (name ++ segment cs) (names_of [] (past_slash (after cs)))
unfolding segment after
names_of-segment name [] = rw append-nil refl
names_of-segment name (c ∷ cs) = elim (Bool-cases (c == slash)) [
  | inl e ↦ rw (e, append-nil) refl
  | inr e ↦ rw e (names_of-segment (name ++ c ∷ []) cs ∙ rw append_assoc refl)
]

length-skip : (cs : List ℕ) → length (skip_slashes cs) ≤ length cs
unfolding skip_slashes
length-skip [] = omega arith
length-skip (c ∷ cs) = ground (arith, length-skip cs)

length-after : (cs : List ℕ) → length (past_slash (after cs)) ≤ length cs
unfolding after
length-after [] = omega arith
length-after (c ∷ cs) = ground (arith, length-after cs)

no_slash : (cs : List ℕ) → starts_with_slash (skip_slashes cs) ≡ false
unfolding skip_slashes
no_slash [] = refl
no_slash (c ∷ cs) = ground (arith, no_slash cs)

segment-cons : (c : ℕ) (cs : List ℕ) → c == slash ≡ false → segment (c ∷ cs) ≡ c ∷ segment cs
unfolding segment
segment-cons c cs e = rw e refl

after-cons : (c : ℕ) (cs : List ℕ) → c == slash ≡ false → after (c ∷ cs) ≡ after cs
unfolding after
after-cons c cs e = rw e refl

open_loop-walk :
    (rounds fuel : ℕ) (s : Kfs) (next : List ℕ) (d : ℕ)
    → starts_with_slash next ≡ false
    → length next < rounds
    → open_loop rounds fuel s next d ≡ walk fuel s d (names_of [] next)
unfolding open_loop kfs_getname next_name walk
open_loop-walk zero fuel s next d n l = absurd (omega (arith, l))
open_loop-walk (suc rounds) fuel s [] d n l = refl
open_loop-walk (suc rounds) fuel s (c ∷ cs) d n l =
    let rest = skip_slashes (past_slash (after cs)) in
    let more = λ (r : ℕ × Kfs).
      open_loop-walk rounds fuel r.1 rest r.0 (no_slash (past_slash (after cs)))
        (omega (arith, l, length-skip (past_slash (after cs)), length-after cs))
      ∙ ap (walk fuel r.1 r.0) (names_of-skip (past_slash (after cs))) in
    let names : names_of [] (c ∷ cs) ≡ (c ∷ segment cs) ∷ names_of [] (past_slash (after cs)) =
      names_of-segment [] (c ∷ cs) ∙ rw (segment-cons c cs n, after-cons c cs n) refl in
    elim (Bool-cases (leb name_size (length (c ∷ segment cs)))) [
      | inl e ↦
          rw (segment-cons c cs n, after-cons c cs n, e)
            (sym (ap (walk fuel s d) names ∙ rw e refl))
      | inr e ↦
          rw (segment-cons c cs n, after-cons c cs n, e)
            (ap (λ f. kfs_openat fuel s d (c ∷ segment cs) >>= f) (fun_ext more)
              ∙ sym (ap (walk fuel s d) names ∙ rw e refl))
    ]

getname-slash :
    (c : ℕ) (cs next : List ℕ)
    → c == slash ≡ true
    → kfs_getname (some (c ∷ cs)) next ≡ done (some [], skip_slashes cs)
unfolding kfs_getname
getname-slash c cs next e = rw e refl

getname-other :
    (c : ℕ) (cs next : List ℕ)
    → c == slash ≡ false
    → kfs_getname (some (c ∷ cs)) next ≡ done (none, next)
unfolding kfs_getname
getname-other c cs next e = rw e refl

open-nil : (fuel : ℕ) (s : Kfs) → kfs_open fuel s [] ≡ done (negsuc 0, s)
unfolding kfs_open kfs_getname
open-nil fuel s = refl

-- kfs_open of a path that begins with a slash is kfs_openat from the root on, in one directory after the
-- other, for the names between the slashes, where several slashes count as one; the last dentry is returned
-- and its inode is read from the first page on. This holds up to the first name of 32 or more characters,
-- which is written behind the buffer for names. Any other path is refused and nothing changes.
pub kfs_open-walk :
    (fuel : ℕ) (s : Kfs) (pathname : List ℕ)
    → kfs_open fuel s pathname ≡ (
        if starts_with_slash pathname
        then (walk fuel s 0 (names_of [] pathname) >>= λ (dentry, s1).
            done (pos dentry, record s1 { offset = update s1.offset (s1.dentry dentry).inode 0 }))
        else done (negsuc 0, s))
unfolding kfs_open
kfs_open-walk fuel s [] = open-nil fuel s
kfs_open-walk fuel s (c ∷ cs) = elim (Bool-cases (c == slash)) [
  | inr e ↦ rw (e, getname-other c cs s.next e) refl
  | inl e ↦
      let more = skip_slashes cs in
      let opened : open_loop (suc (length more)) fuel s more 0 ≡ walk fuel s 0 (names_of [] cs) =
        open_loop-walk (suc (length more)) fuel s more 0 (no_slash cs) (omega arith)
        ∙ ap (walk fuel s 0) (names_of-skip cs) in
      rw (e, getname-slash c cs s.next e)
        (ap
          (λ r. r >>= λ (dentry, s1).
            done (pos dentry, record s1 { offset = update s1.offset (s1.dentry dentry).inode 0 }))
          opened)
]
