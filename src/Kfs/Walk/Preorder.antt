-- ===== src/Kfs/Walk/Preorder.antt =====
-- The order in which kfs_tree_cb visits the names.
use ko.Base.{
  ℕ, zero, suc, ◌+◌, ◌*◌, ◌<◌, ◌≡◌, ◌≢◌, refl, sym, ap, ◌∙◌, subst, Bool-cases, inl, inr, true,
  false, ◌==◌, if◌then◌else◌, arith, List, [], ◌∷◌, ◌++◌, none,
}
use ko.Base.Run.{done}
use ko.Base.Int.{pos}
use ko.Kfs.State.{Kfs}
use ko.Kfs.Tree.{kfs_readdir}
use ko.Kfs.Walk.{Call, kfs_isdir, tree_loop, kfs_tree_cb_r, kfs_tree_cb}

-- The entries of a directory, each with its own entries if it is a directory.
pub data Forest : Type 0 where
  empty : Forest
  entry : ℕ → Forest → Forest → Forest

abbrev pub count : Forest → ℕ
count empty = 0
count (entry d kids rest) = 1 + count kids + count rest

-- Each entry, then what is below it, then the entries after it.
abbrev pub preorder : Forest → ℕ → ℕ → List Call
preorder empty depth position = []
preorder (entry d kids rest) depth position =
    (record { dentry = d; depth = depth; position = position }) ∷ preorder kids (depth + 1) 0
    ++ preorder rest depth (position + 1)

-- The tables hold these entries in the directory `root` from the dentry `first` on.
abbrev pub HasForest : Kfs → ℕ → ℕ → Forest → Type 0
HasForest s root first empty = first ≡ 0
HasForest s root first (entry d kids rest) =
    (first ≡ d)
    × (0 < d)
    × ((s.dentry d).root ≡ root)
    × (d ≢ root)
    × (if kfs_isdir s d then HasForest s d (s.dentry d).leaf kids else kids ≡ empty)
    × HasForest s root (s.dentry d).next rest

readdir-first :
    (s : Kfs) (root : ℕ)
    → kfs_isdir s root ≡ true
    → (kfs_readdir s root root none).0 ≡ pos (s.dentry root).leaf
unfolding kfs_readdir
readdir-first s root h = let e : root == root ≡ true = ground arith in rw (h, e) refl

readdir-next :
    (s : Kfs) (root d : ℕ)
    → kfs_isdir s root ≡ true
    → d ≢ root
    → (s.dentry d).root ≡ root
    → (kfs_readdir s root d none).0 ≡ pos (s.dentry d).next
unfolding kfs_readdir
readdir-next s root d h n r =
    let e : d == root ≡ false = ground arith in
    let f : (s.dentry d).root == root ≡ true = ground arith in rw (h, e, f) refl

below-loop :
    (fuel : ℕ) (s : Kfs) (d depth : ℕ)
    → kfs_isdir s d ≡ true
    → kfs_tree_cb_r (suc fuel) s d depth ≡ tree_loop fuel s d depth (pos (s.dentry d).leaf) 0
unfolding kfs_tree_cb_r
below-loop fuel s d depth h =
    rw (readdir-first s d h, kfs_tree_cb_r)
      (ap (λ z. tree_loop fuel s d depth z 0) (readdir-first s d h))

-- One round of the loop, when what it calls returns.
loop-round :
    (fuel : ℕ) (s : Kfs) (root depth k position calls more : ℕ) (visits others : List Call)
    → kfs_isdir s root ≡ true
    → suc k ≢ root
    → (s.dentry (suc k)).root ≡ root
    → (if kfs_isdir s (suc k) then kfs_tree_cb_r fuel s (suc k) (depth + 1) else done (0, []))
      ≡ done (calls, visits)
    → tree_loop fuel s root depth (pos (s.dentry (suc k)).next) (position + 1) ≡ done (more, others)
    → tree_loop (suc fuel) s root depth (pos (suc k)) position
      ≡ done (
        1 + calls + more,
        (record { dentry = suc k; depth = depth; position = position }) ∷ visits ++ others,
      )
unfolding tree_loop
loop-round fuel s root depth k position calls more visits others h n r e f =
    rw (readdir-next s root (suc k) h n r, e, f) refl

tree_loop-preorder :
    (f : Forest) (fuel : ℕ) (s : Kfs) (root depth first position : ℕ)
    → kfs_isdir s root ≡ true
    → HasForest s root first f
    → 2 * count f < fuel
    → tree_loop fuel s root depth (pos first) position ≡ done (count f, preorder f depth position)
unfolding tree_loop
tree_loop-preorder f zero s root depth first position h t l = absurd (omega (arith, l))
tree_loop-preorder empty (suc fuel) s root depth first position h t l = rw t refl
tree_loop-preorder (entry zero kids rest) (suc fuel) s root depth first position h t l =
    absurd (omega (arith, t.1))
tree_loop-preorder (entry (suc k) kids rest) (suc zero) s root depth first position h t l =
    absurd (omega (arith, l))
tree_loop-preorder (entry (suc k) kids rest) (suc (suc fuel)) s root depth first position h
      (e, p, r, n, b, t) l =
    subst
      (λ z.
        tree_loop (suc (suc fuel)) s root depth (pos z) position
        ≡ done (1 + count kids + count rest, preorder (entry (suc k) kids rest) depth position))
      (sym e)
      (loop-round (suc fuel) s root depth k position (count kids) (count rest)
        (preorder kids (depth + 1) 0) (preorder rest depth (position + 1)) h n r
        (elim (Bool-cases (kfs_isdir s (suc k))) [
          | inl d ↦
              let b' : HasForest s (suc k) (s.dentry (suc k)).leaf kids =
                subst
                  (λ z.
                    if z then HasForest s (suc k) (s.dentry (suc k)).leaf kids else kids ≡ empty)
                  d b in
              rw d (
                below-loop fuel s (suc k) (depth + 1) d
                ∙ tree_loop-preorder kids fuel s (suc k) (depth + 1) (s.dentry (suc k)).leaf 0 d b'
                    (omega (arith, l)))
          | inr d ↦
              let none : kids ≡ empty =
                subst
                  (λ z.
                    if z then HasForest s (suc k) (s.dentry (suc k)).leaf kids else kids ≡ empty)
                  d b in
              rw (d, none) refl
        ])
        (tree_loop-preorder rest (suc fuel) s root depth (s.dentry (suc k)).next (position + 1) h t
          (omega (arith, l))))

-- kfs_tree_cb calls `callback` for the dentry and then, if it is a directory, for all that is below it: for
-- each entry, then for what is below that, then for the entries after it, with the depth and the position
-- in the directory. It returns the number of calls, when the fuel exceeds twice that number.
pub kfs_tree_cb-preorder :
    (s : Kfs) (root fuel : ℕ) (f : Forest)
    → (if kfs_isdir s root then HasForest s root (s.dentry root).leaf f else f ≡ empty)
    → 2 * count f + 1 < fuel
    → kfs_tree_cb fuel s root
      ≡ done (1 + count f, (record { dentry = root; depth = 0; position = 0 }) ∷ preorder f 1 0)
unfolding kfs_tree_cb
kfs_tree_cb-preorder s root zero f t l = absurd (omega (arith, l))
kfs_tree_cb-preorder s root (suc fuel) f t l = elim (Bool-cases (kfs_isdir s root)) [
  | inl d ↦
      let t' : HasForest s root (s.dentry root).leaf f =
        subst (λ z. if z then HasForest s root (s.dentry root).leaf f else f ≡ empty) d t in
      rw
        (
          d,
          below-loop fuel s root 1 d,
          tree_loop-preorder f fuel s root 1 (s.dentry root).leaf 0 d t' (omega (arith, l)),
        )
        refl
  | inr d ↦
      let t' : f ≡ empty =
        subst (λ z. if z then HasForest s root (s.dentry root).leaf f else f ≡ empty) d t in
      rw (d, t') refl
]
