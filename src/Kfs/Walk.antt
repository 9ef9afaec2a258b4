-- ===== src/Kfs/Walk.antt =====
-- The walk of all names (fs/kfs/kfs.c).
pub mod Preorder
use ko.Base.{ℕ, zero, suc, ◌+◌, Bool, if◌then◌else◌, Option, none, List, [], ◌∷◌, ◌++◌}
use ko.Base.Run.{Run, done, panic, out_of_fuel, ◌>>=◌}
use ko.Base.Int.{ℤ, pos, negsuc}
use ko.Kfs.State.{Kfs, is_dir}
use ko.Kfs.Tree.{kfs_readdir}

-- A call of `callback`.
pub record Call : Type 0 where
  pub dentry : ℕ
  pub depth : ℕ
  pub position : ℕ

abbrev pub kfs_isdir : Kfs → ℕ → Bool
kfs_isdir s dentry = is_dir (s.inode (s.dentry dentry).inode).type

-- kfs_tree_cb_r and its loop, which return the number of calls, with the calls in their order. `callback`
-- leaves the tables alone. A `leaf` that is negative would be an access before the table.
mutual
  pub tree_loop : ℕ → Kfs → ℕ → ℕ → ℤ → ℕ → Run (ℕ × List Call)
  tree_loop zero s root depth leaf position = out_of_fuel
  tree_loop (suc fuel) s root depth (negsuc n) position = panic
  tree_loop (suc fuel) s root depth (pos zero) position = done (0, [])
  tree_loop (suc fuel) s root depth (pos (suc k)) position =
      let leaf = suc k in
      let below = kfs_tree_cb_r fuel s leaf (depth + 1) in
      let rest = tree_loop fuel s root depth (kfs_readdir s root leaf none).0 (position + 1) in
      (if kfs_isdir s leaf then below else done (0, [])) >>= λ sub. rest >>= λ r. done (
        1 + sub.0 + r.0,
        (record { dentry = leaf; depth = depth; position = position }) ∷ sub.1 ++ r.1,
      )

  pub kfs_tree_cb_r : ℕ → Kfs → ℕ → ℕ → Run (ℕ × List Call)
  kfs_tree_cb_r zero s root depth = out_of_fuel
  kfs_tree_cb_r (suc fuel) s root depth =
      let leaf = (kfs_readdir s root root none).0 in
      let loop = tree_loop fuel s root depth leaf 0 in
      elim leaf [ pos k ↦ loop | negsuc n ↦ done (0, []) ]

pub kfs_tree_cb : ℕ → Kfs → ℕ → Run (ℕ × List Call)
kfs_tree_cb fuel s root =
    let first : Call = record { dentry = root; depth = 0; position = 0 } in
    if kfs_isdir s root
    then (kfs_tree_cb_r fuel s root 1 >>= λ r. done (1 + r.0, first ∷ r.1))
    else done (1, first ∷ [])
