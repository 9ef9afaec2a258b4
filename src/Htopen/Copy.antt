-- ===== src/Htopen/Copy.antt =====
-- The loop of hto_rehash that puts the pairs of a table into a new one.
use ko.Base.{
  ℕ, zero, suc, ◌+◌, ◌<◌, ◌≡◌, ◌≢◌, ◌⊎◌, refl, true, ◌==◌, arith, Bool-cases, inl, inr, ◌∙◌, subst,
  sym, ap,
}
use ko.Htopen.{Key, Cell, null, freed, used, Table, hash, hto_set, rehash_loop}
use ko.Htopen.Primes.{IsPrime}
use ko.Htopen.Keys.{IsKey}
use ko.Htopen.Change.{IsTable, Holds, Lacks, IsPut}
use ko.Htopen.Probe.{Cell-cases}
use ko.Htopen.Set.{stored, full, hto_set-IsStored}

-- Every probe of the key is taken.
abbrev pub AllTaken : Table → Key → Type 0
AllTaken ht key = (u : ℕ) → u < ht.size → (ht.bucket (hash ht.size key u)).key ≢ null

-- The slots before `i` have gone into `new`, but for keys whose probes are all taken.
pub record IsCopied (ht : Table) (i : ℕ) (new : Table) : Type 0 where
  pub table : IsTable new
  pub words : new.words ≡ ht.words
  pub prime : IsPrime new.size
  pub only :
      (k : Key) (v : ℕ)
      → Holds new k v
      → (h : ℕ) × (h < i) × ((ht.bucket h).key ≡ used k) × ((ht.bucket h).val ≡ v)
  pub all :
      (h : ℕ) (k : Key)
      → h < i
      → (ht.bucket h).key ≡ used k
      → Holds new k (ht.bucket h).val ⊎ AllTaken new k

AllTaken-kept :
    (new new' : Table) (key k : Key) (v : ℕ)
    → IsPut new key v new'
    → AllTaken new k
    → AllTaken new' k
AllTaken-kept new new' key k v p a u l =
    subst (λ s. (new'.bucket (hash s k u)).key ≢ null) (sym p.size)
      (p.taken (hash new.size k u) (a u (subst (λ s. u < s) p.size l)))

module _ (ht : Table) (valid : IsTable ht) where
  skip-IsCopied :
      (i : ℕ) (new : Table)
      → ((k : Key) → (ht.bucket i).key ≢ used k)
      → IsCopied ht i new
      → IsCopied ht (suc i) new
  skip-IsCopied i new n c = record {
    table = c.table;
    words = c.words;
    prime = c.prime;
    only = λ k v x. let (h, l, e, w) = c.only k v x in (h, omega arith, e, w);
    all = λ h k l e. elim (Bool-cases (h == i)) [
      | inl f ↦
          let z : h ≡ i = ground arith in absurd (n k (subst (λ y. (ht.bucket y).key ≡ used k) z e))
      | inr f ↦ c.all h k (ground arith) e
    ];
  }

  Lacks-new :
      (i : ℕ) (new : Table) (k : Key)
      → i < ht.size
      → (ht.bucket i).key ≡ used k
      → IsCopied ht i new
      → Lacks new k
  Lacks-new i new k l e c h lh eh =
      let (g, lg, eg, w) = c.only k (new.bucket h).val (h, lh, eh, refl) in
      let z = valid.once g i k (omega arith) l eg e in absurd (omega arith)

  put-IsCopied :
      (i : ℕ) (new new' : Table) (k : Key)
      → i < ht.size
      → (ht.bucket i).key ≡ used k
      → IsCopied ht i new
      → IsPut new k (ht.bucket i).val new'
      → IsCopied ht (suc i) new'
  put-IsCopied i new new' k l e c p = record {
    table = p.table;
    words = p.words ∙ c.words;
    prime = subst IsPrime (sym p.size) c.prime;
    only = λ q v (h, lh, eh, vh).
        let (s, ls, es, vs) = p.here in
        elim (Bool-cases (h == s)) [
          | inl f ↦
              let z : h ≡ s = ground arith in
              let same : k ≡ q =
                used_inj k q (sym es ∙ subst (λ y. (new'.bucket y).key ≡ used q) z eh) in
              (i, omega arith, e ∙ ap used same, sym vs ∙ subst (λ y. (new'.bucket y).val ≡ v) z vh)
          | inr f ↦
              let differ : q ≢ k =
                λ w. let z : h ≡ s = p.table.once h s k lh ls (eh ∙ ap used w) es in ground arith in
              let (g, lg, eg, wg) = c.only q v ((p.others q v differ).0 (h, lh, eh, vh)) in
              (g, omega arith, eg, wg)
        ];
    all = λ h q lh eh. elim (Bool-cases (h == i)) [
      | inl f ↦
          let z : i ≡ h = ground arith in
          let same : k ≡ q =
            used_inj k q (sym e ∙ subst (λ y. (ht.bucket y).key ≡ used q) (sym z) eh) in
          inl (
            subst (λ y. Holds new' q (ht.bucket y).val) z
              (subst (λ y. Holds new' y (ht.bucket i).val) same p.here))
      | inr f ↦
          let differ : q ≢ k = λ w.
            let z : h ≡ i = valid.once h i k (omega arith) l (eh ∙ ap used w) e in ground arith in
          elim (c.all h q (ground arith) eh) [
            | inl x ↦ inl ((p.others q (ht.bucket h).val differ).1 x)
            | inr a ↦ inr (AllTaken-kept new new' k q (ht.bucket i).val p a)
          ]
    ];
  }
    where
      used_inj : (a b : Key) → used a ≡ used b → a ≡ b
      used_inj a b e = cc

  full-IsCopied :
      (i : ℕ) (new : Table) (k : Key)
      → (ht.bucket i).key ≡ used k
      → IsCopied ht i new
      → AllTaken new k
      → IsCopied ht (suc i) new
  full-IsCopied i new k e c a = record {
    table = c.table;
    words = c.words;
    prime = c.prime;
    only = λ q v x. let (h, l, eh, w) = c.only q v x in (h, omega arith, eh, w);
    all = λ h q l eh. elim (Bool-cases (h == i)) [
      | inl f ↦
          let z : h ≡ i = ground arith in
          inr (
            subst (AllTaken new)
              (used_inj k q (sym e ∙ subst (λ y. (ht.bucket y).key ≡ used q) z eh)) a)
      | inr f ↦ c.all h q (ground arith) eh
    ];
  }
    where
      used_inj : (a b : Key) → used a ≡ used b → a ≡ b
      used_inj a b e = cc

  set-IsCopied :
      (i : ℕ) (new : Table) (k : Key)
      → i < ht.size
      → (ht.bucket i).key ≡ used k
      → IsCopied ht i new
      → IsCopied ht (suc i) (hto_set true new k (ht.bucket i).val).1
  set-IsCopied i new k l e c =
      let good : IsKey new.words k = subst (λ w. IsKey w k) (sym c.words) (valid.keys i k l e) in
      elim (hto_set-IsStored new c.table k good (ht.bucket i).val) [
        | stored try r t p ↦ put-IsCopied i new _ k l e c p
        | full r same lacks a ↦ subst (IsCopied ht (suc i)) (sym same) (
            full-IsCopied i new k e c
              (λ u lu. used≢null (a u lu).0 (new.bucket (hash new.size k u)).key (a u lu).1))
      ]
    where
      used≢null : (k : Key) (c : Cell) → c ≡ used k → c ≢ null
      used≢null k c e f = cc

  pub rehash_loop-IsCopied :
      (left i : ℕ) (new : Table)
      → left + i ≡ ht.size
      → IsCopied ht i new
      → IsCopied ht ht.size (rehash_loop left ht i new)
  unfolding rehash_loop
  rehash_loop-IsCopied zero i new e c = subst (λ n. IsCopied ht n new) (omega arith) c
  rehash_loop-IsCopied (suc left) i new e c =
      let e1 : i + 1 ≡ suc i = omega arith in
      elim (Cell-cases (ht.bucket i).key) [
        | inl f ↦
            rw (f, e1)
              (rehash_loop-IsCopied left (suc i) new (omega arith)
                (skip-IsCopied i new (λ k g. null≢used k (sym f ∙ g)) c))
        | inr (inl f) ↦
            rw (f, e1)
              (rehash_loop-IsCopied left (suc i) new (omega arith)
                (skip-IsCopied i new (λ k g. freed≢used k (sym f ∙ g)) c))
        | inr (inr (k, f)) ↦
            rw (f, e1)
              (rehash_loop-IsCopied left (suc i) _ (omega arith)
                (set-IsCopied i new k (omega arith) f c))
      ]
    where
      null≢used : (k : Key) → null ≢ used k
      null≢used k e = cc

      freed≢used : (k : Key) → freed ≢ used k
      freed≢used k e = cc
