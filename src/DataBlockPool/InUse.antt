-- ===== src/DataBlockPool/InUse.antt =====
-- No block of src/core/datablockpool.cpp is handed out twice.
use cbftp.Common.{
  ℕ, zero, suc, ◌+◌, ◌≤◌, ◌<◌, ◌≡◌, refl, ap, subst, ltb, inl, inr, Option, none, some, List, [],
  ◌∷◌, ◌++◌, times, times-append, Bool-cases, arith, Returns, ℕ_discrete,
}
use mathlib.Core.Option.{some-injective}
use cbftp.DataBlockPool.{
  DataBlockPool, empty_pool, pop_block, return_block, allocate_block, allocate_rounds, ready,
  get_block,
}
use cbftp.DataBlockPool

Returns-because :
    {P : ℕ × DataBlockPool → Type 0} (m : Option (ℕ × DataBlockPool))
    → Returns (λ x. Unit {0}) m
    → ((a : ℕ × DataBlockPool) → m ≡ some a → P a)
    → Returns P m
Returns-because none h k = absurd h
Returns-because (some a) h k = k a refl

module _ (malloc : ℕ → ℕ) where
  -- Each allocated block is available or in use, and only once.
  pub record IsDisjoint (p : DataBlockPool) (held : List ℕ) : Type 0 where
    pub once : (a : ℕ) → times a p.availableblocks + times a held ≤ 1
    pub allocated :
        (a : ℕ)
        → 0 < times a p.availableblocks + times a held
        → (i : ℕ) × (i < p.totalblocks) × (malloc i ≡ a)

  -- What happens to a pool: the blocks in use are those that were handed out and not returned.
  pub data Reach : DataBlockPool → List ℕ → Type 0 where
    starts : Reach (DataBlockPool.new malloc) []
    gets :
        (p q : DataBlockPool) (b : ℕ) (held : List ℕ)
        → get_block malloc p ≡ some (b, q)
        → Reach p held
        → Reach q (b ∷ held)
    returns :
        (p : DataBlockPool) (b : ℕ) (before after : List ℕ)
        → Reach p (before ++ b ∷ after)
        → Reach (return_block b p) (before ++ after)

  module _ (distinct : (i j : ℕ) → malloc i ≡ malloc j → i ≡ j) where
    -- The block that comes next is neither available nor in use.
    fresh :
        (p : DataBlockPool) (held : List ℕ)
        → IsDisjoint p held
        → times (malloc p.totalblocks) p.availableblocks + times (malloc p.totalblocks) held ≡ 0
    fresh p held v =
        let m = malloc p.totalblocks in
        elim (Bool-cases (ltb 0 (times m p.availableblocks + times m held))) [
          | inl t ↦
              let (i, l, q) = v.allocated m (ground (arith, t)) in
              absurd (omega (arith, l, distinct i p.totalblocks q))
          | inr t ↦ ground (arith, t)
        ]

    allocate_block-IsDisjoint :
        (p : DataBlockPool) (held : List ℕ)
        → IsDisjoint p held
        → IsDisjoint (allocate_block malloc p) held
    allocate_block-IsDisjoint p held v = record {
      once = λ a. elim (ℕ_discrete (malloc p.totalblocks) a) [
        | yes e ↦
            let z = fresh p held v in
            subst (λ x. times x (allocate_block malloc p).availableblocks + times x held ≤ 1) e
              (ground (arith, z))
        | no e ↦ ground (arith, e, v.once a)
      ];
      allocated = λ a h. elim (ℕ_discrete (malloc p.totalblocks) a) [
        | yes e ↦ (p.totalblocks, omega arith, e)
        | no e ↦ let (i, l, q) = v.allocated a (ground (arith, e, h)) in (i, omega (arith, l), q)
      ];
    }

    allocate_rounds-IsDisjoint :
        (n : ℕ) (p : DataBlockPool) (held : List ℕ)
        → IsDisjoint p held
        → IsDisjoint (allocate_rounds malloc n p) held
    unfolding allocate_rounds
    allocate_rounds-IsDisjoint zero p held v = v
    allocate_rounds-IsDisjoint (suc n) p held v =
        allocate_rounds-IsDisjoint n (allocate_block malloc p) held
          (allocate_block-IsDisjoint p held v)

    new-IsDisjoint : IsDisjoint (DataBlockPool.new malloc) []
    unfolding DataBlockPool.new
    new-IsDisjoint =
        allocate_rounds-IsDisjoint 10 empty_pool []
          (record { once = λ a. omega arith; allocated = λ a h. absurd (omega (arith, h)) })

    ready-IsDisjoint :
        (bs : List ℕ) (p : DataBlockPool) (held : List ℕ)
        → IsDisjoint p held
        → IsDisjoint (ready malloc bs p) held
    ready-IsDisjoint [] p held v = allocate_rounds-IsDisjoint 10 p held v
    ready-IsDisjoint (b ∷ bs) p held v = v

    pop_block-IsDisjoint :
        (bs : List ℕ) (p q : DataBlockPool) (b : ℕ) (held : List ℕ)
        → p.availableblocks ≡ bs
        → pop_block p bs ≡ some (b, q)
        → IsDisjoint p held
        → IsDisjoint q (b ∷ held) × (times b held ≡ 0)
    pop_block-IsDisjoint [] p q b held e f v = cc
    pop_block-IsDisjoint (x ∷ bs) p q b held e f v =
        let t = λ (a : ℕ). ap (times a) e in
        let z : times x held ≡ 0 = ground (arith, t x, v.once x) in
        let popped = record p { availableblocks = bs } in
        let w : IsDisjoint popped (x ∷ held) = record {
          once = λ a. omega (arith, t a, v.once a);
          allocated = λ a h. v.allocated a (omega (arith, t a, h));
        } in
        subst (λ r. IsDisjoint r.1 (r.0 ∷ held) × (times r.0 held ≡ 0))
          (some-injective (x, popped) (b, q) f) (w, z)

    get_block-IsDisjoint :
        (p q : DataBlockPool) (b : ℕ) (held : List ℕ)
        → get_block malloc p ≡ some (b, q)
        → IsDisjoint p held
        → IsDisjoint q (b ∷ held) × (times b held ≡ 0)
    unfolding get_block
    get_block-IsDisjoint p q b held e v =
        let r = ready malloc p.availableblocks p in
        pop_block-IsDisjoint r.availableblocks r q b held refl e
          (ready-IsDisjoint p.availableblocks p held v)

    return_block-IsDisjoint :
        (p : DataBlockPool) (b : ℕ) (before after : List ℕ)
        → IsDisjoint p (before ++ b ∷ after)
        → IsDisjoint (return_block b p) (before ++ after)
    unfolding return_block
    return_block-IsDisjoint p b before after v =
        let t = λ (a : ℕ). times-append a before (b ∷ after) in
        let u = λ (a : ℕ). times-append a before after in
        record {
          once = λ a. omega (arith, t a, u a, v.once a);
          allocated = λ a h. v.allocated a (omega (arith, t a, u a, h));
        }

    Reach-IsDisjoint : (p : DataBlockPool) (held : List ℕ) → Reach p held → IsDisjoint p held
    Reach-IsDisjoint p held starts = new-IsDisjoint
    Reach-IsDisjoint p held (gets o _ b before e r) =
        (get_block-IsDisjoint o p b before e (Reach-IsDisjoint o before r)).0
    Reach-IsDisjoint p held (returns o b before after r) =
        return_block-IsDisjoint o b before after (Reach-IsDisjoint o (before ++ b ∷ after) r)

    ready-pops :
        (bs : List ℕ) (p : DataBlockPool)
        → p.availableblocks ≡ bs
        → (let r = ready malloc bs p in Returns (λ x. Unit {0}) (pop_block r r.availableblocks))
    unfolding allocate_rounds
    ready-pops [] p e = tt
    ready-pops (b ∷ bs) p e = rw e tt

    get_block-total : (p : DataBlockPool) → Returns (λ x. Unit {0}) (get_block malloc p)
    unfolding get_block
    get_block-total p = ready-pops p.availableblocks p refl

    -- Whatever was handed out and returned before, `getBlock` hands out a block, one that malloc has allocated
    -- and that is not in use, if malloc never allocates a block twice.
    pub get_block_unused :
        (p : DataBlockPool) (held : List ℕ)
        → Reach p held
        → Returns
            (λ r. (times r.0 held ≡ 0) × ((i : ℕ) × (i < r.1.totalblocks) × (malloc i ≡ r.0)))
            (get_block malloc p)
    get_block_unused p held r =
        Returns-because (get_block malloc p) (get_block-total p) (λ (b, q) e.
          let v = get_block-IsDisjoint p q b held e (Reach-IsDisjoint p held r) in
          (v.1, v.0.allocated b (ground arith)))
