-- ===== src/SizeLocationTrack/Tally.antt =====
-- The counts of the sizes in src/sizelocationtrack.cpp.
use cbftp.Common.{
  ℕ, zero, suc, ◌+◌, ◌≤◌, ◌<◌, ◌≡◌, refl, subst, sym, ap, Option-cases, ◌⊎◌, ◌∙◌, true, false,
  Option, none, some, [], ◌∷◌, if◌then◌else◌, ◌==◌, ltb, arith, Bool-cases, inl, inr,
}
use cbftp.SizeLocationTrack.{Sizes, find, assign, tally, tally_size}

-- How many sites report the size.
abbrev pub reports : ℕ → Sizes → ℕ
reports size [] = 0
reports size ((site, s) ∷ m) = (if size == s then 1 else 0) + reports size m

-- The count of a size, 0 if there is none.
abbrev pub count : ℕ → Sizes → ℕ
count size [] = 0
count size ((k, n) ∷ m) = if size == k then n else count size m

-- Keys above `b`, in order, with counts above 0.
abbrev pub Above : ℕ → Sizes → Type 0
Above b [] = Unit {0}
Above b ((k, n) ∷ m) = (b < k) × ((0 < n) × Above k m)

pub count-below : (b size : ℕ) (m : Sizes) → Above b m → size ≤ b → count size m ≡ 0
count-below b size [] a h = refl
count-below b size ((k, n) ∷ m) a h =
    let e : (size == k) ≡ false = ground (arith, a.0) in
    rw (e, count-below k size m a.1.1 (omega (arith, a.0)))

assign-Above : (b size v : ℕ) (m : Sizes) → Above b m → b < size → 0 < v → Above b (assign size v m)
assign-Above b size v [] a h p = (h, (p, tt))
assign-Above b size v ((k, n) ∷ m) a h p = elim (Bool-cases (ltb size k)) [
  | inl e ↦ rw e (h, (p, (ground (arith, e), (a.1.0, a.1.1))))
  | inr e ↦ elim (Bool-cases (size == k)) [
    | inl f ↦
        let g : size ≡ k = ground (arith, f) in
        rw (e, f) (h, (p, subst (λ x. Above x m) (sym g) a.1.1))
    | inr f ↦ rw (e, f) (a.0, (a.1.0, assign-Above k size v m a.1.1 (ground (arith, e, f)) p))
  ]
]

assign-count :
    (b size v s : ℕ) (m : Sizes)
    → Above b m
    → count s (assign size v m) ≡ (if s == size then v else count s m)
assign-count b size v s [] a = refl
assign-count b size v s ((k, n) ∷ m) a = elim (Bool-cases (ltb size k)) [
  | inl e ↦ rw e
  | inr e ↦ elim (Bool-cases (size == k)) [
    | inl f ↦ let g : size ≡ k = ground (arith, f) in rw (e, f) (ground (arith, g))
    | inr f ↦ elim (Bool-cases (s == k)) [
      | inl g ↦ let j : (s == size) ≡ false = ground (arith, f, g) in rw (e, f, g, j)
      | inr g ↦ rw (e, f, g, assign-count k size v s m a.1.1)
    ]
  ]
]

abbrev found_count : Option ℕ → ℕ
found_count none = 0
found_count (some n) = n

find-count : (s : ℕ) (m : Sizes) → count s m ≡ found_count (find s m)
find-count s [] = refl
find-count s ((k, n) ∷ m) = elim (Bool-cases (s == k)) [
  | inl e ↦ rw e
  | inr e ↦ rw (e, find-count s m)
]

tally_size-Above :
    (b size : ℕ) (m : Sizes) → Above b m → b < size → Above b (tally_size size (find size m) m)
tally_size-Above b size m a h = elim (Option-cases (find size m)) [
  | inl e ↦ rw e (assign-Above b size 1 m a h (omega arith))
  | inr (n, e) ↦ rw e (assign-Above b size (n + 1) m a h (omega arith))
]

tally_size-count :
    (b size s : ℕ) (m : Sizes)
    → Above b m
    → count s (tally_size size (find size m) m) ≡ (if s == size then 1 else 0) + count s m
tally_size-count b size s m a = counted (find size m) refl (Bool-cases (s == size))
  where
    counted :
        (o : Option ℕ)
        → find size m ≡ o
        → (((s == size) ≡ true) ⊎ ((s == size) ≡ false))
        → count s (tally_size size o m) ≡ (if s == size then 1 else 0) + count s m
    counted none e (inl f) =
        let g : s ≡ size = ground (arith, f) in
        let c : count s m ≡ 0 = ap (λ x. count x m) g ∙ find-count size m ∙ ap found_count e in
        assign-count b size 1 s m a ∙ rw (f, c)
    counted none e (inr f) = assign-count b size 1 s m a ∙ rw f (omega arith)
    counted (some n) e (inl f) =
        let g : s ≡ size = ground (arith, f) in
        let c : count s m ≡ n = ap (λ x. count x m) g ∙ find-count size m ∙ ap found_count e in
        assign-count b size (n + 1) s m a ∙ rw (f, c) (omega arith)
    counted (some n) e (inr f) = assign-count b size (n + 1) s m a ∙ rw f (omega arith)

pub tally-Above : (sites m : Sizes) → Above 0 m → Above 0 (tally sites m)
unfolding tally
tally-Above [] m a = a
tally-Above ((site, zero) ∷ sites) m a = tally-Above sites m a
tally-Above ((site, suc n) ∷ sites) m a =
    tally-Above sites (tally_size (suc n) (find (suc n) m) m)
      (tally_size-Above 0 (suc n) m a (omega arith))

pub tally-count :
    (sites m : Sizes) (s : ℕ)
    → Above 0 m
    → 0 < s
    → count s (tally sites m) ≡ reports s sites + count s m
unfolding tally
tally-count [] m s a h = omega arith
tally-count ((site, zero) ∷ sites) m s a h =
    let e : (s == 0) ≡ false = ground arith in tally-count sites m s a h ∙ rw e (omega arith)
tally-count ((site, suc n) ∷ sites) m s a h = omega (
  arith,
  tally-count sites (tally_size (suc n) (find (suc n) m) m) s
      (tally_size-Above 0 (suc n) m a (omega arith)) h,
  tally_size-count 0 (suc n) s m a,
)
