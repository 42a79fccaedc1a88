-- ===== src/ScoreBoard/Located.antt =====
-- The maps of src/scoreboard.cpp find the elements that are shown, and no others.
pub mod Adding
pub mod Updates
pub mod Moving
pub mod Collected
pub mod Removals
pub mod Wiping
pub mod Run
use cbftp.Common.{
  ℕ, zero, suc, ◌+◌, ◌≤◌, ◌<◌, ◌≡◌, ◌≢◌, refl, sym, ap, ap₂, ◌∙◌, ◌==◌, Bool, true, false, ◌&&◌,
  not, inl, inr, Option, none, some, List, [], ◌∷◌, if◌then◌else◌, length, take, ltb, Bool-cases,
  arith, u32_mod,
}
use cbftp.ScoreBoard.{ScoreBoard, ScoreBoardElement, Key, key_of, find_key, is_in}
use cbftp.ScoreBoard
use cbftp.ScoreBoard.Maps.{Distinct}
use cbftp.ScoreBoard.Shown.{times}

-- The elements that are shown.
abbrev pub shown : ScoreBoard → List ℕ
shown b = take b.showsize b.elements

-- Each element has an object of its own, the map of keys finds the elements that are shown and no others,
-- no key twice, and the set of pairs has each of them with its destination and no others.
pub record IsLocated (b : ScoreBoard) : Type 0 where
  pub word : b.showsize < u32_mod
  pub sized : b.showsize ≤ length b.elements
  pub sized_tmp : length b.elementstmp ≡ length b.elements
  pub unique : (a : ℕ) → times a b.elements ≤ 1
  pub made : (a : ℕ) → b.created ≤ a → times a b.elements ≡ 0
  pub finds :
      (a : ℕ) → 0 < times a (shown b) → find_key (key_of (b.objects a)) b.elementlocator ≡ some a
  pub found :
      (k : Key) (a : ℕ)
      → find_key k b.elementlocator ≡ some a
      → (0 < times a (shown b)) × (key_of (b.objects a) ≡ k)
  pub distinct : Distinct b.elementlocator
  pub destinations :
      (f a : ℕ)
      → is_in f a b.destinationlocator ≡ ltb 0 (times a (shown b)) && ((b.objects a).fld == f)

pub new-IsLocated : (memory : ℕ → ScoreBoardElement) → IsLocated (ScoreBoard.new memory)
unfolding ScoreBoard.new
new-IsLocated memory = record {
  word = omega arith;
  sized = omega arith;
  sized_tmp = refl;
  unique = λ a. omega arith;
  made = λ a h. refl;
  finds = λ a h. absurd (omega (arith, h));
  found = λ k a e. cc;
  distinct = tt;
  destinations = λ f a. refl;
}

-- A change of objects by which no element that is shown gets another key.
pub agree-IsLocated :
    (b : ScoreBoard) (objects : ℕ → ScoreBoardElement)
    → ((a : ℕ) → 0 < times a (shown b) → key_of (objects a) ≡ key_of (b.objects a))
    → IsLocated b
    → IsLocated (record b { objects = objects })
agree-IsLocated b objects g v = record {
  word = v.word;
  sized = v.sized;
  sized_tmp = v.sized_tmp;
  unique = v.unique;
  made = v.made;
  finds = λ a h. ap (λ k. find_key k b.elementlocator) (g a h) ∙ v.finds a h;
  found = λ k a e. let r = v.found k a e in (r.0, g a r.0 ∙ r.1);
  distinct = v.distinct;
  destinations = λ f a. elim (Bool-cases (ltb 0 (times a (shown b)))) [
    | inl t ↦
        let d : (objects a).fld ≡ (b.objects a).fld =
          ap (λ k. k.destination) (g a (ground (arith, t))) in
        v.destinations f a ∙ ap (λ x. ltb 0 (times a (shown b)) && (x == f)) (sym d)
    | inr t ↦ rw t at (v.destinations f a) ∙ rw t
  ];
}
