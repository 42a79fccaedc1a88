-- ===== src/ScoreBoard/Located/Run.antt =====
-- The maps of src/scoreboard.cpp after any calls.
use cbftp.Common.{
  ℕ, ◌+◌, ◌<◌, ◌≡◌, refl, sym, ap, ap₂, ◌∙◌, subst, ◌&&◌, inl, inr, Option, none, some, List,
  length, take, ltb, ◌==◌, Bool-cases, arith, Returns, Returns-map, Returns-bind, ◌>>=◌, u32_mod,
}
use mathlib.Core.Option.{some-injective}
use cbftp.ScoreBoard.{
  ScoreBoard, ScoreBoardElement, Key, key_of, find_key, is_in, update_score, set_attempted,
  set_skip_checked,
}
use cbftp.ScoreBoard
use cbftp.ScoreBoard.Operations.{
  update, remove, wipe, wipe_list, reset_skip_checked, change_element,
}
use cbftp.ScoreBoard.Sort.{sort, score_at, ushort_max}
use cbftp.ScoreBoard.Sort.Sorted.{IsSorted, sort-IsSorted}
use cbftp.ScoreBoard.Shuffle.{shuffle_equals}
use cbftp.ScoreBoard.Shuffle.Kept.{Kept, shuffle_equals-Kept}
use cbftp.ScoreBoard.Maps.{Distinct}
use cbftp.ScoreBoard.Shown.{times, times-take-drop, times-perm}
use cbftp.ScoreBoard.Located.{IsLocated, shown, new-IsLocated, agree-IsLocated}
use cbftp.ScoreBoard.Located.Updates.{Updated, update-Updated}
use cbftp.ScoreBoard.Located.Removals.{Removed, remove-Removed}
use cbftp.ScoreBoard.Located.Wiping.{Wiped, wipe_list-Wiped, wipe-IsLocated}

-- Another order of the elements, with the same ones among those that are shown.
reorder-IsLocated :
    (b c : ScoreBoard)
    → ((x : ℕ) → times x c.elements ≡ times x b.elements)
    → ((x : ℕ) → times x (shown c) ≡ times x (shown b))
    → c.showsize ≡ b.showsize
    → (length c.elementstmp ≡ length b.elementstmp) × (length c.elements ≡ length b.elements)
    → (c.objects ≡ b.objects) × (c.created ≡ b.created)
    → (c.elementlocator ≡ b.elementlocator) × (c.destinationlocator ≡ b.destinationlocator)
    → IsLocated b
    → IsLocated c
reorder-IsLocated b c t u n l o m v = record {
  word = omega (arith, n, v.word);
  sized = omega (arith, n, l.1, v.sized);
  sized_tmp = omega (arith, l.0, l.1, v.sized_tmp);
  unique = λ a. omega (arith, t a, v.unique a);
  made = λ a h. t a ∙ v.made a (omega (arith, o.1, h));
  finds = λ a p. ap₂ (λ i j. find_key (key_of (i a)) j) o.0 m.0 ∙ v.finds a (omega (arith, u a, p));
  found = λ k a f.
      let r = v.found k a (ap (find_key k) (sym m.0) ∙ f) in
      (omega (arith, u a, r.0), ap (λ i. key_of (i a)) o.0 ∙ r.1);
  distinct = subst Distinct (sym m.0) v.distinct;
  destinations = λ f a.
      ap (is_in f a) m.1
      ∙ (v.destinations f a ∙ sym (ap₂ (λ i j. ltb 0 i && ((j a).fld == f)) (u a) o.0));
}

sorted-IsLocated : (b c : ScoreBoard) → IsSorted b c → IsLocated b → IsLocated c
sorted-IsLocated b c i v =
    let n = b.showsize in
    let p = λ (x : ℕ). times-perm x (take n c.elements) (take n b.elements) i.same_elements in
    let all : (x : ℕ) → times x c.elements ≡ times x b.elements = λ x. omega (
      arith,
      p x,
      times-take-drop x n c.elements,
      times-take-drop x n b.elements,
      ap (times x) i.rest,
    ) in
    let first : (x : ℕ) → times x (shown c) ≡ times x (shown b) =
      λ x. ap (λ k. times x (take k c.elements)) i.same_size ∙ p x in
    reorder-IsLocated b c all first i.same_size i.same_arrays i.same_objects i.same_locators v

shuffled-IsLocated :
    (b : ScoreBoard) (es : List ℕ)
    → Kept (score_at b.objects) b.showsize b.elements es
    → IsLocated b
    → IsLocated (record b { elements = es })
shuffled-IsLocated b es k v =
    reorder-IsLocated b (record b { elements = es }) k.all k.first refl (refl, k.size) (refl, refl)
      (refl, refl) v

pub data Call : Type 0 where
  updates : ScoreBoardElement → Call
  removes : Key → Call
  sorts : Call
  shuffles : (ℕ → ℕ) → Call
  wipes : Call
  wipes_list : ℕ → Call
  resets_skip_checked : ℕ → Call
  scores : ℕ → ℕ → Call
  attempts : ℕ → Call
  checks_skip : ℕ → Call

unfoldable pub step : Call → ScoreBoard → Option ScoreBoard
step (updates e) b = update e b
step (removes k) b = remove k b >>= λ r. some r.1
step sorts b = sort b
step (shuffles rand) b = shuffle_equals rand b
step wipes b = some (wipe b)
step (wipes_list fl) b = wipe_list fl b
step (resets_skip_checked fl) b = some (reset_skip_checked fl b)
step (scores a score) b = some (change_element a (update_score score) b)
step (attempts a) b = some (change_element a set_attempted b)
step (checks_skip a) b = some (change_element a set_skip_checked b)

-- There is room for one more element in 32 bits, and scores are of 16 bits.
abbrev pub Allowed : Call → ScoreBoard → Type 0
Allowed (updates e) b = b.showsize + 1 < u32_mod
Allowed sorts b = (a : ℕ) → score_at b.objects a < ushort_max
Allowed _ b = Unit {0}

-- The boards that calls make of a new one.
pub data Reach : ScoreBoard → Type 0 where
  starts : (memory : ℕ → ScoreBoardElement) → Reach (ScoreBoard.new memory)
  calls : (c : Call) (b d : ScoreBoard) → Allowed c b → step c b ≡ some d → Reach b → Reach d

changed-IsLocated :
    (a : ℕ) (g : ScoreBoardElement → ScoreBoardElement) (b : ScoreBoard)
    → ((x : ScoreBoardElement) → key_of (g x) ≡ key_of x)
    → IsLocated b
    → IsLocated (change_element a g b)
changed-IsLocated a g b k v =
    agree-IsLocated b (change_element a g b).objects
      (λ x p. elim (Bool-cases (x == a)) [
        | inl t ↦
            let q : x ≡ a = ground (arith, t) in
            simp (t, k (b.objects a)) (ap (λ i. key_of (b.objects i)) (sym q))
        | inr t ↦ rw t
      ])
      v

step-IsLocated :
    (c : Call) (b : ScoreBoard) → Allowed c b → IsLocated b → Returns IsLocated (step c b)
unfolding step reset_skip_checked
step-IsLocated (updates e) b a v =
    Returns-map (λ d. IsLocated d × Updated e b d) IsLocated (update e b) (update-Updated e b a v)
      (λ d q. q.0)
step-IsLocated (removes k) b a v =
    Returns-bind (λ r. IsLocated r.1 × Removed k b r.0 r.1) IsLocated (remove k b) (λ r. some r.1)
      (remove-Removed k b v) (λ r q. q.0)
step-IsLocated sorts b a v =
    Returns-map (IsSorted b) IsLocated (sort b)
      (sort-IsSorted b v.sized (omega (arith, v.sized, v.sized_tmp)) v.word a)
      (λ d i. sorted-IsLocated b d i v)
step-IsLocated (shuffles rand) b a v =
    Returns-map
      (λ d.
        Kept (score_at b.objects) b.showsize b.elements d.elements
        × (d ≡ record b { elements = d.elements }))
      IsLocated (shuffle_equals rand b) (shuffle_equals-Kept rand b v.sized)
      (λ d q. subst IsLocated (sym q.1) (shuffled-IsLocated b d.elements q.0 v))
step-IsLocated wipes b a v = wipe-IsLocated b v
step-IsLocated (wipes_list fl) b a v =
    Returns-map (λ d. IsLocated d × Wiped fl b d) IsLocated (wipe_list fl b)
      (wipe_list-Wiped fl b v) (λ d q. q.0)
step-IsLocated (resets_skip_checked fl) b a v =
    agree-IsLocated b (reset_skip_checked fl b).objects
      (λ x p. elim (Bool-cases (is_in fl x b.destinationlocator)) [ inl t ↦ rw t | inr t ↦ rw t ]) v
step-IsLocated (scores a score) b h v = changed-IsLocated a (update_score score) b (λ x. refl) v
step-IsLocated (attempts a) b h v = changed-IsLocated a set_attempted b (λ x. refl) v
step-IsLocated (checks_skip a) b h v = changed-IsLocated a set_skip_checked b (λ x. refl) v

Returns-some :
    (P : ScoreBoard → Type 0) (m : Option ScoreBoard) (d : ScoreBoard)
    → m ≡ some d
    → Returns P m
    → P d
Returns-some P none d e r = absurd r
Returns-some P (some b) d e r = subst P (some-injective _ _ e) r

pub Reach-IsLocated : (b : ScoreBoard) → Reach b → IsLocated b
Reach-IsLocated b (starts memory) = new-IsLocated memory
Reach-IsLocated d (calls c b _ a e r) =
    Returns-some IsLocated (step c b) d e (step-IsLocated c b a (Reach-IsLocated b r))

-- Any call on a board that calls made of a new one stays within the bounds of the arrays, and each element
-- of the board that it leaves has an object of its own, and the maps find those that are shown and no others,
-- if there is room for one more element in 32 bits at an update, and scores are of 16 bits at a sort.
pub run-IsLocated :
    (c : Call) (b : ScoreBoard) → Allowed c b → Reach b → Returns IsLocated (step c b)
run-IsLocated c b a r = step-IsLocated c b a (Reach-IsLocated b r)
