-- ===== src/FileList/Tracked.antt =====
-- What `firstsimilar` of src/filelist.cpp points to, and what a null pointer says once it was looked for.
pub mod Changes
pub mod Run
use cbftp.Common.{
  ℕ, ◌≡◌, ◌⊎◌, ◌||◌, ◌&&◌, refl, ◌∙◌, ap, subst, Bool, true, false, inl, inr, none, some, List, [],
  ◌∷◌, ◌++◌, Bytes, Pointer, is_set, same_text, same_text_iff, Bool-cases, if◌then◌else◌, arith,
}
use cbftp.File.{File}
use cbftp.FileList.{
  FileList, FirstSimilar, nothing, in_list, not_in_list, find_file, change_file, erase_file,
}
use cbftp.FileList.Operations.{is_similar, first_similar, left_list, none_similar}
use cbftp.FileList.Similar.{NotSimilar}
use cbftp.FileList.Counts.{AllFiles, AllFiles-append, AllFiles-change, AllFiles-erase}

in_list-injective : (m n : Bytes) → in_list m ≡ in_list n → m ≡ n
in_list-injective m n e = cc

-- A change that keeps what the skip lists look at.
abbrev pub KeepsName : (File → File) → Type 0
KeepsName g = (f : File) → ((g f).name ≡ f.name) × ((g f).directory ≡ f.directory)

is_set-find_change :
    (n name : Bytes) (g : File → File) (fs : List File)
    → KeepsName g
    → is_set (find_file n (change_file name g fs)) ≡ is_set (find_file n fs)
is_set-find_change n name g [] k = refl
is_set-find_change n name g (f ∷ fs) k = elim (Bool-cases (same_text f.name name)) [
  | inl e ↦ elim (Bool-cases (same_text f.name n)) [
    | inl d ↦ rw (e, (k f).0, d)
    | inr d ↦ rw (e, (k f).0, d)
  ]
  | inr e ↦ elim (Bool-cases (same_text f.name n)) [
    | inl d ↦ rw (e, d)
    | inr d ↦ rw (e, d) (is_set-find_change n name g fs k)
  ]
]

is_set-find_append :
    (n : Bytes) (file : File) (fs : List File)
    → is_set (find_file n (fs ++ (file ∷ []))) ≡ (is_set (find_file n fs) || same_text file.name n)
is_set-find_append n file [] = elim (Bool-cases (same_text file.name n)) [
  | inl e ↦ rw e
  | inr e ↦ rw e
]
is_set-find_append n file (f ∷ fs) = elim (Bool-cases (same_text f.name n)) [
  | inl e ↦ rw e
  | inr e ↦ rw e (is_set-find_append n file fs)
]

find-erase_ne :
    (n name : Bytes) (fs : List File)
    → same_text name n ≡ false
    → find_file n (erase_file name fs) ≡ find_file n fs
find-erase_ne n name [] d = refl
find-erase_ne n name (f ∷ fs) d = elim (Bool-cases (same_text f.name name)) [
  | inl e ↦
      let q : f.name ≡ name = (same_text_iff f.name name).0 e in
      let k : same_text f.name n ≡ false = rw q d in rw (e, k)
  | inr e ↦ elim (Bool-cases (same_text f.name n)) [
    | inl k ↦ rw (e, k)
    | inr k ↦ rw (e, k) (find-erase_ne n name fs d)
  ]
]

left_list-in_list :
    (name n : Bytes) (first : FirstSimilar)
    → left_list name first ≡ in_list n
    → (first ≡ in_list n) × (same_text name n ≡ false)
left_list-in_list name n nothing e = cc
left_list-in_list name n (in_list m) e = elim (Bool-cases (same_text name m)) [
  | inl k ↦ cc (rw k at e)
  | inr k ↦
      let q : in_list m ≡ in_list n = rw k at e in
      (q, subst (λ x. same_text name x ≡ false) (in_list-injective m n q) k)
]
left_list-in_list name n (not_in_list m) e = cc

left_list-nothing :
    (name : Bytes) (first : FirstSimilar) → left_list name first ≡ nothing → first ≡ nothing
left_list-nothing name nothing e = refl
left_list-nothing name (in_list m) e = elim (Bool-cases (same_text name m)) [
  | inl k ↦ cc (rw k at e)
  | inr k ↦ cc (rw k at e)
]
left_list-nothing name (not_in_list m) e = cc

module _ (similar : ℕ → Pointer → Bytes → Bool → Bool) where
  -- By `similarchecked`, `firstsimilar`, the two skip lists and the files.
  pub record Tracked (checked : Bool) (first : FirstSimilar) (siteskip sectionskip : Pointer)
      (fs : List File) : Type 0 where
    pub unchecked : checked ≡ false → first ≡ nothing
    pub found : (name : Bytes) → first ≡ in_list name → is_set (find_file name fs) ≡ true
    pub none_left :
        checked ≡ true → first ≡ nothing → AllFiles (NotSimilar similar siteskip sectionskip) fs

  abbrev pub IsTracked : FileList → Type 0
  IsTracked l = Tracked l.similarchecked l.firstsimilar l.siteskip l.sectionskip l.files

  is_similar-same :
      (p q : Pointer) (f h : File)
      → h.name ≡ f.name
      → h.directory ≡ f.directory
      → is_similar similar p q h ≡ is_similar similar p q f
  is_similar-same none q f h e d = refl
  is_similar-same (some p) q f h e d = rw (e, d)

  pub change-Tracked :
      (c : Bool) (first : FirstSimilar) (p q : Pointer) (name : Bytes) (g : File → File)
      (fs : List File)
      → KeepsName g
      → Tracked c first p q fs
      → Tracked c first p q (change_file name g fs)
  change-Tracked c first p q name g fs k v = record {
    unchecked = v.unchecked;
    found = λ n e. is_set-find_change n name g fs k ∙ v.found n e;
    none_left = λ h e.
        AllFiles-change (NotSimilar similar p q) name g fs (v.none_left h e)
          (λ f s r. is_similar-same p q f (g f) (k f).0 (k f).1 ∙ s);
  }

  pub add-Tracked :
      (c : Bool) (first : FirstSimilar) (p q : Pointer) (file : File) (fs : List File)
      → Tracked c first p q fs
      → Tracked c
          (if c && (none_similar first && is_similar similar p q file)
            then in_list file.name
            else first)
          p
          q
          (fs ++ (file ∷ []))
  add-Tracked c first p q file fs v =
      elim (Bool-cases (c && (none_similar first && is_similar similar p q file))) [
        | inl k ↦ rw k (record {
          unchecked = λ h. ground (arith, k, h);
          found = λ n e.
              let t : same_text file.name n ≡ true =
                (same_text_iff file.name n).1 (in_list-injective file.name n e) in
              is_set-find_append n file fs ∙ ground (arith, t);
          none_left = λ h e. cc;
        })
        | inr k ↦ rw k (record {
          unchecked = v.unchecked;
          found = λ n e. is_set-find_append n file fs ∙ ground (arith, v.found n e);
          none_left = λ h e.
              let s : none_similar first ≡ true = rw e in
              AllFiles-append (NotSimilar similar p q) fs (file ∷ []) (v.none_left h e)
                (ground (arith, k, h, s), tt);
        })
      ]

  first_similar-found :
      (p q : Pointer) (fs : List File) (before : FirstSimilar) (n : Bytes)
      → first_similar similar p q fs before ≡ in_list n
      → (is_set (find_file n fs) ≡ true) ⊎ (before ≡ in_list n)
  unfolding first_similar
  first_similar-found p q [] before n e = inr e
  first_similar-found p q (f ∷ fs) before n e = elim (Bool-cases (same_text f.name n)) [
    | inl d ↦ inl (rw d)
    | inr d ↦ elim (Bool-cases (is_similar similar p q f)) [
      | inl k ↦ cc (d, (same_text_iff f.name n).1 (in_list-injective f.name n (rw k at e)))
      | inr k ↦ rw d (first_similar-found p q fs before n (rw k at e))
    ]
  ]

  first_similar-nothing :
      (p q : Pointer) (fs : List File) (before : FirstSimilar)
      → first_similar similar p q fs before ≡ nothing
      → AllFiles (NotSimilar similar p q) fs
  unfolding first_similar
  first_similar-nothing p q [] before e = tt
  first_similar-nothing p q (f ∷ fs) before e = elim (Bool-cases (is_similar similar p q f)) [
    | inl k ↦ cc (rw k at e)
    | inr k ↦ (k, first_similar-nothing p q fs before (rw k at e))
  ]

  pub check-Tracked :
      (c : Bool) (first : FirstSimilar) (a b p q : Pointer) (fs : List File)
      → Tracked c first a b fs
      → Tracked true (first_similar similar p q fs first) p q fs
  check-Tracked c first a b p q fs v = record {
    unchecked = λ h. cc;
    found = λ n e. elim (first_similar-found p q fs first n e) [ inl k ↦ k | inr k ↦ v.found n k ];
    none_left = λ h e. first_similar-nothing p q fs first e;
  }

  pub erase-Tracked :
      (c : Bool) (first : FirstSimilar) (p q : Pointer) (name : Bytes) (fs : List File)
      → Tracked c first p q fs
      → Tracked c (left_list name first) p q (erase_file name fs)
  erase-Tracked c first p q name fs v = record {
    unchecked = λ h. rw (v.unchecked h);
    found = λ n e.
        let k = left_list-in_list name n first e in
        ap is_set (find-erase_ne n name fs k.1) ∙ v.found n k.0;
    none_left = λ h e.
        AllFiles-erase (NotSimilar similar p q) name fs
          (v.none_left h (left_list-nothing name first e));
  }
