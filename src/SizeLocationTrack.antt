-- ===== src/SizeLocationTrack.antt =====
-- src/sizelocationtrack.h and src/sizelocationtrack.cpp: the sizes that sites report for a file, and an
-- estimate of the real one. A site is its identity; a std::map is an association list in the order of
-- its keys.
pub mod Tally
pub mod Scanning
pub mod Estimate
mod Examples
use cbftp.Common.{
  ℕ, zero, suc, ◌+◌, ◌==◌, Bool, true, false, not, ◌&&◌, ◌||◌, Option, none, some, List, [], ◌∷◌,
  if◌then◌else◌, ltb, leb, length,
}

abbrev pub Sizes : Type 0
Sizes = List (ℕ × ℕ)

pub record SizeLocationTrack : Type 0 where
  pub sitesizes : Sizes
  pub estimatedsize : ℕ

pub new : SizeLocationTrack
new = record { sitesizes = []; estimatedsize = 0 }

-- `find`, the assignment to an element and `erase` of a map.
abbrev pub find : ℕ → Sizes → Option ℕ
find key [] = none
find key ((k, v) ∷ m) = if key == k then some v else find key m

abbrev pub assign : ℕ → ℕ → Sizes → Sizes
assign key value [] = (key, value) ∷ []
assign key value ((k, v) ∷ m) =
    if ltb key k
    then (key, value) ∷ (k, v) ∷ m
    else (if key == k then (key, value) ∷ m else (k, v) ∷ assign key value m)

abbrev pub erase : ℕ → Sizes → Sizes
erase key [] = []
erase key ((k, v) ∷ m) = if key == k then m else (k, v) ∷ erase key m

-- A round of the first loop of `recalculate`.
abbrev pub tally_size : ℕ → Option ℕ → Sizes → Sizes
tally_size size (some n) commonsizes = assign size (n + 1) commonsizes
tally_size size none commonsizes = assign size 1 commonsizes

pub tally : Sizes → Sizes → Sizes
tally [] commonsizes = commonsizes
tally ((site, zero) ∷ sitesizes) commonsizes = tally sitesizes commonsizes
tally ((site, suc n) ∷ sitesizes) commonsizes =
    tally sitesizes (tally_size (suc n) (find (suc n) commonsizes) commonsizes)

pub record Scan : Type 0 where
  pub mostcommon : ℕ
  pub mostcommoncount : ℕ
  pub largest : ℕ
  pub largestcount : ℕ

-- A round of the second loop.
abbrev pub see : ℕ → ℕ → Scan → Scan
see size n a = record {
  mostcommon = if ltb a.mostcommoncount n then size else a.mostcommon;
  mostcommoncount = if ltb a.mostcommoncount n then n else a.mostcommoncount;
  largest = if ltb a.largest size then size else a.largest;
  largestcount =
      if ltb a.largest size
      then 1
      else (if size == a.largest then a.largestcount + 1 else a.largestcount);
}

pub scan : Sizes → Scan → Scan
scan [] a = a
scan ((size, n) ∷ commonsizes) a = scan commonsizes (see size n a)

abbrev pub start : Scan
start = record { mostcommon = 0; mostcommoncount = 0; largest = 0; largestcount = 1 }

pub choose : ℕ → Scan → ℕ
choose sizes a =
    if leb 2 a.largestcount
      || (a.largestcount == a.mostcommoncount
          || (a.mostcommon == 0 && ltb (a.mostcommoncount + 1) sizes))
    then a.largest
    else a.mostcommon

pub recalculate : SizeLocationTrack → SizeLocationTrack
recalculate t =
    let commonsizes = tally t.sitesizes [] in
    record t { estimatedsize = choose (length commonsizes) (scan commonsizes start) }

abbrev pub same_size : Option ℕ → ℕ → Bool
same_size none size = false
same_size (some old) size = old == size

pub add : ℕ → ℕ → SizeLocationTrack → Bool × SizeLocationTrack
add site size t =
    if same_size (find site t.sitesizes) size
    then (false, t)
    else (true, recalculate (record t { sitesizes = assign site size t.sitesizes }))

abbrev is_found : Option ℕ → Bool
is_found none = false
is_found (some v) = true

pub remove : ℕ → SizeLocationTrack → SizeLocationTrack
remove site t =
    if is_found (find site t.sitesizes)
    then recalculate (record t { sitesizes = erase site t.sitesizes })
    else t
