-- ===== src/ScoreBoard.antt =====
-- src/scoreboard.h, src/scoreboardelement.h and src/scoreboardelement.cpp: the transfers that may be started,
-- with their scores. An element is an object that stays where it was made; its address is a
-- number. Site logics, file lists, site races and races are their identities. The map of maps that finds
-- an element is one map whose keys are of three parts, and the map of sets a set of pairs.
pub mod Sort
pub mod Operations
pub mod Shuffle
pub mod Maps
pub mod Shown
pub mod Located
pub mod Ranked
mod Examples
use cbftp.Common.{
  ℕ, Bool, true, false, ◌&&◌, ◌||◌, Option, none, some, List, [], ◌∷◌, if◌then◌else◌, ◌==◌, Bytes,
  Pointer, same_text,
}

pub data PrioType : Type 0 where
  prio prio_later normal : PrioType

pub record ScoreBoardElement : Type 0 where
  pub filename : Bytes
  pub src : Pointer
  pub dst : Pointer
  pub fls : ℕ
  pub fld : ℕ
  pub srcsr : Pointer
  pub dstsr : Pointer
  pub race : Pointer
  pub score : ℕ
  pub priotype : PrioType
  pub attempted : Bool
  pub subdir : Bytes
  pub filesize : ℕ
  pub skipchecked : Bool

-- `reset` of an element to another one; the constructor and the other `reset` are given the same values.
abbrev pub reset_element : ScoreBoardElement → ScoreBoardElement
reset_element other = record other { attempted = false; skipchecked = false }

abbrev pub update_element : ℕ → ℕ → ScoreBoardElement → ScoreBoardElement
update_element score filesize e = record e { score = score; filesize = filesize; attempted = false }

-- `update` of the score alone, `setAttempted` and `setSkipChecked`.
abbrev pub update_score : ℕ → ScoreBoardElement → ScoreBoardElement
update_score score e = record e { score = score }

abbrev pub set_attempted : ScoreBoardElement → ScoreBoardElement
set_attempted e = record e { attempted = true }

abbrev pub set_skip_checked : ScoreBoardElement → ScoreBoardElement
set_skip_checked e = record e { skipchecked = true }

-- The key of an element in the map that finds it.
pub record Key : Type 0 where
  pub source : ℕ
  pub destination : ℕ
  pub file : Bytes

abbrev pub key_of : ScoreBoardElement → Key
key_of e = record { source = e.fls; destination = e.fld; file = e.filename }

-- `created` objects have been made; what lies in memory at the other addresses means nothing.
pub record ScoreBoard : Type 0 where
  pub objects : ℕ → ScoreBoardElement
  pub created : ℕ
  pub elements : List ℕ
  pub elementstmp : List ℕ
  pub showsize : ℕ
  pub count : ℕ → ℕ
  pub bucketpositions : ℕ → ℕ
  pub elementlocator : List (Key × ℕ)
  pub destinationlocator : List (ℕ × ℕ)

-- The constructor, on what lies in memory.
unfoldable pub new : (ℕ → ScoreBoardElement) → ScoreBoard
new memory = record {
  objects = memory;
  created = 0;
  elements = [];
  elementstmp = [];
  showsize = 0;
  count = λ i. 0;
  bucketpositions = λ i. 0;
  elementlocator = [];
  destinationlocator = [];
}

abbrev pub put_object : (ℕ → ScoreBoardElement) → ℕ → ScoreBoardElement → ℕ → ScoreBoardElement
put_object objects a x b = if b == a then x else objects b

abbrev pub same_key : Key → Key → Bool
same_key k l =
    (k.source == l.source) && ((k.destination == l.destination) && same_text k.file l.file)

-- The map that finds an element, and the set of elements by their destination.
abbrev pub find_key : Key → List (Key × ℕ) → Option ℕ
find_key k [] = none
find_key k ((l, a) ∷ m) = if same_key l k then some a else find_key k m

abbrev pub erase_key : Key → List (Key × ℕ) → List (Key × ℕ)
erase_key k [] = []
erase_key k ((l, a) ∷ m) = if same_key l k then erase_key k m else (l, a) ∷ erase_key k m

abbrev pub assign_key : Key → ℕ → List (Key × ℕ) → List (Key × ℕ)
assign_key k a m = (k, a) ∷ erase_key k m

abbrev pub is_in : ℕ → ℕ → List (ℕ × ℕ) → Bool
is_in fld a [] = false
is_in fld a ((g, b) ∷ d) = ((g == fld) && (b == a)) || is_in fld a d

abbrev pub erase_pair : ℕ → ℕ → List (ℕ × ℕ) → List (ℕ × ℕ)
erase_pair fld a [] = []
erase_pair fld a ((g, b) ∷ d) =
    if (g == fld) && (b == a) then erase_pair fld a d else (g, b) ∷ erase_pair fld a d

abbrev pub insert_pair : ℕ → ℕ → List (ℕ × ℕ) → List (ℕ × ℕ)
insert_pair fld a d = if is_in fld a d then d else (fld, a) ∷ d
