-- ===== src/ScoreBoard/Operations.antt =====
-- The methods of src/scoreboard.cpp but `sort`. An access out of an array's bounds is `none`.
use cbftp.Common.{
  ℕ, zero, suc, ◌+◌, ◌==◌, Bool, true, false, not, ◌&&◌, Option, none, some, List, [], ◌∷◌, ◌++◌,
  replicate, if◌then◌else◌, ltb, leb, length, get_elem?, u32, sub32, ◌>>=◌,
}
use cbftp.ScoreBoard.{
  ScoreBoard, ScoreBoardElement, Key, key_of, reset_element, update_element, put_object, find_key,
  erase_key, assign_key, is_in, erase_pair, insert_pair,
}

-- RESIZE_CHUNK
abbrev pub resize_chunk : ℕ
resize_chunk = 1000

-- The addresses of new objects.
abbrev pub addresses : ℕ → ℕ → List ℕ
addresses from zero = []
addresses from (suc n) = from ∷ addresses (from + 1) n

-- `find`, by the element's address.
abbrev pub find : Key → ScoreBoard → Option ℕ
find k b = find_key k b.elementlocator

-- What `update` does where there are no elements left: it makes more of them, each with the new values. The
-- null pointers that elementstmp is filled up with are 0.
unfoldable pub grow : ScoreBoardElement → ScoreBoard → ScoreBoard
grow e b = record b {
  objects = λ a.
      if leb b.created a && ltb a (b.created + resize_chunk) then reset_element e else b.objects a;
  created = b.created + resize_chunk;
  elements = b.elements ++ addresses b.created resize_chunk;
  elementstmp = b.elementstmp ++ replicate resize_chunk 0;
}

-- The last three lines of `update`, for the element that comes next.
unfoldable pub show : ScoreBoardElement → ℕ → ScoreBoard → ScoreBoard
show e a b = record b {
  elementlocator = assign_key (key_of e) a b.elementlocator;
  destinationlocator = insert_pair e.fld a b.destinationlocator;
  showsize = u32 (b.showsize + 1);
}

unfoldable pub add : ScoreBoardElement → ScoreBoard → Option ScoreBoard
add e b =
    if b.showsize == length b.elements
    then (let grown = grow e b in
        get_elem? grown.elements b.showsize >>= λ a. some (show e a grown))
    else get_elem? b.elements b.showsize >>= λ a.
        some (show e a (record b { objects = put_object b.objects a (reset_element e) }))

abbrev pub update_found : Option ℕ → ScoreBoardElement → ScoreBoard → Option ScoreBoard
update_found (some a) e b = some (record b {
  objects = put_object b.objects a (update_element e.score e.filesize (b.objects a));
})
update_found none e b = add e b

-- `update`, with the values of the element.
unfoldable pub update : ScoreBoardElement → ScoreBoard → Option ScoreBoard
update e b = update_found (find (key_of e) b) e b

-- The last element takes the place of the one at `a`, which is removed.
unfoldable pub take_place : ℕ → ℕ → ScoreBoard → ScoreBoard
take_place a last b =
    if not (b.showsize == 0) && not (a == last)
    then (let x = b.objects last in
        record b {
          objects = put_object b.objects a (reset_element x);
          elementlocator = assign_key (key_of x) a b.elementlocator;
          destinationlocator = insert_pair x.fld a (erase_pair x.fld last b.destinationlocator);
        })
    else b

unfoldable pub remove_found : Option ℕ → Key → ScoreBoard → Option (Bool × ScoreBoard)
remove_found none k b = some (false, b)
remove_found (some a) k b =
    let erased = record b {
      elementlocator = erase_key k b.elementlocator;
      destinationlocator = erase_pair (b.objects a).fld a b.destinationlocator;
    } in
    get_elem? b.elements (sub32 b.showsize 1) >>= λ last.
    some (true, record (take_place a last erased) { showsize = sub32 b.showsize 1 })

unfoldable pub remove : Key → ScoreBoard → Option (Bool × ScoreBoard)
remove k b = remove_found (find k b) k b

unfoldable pub wipe : ScoreBoard → ScoreBoard
wipe b = record b { showsize = 0; elementlocator = []; destinationlocator = [] }

-- The keys of the elements from or to a file list, for `wipe` of that list.
abbrev pub keys_from : ℕ → (ℕ → ScoreBoardElement) → List (Key × ℕ) → List Key
keys_from fl objects [] = []
keys_from fl objects ((k, a) ∷ m) =
    if k.source == fl then key_of (objects a) ∷ keys_from fl objects m else keys_from fl objects m

abbrev pub keys_to : ℕ → (ℕ → ScoreBoardElement) → List (ℕ × ℕ) → List Key
keys_to fl objects [] = []
keys_to fl objects ((g, a) ∷ d) =
    if g == fl then key_of (objects a) ∷ keys_to fl objects d else keys_to fl objects d

unfoldable pub remove_all : List Key → ScoreBoard → Option ScoreBoard
remove_all [] b = some b
remove_all (k ∷ ks) b = remove k b >>= λ r. remove_all ks r.1

-- `elementlocator.erase(fl)` and `destinationlocator.erase(fl)`.
abbrev pub erase_source : ℕ → List (Key × ℕ) → List (Key × ℕ)
erase_source fl [] = []
erase_source fl ((k, a) ∷ m) =
    if k.source == fl then erase_source fl m else (k, a) ∷ erase_source fl m

abbrev pub erase_destination : ℕ → List (ℕ × ℕ) → List (ℕ × ℕ)
erase_destination fl [] = []
erase_destination fl ((g, a) ∷ d) =
    if g == fl then erase_destination fl d else (g, a) ∷ erase_destination fl d

unfoldable pub wipe_list : ℕ → ScoreBoard → Option ScoreBoard
wipe_list fl b =
    remove_all
      (keys_from fl b.objects b.elementlocator ++ keys_to fl b.objects b.destinationlocator) b
    >>= λ c.
        (let erased = record c {
          elementlocator = erase_source fl c.elementlocator;
          destinationlocator = erase_destination fl c.destinationlocator;
        } in
          some (if erased.showsize == 0 then wipe erased else erased))

-- `resetSkipChecked`.
unfoldable pub reset_skip_checked : ℕ → ScoreBoard → ScoreBoard
reset_skip_checked fl b = record b {
  objects = λ a.
      if is_in fl a b.destinationlocator
      then record (b.objects a) { skipchecked = false }
      else b.objects a;
}

-- A change of the element at an address by one of its own methods.
abbrev pub change_element : ℕ → (ScoreBoardElement → ScoreBoardElement) → ScoreBoard → ScoreBoard
change_element a g b = record b { objects = put_object b.objects a (g (b.objects a)) }
