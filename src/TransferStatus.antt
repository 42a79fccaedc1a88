-- ===== src/TransferStatus.antt =====
-- src/transferstatus.h and src/transferstatus.cpp: what the user is shown of one transfer. A method
-- that changes the object returns the new one; `none` is a division by zero or a failed `assert`.
-- Sizes are `unsigned long long`, speeds and the progress `unsigned int`, with their wrap-around.
pub mod Operations
pub mod Progress
pub mod Outcome
mod Examples
use cbftp.Common.{
  ℕ, ◌+◌, ◌-◌, ◌*◌, ◌/◌, ◌%◌, ◌^◌, Bool, true, false, String, Pointer, Option, none, some, List, [],
  ◌∷◌, if◌then◌else◌, ltb, ◌==◌, u64, u32, ℤ, pos, negsuc, u32_mod,
}

pub data TransferStatusType : Type 0 where
  fxp download upload : TransferStatusType

pub data TransferStatusState : Type 0 where
  in_progress successful failed dupe aborted timeout : TransferStatusState

-- The members that the constructor sets for good; a path is its text.
pub record Transfer : Type 0 where
  pub type : TransferStatusType
  pub transferid : ℕ
  pub source : String
  pub target : String
  pub jobname : String
  pub file : String
  pub timestamp : String
  pub sourcepath : String
  pub targetpath : String
  pub fls : Pointer
  pub fld : Pointer
  pub srcslot : ℤ
  pub dstslot : ℤ
  pub ssl : Bool
  pub defaultactive : Bool

pub record TransferStatus : Type 0 where
  pub transfer : Transfer
  pub open transfer use *
  pub sourcesize : ℕ
  pub knowntargetsize : ℕ
  pub interpolatedtargetsize : ℕ
  pub interpolationfilltargetsize : ℕ
  pub speed : ℕ
  pub state : TransferStatusState
  pub timespent : ℕ
  pub timeremaining : ℤ
  pub progress : ℕ
  pub awaited : Bool
  pub callback : Pointer
  pub passiveaddr : String
  pub cipher : String
  pub sslsessionreused : Bool
  pub loglines : List String

-- The conversion of an unsigned value to `int`: the low 32 bits, read in two's complement.
pub to_int : ℕ → ℤ
to_int n = let low = u32 n in if ltb low (2 ^ 31) then pos low else negsuc (u32_mod - 1 - low)

-- `size / (speed * 1024)`, the product on 32 bits.
pub time_for : ℕ → ℕ → Option ℤ
unfolding to_int
time_for size speed =
    if u32 (speed * 1024) == 0 then none else some (to_int (size / u32 (speed * 1024)))

-- The constructor, once it has the members that never change, the source's size and the speed that
-- is assumed at first.
pub new : Transfer → ℕ → ℕ → Option TransferStatus
unfolding time_for
new t sourcesize assumedspeed =
    let speed = if assumedspeed == 0 then 1024 else assumedspeed in
    let size = if sourcesize == 0 then 1 else sourcesize in
    elim (time_for size speed) [
      | none ↦ none
      | some remaining ↦ some (record {
        transfer = t;
        sourcesize = size;
        knowntargetsize = 0;
        interpolatedtargetsize = 0;
        interpolationfilltargetsize = 0;
        speed = speed;
        state = TransferStatusState.in_progress;
        timespent = 0;
        timeremaining = remaining;
        progress = 0;
        awaited = false;
        callback = none;
        passiveaddr = "-";
        cipher = "-";
        sslsessionreused = false;
        loglines = [];
      })
    ]

pub update_progress : TransferStatus → Option TransferStatus
update_progress s =
    if s.sourcesize == 0
    then none
    else (let progress = u32 (u64 (100 * s.interpolatedtargetsize) / s.sourcesize) in
        some (record s { progress = if ltb 100 progress then 100 else progress }))
