-- ===== src/Statistics.antt =====
-- src/statistics.h and src/statistics.cpp: the program's transfer counts by direction, its job counts
-- and the rate of file list refreshes. `none` comes from the hourly counts. The two ticks that the
-- constructor orders from the tick poke are calls with their messages.
pub mod Directions
mod Examples
use cbftp.Common.{ℕ, ◌+◌, Option, none, some, u32, ◌>>=◌}
use cbftp.HourlyAllTracking.{HourlyAllTracking}
use cbftp.HourlyAllTracking

pub data StatsDirection : Type 0 where
  stats_up stats_down stats_fxp : StatsDirection

pub data TickMessage : Type 0 where
  tick_minute tick_second : TickMessage

pub record Statistics : Type 0 where
  pub sizedown : HourlyAllTracking
  pub filesdown : HourlyAllTracking
  pub sizeup : HourlyAllTracking
  pub filesup : HourlyAllTracking
  pub sizefxp : HourlyAllTracking
  pub filesfxp : HourlyAllTracking
  pub spreadjobs : ℕ
  pub transferjobs : ℕ
  pub currentsecondrefreshtrack : ℕ
  pub lastsecondrefreshtrack : ℕ

pub new : Statistics
new = record {
  sizedown = HourlyAllTracking.new;
  filesdown = HourlyAllTracking.new;
  sizeup = HourlyAllTracking.new;
  filesup = HourlyAllTracking.new;
  sizefxp = HourlyAllTracking.new;
  filesfxp = HourlyAllTracking.new;
  spreadjobs = 0;
  transferjobs = 0;
  currentsecondrefreshtrack = 0;
  lastsecondrefreshtrack = 0;
}

pub tick : TickMessage → Statistics → Option Statistics
tick tick_minute s = do
  sizedown ← HourlyAllTracking.tick_minute s.sizedown
  filesdown ← HourlyAllTracking.tick_minute s.filesdown
  sizeup ← HourlyAllTracking.tick_minute s.sizeup
  filesup ← HourlyAllTracking.tick_minute s.filesup
  sizefxp ← HourlyAllTracking.tick_minute s.sizefxp
  filesfxp ← HourlyAllTracking.tick_minute s.filesfxp
  some (record s {
    sizedown = sizedown;
    filesdown = filesdown;
    sizeup = sizeup;
    filesup = filesup;
    sizefxp = sizefxp;
    filesfxp = filesfxp;
  })
tick tick_second s = some (record s {
  lastsecondrefreshtrack = s.currentsecondrefreshtrack;
  currentsecondrefreshtrack = 0;
})

pub add_transfer_stats_file : StatsDirection → ℕ → Statistics → Option Statistics
add_transfer_stats_file stats_up size s = do
  sizeup ← HourlyAllTracking.add size s.sizeup
  filesup ← HourlyAllTracking.add 1 s.filesup
  some (record s { sizeup = sizeup; filesup = filesup })
add_transfer_stats_file stats_down size s = do
  sizedown ← HourlyAllTracking.add size s.sizedown
  filesdown ← HourlyAllTracking.add 1 s.filesdown
  some (record s { sizedown = sizedown; filesdown = filesdown })
add_transfer_stats_file stats_fxp size s = do
  sizefxp ← HourlyAllTracking.add size s.sizefxp
  filesfxp ← HourlyAllTracking.add 1 s.filesfxp
  some (record s { sizefxp = sizefxp; filesfxp = filesfxp })

pub add_spread_job : Statistics → Statistics
add_spread_job s = record s { spreadjobs = u32 (s.spreadjobs + 1) }

pub add_transfer_job : Statistics → Statistics
add_transfer_job s = record s { transferjobs = u32 (s.transferjobs + 1) }

pub add_file_list_refresh : Statistics → Statistics
add_file_list_refresh s = record s {
  currentsecondrefreshtrack = u32 (s.currentsecondrefreshtrack + 1);
}

pub set_spread_jobs : ℕ → Statistics → Statistics
set_spread_jobs jobs s = record s { spreadjobs = jobs }

pub set_transfer_jobs : ℕ → Statistics → Statistics
set_transfer_jobs jobs s = record s { transferjobs = jobs }

pub reset_hourly_stats : Statistics → Statistics
reset_hourly_stats s = record s {
  filesdown = HourlyAllTracking.reset_hours s.filesdown;
  filesup = HourlyAllTracking.reset_hours s.filesup;
  sizedown = HourlyAllTracking.reset_hours s.sizedown;
  sizeup = HourlyAllTracking.reset_hours s.sizeup;
  filesfxp = HourlyAllTracking.reset_hours s.filesfxp;
  sizefxp = HourlyAllTracking.reset_hours s.sizefxp;
}

pub reset_all_stats : Statistics → Statistics
reset_all_stats s = record s {
  filesdown = HourlyAllTracking.reset s.filesdown;
  filesup = HourlyAllTracking.reset s.filesup;
  sizedown = HourlyAllTracking.reset s.sizedown;
  sizeup = HourlyAllTracking.reset s.sizeup;
  filesfxp = HourlyAllTracking.reset s.filesfxp;
  sizefxp = HourlyAllTracking.reset s.sizefxp;
  spreadjobs = 0;
  transferjobs = 0;
}
