-- ===== src/Statistics/Examples.antt =====
-- Runs of src/statistics.cpp on a program that has just started.
use cbftp.Common.{◌≡◌, refl, some, Returns, arith}
use cbftp.HourlyAllTracking.Sums.{IsConsistent}
use cbftp.HourlyAllTracking
use cbftp.Statistics.{stats_up, add_transfer_stats_file, new, tick_second, tick}
use cbftp.Statistics.Directions.{AllConsistent, CountsFile, add_transfer_stats_file-CountsFile}

started-IsConsistent : IsConsistent HourlyAllTracking.new
unfolding HourlyAllTracking.new
started-IsConsistent = record {
  day = refl;
  words = ground arith;
  summed = refl;
  hour = omega arith;
}

new-AllConsistent : AllConsistent new
unfolding new
new-AllConsistent = record {
  sizedown = started-IsConsistent;
  filesdown = started-IsConsistent;
  sizeup = started-IsConsistent;
  filesup = started-IsConsistent;
  sizefxp = started-IsConsistent;
  filesfxp = started-IsConsistent;
}

add_transfer_stats_file-CountsFile_example :
    Returns (CountsFile stats_up 5 new) (add_transfer_stats_file stats_up 5 new)
add_transfer_stats_file-CountsFile_example =
    add_transfer_stats_file-CountsFile stats_up 5 new new-AllConsistent

ticked : tick tick_second new ≡ some new
unfolding tick new
ticked = refl
