-- ===== src/SizeLocationTrack/Examples.antt =====
-- A run of src/sizelocationtrack.cpp on four sites.
use cbftp.Common.{[], ◌∷◌}
use cbftp.SizeLocationTrack.{SizeLocationTrack, recalculate}
use cbftp.SizeLocationTrack.Estimate.{IsEstimate, recalculate-IsEstimate}

abbrev four_sites : SizeLocationTrack
four_sites = record { sitesizes = (1, 500) ∷ (2, 700) ∷ (3, 500) ∷ (4, 0) ∷ []; estimatedsize = 0 }

recalculate-IsEstimate_example :
    IsEstimate ((1, 500) ∷ (2, 700) ∷ (3, 500) ∷ (4, 0) ∷ []) (recalculate four_sites).estimatedsize
recalculate-IsEstimate_example = recalculate-IsEstimate four_sites
