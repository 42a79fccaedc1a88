-- ===== src/FileList/Tracked/Run.antt =====
-- What `firstsimilar` of src/filelist.cpp points to after any calls.
use cbftp.Common.{Option}
use cbftp.File.{File}
use cbftp.FileList.{FileList, set_changed, board_changed}
use cbftp.FileList
