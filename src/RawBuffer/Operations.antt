-- ===== src/RawBuffer/Operations.antt =====
-- The public methods of src/rawbuffer.cpp that write, copy and clear.
use cbftp.Common.{
  ℕ, zero, suc, ◌+◌, ◌==◌, Bool, true, false, Option, none, some, [], ◌∷◌, ◌++◌, if◌then◌else◌,
  Bytes, length, ◌>>=◌, codes,
}
use cbftp.RawBuffer.{RawBuffer, empty_ring, add_log_text, line_finished}

-- The bytes up to the first `\n`, and the rest from there, if there is one.
unfoldable pub split_newline : Bytes → Option (Bytes × Bytes)
split_newline [] = none
split_newline (c ∷ s) =
    if c == 10 then some ([], c ∷ s) else (split_newline s >>= λ r. some (c ∷ r.0, r.1))

-- `--len` for a text that ends with `\r`.
unfoldable pub without_return : Bytes → Bytes
without_return [] = []
without_return (c ∷ []) = if c == 13 then [] else c ∷ []
without_return (c ∷ d ∷ s) = c ∷ without_return (d ∷ s)

module _ (regex_match : Bytes → Bytes → Bool) where
  -- A round of the loop of `write` on the bytes from `pos`, with the place of the next `\n` found:
  -- `after` is what follows the first of them.
  abbrev pub write_round :
      Option (Bytes × Bytes)
      → (Bytes → RawBuffer → Option RawBuffer)
      → Bytes
      → Bytes
      → Bytes
      → RawBuffer
      → Option RawBuffer
  write_round none next tag text after b = add_log_text tag text b
  write_round (some ([], rest)) next tag text after b = line_finished regex_match b >>= next after
  write_round (some (d ∷ ds, rest)) next tag text after b =
      add_log_text tag (without_return (d ∷ ds)) b >>= next rest

  unfoldable pub write_loop : ℕ → Bytes → Bytes → RawBuffer → Option RawBuffer
  write_loop f tag [] b = some b
  write_loop zero tag (c ∷ s) b = none
  write_loop (suc f) tag (c ∷ s) b =
      write_round (split_newline (c ∷ s)) (write_loop f tag) tag (c ∷ s) s b

  abbrev push_if_watching : RawBuffer → RawBuffer
  push_if_watching b = record b {
    backend_pushes = if b.uiwatching then b.backend_pushes + 1 else b.backend_pushes;
  }

  -- A round moves `pos` on by at least a byte.
  unfoldable pub write : Bytes → Bytes → RawBuffer → Option RawBuffer
  write tag s b = write_loop (length s) tag s b >>= λ written. some (push_if_watching written)

  unfoldable pub write_line : Bytes → Bytes → RawBuffer → Option RawBuffer
  write_line tag s = write tag (s ++ (10 ∷ []))

  pub get_tag : Bytes → RawBuffer → Bytes
  get_tag timestamp b =
      codes "["
      ++ timestamp
      ++ (if b.eventlog
          then []
          else codes " " ++ b.site ++ (if b.threads then codes " " ++ b.id else []))
      ++ codes "]"

  pub rename : Bytes → Bytes → RawBuffer → Option RawBuffer
  rename timestamp name b =
      write_line (get_tag timestamp b) (codes "Changing site name to: " ++ name) b >>= λ written.
      some (record written { site = name })

  pub new : Bytes → ℕ → Bytes → Bytes → Bool → Bool → Bytes → Option RawBuffer
  new timestamp maxlength site id threads eventlog greeting =
      let b : RawBuffer = record {
        log = empty_ring;
        logfiltered = empty_ring;
        logcopy = empty_ring;
        logcopyfiltered = empty_ring;
        maxlength = maxlength;
        bookmarklines = 0;
        site = site;
        id = id;
        inprogress = false;
        uiwatching = false;
        threads = threads;
        eventlog = eventlog;
        callback = none;
        wildcardfilters = [];
        hasregexfilter = false;
        regexfilter = [];
        called_back = [];
        backend_pushes = 0;
      } in
      write_line (get_tag timestamp b) greeting b

  -- The three constructors.
  pub new_thread_log : Bytes → ℕ → Bytes → Bytes → Option RawBuffer
  unfolding new
  new_thread_log timestamp maxlength site id =
      new timestamp maxlength site id true false
        (codes "Log window initialized. Site: " ++ site ++ codes " Thread id: " ++ id)

  pub new_site_log : Bytes → ℕ → Bytes → Option RawBuffer
  unfolding new
  new_site_log timestamp maxlength site =
      new timestamp maxlength site [] false false
        (codes "Raw command window initialized. Site: " ++ site)

  pub new_event_log : Bytes → Option RawBuffer
  unfolding new
  new_event_log timestamp = new timestamp 1024 [] [] false true (codes "Event log initialized.")

pub set_callback : ℕ → RawBuffer → RawBuffer
set_callback callback b = record b { callback = some callback }

pub unset_callback : RawBuffer → RawBuffer
unset_callback b = record b { callback = none }

pub bookmark : RawBuffer → RawBuffer
bookmark b = record b { bookmarklines = 0 }

pub set_ui_watching : Bool → RawBuffer → RawBuffer
set_ui_watching watching b = record b { uiwatching = watching }

pub set_id : Bytes → RawBuffer → RawBuffer
set_id id b = record b { id = id }

pub is_filtered : RawBuffer → Bool
is_filtered b = elim b.wildcardfilters [ [] ↦ b.hasregexfilter | f ∷ fs ↦ true ]

-- The index of the filtered copy stays as it is.
unfoldable pub freeze_copy : RawBuffer → RawBuffer
unfolding is_filtered
freeze_copy b = record b {
  logcopy = b.log;
  logcopyfiltered = record {
    lines = if is_filtered b then b.logfiltered.lines else b.logcopyfiltered.lines;
    latest = b.logcopyfiltered.latest;
  };
}

unfoldable pub unset_filters : RawBuffer → RawBuffer
unset_filters b = record b {
  wildcardfilters = [];
  hasregexfilter = false;
  logfiltered = record { lines = []; latest = b.logfiltered.latest };
  logcopyfiltered = record { lines = []; latest = b.logcopyfiltered.latest };
}

unfoldable pub clear : RawBuffer → RawBuffer
unfolding unset_filters
clear b = record (unset_filters b) {
  log = empty_ring;
  logcopy = empty_ring;
  logfiltered = record { lines = (unset_filters b).logfiltered.lines; latest = 0 };
  logcopyfiltered = record { lines = (unset_filters b).logcopyfiltered.lines; latest = 0 };
  inprogress = false;
}
