-- ===== src/Logger/Lost.antt =====
-- Lines that do not reach the file of their day, without a message.
use calabash.Base.{
  ◌++◌, All, ℕ, suc, ◌≡◌, refl, ℤ, eq_int, true, false, none, List, [], ◌∷◌, Bytes, ok, arith,
  append-nil,
}
use calabash.Logger.{
  LocalTime, Disk, World, Logger, log_base_dir, put_file, log, rotate, put_line, then_put, then_log,
  get_file_name_by_date, open_named, system_line,
}
use calabash.Logger.Rotation.{open_on, IsWell, log-stays, log-turns}
use calabash.Logger.Days.{Call, Day, log_each, IsSteady, IsOn, IsOnMday, lines, lines_later}

-- The logger on a day whose file was not opened.
abbrev pub shut_on : ℕ → Logger
shut_on mday = record {
  today = ℤ.pos mday;
  output = record { file = none; fail = true; bad = false };
}

module _ {T : Type 0} (local : LocalTime T) (disk : Disk) where
  put_line-shut :
      (mday : ℕ) (s : Bytes) (w : World T)
      → put_line local disk s (shut_on mday) w
        ≡ (shut_on mday, record w { clock = λ n. w.clock (suc n) })
  unfolding put_line
  put_line-shut mday s w = refl

  log-shut :
      (fuel mday : ℕ) (s : Bytes) (w : World T)
      → local.tm_mday (w.clock 0) ≡ mday
      → log local disk (suc fuel) s (shut_on mday) w
        ≡ ok (true, shut_on mday, record w { clock = λ n. w.clock (suc (suc n)) })
  log-shut fuel mday s w e =
      rw (log-stays local disk fuel s (shut_on mday) w (ground arith))
        (rw (put_line-shut mday s _) refl)

  log_each-shut :
      (fuel mday : ℕ) (name : Bytes) (cs : List (Call T)) (files : Bytes → Bytes)
      → All (IsOn local disk name mday) cs
      → log_each local disk (suc fuel) cs (shut_on mday) files ≡ ok (true, shut_on mday, files)
  unfolding log_each
  log_each-shut fuel mday name [] files h = refl
  log_each-shut fuel mday name (c ∷ cs) files (on, h) =
      rw (log-shut fuel mday c.text (record { clock = c.readings; files = files }) (on 0).1)
        (log_each-shut fuel mday name cs files h)

  rotate-shut :
      (mday : ℕ) (name : Bytes) (l : Logger) (w : World T)
      → disk.has_dir ≡ true
      → disk.opens (log_base_dir ++ name) ≡ false
      → l.output.bad ≡ false
      → local.tm_mday (w.clock 0) ≡ mday
      → local.date (w.clock 1) ≡ name
      → rotate local disk l w
        ≡ (true, shut_on mday, record w { clock = λ n. w.clock (suc (suc n)) })
  unfolding rotate get_file_name_by_date open_named
  rotate-shut mday name l w dir shut good e h = rw (e, h, dir) (rw shut (rw good refl))

  log-unopened :
      (fuel mday : ℕ) (name s : Bytes) (l : Logger) (w : World T)
      → disk.has_dir ≡ true
      → disk.opens (log_base_dir ++ name) ≡ false
      → l.output.bad ≡ false
      → eq_int l.today (ℤ.pos mday) ≡ false
      → ((n : ℕ) → (local.date (w.clock n) ≡ name) × (local.tm_mday (w.clock n) ≡ mday))
      → log local disk (suc (suc fuel)) s l w
        ≡ ok (
          true,
          shut_on mday,
          record w { clock = λ n. w.clock (suc (suc (suc (suc (suc (suc n)))))) },
        )
  unfolding then_log then_put
  log-unopened fuel mday name s l w dir shut good e day =
      let turned : eq_int l.today (ℤ.pos (local.tm_mday (w.clock 0))) ≡ false = rw (day 0).1 e in
      let w1 : World T = record w { clock = λ n. w.clock (suc n) } in
      let w3 : World T = record w { clock = λ n. w.clock (suc (suc (suc n))) } in
      let w5 : World T = record w { clock = λ n. w.clock (suc (suc (suc (suc (suc n))))) } in
      let opens = rotate-shut mday name l w1 dir shut good (day 1).1 (day 2).0 in
      let starts = log-shut fuel mday (system_line local disk) w3 (day 3).1 in
      rw (log-turns local disk (suc fuel) s l w turned) (rw opens (rw starts refl))

  -- On a new day whose file cannot be opened, from a stream that is not bad, every call of the day
  -- returns, no file is changed, and the stream still does not count as bad, so that no message is
  -- printed either.
  pub log_each-unopened :
      (fuel : ℕ) (d : Day T) (l : Logger) (files : Bytes → Bytes)
      → disk.has_dir ≡ true
      → disk.opens (log_base_dir ++ d.name) ≡ false
      → l.output.bad ≡ false
      → eq_int l.today (ℤ.pos d.mday) ≡ false
      → IsSteady local disk d
      → log_each local disk (suc (suc fuel)) (d.opening ∷ d.later) l files
        ≡ ok (true, shut_on d.mday, files)
  unfolding log_each
  log_each-unopened fuel d l files dir shut good turn (on, later) =
      let w : World T = record { clock = d.opening.readings; files = files } in
      rw (log-unopened fuel d.mday d.name d.opening.text l w dir shut good turn on)
        (log_each-shut (suc fuel) d.mday d.name d.later files later)

  -- On a disk that takes all that is written, calls of another date with the same day of the month,
  -- made while a date's file is open, go behind its text, and return; no other file is changed.
  pub log_each-same_mday :
      (well : IsWell disk) (fuel mday : ℕ) (name : Bytes) (cs : List (Call T))
      (files : Bytes → Bytes) (before : Bytes)
      → All (IsOnMday local disk mday) cs
      → log_each local disk
          (suc fuel)
          cs
          (open_on mday name)
          (put_file (log_base_dir ++ name) before files)
        ≡ ok (
          true,
          open_on mday name,
          put_file (log_base_dir ++ name) (before ++ lines local disk cs) files,
        )
  unfolding log_each
  log_each-same_mday well fuel mday name cs files before h =
      rw append-nil at (lines_later local disk well fuel mday name cs [] files before h)
