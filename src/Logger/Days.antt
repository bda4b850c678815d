-- ===== src/Logger/Days.antt =====
-- The files that a sequence of calls of `Logger::Log` leaves, day by day.
use calabash.Base.{
  All-mono, ◌∙◌, ap, ◌++◌, append-nil, append_assoc, All, ℕ, suc, ◌≡◌, refl, ℤ, eq_int, Bool, true,
  false, List, [], ◌∷◌, Bytes, Outcome, ok, ◌>>=◌,
}
use calabash.Logger.{
  LocalTime, Disk, World, Logger, log_base_dir, put_file, log, line, system_line, Left,
}
use calabash.Logger.Rotation.{open_on, IsWell, put_file-more, log-same_day, log-new_day}

pub record Call (T : Type 0) : Type 0 where
  pub text : Bytes
  pub readings : ℕ → T

-- The calls of a day, the one that finds a new day first.
pub record Day (T : Type 0) : Type 0 where
  pub name : Bytes
  pub mday : ℕ
  pub opening : Call T
  pub later : List (Call T)

module _ {T : Type 0} (local : LocalTime T) (disk : Disk) where
  -- What an exception left ends a sequence.
  abbrev go_on :
      (Logger → (Bytes → Bytes) → Outcome (Bool × Logger × (Bytes → Bytes)))
      → Left local disk
      → Outcome (Bool × Logger × (Bytes → Bytes))
  go_on rest (false, l, w) = ok (false, l, w.files)
  go_on rest (true, l, w) = rest l w.files

  -- The calls one after the other, each with the readings of its time; an exception ends them.
  unfoldable pub log_each :
      ℕ → List (Call T) → Logger → (Bytes → Bytes) → Outcome (Bool × Logger × (Bytes → Bytes))
  log_each fuel [] l files = ok (true, l, files)
  log_each fuel (c ∷ cs) l files =
      log local disk fuel c.text l (record { clock = c.readings; files = files })
      >>= go_on (log_each fuel cs)

  -- Every reading of the call is of the day.
  abbrev pub IsOn : Bytes → ℕ → Call T → Type 0
  IsOn name mday c =
      (n : ℕ) → (local.date (c.readings n) ≡ name) × (local.tm_mday (c.readings n) ≡ mday)

  -- Every reading of the call has the day of the month.
  abbrev pub IsOnMday : ℕ → Call T → Type 0
  IsOnMday mday c = (n : ℕ) → local.tm_mday (c.readings n) ≡ mday

  abbrev pub IsSteady : Day T → Type 0
  IsSteady d = IsOn d.name d.mday d.opening × All (IsOn d.name d.mday) d.later

  abbrev pub calls : List (Day T) → List (Call T)
  calls [] = []
  calls (d ∷ ds) = d.opening ∷ (d.later ++ calls ds)

  abbrev pub lines : List (Call T) → Bytes
  lines [] = []
  lines (c ∷ cs) = line local disk (c.readings 1) c.text ++ lines cs

  abbrev pub day_text : Day T → Bytes
  day_text d =
      line local disk (d.opening.readings 4) (system_line local disk)
      ++ (line local disk (d.opening.readings 5) d.opening.text ++ lines d.later)

  -- The files once each day's has been written anew.
  abbrev pub written : List (Day T) → (Bytes → Bytes) → Bytes → Bytes
  written [] files = files
  written (d ∷ ds) files = written ds (put_file (log_base_dir ++ d.name) (day_text d) files)

  abbrev pub left_open : Logger → List (Day T) → Logger
  left_open l [] = l
  left_open l (d ∷ ds) = left_open (open_on d.mday d.name) ds

  -- From each day to the next the day of the month changes.
  abbrev pub Turns : ℤ → List (Day T) → Type 0
  Turns today [] = Unit
  Turns today (d ∷ ds) = (eq_int today (ℤ.pos d.mday) ≡ false) × Turns (ℤ.pos d.mday) ds

  module _ (well : IsWell disk) where
    -- While the day of the month stays, every line goes behind the last.
    pub lines_later :
        (fuel mday : ℕ) (name : Bytes) (cs rest : List (Call T)) (files : Bytes → Bytes)
        (before : Bytes)
        → All (IsOnMday mday) cs
        → log_each
            (suc fuel)
            (cs ++ rest)
            (open_on mday name)
            (put_file (log_base_dir ++ name) before files)
          ≡ log_each
              (suc fuel)
              rest
              (open_on mday name)
              (put_file (log_base_dir ++ name) (before ++ lines cs) files)
    unfolding log_each
    lines_later fuel mday name [] rest files before h = rw append-nil refl
    lines_later fuel mday name (c ∷ cs) rest files before (on, h) =
        let full = log_base_dir ++ name in
        let w : World T = record { clock = c.readings; files = put_file full before files } in
        rw (log-same_day local disk well fuel mday name c.text w (on 0)) (
          ap (λ (f : Bytes → Bytes). log_each (suc fuel) (cs ++ rest) (open_on mday name) f)
            (put_file-more full before (line local disk (c.readings 1) c.text) files)
          ∙ rw (append_assoc before (line local disk (c.readings 1) c.text) (lines cs)) at (
              lines_later fuel mday name cs rest files
                (before ++ line local disk (c.readings 1) c.text) h))

    -- From a day of the month that is not the logger's, on a disk that takes all that is written, where
    -- every call has all its readings on its day and the day of the month changes from each day to
    -- the next, the calls return and leave each day's file with its first line and the day's lines in
    -- their order, written anew, and no other file changed.
    pub log_each-days :
        (fuel : ℕ) (ds : List (Day T)) (l : Logger) (files : Bytes → Bytes)
        → Turns l.today ds
        → All IsSteady ds
        → log_each (suc (suc fuel)) (calls ds) l files ≡ ok (true, left_open l ds, written ds files)
    unfolding log_each
    log_each-days fuel [] l files turns steady = refl
    log_each-days fuel (d ∷ ds) l files (turn, turns) ((on, later), steady) =
        let w : World T = record { clock = d.opening.readings; files = files } in
        rw (log-new_day local disk well fuel d.mday d.name d.opening.text l w turn on) (
          rw
            (append_assoc (line local disk (d.opening.readings 4) (system_line local disk))
              (line local disk (d.opening.readings 5) d.opening.text) (lines d.later))
            at
            (lines_later (suc fuel) d.mday d.name d.later (calls ds) files
              (line local disk (d.opening.readings 4) (system_line local disk)
                ++ line local disk (d.opening.readings 5) d.opening.text)
              (All-mono (IsOn d.name d.mday) (IsOnMday d.mday) (λ c on n. (on n).1) d.later later))
          ∙ log_each-days fuel ds (open_on d.mday d.name)
              (put_file (log_base_dir ++ d.name) (day_text d) files) turns steady)
