-- ===== src/Logger.antt =====
-- src/util/logger.cpp and src/include/util/logger.h. The clock gives its readings one after the other;
-- `strftime` and `put_time` are parameters, and so is what the disk lets a program do. Printing to the
-- console is left out. The mutex is recursive, and a call holds it from its first reading to its last.
pub mod Rotation
pub mod Days
pub mod Lost
mod Tests
use calabash.Base.{
  ℕ, zero, suc, ◌≡◌, ℤ, eq_int, Bool, true, false, not, ◌||◌, Option, none, some, List, [], ◌∷◌,
  ◌++◌, Bytes, codes, bytes_eq, if◌then◌else◌, Outcome, ok, throw, fault, ◌>>=◌,
}

-- What `localtime` gives is read in three ways: the day of the month, the name of the day's file, and
-- the time in front of a line.
pub record LocalTime (T : Type 0) : Type 0 where
  pub tm_mday : T → ℕ
  pub date : T → Bytes
  pub time_str : T → Bytes

-- Whether the directory of the logs is there or can be made, whether a file can be opened, and whether
-- a file takes what is written to it.
pub record Disk : Type 0 where
  pub has_dir : Bool
  pub opens : Bytes → Bool
  pub takes : Bytes → Bool

-- `std::ofstream`: the file that it has open, and its bits.
pub record Stream : Type 0 where
  pub file : Option Bytes
  pub fail : Bool
  pub bad : Bool

pub record World (T : Type 0) : Type 0 where
  pub clock : ℕ → T
  pub files : Bytes → Bytes

pub record Logger : Type 0 where
  pub today : ℤ
  pub output : Stream

abbrev pub new_logger : Logger
new_logger = record {
  today = ℤ.negsuc 0;
  output = record { file = none; fail = false; bad = false };
}

abbrev pub log_base_dir : Bytes
log_base_dir = codes "./log/"

abbrev pub put_file {ℓ} : {A : Type ℓ} → Bytes → A → (Bytes → A) → Bytes → A
put_file name text files other = if bytes_eq name other then text else files other

abbrev is_none {ℓ} : {A : Type ℓ} → Option A → Bool
is_none none = true
is_none (some a) = false

-- Closing a stream that has no file open fails.
abbrev pub close : Stream → Stream
close o = record { file = none; fail = o.fail || is_none o.file; bad = o.bad }

module _ {T : Type 0} (local : LocalTime T) (disk : Disk) where
  -- The next reading of the clock.
  abbrev pub get_now_time : World T → T × World T
  get_now_time w = (w.clock 0, record w { clock = λ n. w.clock (suc n) })

  -- `open` with `ios::out`: the file is emptied and the bits are cleared, or the stream fails.
  abbrev pub open_file : Bytes → Stream → World T → Stream × World T
  open_file name o w =
      if disk.opens name
      then (
        record { file = some name; fail = false; bad = false },
        record w { files = put_file name [] w.files },
      )
      else (record o { fail = true }, w)

  -- `<<` and `endl`. A stream with a bit set takes nothing; one that has no file turns bad.
  abbrev pub write_to : Option Bytes → Bytes → Stream → World T → Stream × World T
  write_to none text o w =
      (if o.fail || o.bad then record o { fail = true } else record o { bad = true }, w)
  write_to (some name) text o w =
      if o.fail || o.bad
      then (record o { fail = true }, w)
      else if disk.takes name
      then (o, record w { files = put_file name (w.files name ++ text) w.files })
      else (record o { bad = true }, w)

  -- The name of the day's file; without its directory an exception is thrown.
  unfoldable pub get_file_name_by_date : World T → Option Bytes × World T
  get_file_name_by_date w =
      let (t, later) = get_now_time w in
      (if disk.has_dir then some (log_base_dir ++ local.date t) else none, later)

  -- The text of a line, with the time in front.
  abbrev pub line : T → Bytes → Bytes
  line t s = local.time_str t ++ codes " " ++ s ++ codes "\n"

  -- The end of `Log`; where the stream is bad, a message goes to the console.
  unfoldable pub put_line : Bytes → Logger → World T → Logger × World T
  put_line s l w =
      let (t, later) = get_now_time w in
      if l.output.bad
      then (l, later)
      else let (o, written) = write_to l.output.file (line t s) l.output later in
        (record l { output = o }, written)

  abbrev pub system_line : Bytes
  system_line = codes "SYSTEM  | defined LOGGER_CLEAR_FILE_AT_START"

  -- What a call leaves, and whether it returned; else an exception left it.
  abbrev pub Left : Type 0
  Left = Bool × Logger × World T

  unfoldable pub open_named : Logger → Option Bytes × World T → Left
  open_named l (none, w) = (false, l, w)
  open_named l (some name, w) =
      let (o, opened) = open_file name l.output w in (true, record l { output = o }, opened)

  -- The day is noted, the stream is closed, and the file of the day is opened.
  unfoldable pub rotate : Logger → World T → Left
  unfolding get_file_name_by_date open_named
  rotate l w =
      let (t, later) = get_now_time w in
      open_named (record { today = ℤ.pos (local.tm_mday t); output = close l.output })
        (get_file_name_by_date later)

  -- The rest of `Log` once a call in it has ended.
  unfoldable pub then_put : Bytes → Left → Left
  unfolding put_line
  then_put s (false, l, w) = (false, l, w)
  then_put s (true, l, w) = let (l', w') = put_line s l w in (true, l', w')

  -- What follows the opening of a file: the first line, unless an exception was thrown.
  unfoldable pub then_log : (Logger → World T → Outcome Left) → Left → Outcome Left
  then_log first (false, l, w) = ok (false, l, w)
  then_log first (true, l, w) = first l w

  -- `Log` calls itself for the first line of a file; the fuel is the depth of these calls.
  unfoldable pub log : ℕ → Bytes → Logger → World T → Outcome Left
  unfolding rotate put_line then_put then_log
  log zero s l w = fault
  log (suc fuel) s l w =
      let (t, later) = get_now_time w in
      elim (eq_int l.today (ℤ.pos (local.tm_mday t))) [
        | true ↦ let (l', w') = put_line s l later in ok (true, l', w')
        | false ↦
            then_log (log fuel system_line) (rotate l later) >>= λ (r : Left). ok (then_put s r)
      ]

  abbrev pub system : ℕ → Bytes → Logger → World T → Outcome Left
  system fuel s = log fuel (codes "SYSTEM  | " ++ s)

  abbrev pub info : ℕ → Bytes → Logger → World T → Outcome Left
  info fuel s = log fuel (codes "INFO    | " ++ s)

  abbrev pub warning : ℕ → Bytes → Logger → World T → Outcome Left
  warning fuel s = log fuel (codes "WARNING | " ++ s)

  abbrev pub error : ℕ → Bytes → Logger → World T → Outcome Left
  error fuel s = log fuel (codes "ERROR   | " ++ s)
