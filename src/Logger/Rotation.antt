-- ===== src/Logger/Rotation.antt =====
-- One call of `Logger::Log`: on the logger's day, and on another.
use mathlib.Core.Path.{fun_ext}
use calabash.Base.{
  ◌∙◌, ap, ◌++◌, Bool-cases, ℕ, suc, ◌≡◌, refl, ℤ, eq_int, true, false, some, [], Bytes, bytes_eq,
  bytes_eq_refl, ok, ◌>>=◌, arith, inl, inr,
}
use calabash.Logger.{
  LocalTime, Disk, World, Logger, log_base_dir, put_file, log, line, system_line, rotate, put_line,
  then_put, then_log, get_file_name_by_date, open_named, Left,
}

-- Emptying a file and writing it twice.
put_file-twice :
    (full first second : Bytes) (files : Bytes → Bytes)
    → (let emptied = put_file full [] files in
        let begun = put_file full (emptied full ++ first) emptied in
        put_file full (begun full ++ second) begun)
      ≡ put_file full (first ++ second) files
put_file-twice full first second files = fun_ext (λ other. elim (Bool-cases (bytes_eq full other)) [
  | inl e ↦ rw (e, bytes_eq_refl full) refl
  | inr e ↦ rw e refl
])

-- Writing behind what was just written.
pub put_file-more :
    (full first second : Bytes) (files : Bytes → Bytes)
    → (let begun = put_file full first files in put_file full (begun full ++ second) begun)
      ≡ put_file full (first ++ second) files
put_file-more full first second files = fun_ext (λ other. elim (Bool-cases (bytes_eq full other)) [
  | inl e ↦ rw (e, bytes_eq_refl full) refl
  | inr e ↦ rw e refl
])

-- The logger while the file of a day is open.
abbrev pub open_on : ℕ → Bytes → Logger
open_on mday name = record {
  today = ℤ.pos mday;
  output = record { file = some (log_base_dir ++ name); fail = false; bad = false };
}

-- The disk makes the directory and the files, and takes every line.
pub record IsWell (disk : Disk) : Type 0 where
  pub dir : disk.has_dir ≡ true
  pub files : (name : Bytes) → disk.opens name ≡ true
  pub lines : (name : Bytes) → disk.takes name ≡ true

module _ {T : Type 0} (local : LocalTime T) (disk : Disk) where
  pub log-stays :
      (fuel : ℕ) (s : Bytes) (l : Logger) (w : World T)
      → eq_int l.today (ℤ.pos (local.tm_mday (w.clock 0))) ≡ true
      → log local disk (suc fuel) s l w ≡ (
          let r = put_line local disk s l (record w { clock = λ n. w.clock (suc n) }) in
          ok (true, r.0, r.1))
  unfolding log
  log-stays fuel s l w e = rw (e, log) refl

  pub log-turns :
      (fuel : ℕ) (s : Bytes) (l : Logger) (w : World T)
      → eq_int l.today (ℤ.pos (local.tm_mday (w.clock 0))) ≡ false
      → log local disk (suc fuel) s l w ≡ (
          then_log local disk
            (log local disk fuel (system_line local disk))
            (rotate local disk l (record w { clock = λ n. w.clock (suc n) }))
          >>= λ (r : Left local disk). ok (then_put local disk s r))
  unfolding log
  log-turns fuel s l w e = rw (e, log) refl

  module _ (well : IsWell disk) where
    put_line-open :
        (mday : ℕ) (name s : Bytes) (w : World T)
        → put_line local disk s (open_on mday name) w ≡ (
          open_on mday name,
          record {
            clock = λ n. w.clock (suc n);
            files =
                put_file
                  (log_base_dir ++ name)
                  (w.files (log_base_dir ++ name) ++ line local disk (w.clock 0) s)
                  w.files;
          },
        )
    unfolding put_line
    put_line-open mday name s w = rw (well.lines (log_base_dir ++ name)) refl

    pub log-same_day :
        (fuel mday : ℕ) (name s : Bytes) (w : World T)
        → local.tm_mday (w.clock 0) ≡ mday
        → log local disk (suc fuel) s (open_on mday name) w
          ≡ ok (
            true,
            open_on mday name,
            record {
              clock = λ n. w.clock (suc (suc n));
              files =
                  put_file
                    (log_base_dir ++ name)
                    (w.files (log_base_dir ++ name) ++ line local disk (w.clock 1) s)
                    w.files;
            },
          )
    log-same_day fuel mday name s w e =
        rw (log-stays fuel s (open_on mday name) w (ground arith))
          (rw (put_line-open mday name s _) refl)

    rotate-opens :
        (mday : ℕ) (name : Bytes) (l : Logger) (w : World T)
        → local.tm_mday (w.clock 0) ≡ mday
        → local.date (w.clock 1) ≡ name
        → rotate local disk l w ≡ (
          true,
          open_on mday name,
          record {
            clock = λ n. w.clock (suc (suc n));
            files = put_file (log_base_dir ++ name) [] w.files;
          },
        )
    unfolding rotate get_file_name_by_date open_named
    rotate-opens mday name l w e h =
        rw (e, h, well.dir) (rw (well.files (log_base_dir ++ name)) refl)

    pub log-new_day :
        (fuel mday : ℕ) (name s : Bytes) (l : Logger) (w : World T)
        → eq_int l.today (ℤ.pos mday) ≡ false
        → ((n : ℕ) → (local.date (w.clock n) ≡ name) × (local.tm_mday (w.clock n) ≡ mday))
        → log local disk (suc (suc fuel)) s l w
          ≡ ok (
            true,
            open_on mday name,
            record {
              clock = λ n. w.clock (suc (suc (suc (suc (suc (suc n))))));
              files =
                  put_file
                    (log_base_dir ++ name)
                    (line local disk (w.clock 4) (system_line local disk)
                      ++ line local disk (w.clock 5) s)
                    w.files;
            },
          )
    unfolding then_log then_put
    log-new_day fuel mday name s l w e day =
        let turned : eq_int l.today (ℤ.pos (local.tm_mday (w.clock 0))) ≡ false = rw (day 0).1 e in
        let full = log_base_dir ++ name in
        let first = line local disk (w.clock 4) (system_line local disk) in
        let w1 : World T = record w { clock = λ n. w.clock (suc n) } in
        let w3 : World T = record {
          clock = λ n. w.clock (suc (suc (suc n)));
          files = put_file full [] w.files;
        } in
        let w5 : World T = record {
          clock = λ n. w.clock (suc (suc (suc (suc (suc n)))));
          files = put_file full (w3.files full ++ first) w3.files;
        } in
        let opens = rotate-opens mday name l w1 (day 1).1 (day 2).0 in
        let starts = log-same_day fuel mday name (system_line local disk) w3 (day 3).1 in
        let puts = put_line-open mday name s w5 in
        rw (log-turns (suc fuel) s l w turned) (
          rw opens (
            rw starts (
              ap (λ (r : Logger × World T). ok (true, r.0, r.1)) puts
              ∙ ap
                  (λ (f : Bytes → Bytes). ok (
                    true,
                    open_on mday name,
                    record {
                      clock = λ n. w.clock (suc (suc (suc (suc (suc (suc n))))));
                      files = f;
                    },
                  ))
                  (put_file-twice full first (line local disk (w.clock 5) s) w.files))))
