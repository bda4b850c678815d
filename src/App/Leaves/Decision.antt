-- ===== src/App/Leaves/Decision.antt =====
-- What an approval writes into the table of leaves.
use calabash.Base.{
  ℕ, ◌≡◌, refl, ℤ, bits_of, Bool, true, false, not, ◌&&◌, ◌||◌, some, Bytes, bytes_eq, codes,
  if◌then◌else◌, ok, arith,
}
use calabash.App.{Env, returned, got}
use calabash.App.Act.{
  get_text_at, get_int_at, get_bool_at, index_found, test_json_param, lost_params, lost_one,
  only_row,
}
use calabash.App.Leaves.{LeaveRow, LeaveTable, status_of}
use calabash.App.Notes.{decide, approve_status, app_approval}
use calabash.Leave.{StudentStatus, of_status, status, decision, pending_approval}
use calabash.Leave.Status.{of_status-status, fields-lt, decided-lt}

module _ {J F D : Type 0} (env : Env J F D) (table : LeaveTable env) where
  -- The parts of a request for an approval.
  pub record Decision (body : J) : Type 0 where
    pub user : Bytes
    pub note_id : ℤ
    pub approves : Bool
    pub note_double : F
    pub user_j : J
    pub note_j : J
    pub status_j : J
    pub user_at : env.json.find (codes "user") body ≡ some user_j
    pub note_at : env.json.find (codes "note_id") body ≡ some note_j
    pub status_at : env.json.find (codes "status") body ≡ some status_j
    pub user_text : env.json.get_text user_j ≡ got user
    pub note_number : env.json.get_double note_j ≡ got note_double
    pub note_int : env.json.to_int note_double ≡ some note_id
    pub status_bool : env.json.get_bool status_j ≡ got approves

  decide-pending :
      (body : J) (c : Decision body) (mine : Bool) (n : ℕ) (d : D)
      → (mine ≡ true → n ≡ pending_approval)
      → decide env mine body n d ≡ ok (returned (if mine then decision c.approves else n), d)
  unfolding decide get_bool_at index_found
  decide-pending body c false n d h = refl
  decide-pending body c true n d h = rw (h refl, c.status_at, c.status_bool) refl

  -- The status with the decision in each place that is the user's.
  abbrev pub decided_status : Bytes → Bool → LeaveRow → StudentStatus
  decided_status user approves r =
      let s = status_of r in
      record s {
        instructor = if bytes_eq user r.instructor_id then decision approves else s.instructor;
        mentor = if bytes_eq user r.mentor_id then decision approves else s.mentor;
      }

  -- A teacher of a leave who has not decided on it yet, and asks with the leave's number and a
  -- decision: the update writes the old status with the decision in each place that is the teacher's,
  -- and the number that is written reads as that status.
  pub app_approval-writes :
      (body : J) (c : Decision body) (r : LeaveRow) (d : D)
      → table.leave d c.note_id ≡ some r
      → (bytes_eq c.user r.instructor_id || bytes_eq c.user r.mentor_id) ≡ true
      → (bytes_eq c.user r.instructor_id ≡ true → (status_of r).instructor ≡ pending_approval)
      → (bytes_eq c.user r.mentor_id ≡ true → (status_of r).mentor ≡ pending_approval)
      → (let t = decided_status c.user c.approves r in
          (app_approval env body d
            ≡ ok (returned tt, table.set_leave_status c.note_id (ℤ.pos (status t)) d))
          × (of_status (status t) ≡ t))
  unfolding app_approval approve_status get_text_at get_int_at index_found test_json_param
      lost_params lost_one only_row
  app_approval-writes body c r d here teacher pending_i pending_m =
      let s = status_of r in
      let is_i = bytes_eq c.user r.instructor_id in
      let is_m = bytes_eq c.user r.mentor_id in
      let t = decided_status c.user c.approves r in
      let low = fields-lt (bits_of r.status_data) in
      let allowed : (not is_i && not is_m) ≡ false = ground (arith, teacher) in
      (
        rw
            (
              c.user_at,
              c.user_text,
              c.note_at,
              c.status_at,
              c.note_number,
              c.note_int,
              table.select_teachers c.note_id d,
              here,
              allowed,
              decide-pending body c is_i s.instructor d pending_i,
              decide-pending body c is_m s.mentor d pending_m,
              table.update c.note_id (ℤ.pos (status t)) d,
            )
            refl,
        of_status-status t (decided-lt is_i c.approves s.instructor low.0)
            (decided-lt is_m c.approves s.mentor low.1),
      )
