-- ===== src/App/Leaves/Approval.antt =====
-- `app_approval` and `app_release` on the table of leaves.
use calabash.Base.{
  ℕ, ◌<◌, ◌≡◌, sym, ap, subst, ℤ, eq_int, bits_of, true, false, not, ◌&&◌, some, [], ◌∷◌, Bytes,
  bytes_eq, codes, Outcome, ok, fault, Bool-cases, Option-cases, inl, inr, arith,
}
use calabash.App.{Env, Did, returned, raised}
use calabash.App.Act.{http_code, http_code, Act, and_then, only_row, http}
use calabash.App.Notes.{release_status, app_release, approve_status, app_approval, update_status}
use calabash.App.Leaves.{is_passed, LeaveRow, LeaveTable, status_of}
use calabash.App.Leaves.Moves.{
  releases, Moved-refl, Move, Moved, Decides, moved, decides, kept, decided,
}
use calabash.App.Leaves.Reads.{
  Reads, no_read, stops, gives, get_text_at-Reads, get_int_at-Reads, test_json_param-Reads,
  decide-Reads,
}
use calabash.Leave.{StudentStatus, status}
use calabash.Leave.Status.{of_status-status, fields-lt}

module _ {J F D : Type 0} (env : Env J F D) (table : LeaveTable env) where
  -- Every leave of the table keeps its teachers, and its status moves.
  abbrev pub Follow : D → D → Type 0
  Follow d d' = (i : ℤ) → Moved (table.leave d i) (table.leave d' i)

  pub data Keeps (A : Type 0) (d : D) : Outcome (Did J A × D) → Type 0 where
    faults : Keeps A d fault
    ends : (x : Did J A) (d' : D) → Follow d d' → Keeps A d (ok (x, d'))

  pub Follow-refl : (d : D) → Follow d d
  Follow-refl d i = Moved-refl (table.leave d i)

  pub and_then-Keeps :
      {A B : Type 0} {P : A → Type 0} {d : D} {o : Outcome (Did J A × D)} (k : A → Act J D B)
      → Reads env A P d o
      → ((a : A) → P a → Keeps B d (k a d))
      → Keeps B d (and_then o k)
  and_then-Keeps k no_read h = faults
  and_then-Keeps {d = d} k (stops e) h = ends (raised e) d (Follow-refl d)
  and_then-Keeps k (gives a p) h = h a p

  pub eq_int_sound : (a b : ℤ) → eq_int a b ≡ true → a ≡ b
  eq_int_sound (ℤ.pos m) (ℤ.pos n) h = ap ℤ.pos (ground (arith, h))
  eq_int_sound (ℤ.pos m) (ℤ.negsuc n) h = absurd (cc)
  eq_int_sound (ℤ.negsuc m) (ℤ.pos n) h = absurd (cc)
  eq_int_sound (ℤ.negsuc m) (ℤ.negsuc n) h = ap ℤ.negsuc (ground (arith, h))

  -- A write of a status to which the old one may move.
  set_leave_status-Follow :
      (id : ℤ) (t : StudentStatus) (r : LeaveRow) (d : D)
      → table.leave d id ≡ some r
      → Move (status_of r) t
      → t.instructor < 4
      → t.mentor < 4
      → Follow d (table.set_leave_status id (ℤ.pos (status t)) d)
  set_leave_status-Follow id t r d here hm i_low m_low i = elim (Bool-cases (eq_int id i)) [
    | inl same ↦
        let at_i : table.leave d i ≡ some r =
          subst (λ k. table.leave d k ≡ some r) (eq_int_sound id i same) here in
        rw (table.leave-set_leave_status id (ℤ.pos (status t)) i d, same, at_i)
          (moved r (ℤ.pos (status t))
            (subst (Move (status_of r)) (sym (of_status-status t i_low m_low)) hm))
    | inr differs ↦
        rw (table.leave-set_leave_status id (ℤ.pos (status t)) i d, differs)
          (Moved-refl (table.leave d i))
  ]

  update_status-Keeps :
      (id : ℤ) (t : StudentStatus) (r : LeaveRow) (d : D)
      → table.leave d id ≡ some r
      → Move (status_of r) t
      → t.instructor < 4
      → t.mentor < 4
      → Keeps Unit d (update_status env id t d)
  update_status-Keeps id t r d here hm i_low m_low = rw (table.update id (ℤ.pos (status t)) d) (
      ends (returned tt) (table.set_leave_status id (ℤ.pos (status t)) d)
        (set_leave_status-Follow id t r d here hm i_low m_low))

  Decides-lt : {n n' : ℕ} → Decides n n' → n < 4 → n' < 4
  Decides-lt (kept n) h = h
  Decides-lt (decided n true e) h = omega arith
  Decides-lt (decided n false e) h = omega arith

  approve_status-Keeps :
      (body : J) (user_id : Bytes) (id : ℤ) (r : LeaveRow) (d : D)
      → table.leave d id ≡ some r
      → Keeps Unit d
          (approve_status env body user_id id (status_of r) r.instructor_id r.mentor_id d)
  unfolding approve_status
  approve_status-Keeps body user_id id r d here =
      let s = status_of r in
      let is_i = bytes_eq user_id r.instructor_id in
      let is_m = bytes_eq user_id r.mentor_id in
      let low = fields-lt (bits_of r.status_data) in
      elim (Bool-cases (not is_i && not is_m)) [
        | inl e ↦ rw e (
            ends (raised (http env.json 403 (codes "No permissions, you must be leave's teacher.")))
              d (Follow-refl d))
        | inr e ↦ rw e (
            and_then-Keeps _ (decide-Reads env is_i body s.instructor d) (λ i hi.
              and_then-Keeps _ (decide-Reads env is_m body s.mentor d) (λ m hm.
                update_status-Keeps id (record s { instructor = i; mentor = m }) r d here
                  (decides s i m hi hm) (Decides-lt hi low.0) (Decides-lt hm low.1))))
      ]

  -- An approval, whoever asks for it and with whatever body, at most decides for a teacher what was
  -- pending; all other leaves stay as they are.
  pub app_approval-Keeps : (body : J) (d : D) → Keeps Unit d (app_approval env body d)
  unfolding app_approval only_row
  app_approval-Keeps body d =
      and_then-Keeps _ (get_text_at-Reads env (codes "user") body d) (λ user_id u.
        and_then-Keeps _ (test_json_param-Reads env (codes "note_id" ∷ codes "status" ∷ []) body d)
          (λ l w. and_then-Keeps _ (get_int_at-Reads env (codes "note_id") body d) (λ id v.
            rw (table.select_teachers id d) (elim (Option-cases (table.leave d id)) [
              | inl e ↦ rw e (
                  ends (raised (http env.json 404 (codes "Not found this leave."))) d
                    (Follow-refl d))
              | inr (r, e) ↦ rw e (approve_status-Keeps body user_id id r d e)
            ]))))

  release_status-Keeps :
      (id : ℤ) (r : LeaveRow) (d : D)
      → table.leave d id ≡ some r
      → Keeps Unit d (release_status env id (status_of r) d)
  unfolding release_status
  release_status-Keeps id r d here =
      let s = status_of r in
      let low = fields-lt (bits_of r.status_data) in
      elim (Bool-cases (is_passed s)) [
        | inl e ↦ rw e (
            update_status-Keeps id (record s { is_destroyed = true }) r d here (releases s e) low.0
              low.1)
        | inr e ↦ rw e (
            ends (raised (http_code env.json 200 403 (codes "status must be passed."))) d
              (Follow-refl d))
      ]

  -- A release, whoever asks for it and with whatever body, at most releases a leave that both
  -- teachers have passed; all other leaves stay as they are.
  pub app_release-Keeps : (body : J) (d : D) → Keeps Unit d (app_release env body d)
  unfolding app_release only_row
  app_release-Keeps body d =
      and_then-Keeps _ (get_text_at-Reads env (codes "user") body d) (λ user_id u.
        and_then-Keeps _ (test_json_param-Reads env (codes "note_id" ∷ []) body d) (λ l w.
          and_then-Keeps _ (get_int_at-Reads env (codes "note_id") body d) (λ id v.
            rw (table.select_status id d) (elim (Option-cases (table.leave d id)) [
              | inl e ↦ rw e (
                  ends (raised (http env.json 404 (codes "Not found leave info"))) d
                    (Follow-refl d))
              | inr (r, e) ↦ rw e (release_status-Keeps id r d e)
            ]))))
