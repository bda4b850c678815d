-- ===== src/App/Leaves/Accounts.antt =====
-- The handlers for accounts, which only read: `app_login`, `app_self` and `app_student_info`.
use calabash.Base.{
  ℕ, ◌*◌, List, [], ◌∷◌, Bytes, codes, get_elem?, if◌then◌else◌, Outcome, or_fault, Bool-cases, inl,
  inr,
}
use calabash.App.{Env, Did}
use calabash.App.Act.{query, lift}
use calabash.App.Business.{
  Shown, as_text, as_number, as_truth, show_column, show_fields, show_row, answer_info, app_self,
  app_student_info, check_password, app_login, is_teacher, teacher_columns, student_columns,
  not_found_user, token_key,
}
use calabash.App.Leaves.{LeaveTable, Selects}
use calabash.App.Leaves.Reads.{
  Reads, stops, gives, Anything, and_then-Reads, get_text_at-Reads, test_json_param-Reads,
  index-Reads, lift-Reads, only_row-Reads,
}
use calabash.Sqlite3.{Sqlite3Data, Rows, text_value}
use calabash.Token.{encode, issue}

module _ {J F D : Type 0} (env : Env J F D) (table : LeaveTable env) where
  abbrev pub Looked : (A : Type 0) → D → Outcome (Did J A × D) → Type 0
  Looked A d o = Reads env A Anything d o

  abbrev Cells : Type 0
  Cells = List (Sqlite3Data F)

  pub query-Reads :
      (name : Bytes)
      → Selects env name
      → (id : Bytes) (d : D) → Looked (Rows F) d (query env name (text_value id ∷ []) d)
  query-Reads name h id d = let (rows, e) = h id d in rw e (gives rows tt)

  student_info-Selects : Selects env (codes "student_info")
  student_info-Selects id d = (table.student d id, table.select_student id d)

  column-Reads :
      (i : ℕ) (row : Cells) (d : D) → Looked (Sqlite3Data F) d (lift (or_fault (get_elem? row i)) d)
  column-Reads i row d = lift-Reads env (or_fault (get_elem? row i)) d

  show_column-Reads : (s : Shown) (row : Cells) (d : D) → Looked J d (show_column env s row d)
  unfolding show_column
  show_column-Reads (as_text i) row d =
      and_then-Reads env _ (column-Reads i row d) (λ c u. gives _ tt)
  show_column-Reads (as_number i) row d =
      and_then-Reads env _ (column-Reads i row d) (λ c u. gives _ tt)
  show_column-Reads (as_truth i) row d =
      and_then-Reads env _ (column-Reads i row d) (λ c u. gives _ tt)

  show_fields-Reads :
      (columns : List (Bytes × Shown)) (row : Cells) (d : D)
      → Looked (List (Bytes × J)) d (show_fields env columns row d)
  unfolding show_fields
  show_fields-Reads [] row d = gives [] tt
  show_fields-Reads ((name, shown) ∷ rest) row d =
      and_then-Reads env _ (show_column-Reads shown row d)
        (λ v u. and_then-Reads env _ (show_fields-Reads rest row d) (λ vs w. gives _ tt))

  pub show_row-Reads :
      (columns : List (Bytes × Shown)) (row : Cells) (d : D)
      → Looked J d (show_row env columns row d)
  unfolding show_row
  show_row-Reads columns row d =
      and_then-Reads env _ (show_fields-Reads columns row d) (λ fields u. gives _ tt)

  answer_info-Reads :
      (name : Bytes)
      → Selects env name
      → (columns : List (Bytes × Shown)) (id : Bytes) (d : D)
      → Looked Unit d (answer_info env name columns id d)
  unfolding answer_info
  answer_info-Reads name h columns id d = and_then-Reads env _ (query-Reads name h id d) (λ rows u.
      and_then-Reads env _ (only_row-Reads env (not_found_user env) rows d)
        (λ row v. and_then-Reads env _ (show_row-Reads columns row d) (λ j w. stops _)))

  pub app_self-Reads : (body : J) (d : D) → Looked Unit d (app_self env body d)
  unfolding app_self
  app_self-Reads body d =
      and_then-Reads env _ (get_text_at-Reads env (codes "user") body d) (λ user u.
        elim (Bool-cases (is_teacher user)) [
          | inl e ↦
              rw e
                (answer_info-Reads (codes "teacher_info") table.teacher_info teacher_columns user d)
          | inr e ↦
              rw e (
                answer_info-Reads (codes "student_info") student_info-Selects student_columns user
                  d)
        ])

  pub app_student_info-Reads : (body : J) (d : D) → Looked Unit d (app_student_info env body d)
  unfolding app_student_info
  app_student_info-Reads body d =
      and_then-Reads env _ (get_text_at-Reads env (codes "user") body d) (λ user u.
        and_then-Reads env _ (test_json_param-Reads env (codes "id" ∷ []) body d) (λ l v.
          elim (Bool-cases (is_teacher user)) [
            | inl e ↦ rw e (
                and_then-Reads env _ (get_text_at-Reads env (codes "id") body d) (λ id w.
                  answer_info-Reads (codes "student_info") student_info-Selects student_columns id
                    d))
            | inr e ↦ rw e (stops _)
          ]))

  check_password-Reads :
      (body : J) (row : Cells) (d : D) → Looked Unit d (check_password env body row d)
  unfolding check_password
  check_password-Reads body row d = and_then-Reads env _ (column-Reads 0 row d) (λ stored u.
      and_then-Reads env _ (index-Reads env (env.json.find (codes "password") body) body d)
        (λ given v. elim (Bool-cases (env.json.same (env.json.text stored.text_data) given)) [
          | inl e ↦ rw e (
              and_then-Reads env _ (get_text_at-Reads env (codes "user") body d) (λ user w.
                and_then-Reads env _
                  (lift-Reads env
                    (encode env.calendar env.beyond
                      (issue env.calendar env.beyond user (24 * 3600) env.now env.later) token_key)
                    d)
                  (λ token x. stops _)))
          | inr e ↦ rw e (stops _)
        ]))

  password-Reads :
      (user : Bytes) (d : D)
      → Looked (Rows F) d (
          query env
            (if is_teacher user then codes "teacher_password" else codes "student_password")
            (text_value user ∷ [])
            d)
  password-Reads user d = elim (Bool-cases (is_teacher user)) [
    | inl e ↦ rw e (query-Reads (codes "teacher_password") table.teacher_password user d)
    | inr e ↦ rw e (query-Reads (codes "student_password") table.student_password user d)
  ]

  pub app_login-Reads : (body : J) (d : D) → Looked Unit d (app_login env body d)
  unfolding app_login
  app_login-Reads body d =
      and_then-Reads env _ (test_json_param-Reads env (codes "user" ∷ codes "password" ∷ []) body d)
        (λ l u. and_then-Reads env _ (get_text_at-Reads env (codes "user") body d) (λ user v.
          and_then-Reads env _ (password-Reads user d) (λ rows w.
            and_then-Reads env _ (only_row-Reads env _ rows d)
              (λ row x. check_password-Reads body row d))))
