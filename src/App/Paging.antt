-- ===== src/App/Paging.antt =====
-- The pages of `app_search_leave`.
use calabash.Base.{
  ℕ, zero, suc, ◌+◌, ◌-◌, ◌*◌, ◌^◌, ◌≤◌, ◌<◌, ◌≡◌, refl, ◌∙◌, ℤ, at_least_one, ltb, true, some,
  none, List, [], ◌∷◌, Bytes, codes, map, take, drop, get_elem?, if◌then◌else◌, ok, fault,
  Bool-cases, ◌⊎◌, inl, inr, arith,
}
use calabash.App.{Env, got, returned, raised}
use calabash.App.Act.{http_body, get_text_at, get_int_at, index_found}
use calabash.App.Business.{show_row, show_fields, show_column, is_nonzero}
use calabash.App.Search.{find_leaves, push_next, push_rows, show_page, page_of, app_search_leave}
use calabash.Sqlite3.{Sqlite3Data}

-- A row of the table `leave_info`.
pub record LeaveCells (F : Type 0) : Type 0 where
  pub inform_id : Sqlite3Data F
  pub student_id : Sqlite3Data F
  pub mentor_id : Sqlite3Data F
  pub instructor_id : Sqlite3Data F
  pub leave_type : Sqlite3Data F
  pub leave_reason : Sqlite3Data F
  pub time_begin : Sqlite3Data F
  pub time_end : Sqlite3Data F
  pub is_school : Sqlite3Data F
  pub leave_status : Sqlite3Data F

abbrev pub row_of : {F : Type 0} → LeaveCells F → List (Sqlite3Data F)
row_of c =
    c.inform_id ∷ c.student_id ∷ c.mentor_id ∷ c.instructor_id ∷ c.leave_type ∷ c.leave_reason
    ∷ c.time_begin ∷ c.time_end ∷ c.is_school ∷ c.leave_status ∷ []

-- The rows of a page, counted from 1.
abbrev pub page_rows : {A : Type 0} → ℕ → ℕ → List A → List A
page_rows page max_num rows = take max_num (drop ((page - 1) * max_num) rows)

module _ {A B : Type 0} (f : A → B) where
  drop-elem :
      (i : ℕ) (xs : List A)
      → ((drop i xs ≡ []) × (get_elem? (map f xs) i ≡ none))
        ⊎ ((x : A) × (drop i xs ≡ x ∷ drop (i + 1) xs) × (get_elem? (map f xs) i ≡ some (f x)))
  drop-elem zero [] = inl (refl, refl)
  drop-elem zero (x ∷ xs) = inr (x, refl, refl)
  drop-elem (suc i) [] = inl (refl, refl)
  drop-elem (suc i) (x ∷ xs) = elim (drop-elem i xs) [
    | inl h ↦ inl h
    | inr (y, cut, here) ↦ let e : suc i + 1 ≡ suc (i + 1) = omega arith in inr (y, rw e cut, here)
  ]

module _ {J F D : Type 0} (env : Env J F D) where
  -- How a leave is shown.
  abbrev pub leave_json : LeaveCells F → J
  leave_json c =
      let text = λ (x : Sqlite3Data F). env.json.text x.text_data in
      env.json.object (
        (codes "inform_id", env.json.number c.inform_id.int_data)
        ∷ (codes "student_id", text c.student_id)
        ∷ (codes "mentor_id", text c.mentor_id)
        ∷ (codes "instructor_id", text c.instructor_id)
        ∷ (codes "leave_type", text c.leave_type)
        ∷ (codes "leave_reason", text c.leave_reason)
        ∷ (codes "time_begin", text c.time_begin)
        ∷ (codes "time_end", text c.time_end)
        ∷ (codes "is_school", env.json.truth (is_nonzero c.is_school.int_data))
        ∷ (codes "status", env.json.number c.leave_status.int_data)
        ∷ [])

  abbrev pub push_all : J → List J → J
  push_all j [] = j
  push_all j (x ∷ xs) = push_all (env.json.push_back j x) xs

  push_rows-eq :
      (left i : ℕ) (cells : List (LeaveCells F)) (j : J) (d : D)
      → push_rows env left i (map row_of cells) j d
        ≡ ok (returned (push_all j (map leave_json (take left (drop i cells)))), d)
  unfolding push_rows push_next show_row show_fields show_column
  push_rows-eq zero i cells j d = refl
  push_rows-eq (suc left) i cells j d = elim (drop-elem row_of i cells) [
    | inl (cut, nothing) ↦ rw (cut, nothing) refl
    | inr (c, cut, here) ↦
        rw (cut, here) (push_rows-eq left (i + 1) cells (env.json.push_back j (leave_json c)) d)
  ]

  first_of : (page max_num : ℕ) → 1 ≤ page → (page - 1) * max_num + max_num ≡ page * max_num
  first_of zero max_num h = absurd (omega arith)
  first_of (suc page) max_num h = let e : suc page - 1 ≡ page = omega arith in rw e (omega arith)

  -- For rows of ten columns, a page counted from 1 shows the rows from (page - 1) * max_num on,
  -- at most max_num of them, pushed in their order onto null; where page * max_num leaves the
  -- range of an int, the multiplication overflows, which is a fault.
  pub show_page-eq :
      (page max_num : ℕ) (cells : List (LeaveCells F)) (d : D)
      → 1 ≤ page
      → show_page env page max_num (map row_of cells) d ≡ (
          if ltb (page * max_num) (2 ^ 31)
          then ok (
            raised (
                http_body env.json (
                  env.json.object (
                    (
                      codes "data",
                      push_all env.json.null (map leave_json (page_rows page max_num cells)),
                    )
                    ∷ []))),
            d,
          )
          else fault)
  unfolding show_page
  show_page-eq page max_num cells d h =
      let begin = (page - 1) * max_num in
      let size = first_of page max_num h in
      elim (Bool-cases (ltb (page * max_num) (2 ^ 31))) [
        | inl fits ↦
            let low : ltb begin (2 ^ 31) ≡ true = ground (arith, fits, size) in
            let left : page * max_num - begin ≡ max_num = omega (arith, size) in
            rw (low, fits, left) (rw (push_rows-eq max_num begin cells env.json.null d) refl)
        | inr large ↦ elim (Bool-cases (ltb begin (2 ^ 31))) [
          | inl low ↦ rw (low, large) refl
          | inr high ↦ rw (high, large) refl
        ]
      ]

  at_least_one-le : (z : ℤ) → 1 ≤ at_least_one z
  at_least_one-le (ℤ.pos n) = ground arith
  at_least_one-le (ℤ.negsuc n) = omega arith

  -- A search for a page: the answer shows the leaves that the user's queries found, cut to the page,
  -- of which no number is below 1.
  pub app_search_leave-page :
      (body u p m : J) (user : Bytes) (x y : F) (page max_num : ℤ) (cells : List (LeaveCells F))
      (d after : D)
      → env.json.find (codes "user") body ≡ some u
      → env.json.get_text u ≡ got user
      → env.json.find (codes "page") body ≡ some p
      → env.json.get_double p ≡ got x
      → env.json.to_int x ≡ some page
      → env.json.find (codes "max_num") body ≡ some m
      → env.json.get_double m ≡ got y
      → env.json.to_int y ≡ some max_num
      → find_leaves env user d ≡ ok (returned (map row_of cells), after)
      → at_least_one page * at_least_one max_num < 2 ^ 31
      → app_search_leave env body d
        ≡ ok (
          raised (
              http_body env.json (
                env.json.object (
                  (
                    codes "data",
                    push_all env.json.null (
                        map leave_json
                          (page_rows (at_least_one page) (at_least_one max_num) cells)),
                  )
                  ∷ []))),
          after,
        )
  unfolding app_search_leave page_of get_text_at get_int_at index_found
  app_search_leave-page body u p m user x y page max_num cells d after e1 e2 e3 e4 e5 e6 e7 e8 rows
        fits =
      let low : ltb (at_least_one page * at_least_one max_num) (2 ^ 31) ≡ true =
        ground (arith, fits) in
      rw (e1, e2, e3, e3, e4, e5, e6, e7, e8, rows)
        (show_page-eq (at_least_one page) (at_least_one max_num) cells after (at_least_one-le page)
          ∙ rw low refl)

  -- A search whose user is a text and whose page is a number in the range of an int, without a
  -- "max_num", reads a key that is not there, which is a fault: the source's test looks for
  -- "page" twice.
  pub app_search_leave-no_max_num :
      (body u p : J) (user : Bytes) (x : F) (page : ℤ) (d : D)
      → env.json.find (codes "user") body ≡ some u
      → env.json.get_text u ≡ got user
      → env.json.find (codes "page") body ≡ some p
      → env.json.get_double p ≡ got x
      → env.json.to_int x ≡ some page
      → env.json.find (codes "max_num") body ≡ none
      → app_search_leave env body d ≡ fault
  unfolding app_search_leave page_of get_text_at get_int_at index_found
  app_search_leave-no_max_num body u p user x page d e1 e2 e3 e4 e5 e6 =
      rw (e1, e2, e3, e3, e4, e5, e6, env.json.find-IsObject (codes "page") body p e3) refl
