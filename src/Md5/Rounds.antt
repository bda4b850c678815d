-- ===== src/Md5/Rounds.antt =====
-- The four rounds of RFC 1321, section 3.4, beside the loop of `IterateFunc`.
use calabash.Base.{
  All, bit_or-shifted, ℕ, suc, ◌+◌, ◌-◌, ◌*◌, ◌/◌, ◌%◌, ◌^◌, ◌<◌, ◌≡◌, refl, List, [], ◌∷◌, arith,
  ◌∙◌, ap,
}
use native.Mathlib.Nat.{add_comm}
use calabash.Md5.{
  Md5State, u32, mix, f_mix, g_mix, h_mix, i_mix, shift, word_index, round, rounds, iterate_func,
}
use calabash.Md5.Operations.{
  Auxiliary, Row, apply_aux, operate, run_row, run_rows, rotate_left, rfc_rows,
}

-- Four rounds of the loop from round `i` on are the row.
abbrev IsRow : ℕ → Row → Type 0
IsRow i row =
    (xs : List ℕ) (st : Md5State)
    → round xs (i + 3) (round xs (i + 2) (round xs (i + 1) (round xs i st)))
      ≡ run_row shift xs row st

abbrev AreRows : ℕ → List Row → Type 0
AreRows i [] = Unit
AreRows i (row ∷ rows) = IsRow i row × AreRows (i + 4) rows

table_rows : AreRows 0 rfc_rows
unfolding round run_row operate apply_aux mix f_mix g_mix h_mix i_mix word_index
table_rows = (
  (λ xs st. refl),
  (
    (λ xs st. refl),
    (
      (λ xs st. refl),
      (
        (λ xs st. refl),
        (
          (λ xs st. refl),
          (
            (λ xs st. refl),
            (
              (λ xs st. refl),
              (
                (λ xs st. refl),
                (
                  (λ xs st. refl),
                  (
                    (λ xs st. refl),
                    (
                      (λ xs st. refl),
                      (
                        (λ xs st. refl),
                        (
                          (λ xs st. refl),
                          ((λ xs st. refl), ((λ xs st. refl), ((λ xs st. refl), tt))),
                        ),
                      ),
                    ),
                  ),
                ),
              ),
            ),
          ),
        ),
      ),
    ),
  ),
)

-- Four rounds for each row.
abbrev four_each : List Row → ℕ
four_each [] = 0
four_each (row ∷ rows) = suc (suc (suc (suc (four_each rows))))

four_rounds :
    (n i : ℕ) (xs : List ℕ) (st : Md5State)
    → rounds xs (suc (suc (suc (suc n)))) i st
      ≡ rounds xs n
          (i + 1 + 1 + 1 + 1)
          (round xs (i + 1 + 1 + 1) (round xs (i + 1 + 1) (round xs (i + 1) (round xs i st))))
unfolding rounds
four_rounds n i xs st = refl

rounds-run_rows :
    (i : ℕ) (rows : List Row) (xs : List ℕ) (st : Md5State)
    → AreRows i rows
    → rounds xs (four_each rows) i st ≡ run_rows shift xs rows st
unfolding rounds run_rows
rounds-run_rows i [] xs st h = refl
rounds-run_rows i (row ∷ rows) xs st (is_row, h) =
    let e2 : i + 1 + 1 ≡ i + 2 = omega arith in
    let e3 : i + 2 + 1 ≡ i + 3 = omega arith in
    let e4 : i + 3 + 1 ≡ i + 4 = omega arith in
    rw (e2, e3, e4, is_row xs st) at (four_rounds (four_each rows) i xs st)
    ∙ rounds-run_rows (i + 4) rows xs (run_row shift xs row st) h

-- The two ways to rotate agree.
abbrev IsShift : ℕ → Type 0
IsShift s = (x : ℕ) → x < 2 ^ 32 → shift x s ≡ rotate_left x s

shift_lem :
    (s x : ℕ)
    → u32 (x * 2 ^ s) ≡ x % 2 ^ (32 - s) * 2 ^ s
    → x / 2 ^ (32 - s) < 2 ^ s
    → shift x s ≡ rotate_left x s
unfolding shift rotate_left
shift_lem s x e low = rw e (bit_or-shifted s (x % 2 ^ (32 - s)) (x / 2 ^ (32 - s)) low)

shifts_f : IsShift 7 × IsShift 12 × IsShift 17 × IsShift 22
shifts_f = (
  (λ x h. shift_lem 7 x (omega arith) (omega arith)),
  (λ x h. shift_lem 12 x (omega arith) (omega arith)),
  (λ x h. shift_lem 17 x (omega arith) (omega arith)),
  (λ x h. shift_lem 22 x (omega arith) (omega arith)),
)

shifts_g : IsShift 5 × IsShift 9 × IsShift 14 × IsShift 20
shifts_g = (
  (λ x h. shift_lem 5 x (omega arith) (omega arith)),
  (λ x h. shift_lem 9 x (omega arith) (omega arith)),
  (λ x h. shift_lem 14 x (omega arith) (omega arith)),
  (λ x h. shift_lem 20 x (omega arith) (omega arith)),
)

shifts_h : IsShift 4 × IsShift 11 × IsShift 16 × IsShift 23
shifts_h = (
  (λ x h. shift_lem 4 x (omega arith) (omega arith)),
  (λ x h. shift_lem 11 x (omega arith) (omega arith)),
  (λ x h. shift_lem 16 x (omega arith) (omega arith)),
  (λ x h. shift_lem 23 x (omega arith) (omega arith)),
)

shifts_i : IsShift 6 × IsShift 10 × IsShift 15 × IsShift 21
shifts_i = (
  (λ x h. shift_lem 6 x (omega arith) (omega arith)),
  (λ x h. shift_lem 10 x (omega arith) (omega arith)),
  (λ x h. shift_lem 15 x (omega arith) (omega arith)),
  (λ x h. shift_lem 21 x (omega arith) (omega arith)),
)

abbrev HasShifts : Row → Type 0
HasShifts (aux, (k, s, i), (k', s', i'), (k'', s'', i''), (k3, s3, i3)) =
    IsShift s × IsShift s' × IsShift s'' × IsShift s3

operate-rotate_left :
    (xs : List ℕ) (aux : Auxiliary) (k s i a b c d : ℕ)
    → IsShift s
    → operate shift xs aux (k, s, i) a b c d ≡ operate rotate_left xs aux (k, s, i) a b c d
unfolding operate
operate-rotate_left xs aux k s i a b c d v = ap (λ (r : ℕ). u32 (b + r)) (v _ (omega arith))

run_row-rotate_left :
    (xs : List ℕ) (row : Row) (st : Md5State)
    → HasShifts row
    → run_row shift xs row st ≡ run_row rotate_left xs row st
unfolding run_row
run_row-rotate_left xs (aux, (k, s, i), (k', s', i'), (k'', s'', i''), (k3, s3, i3)) st
      (va, vd, vc, vb) =
    let a = operate rotate_left xs aux (k, s, i) st.a st.b st.c st.d in
    let d = operate rotate_left xs aux (k', s', i') st.d a st.b st.c in
    let c = operate rotate_left xs aux (k'', s'', i'') st.c d a st.b in
    rw
      (
        operate-rotate_left xs aux k s i st.a st.b st.c st.d va,
        operate-rotate_left xs aux k' s' i' st.d a st.b st.c vd,
        operate-rotate_left xs aux k'' s'' i'' st.c d a st.b vc,
        operate-rotate_left xs aux k3 s3 i3 st.b c d a vb,
      )
      refl

run_rows-rotate_left :
    (xs : List ℕ) (rows : List Row) (st : Md5State)
    → All HasShifts rows
    → run_rows shift xs rows st ≡ run_rows rotate_left xs rows st
unfolding run_rows
run_rows-rotate_left xs [] st h = refl
run_rows-rotate_left xs (row ∷ rows) st (v, h) =
    rw (run_row-rotate_left xs row st v)
      (run_rows-rotate_left xs rows (run_row rotate_left xs row st) h)

table_shifts : All HasShifts rfc_rows
table_shifts =
    let f = shifts_f in
    let g = shifts_g in
    let h = shifts_h in
    let i = shifts_i in
    (f, (f, (f, (f, (g, (g, (g, (g, (h, (h, (h, (h, (i, (i, (i, (i, tt))))))))))))))))

-- One block of the RFC: A = A + AA, and so on.
unfoldable pub rfc_block : List ℕ → Md5State → Md5State
rfc_block xs temp =
    let st = run_rows rotate_left xs rfc_rows temp in
    record {
      a = u32 (st.a + temp.a);
      b = u32 (st.b + temp.b);
      c = u32 (st.c + temp.c);
      d = u32 (st.d + temp.d);
    }

-- `IterateFunc`, which moves the four words on by one place in each of 64 equal rounds, computes on
-- every block and from every state what the four rounds of the RFC do, with its table of operations.
pub iterate_func-eq-rfc_block :
    (xs : List ℕ) (temp : Md5State) → iterate_func xs temp ≡ rfc_block xs temp
unfolding iterate_func rfc_block
iterate_func-eq-rfc_block xs temp =
    let same =
      rounds-run_rows 0 rfc_rows xs temp table_rows
      ∙ run_rows-rotate_left xs rfc_rows temp table_shifts in
    ap
      (λ (st : Md5State). record {
        a = u32 (temp.a + st.a);
        b = u32 (temp.b + st.b);
        c = u32 (temp.c + st.c);
        d = u32 (temp.d + st.d);
      })
      same
    ∙ (let st = run_rows rotate_left xs rfc_rows temp in
        rw (add_comm temp.a st.a, add_comm temp.b st.b, add_comm temp.c st.c, add_comm temp.d st.d)
          refl)
