-- ===== src/Md5/Operations.antt =====
-- The operations of the four rounds, as the table of RFC 1321, section 3.4, has them.
use calabash.Base.{ℕ, ◌+◌, ◌-◌, ◌*◌, ◌/◌, ◌%◌, ◌^◌, List, [], ◌∷◌, bit_and, bit_or, bit_xor, get_or}
use calabash.Md5.{Md5State, u32, not32, t_table}

-- The auxiliary functions of the four rounds.
pub data Auxiliary : Type 0 where
  aux_f aux_g aux_h aux_i : Auxiliary

unfoldable pub apply_aux : Auxiliary → ℕ → ℕ → ℕ → ℕ
apply_aux aux_f x y z = bit_or (bit_and x y) (bit_and (not32 x) z)
apply_aux aux_g x y z = bit_or (bit_and x z) (bit_and y (not32 z))
apply_aux aux_h x y z = bit_xor (bit_xor x y) z
apply_aux aux_i x y z = bit_xor y (bit_or x (not32 z))

-- An operation `[abcd k s i]`, and the four of a row, on ABCD, DABC, CDAB and BCDA.
abbrev pub Op : Type 0
Op = ℕ × ℕ × ℕ

abbrev pub Row : Type 0
Row = Auxiliary × Op × Op × Op × Op

-- The circular shift of 32 bits: what leaves on the left comes back on the right.
unfoldable pub rotate_left : ℕ → ℕ → ℕ
rotate_left x s = x % 2 ^ (32 - s) * 2 ^ s + x / 2 ^ (32 - s)

-- a = b + ((a + F(b,c,d) + X[k] + T[i]) <<< s), with T numbered from 1.
unfoldable pub operate : (ℕ → ℕ → ℕ) → List ℕ → Auxiliary → Op → ℕ → ℕ → ℕ → ℕ → ℕ
operate rotate xs aux (k, s, i) a b c d =
    u32 (b + rotate (u32 (a + apply_aux aux b c d + get_or xs k 0 + get_or t_table (i - 1) 0)) s)

-- Each operation changes its own register, and the next ones see it.
unfoldable pub run_row : (ℕ → ℕ → ℕ) → List ℕ → Row → Md5State → Md5State
run_row rotate xs (aux, op_a, op_d, op_c, op_b) st =
    let a = operate rotate xs aux op_a st.a st.b st.c st.d in
    let d = operate rotate xs aux op_d st.d a st.b st.c in
    let c = operate rotate xs aux op_c st.c d a st.b in
    let b = operate rotate xs aux op_b st.b c d a in record { a = a; b = b; c = c; d = d }

unfoldable pub run_rows : (ℕ → ℕ → ℕ) → List ℕ → List Row → Md5State → Md5State
run_rows rotate xs [] st = st
run_rows rotate xs (row ∷ rows) st = run_rows rotate xs rows (run_row rotate xs row st)

-- The table of the RFC.
abbrev pub rfc_rows : List Row
rfc_rows =
    (aux_f, (0, 7, 1), (1, 12, 2), (2, 17, 3), (3, 22, 4))
    ∷ (aux_f, (4, 7, 5), (5, 12, 6), (6, 17, 7), (7, 22, 8))
    ∷ (aux_f, (8, 7, 9), (9, 12, 10), (10, 17, 11), (11, 22, 12))
    ∷ (aux_f, (12, 7, 13), (13, 12, 14), (14, 17, 15), (15, 22, 16))
    ∷ (aux_g, (1, 5, 17), (6, 9, 18), (11, 14, 19), (0, 20, 20))
    ∷ (aux_g, (5, 5, 21), (10, 9, 22), (15, 14, 23), (4, 20, 24))
    ∷ (aux_g, (9, 5, 25), (14, 9, 26), (3, 14, 27), (8, 20, 28))
    ∷ (aux_g, (13, 5, 29), (2, 9, 30), (7, 14, 31), (12, 20, 32))
    ∷ (aux_h, (5, 4, 33), (8, 11, 34), (11, 16, 35), (14, 23, 36))
    ∷ (aux_h, (1, 4, 37), (4, 11, 38), (7, 16, 39), (10, 23, 40))
    ∷ (aux_h, (13, 4, 41), (0, 11, 42), (3, 16, 43), (6, 23, 44))
    ∷ (aux_h, (9, 4, 45), (12, 11, 46), (15, 16, 47), (2, 23, 48))
    ∷ (aux_i, (0, 6, 49), (7, 10, 50), (14, 15, 51), (5, 21, 52))
    ∷ (aux_i, (12, 6, 53), (3, 10, 54), (10, 15, 55), (1, 21, 56))
    ∷ (aux_i, (8, 6, 57), (15, 10, 58), (6, 15, 59), (13, 21, 60))
    ∷ (aux_i, (4, 6, 61), (11, 10, 62), (2, 15, 63), (9, 21, 64))
    ∷ []
