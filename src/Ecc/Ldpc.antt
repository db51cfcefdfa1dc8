-- ===== src/Ecc/Ldpc.antt =====
-- modules/nand/nand.c: the (12,6) parity-check code and its bit-flipping decoder.
pub mod Code
use Prim.Native.Nat.{bit_and, bit_or}
use ftl_firmware.Common.{
  ℕ, zero, suc, ◌+◌, ◌%◌, Bool, true, false, List, [], ◌∷◌, ltb, leb, ◌==◌, ◌&&◌, not,
  if◌then◌else◌, ◌⊕◌, shl, shr,
}

-- `ldpc_H_matrix`, its rows from the top, each from column 0 on.
abbrev pub ldpc_matrix : List (List ℕ)
ldpc_matrix =
    (1 ∷ 1 ∷ 0 ∷ 1 ∷ 0 ∷ 0 ∷ 1 ∷ 0 ∷ 0 ∷ 0 ∷ 0 ∷ 0 ∷ [])
    ∷ (0 ∷ 1 ∷ 1 ∷ 0 ∷ 1 ∷ 0 ∷ 0 ∷ 1 ∷ 0 ∷ 0 ∷ 0 ∷ 0 ∷ [])
    ∷ (0 ∷ 0 ∷ 1 ∷ 1 ∷ 0 ∷ 1 ∷ 0 ∷ 0 ∷ 1 ∷ 0 ∷ 0 ∷ 0 ∷ [])
    ∷ (1 ∷ 0 ∷ 0 ∷ 1 ∷ 1 ∷ 0 ∷ 0 ∷ 0 ∷ 0 ∷ 1 ∷ 0 ∷ 0 ∷ [])
    ∷ (0 ∷ 1 ∷ 0 ∷ 0 ∷ 1 ∷ 1 ∷ 0 ∷ 0 ∷ 0 ∷ 0 ∷ 1 ∷ 0 ∷ [])
    ∷ (1 ∷ 0 ∷ 1 ∷ 0 ∷ 0 ∷ 1 ∷ 0 ∷ 0 ∷ 0 ∷ 0 ∷ 0 ∷ 1 ∷ [])
    ∷ []

-- The sum of the bits of `word`, from bit `j` on, that a row picks, over at most `left` columns.
unfoldable pub row_sum : ℕ → List ℕ → ℕ → ℕ → ℕ → ℕ
row_sum zero row j word s = s
row_sum (suc left) [] j word s = s
row_sum (suc left) (h ∷ row) j word s =
    row_sum left row (j + 1) word (if h == 0 then s else s ⊕ bit_and (shr word j) 1)

unfoldable pub encode_rows : List (List ℕ) → ℕ → ℕ → ℕ → ℕ
unfolding row_sum
encode_rows [] i word codeword = bit_and codeword 0x0fff
encode_rows (row ∷ rows) i word codeword =
    encode_rows rows (i + 1) word
      (if row_sum 6 row 0 word 0 == 0 then codeword else bit_or codeword (shl 1 (6 + i)))

unfoldable pub ldpc_encode_6bit : ℕ → ℕ
unfolding encode_rows
ldpc_encode_6bit d = encode_rows ldpc_matrix 0 d (bit_and d 0x3f)

-- One sum for each row of the matrix.
unfoldable pub syndrome_rows : List (List ℕ) → ℕ → List ℕ
unfolding row_sum
syndrome_rows [] word = []
syndrome_rows (row ∷ rows) word = row_sum 12 row 0 word 0 ∷ syndrome_rows rows word

unfoldable pub ldpc_calc_syndrome : ℕ → List ℕ
unfolding syndrome_rows
ldpc_calc_syndrome word = syndrome_rows ldpc_matrix word

unfoldable pub all_zero : List ℕ → Bool
all_zero [] = true
all_zero (s ∷ ss) = s == 0 && all_zero ss

-- `error_count[j]`: in how many unsatisfied rows column `j` stands.
unfoldable pub column_of : List ℕ → ℕ → ℕ
column_of [] j = 0
column_of (h ∷ row) zero = h
column_of (h ∷ row) (suc j) = column_of row j

unfoldable pub error_count : List (List ℕ) → List ℕ → ℕ → ℕ → ℕ
unfolding column_of
error_count [] ss j n = n
error_count (row ∷ rows) [] j n = n
error_count (row ∷ rows) (s ∷ ss) j n =
    error_count rows ss j (if (s == 0) then n else if column_of row j == 0 then n else n + 1)

-- The first column with the greatest count.
unfoldable pub worst_bit : ℕ → ℕ → List ℕ → ℕ → ℕ → ℕ
unfolding error_count
worst_bit zero i ss max_error max_pos = max_pos
worst_bit (suc left) i ss max_error max_pos =
    let n = error_count ldpc_matrix ss i 0 in
    let better = ltb max_error n in
    worst_bit left (i + 1) ss (if better then n else max_error) (if better then i else max_pos)

-- The check after the loop; `word` is what the caller gave.
unfoldable pub ldpc_finish : ℕ → ℕ → ℕ → ℕ × ℕ
unfolding ldpc_calc_syndrome all_zero
ldpc_finish word r total_errors =
    if all_zero (ldpc_calc_syndrome r) && leb total_errors 3 then (total_errors, r) else (4, word)

-- `NAND_LDPC_MAX_ITER` rounds; the loop is left when more than `NAND_LDPC_T` bits were flipped.
unfoldable pub ldpc_loop : ℕ → ℕ → ℕ → ℕ → ℕ × ℕ
unfolding ldpc_finish worst_bit
ldpc_loop zero word r total_errors = ldpc_finish word r total_errors
ldpc_loop (suc left) word r total_errors =
    let ss = ldpc_calc_syndrome r in
    let r' = r ⊕ shl 1 (worst_bit 12 0 ss 0 0) in
    let more = ldpc_loop left word r' (total_errors + 1) in
    if all_zero ss
    then (total_errors, r)
    else if ltb 3 (total_errors + 1)
    then ldpc_finish word r' (total_errors + 1)
    else more

unfoldable pub ldpc_decode_12bit : ℕ → ℕ × ℕ
unfolding ldpc_loop
ldpc_decode_12bit word = ldpc_loop 10 word word 0
