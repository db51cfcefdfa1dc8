-- ===== src/Nand.antt =====
-- modules/nand/nand.c and nand.h: the simulated flash. The arrays of the source are functions of the
-- block and the page; the mapped file is `media` (a page's data) and `oob` (its spare area), which
-- `Layout` shows to lie apart in the file. `rand()` is an argument. Null pointers are `none`. The
-- mutex and the log lines change no state and are left out.
pub mod Layout
pub mod Pages
pub mod Invariant
pub mod Replaced
pub mod Retry
pub mod Tests
use ftl_firmware.Common.{
  ℕ, zero, suc, ◌+◌, ◌-◌, ◌*◌, ◌%◌, ◌^◌, Bool, true, false, Option, none, some, List, not, ◌&&◌,
  ◌||◌, ltb, leb, ◌==◌, if◌then◌else◌, update, inc32, dec32, add32, RetCode, ret_ok, err_param,
  err_bad_block, err_overwrite, err_not_mapped, err_no_space, is_ok,
}
use ftl_firmware.Ecc.Hamming.{
  EccResult, clean, Counters, nand_ecc_hamming_encode, nand_ecc_hamming_decode,
}

abbrev pub page_size : ℕ
page_size = 4096

abbrev pub oob_size : ℕ
oob_size = 16

abbrev pub pages_per_block : ℕ
pages_per_block = 256

abbrev pub total_blocks : ℕ
total_blocks = 128

abbrev pub reserved_blocks : ℕ
reserved_blocks = 8

abbrev pub user_blocks : ℕ
user_blocks = 120

abbrev pub oob_magic : ℕ
oob_magic = 0x4f4f4231

pub data BlockState : Type 0 where
  free used bad : BlockState

abbrev pub is_free : BlockState → Bool
is_free free = true
is_free _ = false

abbrev pub is_used : BlockState → Bool
is_used used = true
is_used _ = false

abbrev pub is_bad : BlockState → Bool
is_bad bad = true
is_bad _ = false

pub data BadBlockType : Type 0 where
  initial wear : BadBlockType

pub data NandType : Type 0 where
  slc mlc tlc qlc : NandType

-- `nand_oob_t` without its reserved bytes, which stay 0.
pub record Oob : Type 0 where
  pub magic : ℕ
  pub crc32 : ℕ
  pub ecc : ℕ
  pub bad_block_mark : ℕ

-- `phy_block_t`
pub record PhyBlock : Type 0 where
  pub state : BlockState
  pub erase_count : ℕ
  pub valid_page_cnt : ℕ
  pub read_count : ℕ
  pub need_reclaim : ℕ
  pub bad_type : BadBlockType
  pub page_valid : ℕ → ℕ

-- `g_phy_blocks`, the mapped file, and the counters of `g_nand_dev`.
pub record Nand : Type 0 where
  pub blocks : ℕ → PhyBlock
  pub media : ℕ → ℕ → List ℕ
  pub oob : ℕ → ℕ → Oob
  pub is_initialized : Bool
  pub total_read_pages : ℕ
  pub total_write_pages : ℕ
  pub reserved_count : ℕ
  pub ecc_counters : Counters
  pub nand_type : NandType
  pub read_energy : ℕ
  pub write_energy : ℕ
  pub erase_energy : ℕ

abbrev pub set_block : Nand → ℕ → PhyBlock → Nand
set_block s b blk = record s { blocks = update s.blocks b blk }

abbrev pub set_page {ℓ} : {A : Type ℓ} → (ℕ → ℕ → A) → ℕ → ℕ → A → ℕ → ℕ → A
set_page f b p v = update f b (update (f b) p v)

abbrev pub is_block_valid : Nand → ℕ → Bool
is_block_valid s block = ltb block total_blocks && s.is_initialized

-- The page's data after the check of its spare area, and the counters.
unfoldable pub decode_page : Nand → ℕ → ℕ → EccResult × List ℕ × Counters
decode_page s block page =
    let spare = s.oob block page in
    if spare.magic == oob_magic
    then nand_ecc_hamming_decode (s.media block page) spare.ecc s.ecc_counters
    else (clean, s.media block page, s.ecc_counters)

-- `read_count` is up by one; a used block at the read-disturb threshold is marked.
abbrev count_read : PhyBlock → PhyBlock
count_read blk =
    let n = inc32 blk.read_count in
    record blk {
      read_count = n;
      need_reclaim = if leb 100000 n && is_used blk.state then 1 else blk.need_reclaim;
    }

-- `nand_page_read` with a buffer: the status, the buffer, the device.
unfoldable pub page_read : Nand → ℕ → ℕ → List ℕ → RetCode × List ℕ × Nand
unfolding decode_page
page_read s block page buf =
    let blk = s.blocks block in
    if not (is_block_valid s block) || leb pages_per_block page
    then (err_param, buf, s)
    else if is_bad blk.state
    then (err_bad_block, buf, s)
    else if not (blk.page_valid page == 1)
    then (err_not_mapped, buf, s)
    else let (verdict, bytes, counters) = decode_page s block page in
      (
        ret_ok,
        bytes,
        record s {
          blocks = update s.blocks block (count_read blk);
          total_read_pages = inc32 s.total_read_pages;
          ecc_counters = counters;
          read_energy = add32 s.read_energy 1;
        },
      )

unfoldable pub nand_page_read : Nand → ℕ → ℕ → Option (List ℕ) → RetCode × Option (List ℕ) × Nand
unfolding page_read
nand_page_read s block page none = (err_param, none, s)
nand_page_read s block page (some buf) =
    let (ret, buf', s') = page_read s block page buf in (ret, some buf', s')

-- `nand_page_write` with a buffer.
unfoldable pub page_write : Nand → ℕ → ℕ → List ℕ → RetCode × Nand
page_write s block page buf =
    let blk = s.blocks block in
    if not (is_block_valid s block) || leb pages_per_block page
    then (err_param, s)
    else if is_bad blk.state
    then (err_bad_block, s)
    else if blk.page_valid page == 1
    then (err_overwrite, s)
    else (
      ret_ok,
      record s {
        media = set_page s.media block page buf;
        oob = set_page s.oob block page (record {
          magic = oob_magic;
          crc32 = 0;
          ecc = (nand_ecc_hamming_encode buf 0).1;
          bad_block_mark = 0xff;
        });
        blocks = update s.blocks block (record blk {
          page_valid = update blk.page_valid page 1;
          valid_page_cnt = inc32 blk.valid_page_cnt;
          state = used;
        });
        total_write_pages = inc32 s.total_write_pages;
        write_energy = add32 s.write_energy 3;
      },
    )

unfoldable pub nand_page_write : Nand → ℕ → ℕ → Option (List ℕ) → RetCode × Nand
unfolding page_write
nand_page_write s block page none = (err_param, s)
nand_page_write s block page (some buf) = page_write s block page buf

unfoldable pub nand_get_erase_threshold : NandType → ℕ
nand_get_erase_threshold slc = 100000
nand_get_erase_threshold mlc = 3000
nand_get_erase_threshold tlc = 1000
nand_get_erase_threshold qlc = 300

-- `draw` is the value of `rand()`, which only a worn block asks for.
unfoldable pub nand_block_erase : Nand → ℕ → ℕ → RetCode × Nand
nand_block_erase s block draw =
    let blk = s.blocks block in
    if not (is_block_valid s block)
    then (err_param, s)
    else if is_bad blk.state
    then (err_bad_block, s)
    else if ltb (nand_get_erase_threshold s.nand_type) blk.erase_count && ltb (draw % 100) 5
    then (err_bad_block, set_block s block (record blk { state = bad; bad_type = wear }))
    else (
      ret_ok,
      record s {
        blocks = update s.blocks block (record blk {
          erase_count = inc32 blk.erase_count;
          valid_page_cnt = 0;
          page_valid = λ _. 0;
          read_count = 0;
          state = free;
        });
        erase_energy = add32 s.erase_energy 10;
      },
    )

-- The free ones among the first `n` blocks.
unfoldable pub count_free : (ℕ → PhyBlock) → ℕ → ℕ
count_free f zero = 0
count_free f (suc n) = count_free f n + (if is_free (f n).state then 1 else 0)

unfoldable pub nand_get_free_block_count : Nand → ℕ
unfolding count_free
nand_get_free_block_count s = if not s.is_initialized then 0 else count_free s.blocks user_blocks

abbrev pub nand_get_block_erase_count : Nand → ℕ → ℕ
nand_get_block_erase_count s block =
    if not (is_block_valid s block) then 0 else (s.blocks block).erase_count

abbrev pub nand_get_block_state : Nand → ℕ → BlockState
nand_get_block_state s block = if not (is_block_valid s block) then bad else (s.blocks block).state

abbrev pub nand_get_block_valid_page_count : Nand → ℕ → ℕ
nand_get_block_valid_page_count s block =
    if not (is_block_valid s block) then 0 else (s.blocks block).valid_page_cnt

abbrev pub nand_is_page_valid : Nand → ℕ → ℕ → Bool
nand_is_page_valid s block page =
    if not (is_block_valid s block) || leb pages_per_block page
    then false
    else (s.blocks block).page_valid page == 1

unfoldable pub nand_mark_page_invalid : Nand → ℕ → ℕ → RetCode × Nand
nand_mark_page_invalid s block page =
    let blk = s.blocks block in
    let n = dec32 blk.valid_page_cnt in
    if not (is_block_valid s block) || leb pages_per_block page
    then (err_param, s)
    else if is_bad blk.state
    then (err_bad_block, s)
    else if not (blk.page_valid page == 1)
    then (err_not_mapped, s)
    else (
      ret_ok,
      set_block s block (record blk {
        page_valid = update blk.page_valid page 0;
        valid_page_cnt = n;
        state = if n == 0 then free else blk.state;
      }),
    )

pub nand_mark_block_bad : Nand → ℕ → BadBlockType → RetCode × Nand
nand_mark_block_bad s block t = if not (is_block_valid s block) then (err_param, s) else (
  ret_ok,
  record s {
    blocks = update s.blocks block (record (s.blocks block) {
      state = bad;
      bad_type = t;
      valid_page_cnt = 0;
      page_valid = λ _. 0;
    });
    oob =
        set_page s.oob block 0
          (record { magic = oob_magic; crc32 = 0; ecc = 0; bad_block_mark = 0 });
  },
)

-- The first free block among the `left` from `i` on.
unfoldable pub first_free : (ℕ → PhyBlock) → ℕ → ℕ → Option ℕ
first_free f zero i = none
first_free f (suc left) i =
    let later = first_free f left (i + 1) in if is_free (f i).state then some i else later

unfoldable pub reserve_found : Nand → Option ℕ → RetCode × Option ℕ × Nand
reserve_found s none = (err_no_space, none, s)
reserve_found s (some i) = (ret_ok, some i, record s { reserved_count = dec32 s.reserved_count })

pub nand_alloc_reserved_block : Nand → RetCode × Option ℕ × Nand
unfolding reserve_found
nand_alloc_reserved_block s =
    if not s.is_initialized
    then (err_param, none, s)
    else if s.reserved_count == 0
    then (err_no_space, none, s)
    else reserve_found s (first_free s.blocks reserved_blocks user_blocks)

pub nand_mark_cold_block : Nand → ℕ → RetCode × Nand
nand_mark_cold_block s block =
    let blk = s.blocks block in
    if not (is_block_valid s block)
    then (err_param, s)
    else if not (is_used blk.state)
    then (err_param, s)
    else (
      ret_ok,
      set_block s block (record blk {
        valid_page_cnt = if ltb 1 blk.valid_page_cnt then 1 else blk.valid_page_cnt;
      }),
    )

-- The copy loop of `nand_replace_bad_block`, with `left` pages to go; `buf` is its page buffer.
unfoldable pub replace_pages : ℕ → ℕ → Nand → ℕ → ℕ → List ℕ → Nand
replace_pages zero page s bad_block new_block buf = s
replace_pages (suc left) page s bad_block new_block buf =
    let (ret, buf', s') = page_read s bad_block page buf in
    let copied = (page_write s' new_block page buf').1 in
    let after = if is_ok ret then copied else s' in
    let moved = (s.blocks bad_block).page_valid page == 1 in
    replace_pages left (page + 1) (if moved then after else s) bad_block new_block
      (if moved then buf' else buf)

-- What follows once the reserve has answered; the new block is the option.
unfoldable pub replaced_by : ℕ → List ℕ → Option ℕ × Nand → RetCode × Option ℕ × Nand
unfolding replace_pages
replaced_by bad_block buf (none, s) = (err_no_space, none, s)
replaced_by bad_block buf (some r, s) =
    let s' = replace_pages pages_per_block 0 s bad_block r buf in
    let marked = (nand_mark_block_bad s' bad_block wear).1 in
    (ret_ok, some r, if is_bad (s'.blocks bad_block).state then s' else marked)

-- `buf` is what the page buffer on the stack holds at the start.
pub nand_replace_bad_block : Nand → ℕ → List ℕ → RetCode × Option ℕ × Nand
unfolding nand_alloc_reserved_block replaced_by
nand_replace_bad_block s bad_block buf =
    if not s.is_initialized
    then (err_param, none, s)
    else if leb total_blocks bad_block
    then (err_param, none, s)
    else if is_free (s.blocks bad_block).state
    then (err_param, none, s)
    else let (ret, new, s') = nand_alloc_reserved_block s in replaced_by bad_block buf (new, s')
