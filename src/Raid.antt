-- ===== src/Raid.antt =====
-- modules/raid/raid.c and raid.h: the array of disks. A member's buffer is a function of the page; the
-- null pointer is `none`. Whether `calloc` succeeds is an argument. Printing is left out.
mod Tests
pub mod Striping
pub mod Control
pub mod Shown
use ftl_firmware.Common.{
  ℕ, zero, suc, ◌+◌, ◌*◌, ◌/◌, ◌%◌, ◌^◌, ◌==◌, Bool, true, false, Option, none, some, List, [], not,
  ◌&&◌, ◌||◌, ltb, leb, if◌then◌else◌, update, inc64, add64, RetCode, ret_ok, err_param,
  err_no_space, err_not_init, err_internal, err_not_support, is_ok,
}
use ftl_firmware.Nand.{page_size}

-- `RAID_MAX_MEMBERS`
abbrev pub max_members : ℕ
max_members = 8

-- `raid_level_t`; any number from `RAID_LEVEL_MAX` on is the last one.
pub data RaidLevel : Type 0 where
  level_0 level_1 level_max : RaidLevel

abbrev pub is_level_1 : RaidLevel → Bool
is_level_1 level_1 = true
is_level_1 _ = false

abbrev pub is_level_max : RaidLevel → Bool
is_level_max level_max = true
is_level_max _ = false

pub data RaidState : Type 0 where
  uninit ready degraded error : RaidState

-- `raid_config_t`
pub record RaidConfig : Type 0 where
  pub level : RaidLevel
  pub member_count : ℕ
  pub stripe_size : ℕ
  pub auto_rebuild : Bool

-- `raid_stats_t`
pub record RaidStats : Type 0 where
  pub total_reads : ℕ
  pub total_writes : ℕ
  pub total_read_bytes : ℕ
  pub total_write_bytes : ℕ
  pub rebuild_count : ℕ
  pub error_count : ℕ

-- `raid_member_priv_t`
pub record Member : Type 0 where
  pub is_valid : Bool
  pub is_online : Bool
  pub ftl_instance_id : ℕ
  pub data_buffer : Option (ℕ → List ℕ)
  pub buffer_size : ℕ
  pub total_lpns : ℕ
  pub read_count : ℕ
  pub write_count : ℕ
  pub error_count : ℕ

-- `g_raid`
pub record Raid : Type 0 where
  pub is_initialized : Bool
  pub config : RaidConfig
  pub state : RaidState
  pub members : ℕ → Member
  pub stats : RaidStats
  pub logical_capacity : ℕ

abbrev pub zero_member : Member
zero_member = record {
  is_valid = false;
  is_online = false;
  ftl_instance_id = 0;
  data_buffer = none;
  buffer_size = 0;
  total_lpns = 0;
  read_count = 0;
  write_count = 0;
  error_count = 0;
}

abbrev pub zero_stats : RaidStats
zero_stats = record {
  total_reads = 0;
  total_writes = 0;
  total_read_bytes = 0;
  total_write_bytes = 0;
  rebuild_count = 0;
  error_count = 0;
}

abbrev pub usable : Member → Bool
usable m = m.is_valid && m.is_online

-- The least capacity of the usable members from `i` on, among `left`, and `low`.
unfoldable pub min_capacity : (ℕ → Member) → ℕ → ℕ → ℕ → ℕ
min_capacity ms zero i low = low
min_capacity ms (suc left) i low =
    let total = (ms i).total_lpns in
    min_capacity ms left (i + 1) (if usable (ms i) && ltb total low then total else low)

unfoldable pub level_capacity : RaidConfig → ℕ → ℕ
level_capacity c low = elim c.level [
  | level_0 ↦ low * c.member_count % 2 ^ 64
  | level_1 ↦ low
  | level_max ↦ 0
]

unfoldable pub calculate_logical_capacity : Raid → ℕ
unfolding min_capacity level_capacity
calculate_logical_capacity s =
    let low = min_capacity s.members max_members 0 0xffffffffffffffff in
    if low == 0xffffffffffffffff then 0 else level_capacity s.config low

-- The member that holds logical page `lpn`, a 32-bit number, and the page there, a 64-bit one.
unfoldable pub raid0_map : RaidConfig → ℕ → ℕ × ℕ
raid0_map c lpn =
    let stripe = lpn / c.stripe_size in
    let offset = lpn % c.stripe_size in
    (stripe % c.member_count % 2 ^ 32, (stripe / c.member_count * c.stripe_size + offset) % 2 ^ 64)

-- The pages of a buffer; a valid member has one.
abbrev pub pages_of : Option (ℕ → List ℕ) → ℕ → List ℕ
pages_of none p = []
pages_of (some pages) p = pages p

abbrev pub set_member : Raid → ℕ → Member → Raid
set_member s i m = record s { members = update s.members i m }

unfoldable pub member_read : Raid → ℕ → ℕ → List ℕ → RetCode × List ℕ × Raid
member_read s i lpn buf =
    let m = s.members i in
    if leb max_members i
    then (err_param, buf, s)
    else if not m.is_valid || not m.is_online
    then (err_internal, buf, s)
    else if leb m.total_lpns lpn
    then (err_param, buf, s)
    else (
      ret_ok,
      pages_of m.data_buffer lpn,
      record (set_member s i (record m { read_count = inc64 m.read_count })) {
        stats = record s.stats {
          total_reads = inc64 s.stats.total_reads;
          total_read_bytes = add64 s.stats.total_read_bytes page_size;
        };
      },
    )

unfoldable pub member_write : Raid → ℕ → ℕ → List ℕ → RetCode × Raid
member_write s i lpn buf =
    let m = s.members i in
    if leb max_members i
    then (err_param, s)
    else if not m.is_valid || not m.is_online
    then (err_internal, s)
    else if leb m.total_lpns lpn
    then (err_param, s)
    else (
      ret_ok,
      record (set_member s i (record m {
        data_buffer = some (update (pages_of m.data_buffer) lpn buf);
        write_count = inc64 m.write_count;
      })) {
        stats = record s.stats {
          total_writes = inc64 s.stats.total_writes;
          total_write_bytes = add64 s.stats.total_write_bytes page_size;
        };
      },
    )

abbrev pub count_error : RetCode → Raid → Raid
count_error ret s =
    if is_ok ret
    then s
    else record s { stats = record s.stats { error_count = inc64 s.stats.error_count } }

-- Members `i` and on, `left` of them, are tried until one is read.
unfoldable pub mirror_read : ℕ → ℕ → Raid → ℕ → List ℕ → RetCode × List ℕ × Raid
unfolding member_read
mirror_read zero i s lpn buf = (err_internal, buf, s)
mirror_read (suc left) i s lpn buf =
    let (ret, buf', s') =
      if usable (s.members i) then member_read s i lpn buf else (err_internal, buf, s) in
    let rest = mirror_read left (i + 1) s' lpn buf' in if is_ok ret then (ret, buf', s') else rest

-- Every usable member is written, until one fails.
unfoldable pub mirror_write : ℕ → ℕ → Raid → ℕ → List ℕ → RetCode × Raid
unfolding member_write
mirror_write zero i s lpn buf = (ret_ok, s)
mirror_write (suc left) i s lpn buf =
    let (ret, s') = if usable (s.members i) then member_write s i lpn buf else (ret_ok, s) in
    let rest = mirror_write left (i + 1) s' lpn buf in
    let m = s'.members i in
    if is_ok ret
    then rest
    else (ret, set_member s' i (record m { error_count = inc64 m.error_count }))

unfoldable pub read_level : RaidLevel → Raid → ℕ → List ℕ → RetCode × List ℕ × Raid
unfolding mirror_read raid0_map
read_level level_0 s lpn buf = let (i, page) = raid0_map s.config lpn in member_read s i page buf
read_level level_1 s lpn buf = mirror_read s.config.member_count 0 s lpn buf
read_level level_max s lpn buf = (err_not_support, buf, s)

unfoldable pub write_level : RaidLevel → Raid → ℕ → List ℕ → RetCode × Raid
unfolding mirror_write raid0_map
write_level level_0 s lpn buf = let (i, page) = raid0_map s.config lpn in member_write s i page buf
write_level level_1 s lpn buf = mirror_write s.config.member_count 0 s lpn buf
write_level level_max s lpn buf = (err_not_support, s)

-- `raid_read` with a buffer.
unfoldable pub read_page_at : Raid → ℕ → List ℕ → RetCode × List ℕ × Raid
unfolding read_level
read_page_at s lpn buf =
    let (ret, buf', s') = read_level s.config.level s lpn buf in
    if leb s.logical_capacity lpn then (err_param, buf, s) else (ret, buf', count_error ret s')

unfoldable pub raid_read : Raid → ℕ → Option (List ℕ) → RetCode × Option (List ℕ) × Raid
unfolding read_page_at
raid_read s lpn none = (if not s.is_initialized then err_not_init else err_param, none, s)
raid_read s lpn (some buf) =
    let (ret, buf', s') = read_page_at s lpn buf in
    if not s.is_initialized then (err_not_init, some buf, s) else (ret, some buf', s')

-- `raid_write` with a buffer.
unfoldable pub write_page_at : Raid → ℕ → List ℕ → RetCode × Raid
unfolding write_level
write_page_at s lpn buf =
    let (ret, s') = write_level s.config.level s lpn buf in
    if leb s.logical_capacity lpn then (err_param, s) else (ret, count_error ret s')

unfoldable pub raid_write : Raid → ℕ → Option (List ℕ) → RetCode × Raid
unfolding write_page_at
raid_write s lpn none = (if not s.is_initialized then err_not_init else err_param, s)
raid_write s lpn (some buf) =
    if not s.is_initialized then (err_not_init, s) else write_page_at s lpn buf
