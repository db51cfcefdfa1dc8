-- ===== src/Raid/Control.antt =====
-- modules/raid/raid.c: start and end of the array, its members, and what it tells about itself.
use ftl_firmware.Common.{
  ℕ, ◌*◌, ◌%◌, ◌==◌, Bool, true, false, Option, none, some, List, not, ◌&&◌, ◌||◌, ltb, leb,
  if◌then◌else◌, RetCode, ret_ok, err_param, err_no_space, err_not_init, err_internal,
}
use ftl_firmware.Nand.{page_size}
use ftl_firmware.Raid.{
  Raid, RaidConfig, RaidState, Member, uninit, ready, max_members, is_level_1, is_level_max,
  zero_member, zero_stats, set_member, calculate_logical_capacity,
}

-- `memset` clears every member.
unfoldable pub raid_init : Raid → Option RaidConfig → RetCode × Raid
raid_init s none = (err_param, s)
raid_init s (some c) =
    if is_level_max c.level
    then (err_param, s)
    else if c.member_count == 0 || ltb max_members c.member_count
    then (err_param, s)
    else if is_level_1 c.level && not (c.member_count % 2 == 0)
    then (err_param, s)
    else if s.is_initialized
    then (ret_ok, s)
    else (
      ret_ok,
      record {
        is_initialized = true;
        config = c;
        state = ready;
        members = λ _. zero_member;
        stats = zero_stats;
        logical_capacity = 0;
      },
    )

unfoldable pub raid_deinit : Raid → RetCode × Raid
raid_deinit s = if not s.is_initialized then (ret_ok, s) else (
  ret_ok,
  record s {
    members = λ i. record (s.members i) { data_buffer = none };
    is_initialized = false;
    state = uninit;
  },
)

-- `calloc` gives pages of zeros.
abbrev pub zero_pages : List ℕ → ℕ → List ℕ
zero_pages zeros p = zeros

-- The array with another member `i`, and the capacity that follows.
unfoldable pub with_member : Raid → ℕ → Member → Raid
unfolding calculate_logical_capacity
with_member s i m =
    let s1 = set_member s i m in record s1 { logical_capacity = calculate_logical_capacity s1 }

-- `zeros` is a page of zeros, and `allocated` whether `calloc` succeeds.
unfoldable pub raid_add_member : Raid → ℕ → ℕ → Bool → List ℕ → RetCode × Raid
unfolding with_member
raid_add_member s i ftl_instance_id allocated zeros =
    let m = s.members i in
    let sized = record m { total_lpns = 1024; data_buffer = none } in
    let added = record sized {
      data_buffer = some (zero_pages zeros);
      is_valid = true;
      is_online = true;
      ftl_instance_id = ftl_instance_id;
      buffer_size = 1024 * page_size;
      read_count = 0;
      write_count = 0;
      error_count = 0;
    } in
    if not s.is_initialized
    then (err_not_init, s)
    else if leb max_members i
    then (err_param, s)
    else if m.is_valid
    then (err_internal, s)
    else if not allocated
    then (err_no_space, set_member s i sized)
    else (ret_ok, with_member s i added)

unfoldable pub raid_remove_member : Raid → ℕ → RetCode × Raid
unfolding with_member
raid_remove_member s i =
    let m = s.members i in
    if not s.is_initialized
    then (err_not_init, s)
    else if leb max_members i
    then (err_param, s)
    else if not m.is_valid
    then (ret_ok, s)
    else (
      ret_ok,
      with_member s i (record m { data_buffer = none; is_valid = false; is_online = false }),
    )

abbrev pub raid_get_state : Raid → RaidState
raid_get_state s = if not s.is_initialized then uninit else s.state

abbrev pub raid_get_logical_capacity : Raid → ℕ
raid_get_logical_capacity s = if not s.is_initialized then 0 else s.logical_capacity
