-- ===== src/Raid/Tests.antt =====
-- modules/raid/raid.c at three striped members with a stripe of four pages, and at two mirrored ones.
use ftl_firmware.Common.{ℕ, ◌≡◌, refl, [], ◌∷◌, true, false, some, List, update, ret_ok, arith, inl}
use ftl_firmware.Raid.{
  Raid, RaidConfig, Member, ready, level_0, level_1, zero_stats, raid0_map, raid_read, raid_write,
  min_capacity, level_capacity, calculate_logical_capacity,
}
use ftl_firmware.Raid.Control.{raid_init, raid_add_member, with_member}
use ftl_firmware.Raid.Shown.{Mirrors}
use ftl_firmware.Raid.Shown.Mirror.{raid_write-Mirrors}
use ftl_firmware.Raid.Shown.MirrorRead.{Answers, raid_read-Mirrors}
use ftl_firmware.Raid.Shown.Stripe.{Stripes, Stored, Reaches, raid_write-Stripes}
use ftl_firmware.Raid.Shown.Refined.{reads, writes, trace, Allowed, trace-Allowed}

abbrev three : RaidConfig
three = record { level = level_0; member_count = 3; stripe_size = 4; auto_rebuild = false }

-- Page 17 is page 1 of stripe 4, the second stripe of member 1.
page_17 : raid0_map three 17 ≡ (1, 5)
unfolding raid0_map
page_17 = refl

abbrev two : RaidConfig
two = record { level = level_1; member_count = 2; stripe_size = 4; auto_rebuild = false }

abbrev blank : ℕ → List ℕ
blank p = 0 ∷ []

abbrev disk : Member
disk = record {
  is_valid = true;
  is_online = true;
  ftl_instance_id = 0;
  data_buffer = some blank;
  buffer_size = 4194304;
  total_lpns = 1024;
  read_count = 0;
  write_count = 0;
  error_count = 0;
}

abbrev array : RaidConfig → ℕ → Raid
array c capacity = record {
  is_initialized = true;
  config = c;
  state = ready;
  members = λ _. disk;
  stats = zero_stats;
  logical_capacity = capacity;
}

abbrev mirror : Raid
mirror = array two 1024

mirror-Mirrors : Mirrors mirror blank
mirror-Mirrors = record {
  ready = refl;
  mode = refl;
  count_in = omega arith;
  wide = λ i lt u. omega arith;
  same = λ i p lt u p_in. refl;
}

abbrev stripes : Raid
stripes = array three 3072

stripes-Stripes : Stripes stripes blank
stripes-Stripes = (
  record {
    ready = refl;
    mode = refl;
    some_members = omega arith;
    count_in = omega arith;
    some_stripe = omega arith;
    capacity_in = omega arith;
  },
  λ p p_in. refl,
)

raid_write-Mirrors_example :
    let (ret, t) = raid_write mirror 7 (some (9 ∷ [])) in
    (ret ≡ ret_ok) × Mirrors t (update blank 7 (9 ∷ []))
raid_write-Mirrors_example = raid_write-Mirrors mirror blank 7 (9 ∷ []) (omega arith) mirror-Mirrors

raid_read-Mirrors_example : Answers blank 7 mirror (raid_read mirror 7 (some []))
raid_read-Mirrors_example = raid_read-Mirrors mirror blank 7 [] (omega arith) mirror-Mirrors

raid_write-Stripes_example :
    let r = raid_write stripes 17 (some (9 ∷ [])) in
    (Reaches stripes 17 → r.0 ≡ ret_ok) × Stored blank 17 (9 ∷ []) r
raid_write-Stripes_example =
    raid_write-Stripes stripes blank 17 (9 ∷ []) (omega arith) stripes-Stripes

trace-Allowed_example :
    Allowed blank (trace mirror (writes 7 (9 ∷ []) ∷ reads 7 [] ∷ reads 2000 [] ∷ []))
trace-Allowed_example =
    trace-Allowed (writes 7 (9 ∷ []) ∷ reads 7 [] ∷ reads 2000 [] ∷ []) mirror blank
      (inl mirror-Mirrors)

-- A mirror that starts and gets its two members has the capacity of one.
built :
    (raid_add_member
      (raid_add_member
        (raid_init (record mirror { is_initialized = false }) (some two)).1
        0
        0
        true
        []).1
      1
      1
      true
      []).1.logical_capacity
    ≡ 1024
unfolding raid_init raid_add_member with_member calculate_logical_capacity min_capacity
    level_capacity
built = refl
