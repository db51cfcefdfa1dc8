-- ===== src/Raid/Shown.antt =====
-- modules/raid/raid.c: a mirrored array as one array of pages.
pub mod Mirror
pub mod MirrorRead
pub mod Stripe
pub mod Refined
use ftl_firmware.Common.{ℕ, ◌≤◌, ◌<◌, ◌≡◌, true, List}
use ftl_firmware.Raid.{Raid, level_1, max_members, usable, pages_of}

-- Page `p` of member `i`.
abbrev pub page_of : Raid → ℕ → ℕ → List ℕ
page_of s i p = pages_of (s.members i).data_buffer p

-- Every usable member of the mirror has all the pages, and holds `content` of each.
pub record Mirrors (s : Raid) (content : ℕ → List ℕ) : Type 0 where
  pub ready : s.is_initialized ≡ true
  pub mode : s.config.level ≡ level_1
  pub count_in : s.config.member_count ≤ max_members
  pub wide :
      (i : ℕ)
      → i < s.config.member_count
      → usable (s.members i) ≡ true
      → s.logical_capacity ≤ (s.members i).total_lpns
  pub same :
      (i p : ℕ)
      → i < s.config.member_count
      → usable (s.members i) ≡ true
      → p < s.logical_capacity
      → page_of s i p ≡ content p
