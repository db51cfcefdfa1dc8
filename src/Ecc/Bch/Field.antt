-- ===== src/Ecc/Bch/Field.antt =====
-- modules/nand/nand.c: `gf_mul` and `gf_pow` against the laws of a field with sixteen elements.
use ftl_firmware.Common.{
  ℕ, ◌<◌, ◌≡◌, ◌≢◌, refl, ◌==◌, ==_iff, ltb, ltb→lt, all_below, all_below_sound, arith, true, ◌||◌,
}
use ftl_firmware.Ecc.Bch.{gf_add, gf_mul, gf_pow}

assoc_table :
    all_below 16
      (λ a. all_below 16 (λ b. all_below 16 (λ c. gf_mul (gf_mul a b) c == gf_mul a (gf_mul b c))))
    ≡ true
unfolding all_below gf_mul
assoc_table = refl

distrib_table :
    all_below 16 (λ a.
      all_below 16
        (λ b. all_below 16 (λ c. gf_mul a (gf_add b c) == gf_add (gf_mul a b) (gf_mul a c))))
    ≡ true
unfolding all_below gf_mul
distrib_table = refl

comm_table : all_below 16 (λ a. all_below 16 (λ b. gf_mul a b == gf_mul b a)) ≡ true
unfolding all_below gf_mul
comm_table = refl

bound_table : all_below 16 (λ a. all_below 16 (λ b. ltb (gf_mul a b) 16)) ≡ true
unfolding all_below gf_mul
bound_table = refl

inverse_table : all_below 16 (λ a. a == 0 || gf_mul a (gf_pow a 14) == 1) ≡ true
unfolding all_below gf_mul gf_pow
inverse_table = refl

or_ne : (a y : ℕ) → (a == 0 || y == 1) ≡ true → a ≢ 0 → y ≡ 1
or_ne a y h ne = ground arith

-- On the sixteen four-bit values, multiplication stays in range, is associative and commutative,
-- distributes over `gf_add`, and every value but 0 has its fourteenth power as its inverse.
pub gf_field :
    (a b c : ℕ)
    → a < 16
    → b < 16
    → c < 16
    → (gf_mul a b < 16)
      × (gf_mul (gf_mul a b) c ≡ gf_mul a (gf_mul b c))
      × (gf_mul a b ≡ gf_mul b a)
      × (gf_mul a (gf_add b c) ≡ gf_add (gf_mul a b) (gf_mul a c))
      × (a ≢ 0 → gf_mul a (gf_pow a 14) ≡ 1)
gf_field a b c ha hb hc = (
  ltb→lt _ _ (all_below_sound 16 _ b (all_below_sound 16 _ a bound_table ha) hb),
  (==_iff _ _).0 (
      all_below_sound 16 _ c (all_below_sound 16 _ b (all_below_sound 16 _ a assoc_table ha) hb)
        hc),
  (==_iff _ _).0 (all_below_sound 16 _ b (all_below_sound 16 _ a comm_table ha) hb),
  (==_iff _ _).0 (
      all_below_sound 16 _ c (all_below_sound 16 _ b (all_below_sound 16 _ a distrib_table ha) hb)
        hc),
  λ ne. or_ne a _ (all_below_sound 16 _ a inverse_table ha) ne,
)
