-- ===== src/Host/Valued.antt =====
-- modules/host_if/host_if.c: a feature that is got is the one that was set.
use ftl_firmware.Common.{
  ℕ, ◌%◌, ◌^◌, ◌≤◌, ◌≡◌, ◌≢◌, refl, sym, ap, ◌∙◌, subst, Option, some, word_bytes, leb, if_true,
  arith,
}
use ftl_firmware.Host.{NvmeStatus, success, Cmd, Features, World}
use ftl_firmware.Host.Memory.{load, store, load-store}
use ftl_firmware.Host.Feature.{
  FeatureId, named_feature, feature_value, with_feature, set_named, get_named, return_value,
  process_set_feature, process_get_feature,
}

with_feature_self :
    (f : Features) (id : FeatureId) (v : ℕ) → feature_value (with_feature f id v) id ≡ v
unfolding feature_value with_feature
with_feature_self f id v = ground arith

with_feature_other :
    (f : Features) (id other : FeatureId) (v : ℕ)
    → other ≢ id
    → feature_value (with_feature f id v) other ≡ feature_value f other
unfolding feature_value with_feature
with_feature_other f id other v ne = ground arith

return_value-mem :
    {S : Type 0} (w : World S) (a data_len value : ℕ)
    → 4 ≤ data_len
    → return_value w (some a) data_len value ≡ record w { mem = store w.mem a (word_bytes value) }
unfolding return_value
return_value-mem w a data_len value long =
    if_true (leb 4 data_len) (record w { mem = store w.mem a (word_bytes value) }) w
      (ground (arith, long))

-- What a get of feature `id` answers: success, and the value in the buffer at `a`.
abbrev pub Gets : {S : Type 0} → ℕ → ℕ → NvmeStatus × World S → Type 0
Gets a value (status, w) = (status ≡ success) × (load w.mem a 4 ≡ word_bytes value)

get_named-Gets :
    {S : Type 0} (w : World S) (cmd : Cmd) (id : FeatureId) (a : ℕ)
    → cmd.data_buf ≡ some a
    → 4 ≤ cmd.data_len
    → Gets a (feature_value w.host.features id) (get_named w cmd (some id))
unfolding get_named
get_named-Gets w cmd id a buf long =
    let value = feature_value w.host.features id in
    (
      refl,
      ap (λ (o : Option ℕ). load (return_value w o cmd.data_len value).mem a 4) buf
          ∙ ap (λ (u : World _). load u.mem a 4) (return_value-mem w a cmd.data_len value long)
          ∙ load-store w.mem a (word_bytes value),
    )

-- A get after a set, each by the feature that it names.
abbrev ReadsBack :
    {S : Type 0}
    → World S
    → ℕ
    → Cmd
    → FeatureId
    → FeatureId
    → ℕ
    → Option FeatureId
    → Option FeatureId
    → Type 0
ReadsBack w value get id other a sets gets =
    let (status, w') = set_named w value sets in
    (status ≡ success)
    × (other ≡ id → Gets a value (get_named w' get gets))
    × (other ≢ id → Gets a (feature_value w.host.features other) (get_named w' get gets))

named-ReadsBack :
    {S : Type 0} (w : World S) (value : ℕ) (get : Cmd) (id other : FeatureId) (a : ℕ)
    → get.data_buf ≡ some a
    → 4 ≤ get.data_len
    → ReadsBack w value get id other a (some id) (some other)
unfolding set_named
named-ReadsBack w value get id other a buf long =
    let w' = (set_named w value (some id)).1 in
    let got = get_named-Gets w' get other a buf long in
    let reads = λ (v : ℕ) (e : feature_value (with_feature w.host.features id value) other ≡ v).
      subst (λ (x : ℕ). Gets a x (get_named w' get (some other))) e got in
    (
      refl,
      λ e. reads value (
          ap (λ (o : FeatureId). feature_value (with_feature w.host.features id value) o) e
          ∙ with_feature_self w.host.features id value),
      λ ne.
          reads (feature_value w.host.features other)
            (with_feature_other w.host.features id other value ne),
    )

-- A feature reads as it was last set: after `set` names feature `id`, a `get` of it puts the low 32 bits
-- of the value into the buffer, and a `get` of any other feature puts what it would have put
-- before. Both commands answer with success; the buffer has room for four bytes.
pub process_get_feature-process_set_feature :
    {S : Type 0} (w : World S) (set get : Cmd) (id other : FeatureId) (a : ℕ)
    → named_feature set ≡ some id
    → named_feature get ≡ some other
    → get.data_buf ≡ some a
    → 4 ≤ get.data_len
    → let (status, w') = process_set_feature w set in
      (status ≡ success)
      × (other ≡ id → Gets a (set.slba % 2 ^ 32) (process_get_feature w' get))
      × (other ≢ id → Gets a (feature_value w.host.features other) (process_get_feature w' get))
unfolding process_set_feature process_get_feature
process_get_feature-process_set_feature w set get id other a sets gets buf long =
    let value = set.slba % 2 ^ 32 in
    subst (λ (o : Option FeatureId). ReadsBack w value get id other a o (named_feature get))
      (sym sets)
      (subst (λ (o : Option FeatureId). ReadsBack w value get id other a (some id) o) (sym gets)
        (named-ReadsBack w value get id other a buf long))
