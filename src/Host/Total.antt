-- ===== src/Host/Total.antt =====
-- modules/host_if/host_if.c: every command returns, unless it writes and a write of the translation
-- layer does not return.
use ftl_firmware.Common.{
  ℕ, zero, suc, ◌+◌, ◌%◌, ◌^◌, ◌==◌, ◌≡◌, refl, sym, subst, Bool, false, Option, none, some, List,
  if_cases, if_same, ltb, leb, RetCode, is_ok, add32, ◌⊎◌, inl, inr, arith,
}
use ftl_firmware.Host.{NvmeStatus, Cmd, World, FtlOps}
use ftl_firmware.Host.Feature.{
  FeatureId, named_feature, return_value, set_named, get_named, process_set_feature,
  process_get_feature,
}
use ftl_firmware.Host.Admin.{
  Pages, copy, identify_at, log_page_at, process_identify, process_get_log_page, process_admin_cmd,
}
use ftl_firmware.Host.Io.{
  bytes_in, buffer_at, read_lpn, read_pages, tally_read, tally_write, tally_trim, page_written,
  write_pages, pages_written, page_count, first_lpn, process_read_cmd, process_write_cmd,
  process_write_zeroes_cmd, process_trim_cmd,
}
use ftl_firmware.Host.Process.{process_io_cmd, process_cmd}

-- The states of the translation layer that its operations lead to from `start`.
module _ {S : Type 0} (ops : FtlOps S) where
  pub data Reaches (start : S) : S → Type 0 where
    here : Reaches start start
    reads :
        {s : S} (lpn : ℕ) (out : Option (List ℕ))
        → Reaches start s
        → Reaches start (ops.read s lpn out).2
    writes :
        {s : S} (lpn : ℕ) (bytes : Option (List ℕ)) (r : RetCode × S)
        → Reaches start s
        → ops.write s lpn bytes ≡ some r
        → Reaches start r.1
    trims : {s : S} (lpn count : ℕ) → Reaches start s → Reaches start (ops.trim s lpn count).1

-- A write of the translation layer, in a state that it can be brought to, that does not return.
abbrev pub Stuck : {S : Type 0} → FtlOps S → S → Type 0
Stuck {S} ops start =
    (s : S) × Reaches ops start s
    × ((lpn : ℕ) × (bytes : Option (List ℕ)) × (ops.write s lpn bytes ≡ none))

-- A command that has pages written: a write, or a write of zeroes.
abbrev pub IsWrite : Cmd → Type 0
IsWrite cmd = (cmd.is_admin ≡ false) × ((cmd.opcode ≡ 0x01) ⊎ (cmd.opcode ≡ 0x08))

return_value-ftl :
    {S : Type 0} (w : World S) (buf : Option ℕ) (len value : ℕ)
    → (return_value w buf len value).ftl ≡ w.ftl
unfolding return_value
return_value-ftl w none len value = refl
return_value-ftl {S} w (some a) len value =
    if_same (λ (u : World S). u.ftl) (leb 4 len) w _ _ refl refl

module _ {S : Type 0} (pages : Pages S) where
  abbrev SameFtl : World S → NvmeStatus × World S → Type 0
  SameFtl w r = r.1.ftl ≡ w.ftl

  identify_at-ftl :
      (w : World S) (cmd : Cmd) (buf : Option ℕ) → SameFtl w (identify_at pages w cmd buf)
  unfolding identify_at copy
  identify_at-ftl w cmd none = refl
  identify_at-ftl w cmd (some a) =
      if_cases (SameFtl w) (ltb cmd.data_len 4096) (λ _. refl)
        (λ _.
          if_cases (SameFtl w) (cmd.nsid % 256 == 1) (λ _. refl)
            (λ _.
              if_cases (SameFtl w) (cmd.nsid % 256 == 0) (λ _. refl)
                (λ _. if_cases (SameFtl w) (cmd.nsid % 256 == 2) (λ _. refl) (λ _. refl))))

  log_page_at-ftl :
      (w : World S) (cmd : Cmd) (buf : Option ℕ) → SameFtl w (log_page_at pages w cmd buf)
  unfolding log_page_at copy
  log_page_at-ftl w cmd none = refl
  log_page_at-ftl w cmd (some a) =
      if_cases (SameFtl w) (cmd.nsid % 256 == 2) (λ _. refl)
        (λ _.
          if_cases (SameFtl w) (cmd.nsid % 256 == 1) (λ _. refl)
            (λ _.
              if_cases (SameFtl w) (cmd.nsid % 256 == 3) (λ _. refl)
                (λ _. if_cases (SameFtl w) (cmd.nsid % 256 == 5) (λ _. refl) (λ _. refl))))

  set_named-ftl : (w : World S) (value : ℕ) (o : Option FeatureId) → SameFtl w (set_named w value o)
  unfolding set_named
  set_named-ftl w value none = refl
  set_named-ftl w value (some id) = refl

  get_named-ftl : (w : World S) (cmd : Cmd) (o : Option FeatureId) → SameFtl w (get_named w cmd o)
  unfolding get_named
  get_named-ftl w cmd none = refl
  get_named-ftl w cmd (some id) = return_value-ftl w cmd.data_buf cmd.data_len _

  process_admin_cmd-ftl : (w : World S) (cmd : Cmd) → SameFtl w (process_admin_cmd pages w cmd)
  unfolding process_admin_cmd process_identify process_get_log_page process_set_feature
      process_get_feature
  process_admin_cmd-ftl w cmd =
      if_cases (SameFtl w) (cmd.opcode == 0x06) (λ _. identify_at-ftl w cmd cmd.data_buf)
        (λ _.
          if_cases (SameFtl w) (cmd.opcode == 0x02) (λ _. log_page_at-ftl w cmd cmd.data_buf)
            (λ _.
              if_cases (SameFtl w) (cmd.opcode == 0x09)
                (λ _. set_named-ftl w (cmd.slba % 2 ^ 32) (named_feature cmd))
                (λ _.
                  if_cases (SameFtl w) (cmd.opcode == 0x0A)
                    (λ _. get_named-ftl w cmd (named_feature cmd)) (λ _. refl))))

module _ {S : Type 0} (ops : FtlOps S) (start : S) where
  -- A result with a state that can be reached, or a reason why there is none.
  abbrev pub ReachesOr : {A : Type 0} → Type 0 → Option (A × World S) → Type 0
  ReachesOr Reason none = Reason
  ReachesOr Reason (some r) = Reaches ops start r.1.ftl

  read_pages-Reaches :
      (left i : ℕ) (w : World S) (lpn : ℕ) (buf : Option ℕ)
      → Reaches ops start w.ftl
      → Reaches ops start (read_pages ops left i w lpn buf).1.ftl
  unfolding read_pages read_lpn
  read_pages-Reaches zero i w lpn buf h = h
  read_pages-Reaches (suc left) i w lpn buf h =
      let r = read_lpn ops w (add32 lpn i) (buffer_at buf i) in
      let next : Reaches ops start r.1.ftl = reads (add32 lpn i) (bytes_in w (buffer_at buf i)) h in
      if_cases (λ (r : Bool × World S). Reaches ops start r.1.ftl) (is_ok r.0)
        (λ _. read_pages-Reaches left (i + 1) r.1 lpn buf next) (λ _. next)

  abbrev End : NvmeStatus × World S → Type 0
  End r = Reaches ops start r.1.ftl

  process_read_cmd-Reaches :
      (w : World S) (cmd : Cmd) → Reaches ops start w.ftl → End (process_read_cmd ops w cmd)
  unfolding process_read_cmd tally_read
  process_read_cmd-Reaches w cmd h =
      let r = read_pages ops (page_count cmd) 0 w (first_lpn cmd) cmd.data_buf in
      let next = read_pages-Reaches (page_count cmd) 0 w (first_lpn cmd) cmd.data_buf h in
      if_cases End r.0 (λ _. next) (λ _. next)

  process_trim_cmd-Reaches :
      (w : World S) (cmd : Cmd) → Reaches ops start w.ftl → End (process_trim_cmd ops w cmd)
  unfolding process_trim_cmd tally_trim
  process_trim_cmd-Reaches w cmd h =
      let next = trims (first_lpn cmd) (page_count cmd) h in
      if_cases End (is_ok (ops.trim w.ftl (first_lpn cmd) (page_count cmd)).0) (λ _. next)
        (λ _. next)

  page_written-ReachesOr :
      (lpn : ℕ) (bytes : Option (List ℕ)) (o : Option (RetCode × S)) (w : World S)
      (rest : World S → Option (Bool × World S))
      → ops.write w.ftl lpn bytes ≡ o
      → Reaches ops start w.ftl
      → ((u : World S) → Reaches ops start u.ftl → ReachesOr (Stuck ops start) (rest u))
      → ReachesOr (Stuck ops start) (page_written ops o w rest)
  page_written-ReachesOr lpn bytes none w rest e h later = (w.ftl, h, (lpn, bytes, e))
  page_written-ReachesOr lpn bytes (some (ret, t)) w rest e h later =
      let next : Reaches ops start t = writes lpn bytes (ret, t) h e in
      if_cases (λ (o : Option (Bool × World S)). ReachesOr (Stuck ops start) o) (is_ok ret)
        (λ _. later (record w { ftl = t }) next) (λ _. next)

  write_pages-ReachesOr :
      (left i : ℕ) (w : World S) (lpn : ℕ) (bytes : World S → ℕ → Option (List ℕ))
      → Reaches ops start w.ftl
      → ReachesOr (Stuck ops start) (write_pages ops left i w lpn bytes)
  unfolding write_pages
  write_pages-ReachesOr zero i w lpn bytes h = h
  write_pages-ReachesOr (suc left) i w lpn bytes h =
      page_written-ReachesOr (add32 lpn i) (bytes w i) _ w _ refl h
        (λ u next. write_pages-ReachesOr left (i + 1) u lpn bytes next)

  pages_written-ReachesOr :
      (o : Option (Bool × World S)) (count : ℕ) (cmd : Cmd)
      → IsWrite cmd
      → ReachesOr (Stuck ops start) o
      → ReachesOr (IsWrite cmd × Stuck ops start) (pages_written ops o count)
  unfolding pages_written tally_write
  pages_written-ReachesOr none count cmd is_write h = (is_write, h)
  pages_written-ReachesOr (some (all, w)) count cmd is_write h = if_cases End all (λ _. h) (λ _. h)

  pub process_cmd-ReachesOr :
      (pages : Pages S) (w : World S) (cmd : Cmd)
      → Reaches ops start w.ftl
      → ReachesOr (IsWrite cmd × Stuck ops start) (process_cmd ops pages w cmd)
  unfolding process_cmd process_io_cmd process_write_cmd process_write_zeroes_cmd
  process_cmd-ReachesOr pages w cmd h =
      let Goal =
        λ (o : Option (NvmeStatus × World S)). ReachesOr (IsWrite cmd × Stuck ops start) o in
      let count = page_count cmd in
      if_cases Goal cmd.is_admin
        (λ _. subst (Reaches ops start) (sym (process_admin_cmd-ftl pages w cmd)) h)
        (λ io.
          if_cases Goal (cmd.opcode == 0x02) (λ _. process_read_cmd-Reaches w cmd h)
            (λ _.
              if_cases Goal (cmd.opcode == 0x01)
                (λ one.
                  pages_written-ReachesOr _ count cmd (io, inl (ground (arith, one)))
                    (write_pages-ReachesOr count 0 w (first_lpn cmd) _ h))
                (λ _.
                  if_cases Goal (cmd.opcode == 0x08)
                    (λ eight.
                      if_cases Goal (w.allocs 0)
                        (λ _.
                          pages_written-ReachesOr _ count cmd (io, inr (ground (arith, eight)))
                            (write_pages-ReachesOr count 0 _ (first_lpn cmd) _ h))
                        (λ _. h))
                    (λ _.
                      if_cases Goal (cmd.opcode == 0x09) (λ _. process_trim_cmd-Reaches w cmd h)
                        (λ _. h)))))
