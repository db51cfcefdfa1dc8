-- ===== src/Host/Untouched.antt =====
-- modules/host_if/host_if.c: a command leaves both queues alone.
use ftl_firmware.Common.{
  take, ℕ, zero, suc, ◌+◌, ◌%◌, ◌==◌, ◌≡◌, refl, ap, ◌∙◌, Bool, Option, none, some, List, ◌++◌,
  word_bytes, ltb, leb, if_cases, if_same, ◌^◌, add32, RetCode, is_ok,
}
use ftl_firmware.Host.{NvmeStatus, Cmd, Cqe, Config, HostIf, World, FtlOps}
use ftl_firmware.Host.Io.{
  zeroes, buffer_at, page_count, first_lpn, tally_read, tally_write, tally_trim, read_lpn,
  read_pages, page_written, write_pages, pages_written, process_read_cmd, process_write_cmd,
  process_write_zeroes_cmd, process_trim_cmd,
}
use ftl_firmware.Host.Feature.{
  FeatureId, named_feature, return_value, set_named, get_named, process_set_feature,
  process_get_feature,
}
use ftl_firmware.Host.Admin.{
  Pages, copy, identify_at, log_page_at, process_identify, process_get_log_page, process_admin_cmd,
}
use ftl_firmware.Host.Process.{process_io_cmd, process_cmd}

-- The state of the queues.
abbrev pub Queues : Type 0
Queues = Config × List Cmd × ℕ × (ℕ → Cqe) × ℕ × ℕ × ℕ × ℕ × Bool

abbrev pub queues : HostIf → Queues
queues h = (
  h.config, h.sq, h.sq_count, h.cq_buf, h.cq_head, h.cq_tail, h.cq_count, h.phase_tag,
  h.is_initialized,
)

-- A command with a status keeps the queues.
pub record Keeps {S : Type 0} (w : World S) (r : NvmeStatus × World S) : Type 0 where
  pub same : queues r.1.host ≡ queues w.host

module _ {S : Type 0} where
  abbrev pub KeepsIf : World S → Option (NvmeStatus × World S) → Type 0
  KeepsIf w none = Unit {0}
  KeepsIf w (some r) = Keeps w r

  set_named-Keeps : (w : World S) (value : ℕ) (o : Option FeatureId) → Keeps w (set_named w value o)
  unfolding set_named
  set_named-Keeps w value none = record { same = refl }
  set_named-Keeps w value (some id) = record { same = refl }

  return_value-queues :
      (w : World S) (buf : Option ℕ) (len value : ℕ)
      → queues (return_value w buf len value).host ≡ queues w.host
  unfolding return_value
  return_value-queues w none len value = refl
  return_value-queues w (some a) len value =
      if_same (λ (u : World S). queues u.host) (leb 4 len) w _ _ refl refl

  get_named-Keeps : (w : World S) (cmd : Cmd) (o : Option FeatureId) → Keeps w (get_named w cmd o)
  unfolding get_named
  get_named-Keeps w cmd none = record { same = refl }
  get_named-Keeps w cmd (some id) = record {
    same = return_value-queues w cmd.data_buf cmd.data_len _;
  }

module _ {S : Type 0} (pages : Pages S) where
  copy-Keeps : (w : World S) (a : ℕ) (bytes : List ℕ) → Keeps w (copy pages w a bytes)
  unfolding copy
  copy-Keeps w a bytes = record { same = refl }

  identify_at-Keeps :
      (w : World S) (cmd : Cmd) (buf : Option ℕ) → Keeps w (identify_at pages w cmd buf)
  unfolding identify_at
  identify_at-Keeps w cmd none = record { same = refl }
  identify_at-Keeps w cmd (some a) =
      if_cases (Keeps w) (ltb cmd.data_len 4096) (λ _. record { same = refl })
        (λ _.
          if_cases (Keeps w) (cmd.nsid % 256 == 1) (λ _. copy-Keeps w a pages.id_ctrl)
            (λ _.
              if_cases (Keeps w) (cmd.nsid % 256 == 0) (λ _. copy-Keeps w a pages.id_ns)
                (λ _.
                  if_cases (Keeps w) (cmd.nsid % 256 == 2)
                    (λ _. copy-Keeps w a (word_bytes 1 ++ zeroes 4092))
                    (λ _. record { same = refl }))))

  log_page_at-Keeps :
      (w : World S) (cmd : Cmd) (buf : Option ℕ) → Keeps w (log_page_at pages w cmd buf)
  unfolding log_page_at
  log_page_at-Keeps w cmd none = record { same = refl }
  log_page_at-Keeps w cmd (some a) =
      if_cases (Keeps w) (cmd.nsid % 256 == 2)
        (λ _. copy-Keeps w a (take cmd.data_len (pages.smart_log w)))
        (λ _.
          if_cases (Keeps w) (cmd.nsid % 256 == 1) (λ _. record { same = refl })
            (λ _.
              if_cases (Keeps w) (cmd.nsid % 256 == 3) (λ _. record { same = refl })
                (λ _.
                  if_cases (Keeps w) (cmd.nsid % 256 == 5) (λ _. record { same = refl })
                    (λ _. record { same = refl }))))

  process_admin_cmd-Keeps : (w : World S) (cmd : Cmd) → Keeps w (process_admin_cmd pages w cmd)
  unfolding process_admin_cmd process_identify process_get_log_page process_set_feature
      process_get_feature
  process_admin_cmd-Keeps w cmd =
      if_cases (Keeps w) (cmd.opcode == 0x06) (λ _. identify_at-Keeps w cmd cmd.data_buf)
        (λ _.
          if_cases (Keeps w) (cmd.opcode == 0x02) (λ _. log_page_at-Keeps w cmd cmd.data_buf)
            (λ _.
              if_cases (Keeps w) (cmd.opcode == 0x09)
                (λ _. set_named-Keeps w (cmd.slba % 2 ^ 32) (named_feature cmd))
                (λ _.
                  if_cases (Keeps w) (cmd.opcode == 0x0A)
                    (λ _. get_named-Keeps w cmd (named_feature cmd))
                    (λ _. record { same = refl }))))

module _ {S : Type 0} (ops : FtlOps S) where
  -- The loops leave the state of the interface alone.
  read_pages-host :
      (left i : ℕ) (w : World S) (lpn : ℕ) (buf : Option ℕ)
      → (read_pages ops left i w lpn buf).1.host ≡ w.host
  unfolding read_pages read_lpn
  read_pages-host zero i w lpn buf = refl
  read_pages-host (suc left) i w lpn buf =
      let (ret, w') = read_lpn ops w (add32 lpn i) (buffer_at buf i) in
      if_cases (λ (r : Bool × World S). r.1.host ≡ w.host) (is_ok ret)
        (λ _. read_pages-host left (i + 1) w' lpn buf) (λ _. refl)

  process_read_cmd-Keeps : (w : World S) (cmd : Cmd) → Keeps w (process_read_cmd ops w cmd)
  unfolding process_read_cmd tally_read
  process_read_cmd-Keeps w cmd =
      let (all, w') = read_pages ops (page_count cmd) 0 w (first_lpn cmd) cmd.data_buf in
      let same = ap queues (read_pages-host (page_count cmd) 0 w (first_lpn cmd) cmd.data_buf) in
      if_cases (Keeps w) all (λ _. record { same = same }) (λ _. record { same = same })

  -- A loop that may not return.
  abbrev SameHost : World S → Option (Bool × World S) → Type 0
  SameHost w none = Unit {0}
  SameHost w (some (all, w')) = w'.host ≡ w.host

  page_written-SameHost :
      (o : Option (RetCode × S)) (w : World S) (rest : World S → Option (Bool × World S))
      → ((u : World S) → u.host ≡ w.host → SameHost w (rest u))
      → SameHost w (page_written ops o w rest)
  page_written-SameHost none w rest h = tt
  page_written-SameHost (some (ret, s)) w rest h =
      if_cases (SameHost w) (is_ok ret) (λ _. h (record w { ftl = s }) refl) (λ _. refl)

  SameHost-from :
      (w u : World S) (o : Option (Bool × World S)) → u.host ≡ w.host → SameHost u o → SameHost w o
  SameHost-from w u none e h = tt
  SameHost-from w u (some (all, w')) e h = h ∙ e

  write_pages-SameHost :
      (left i : ℕ) (w : World S) (lpn : ℕ) (bytes : World S → ℕ → Option (List ℕ))
      → SameHost w (write_pages ops left i w lpn bytes)
  unfolding write_pages
  write_pages-SameHost zero i w lpn bytes = refl
  write_pages-SameHost (suc left) i w lpn bytes =
      page_written-SameHost (ops.write w.ftl (add32 lpn i) (bytes w i)) w _
        (λ u e. SameHost-from w u _ e (write_pages-SameHost left (i + 1) u lpn bytes))

  pages_written-KeepsIf :
      (w : World S) (o : Option (Bool × World S)) (count : ℕ)
      → SameHost w o
      → KeepsIf w (pages_written ops o count)
  unfolding pages_written tally_write
  pages_written-KeepsIf w none count h = tt
  pages_written-KeepsIf w (some (all, w')) count h =
      if_cases (Keeps w) all (λ _. record { same = ap queues h })
        (λ _. record { same = ap queues h })

  process_write_zeroes_cmd-KeepsIf :
      (w : World S) (cmd : Cmd) → KeepsIf w (process_write_zeroes_cmd ops w cmd)
  unfolding process_write_zeroes_cmd
  process_write_zeroes_cmd-KeepsIf w cmd =
      let count = page_count cmd in
      let w' = record w { allocs = λ i. w.allocs (i + 1) } in
      if_cases (KeepsIf w) (w.allocs 0)
        (λ _.
          pages_written-KeepsIf w _ count
            (write_pages-SameHost count 0 w' (first_lpn cmd) (λ u i. some (zeroes 4096))))
        (λ _. record { same = refl })

  process_trim_cmd-Keeps : (w : World S) (cmd : Cmd) → Keeps w (process_trim_cmd ops w cmd)
  unfolding process_trim_cmd tally_trim
  process_trim_cmd-Keeps w cmd =
      let r = ops.trim w.ftl (first_lpn cmd) (page_count cmd) in
      if_cases (Keeps w) (is_ok r.0) (λ _. record { same = refl }) (λ _. record { same = refl })

  process_io_cmd-KeepsIf :
      (pages : Pages S) (w : World S) (cmd : Cmd) → KeepsIf w (process_io_cmd ops pages w cmd)
  unfolding process_io_cmd process_write_cmd
  process_io_cmd-KeepsIf pages w cmd =
      let Goal = KeepsIf w in
      if_cases Goal (cmd.opcode == 0x02) (λ _. process_read_cmd-Keeps w cmd)
        (λ _.
          if_cases Goal (cmd.opcode == 0x01)
            (λ _.
              pages_written-KeepsIf w _ (page_count cmd)
                (write_pages-SameHost (page_count cmd) 0 w (first_lpn cmd) _))
            (λ _.
              if_cases Goal (cmd.opcode == 0x08) (λ _. process_write_zeroes_cmd-KeepsIf w cmd)
                (λ _.
                  if_cases Goal (cmd.opcode == 0x09) (λ _. process_trim_cmd-Keeps w cmd)
                    (λ _. record { same = refl }))))

  pub process_cmd-KeepsIf :
      (pages : Pages S) (w : World S) (cmd : Cmd) → KeepsIf w (process_cmd ops pages w cmd)
  unfolding process_cmd
  process_cmd-KeepsIf pages w cmd =
      if_cases (KeepsIf w) cmd.is_admin (λ _. process_admin_cmd-Keeps pages w cmd)
        (λ _. process_io_cmd-KeepsIf pages w cmd)
