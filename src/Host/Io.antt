-- ===== src/Host/Io.antt =====
-- modules/host_if/host_if.c: the commands that read, write and trim.
use ftl_firmware.Common.{
  ℕ, zero, suc, ◌+◌, ◌*◌, ◌%◌, ◌^◌, Bool, true, false, Option, none, some, List, [], ◌∷◌,
  if◌then◌else◌, add32, inc32, add64, inc64, RetCode, is_ok,
}
use ftl_firmware.Nand.{page_size}
use ftl_firmware.Host.{NvmeStatus, success, internal_error, Cmd, Stats, World, FtlOps}
use ftl_firmware.Host.Memory.{load, store}

-- The first page of a command, their number, and the bytes of so many.
abbrev pub first_lpn : Cmd → ℕ
first_lpn cmd = cmd.slba % 2 ^ 32

abbrev pub page_count : Cmd → ℕ
page_count cmd = inc32 cmd.nlb

abbrev pub byte_count : ℕ → ℕ
byte_count count = (count * page_size) % 2 ^ 32

-- The place of page `i` in the buffer.
abbrev pub buffer_at : Option ℕ → ℕ → Option ℕ
buffer_at none i = none
buffer_at (some a) i = some (a + byte_count i)

-- A page of zeroes.
unfoldable pub zeroes : ℕ → List ℕ
zeroes zero = []
zeroes (suc n) = 0 ∷ zeroes n

module _ {S : Type 0} where
  abbrev pub with_stats : World S → Stats → World S
  with_stats w st = record w { host = record w.host { stats = st } }

  unfoldable pub tally_read : World S → ℕ → World S
  tally_read w count =
      let st = w.host.stats in
      with_stats w (record st {
        read_cmds = inc64 st.read_cmds;
        total_cmds = inc64 st.total_cmds;
        total_read_bytes = add64 st.total_read_bytes (byte_count count);
      })

  unfoldable pub tally_write : World S → ℕ → World S
  tally_write w count =
      let st = w.host.stats in
      with_stats w (record st {
        write_cmds = inc64 st.write_cmds;
        total_cmds = inc64 st.total_cmds;
        total_write_bytes = add64 st.total_write_bytes (byte_count count);
      })

  unfoldable pub tally_trim : World S → World S
  tally_trim w =
      let st = w.host.stats in
      with_stats w (record st { trim_cmds = inc64 st.trim_cmds; total_cmds = inc64 st.total_cmds })

  -- The bytes at an address, if there is one.
  unfoldable pub bytes_in : World S → Option ℕ → Option (List ℕ)
  bytes_in w none = none
  bytes_in w (some a) = some (load w.mem a page_size)

  unfoldable pub bytes_out : World S → Option ℕ → Option (List ℕ) → ℕ → ℕ
  bytes_out w (some a) (some bytes) = store w.mem a bytes
  bytes_out w _ _ = w.mem

module _ {S : Type 0} (ops : FtlOps S) where
  -- One round of the loop of a read.
  unfoldable pub read_lpn : World S → ℕ → Option ℕ → RetCode × World S
  unfolding bytes_in bytes_out
  read_lpn w lpn place =
      let (ret, bytes, s) = ops.read w.ftl lpn (bytes_in w place) in
      (ret, record w { mem = bytes_out w place bytes; ftl = s })

  -- The loop over `left` pages from page `i` on: whether all could be read.
  unfoldable pub read_pages : ℕ → ℕ → World S → ℕ → Option ℕ → Bool × World S
  unfolding read_lpn
  read_pages zero i w lpn buf = (true, w)
  read_pages (suc left) i w lpn buf =
      let (ret, w') = read_lpn w (add32 lpn i) (buffer_at buf i) in
      let rest = read_pages left (i + 1) w' lpn buf in if is_ok ret then rest else (false, w')

  unfoldable pub process_read_cmd : World S → Cmd → NvmeStatus × World S
  unfolding read_pages tally_read
  process_read_cmd w cmd =
      let count = page_count cmd in
      let (all, w') = read_pages count 0 w (first_lpn cmd) cmd.data_buf in
      if all then (success, tally_read w' count) else (internal_error, w')

  -- What follows the write of a page.
  abbrev pub page_written :
      Option (RetCode × S) → World S → (World S → Option (Bool × World S)) → Option (Bool × World S)
  page_written none w rest = none
  page_written (some (ret, s)) w rest =
      let w' = record w { ftl = s } in if is_ok ret then rest w' else some (false, w')

  -- The loop over `left` pages from page `i` on, the data of each given by `place`.
  unfoldable pub write_pages :
      ℕ → ℕ → World S → ℕ → (World S → ℕ → Option (List ℕ)) → Option (Bool × World S)
  write_pages zero i w lpn bytes = some (true, w)
  write_pages (suc left) i w lpn bytes =
      page_written (ops.write w.ftl (add32 lpn i) (bytes w i)) w
        (λ w'. write_pages left (i + 1) w' lpn bytes)

  unfoldable pub pages_written : Option (Bool × World S) → ℕ → Option (NvmeStatus × World S)
  unfolding tally_write
  pages_written none count = none
  pages_written (some (all, w)) count =
      some (if all then (success, tally_write w count) else (internal_error, w))

  unfoldable pub process_write_cmd : World S → Cmd → Option (NvmeStatus × World S)
  unfolding write_pages bytes_in pages_written
  process_write_cmd w cmd =
      let count = page_count cmd in
      pages_written
        (write_pages count 0 w (first_lpn cmd) (λ u i. bytes_in u (buffer_at cmd.data_buf i))) count

  -- The buffer of zeroes comes from `calloc`.
  unfoldable pub process_write_zeroes_cmd : World S → Cmd → Option (NvmeStatus × World S)
  unfolding write_pages zeroes pages_written
  process_write_zeroes_cmd w cmd =
      let count = page_count cmd in
      let w' = record w { allocs = λ i. w.allocs (i + 1) } in
      if w.allocs 0
      then pages_written (write_pages count 0 w' (first_lpn cmd) (λ u i. some (zeroes page_size)))
          count
      else some (internal_error, w')

  unfoldable pub process_trim_cmd : World S → Cmd → NvmeStatus × World S
  unfolding tally_trim
  process_trim_cmd w cmd =
      let (ret, s) = ops.trim w.ftl (first_lpn cmd) (page_count cmd) in
      let w' = record w { ftl = s } in
      if is_ok ret then (success, tally_trim w') else (internal_error, w')
