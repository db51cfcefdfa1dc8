-- ===== src/Host/Layer.antt =====
-- modules/host_if/host_if.c over modules/ftl/ftl.c: a page that a command writes, another reads.
use ftl_firmware.Common.{
  ℕ, zero, suc, ◌+◌, ◌%◌, ◌^◌, ◌<◌, ◌≡◌, refl, sym, ap, ◌∙◌, subst, Bool, true, false, Option, some,
  List, length, add32, if◌then◌else◌, is_ok, RetCode, ret_ok, arith,
}
use ftl_firmware.Nand.{page_size}
use ftl_firmware.Ftl.State.{Ftl, total_lpns}
use ftl_firmware.Ftl.Select.{Floats}
use ftl_firmware.Ftl.Read.{ftl_read}
use ftl_firmware.Ftl.Write.{ftl_write}
use ftl_firmware.Ftl.Trim.{ftl_trim}
use ftl_firmware.Ftl.Mapping.Written.{IsSound}
use ftl_firmware.Ftl.Mapping.Kept.{settings}
use ftl_firmware.Ftl.Mapping.Finished.{IsCalm}
use ftl_firmware.Ftl.Mapping.Returned.{ftl_read-ftl_write}
use ftl_firmware.Host.{NvmeStatus, success, internal_error, Cmd, World, FtlOps}
use ftl_firmware.Host.Memory.{load, store, load-store}
use ftl_firmware.Host.Io.{
  bytes_in, bytes_out, read_lpn, read_pages, page_written, write_pages, pages_written, tally_write,
  tally_read, process_read_cmd, process_write_cmd,
}

-- The calls of the translation layer that the interface makes; the page buffers on the stacks of its
-- functions are one argument.
abbrev pub layer_ops : Floats → ℕ → List ℕ → FtlOps Ftl
layer_ops fl fuel page_buf = record {
  read = λ s lpn out. ftl_read s lpn out page_buf;
  write = λ s lpn buf. ftl_write fl fuel s lpn buf page_buf;
  trim = ftl_trim;
}

-- A command for one page, with its data at address `a`.
abbrev pub page_cmd : ℕ → ℕ → ℕ → Cmd
page_cmd opcode lpn a = record {
  opcode = opcode;
  nsid = 1;
  slba = lpn;
  nlb = 0;
  cid = 0;
  data_buf = some a;
  data_len = page_size;
  is_admin = false;
}

first_page : (lpn : ℕ) → lpn < total_lpns → add32 (lpn % 2 ^ 32) 0 ≡ lpn
first_page lpn low = omega arith

at_start : (a : ℕ) → a + 0 ≡ a
at_start a = omega arith

module _ {S : Type 0} where
  write_one :
      (ops : FtlOps S) (w : World S) (lpn a : ℕ) (t : S)
      → lpn < total_lpns
      → ops.write w.ftl lpn (some (load w.mem a page_size)) ≡ some (ret_ok, t)
      → process_write_cmd ops w (page_cmd 1 lpn a)
        ≡ some (success, tally_write (record w { ftl = t }) 1)
  unfolding process_write_cmd write_pages pages_written bytes_in
  write_one ops w lpn a t low e =
      let done = λ (o : Option (RetCode × S)).
        pages_written ops (page_written ops o w (λ w'. some (true, w'))) 1 in
      ap (λ (n : ℕ). done (ops.write w.ftl n (some (load w.mem (a + 0) page_size))))
        (first_page lpn low)
      ∙ ap (λ (n : ℕ). done (ops.write w.ftl lpn (some (load w.mem n page_size)))) (at_start a)
      ∙ ap done e

  -- What a read of one page into address `a` leaves.
  abbrev read_done : World S → ℕ → RetCode × Option (List ℕ) × S → NvmeStatus × World S
  read_done w a (ret, bytes, s) =
      let u = record w { mem = bytes_out w (some a) bytes; ftl = s } in
      let r : Bool × World S = if is_ok ret then (true, u) else (false, u) in
      if r.0 then (success, tally_read r.1 1) else (internal_error, r.1)

  read_one :
      (ops : FtlOps S) (w : World S) (lpn a : ℕ) (t : S) (bytes : List ℕ)
      → lpn < total_lpns
      → ops.read w.ftl lpn (some (load w.mem a page_size)) ≡ (ret_ok, some bytes, t)
      → process_read_cmd ops w (page_cmd 2 lpn a)
        ≡ (success, tally_read (record w { mem = store w.mem a bytes; ftl = t }) 1)
  unfolding process_read_cmd read_pages read_lpn bytes_in bytes_out
  read_one ops w lpn a t bytes low e =
      let done = λ (n : ℕ) (r : RetCode × Option (List ℕ) × S). read_done w n r in
      ap (λ (n : ℕ). done (a + 0) (ops.read w.ftl n (some (load w.mem (a + 0) page_size))))
        (first_page lpn low)
      ∙ ap (λ (n : ℕ). done n (ops.read w.ftl lpn (some (load w.mem n page_size)))) (at_start a)
      ∙ ap (done a) e

length-load : (mem : ℕ → ℕ) (a n : ℕ) → length (load mem a n) ≡ n
unfolding load
length-load mem a zero = refl
length-load mem a (suc n) = ap suc (length-load mem (a + 1) n)

-- A page crosses the stack and comes back: if the translation layer takes the page at address `a` of the
-- memory as logical page `lpn`, the write command answers success, and a read command for `lpn` that
-- follows answers success and puts the same bytes at address `b`. It holds in page mapping, on a sound
-- layer that is ready, with no check of static wear due.
pub process_read_cmd-process_write_cmd :
    (fl : Floats) (fuel : ℕ) (page_buf : List ℕ) (w : World Ftl) (content : ℕ → List ℕ)
    (lpn a b : ℕ) (t : Ftl)
    → w.ftl.is_initialized ≡ true
    → lpn < total_lpns
    → IsSound content w.ftl
    → IsCalm (settings w.ftl)
    → ftl_write fl fuel w.ftl lpn (some (load w.mem a page_size)) page_buf ≡ some (ret_ok, t)
    → (w' : World Ftl) × (process_write_cmd (layer_ops fl fuel page_buf) w (page_cmd 1 lpn a)
        ≡ some (success, w'))
      × (let (status, w'') = process_read_cmd (layer_ops fl fuel page_buf) w' (page_cmd 2 lpn b) in
          (status ≡ success) × (load w''.mem b page_size ≡ load w.mem a page_size))
unfolding tally_write tally_read
process_read_cmd-process_write_cmd fl fuel page_buf w content lpn a b t ready low sound calm e =
    let ops = layer_ops fl fuel page_buf in
    let bytes = load w.mem a page_size in
    let w' = tally_write (record w { ftl = t }) 1 in
    let out = load w.mem b page_size in
    let reads =
      (ftl_read-ftl_write fl fuel w.ftl t content lpn bytes page_buf ready low sound calm e).0 out
        page_buf in
    let s = (ftl_read t lpn (some out) page_buf).2 in
    let got : ftl_read t lpn (some out) page_buf ≡ (ret_ok, some bytes, s) =
      λ i. (reads.0 i, reads.1 i, s) in
    let full = length-load w.mem a page_size in
    (
      w',
      write_one ops w lpn a t low e,
      subst (λ (r : NvmeStatus × World Ftl). (r.0 ≡ success) × (load r.1.mem b page_size ≡ bytes))
          (sym (read_one ops w' lpn b s bytes low got))
          (
            refl,
            ap (λ (n : ℕ). load (store w.mem b bytes) b n) (sym full) ∙ load-store w.mem b bytes,
          ),
    )
