-- ===== src/Io/Tests.antt =====
-- Writing five bytes to the console (proc/syscall_io.cpp), in a memory whose page tables lead every
-- address of the user to the page 0x1000.
use synx.Prelude.{ℕ, ◌%◌, refl, arith, List, [], ◌∷◌, ◌++◌, none, ◌==◌, if◌then◌else◌}
use synx.Elf.{Bytes}
use synx.Fd.{Table}
use synx.Io.{Devices, failed, sys_write}
use synx.Io.Output.{OutputLaws}
use synx.Io.Write.{WriteDone, sys_write-WriteDone}

abbrev one_page : Bytes
one_page x = if x % 8 == 0 then 7 else if x % 8 == 1 then 0x10 else 0

abbrev no_files : Table
no_files = record {
  vfs = record { inodes = λ p. none; dentries = λ p. none; files = [] };
  open_files = [];
  fd_flags = [];
}

-- The characters that were sent to the console; files take no bytes.
abbrev terminal : Devices (List ℕ)
terminal = record {
  poll = λ d. (none, d);
  idle = λ d. d;
  put_char = λ c d. d ++ (c ∷ []);
  file_read = λ file amount d. (failed 5, d);
  file_write = λ file block d. (failed 5, d);
}

terminal-OutputLaws : OutputLaws terminal (λ d. d)
terminal-OutputLaws = record {
  put = λ c d. refl;
  taken = λ file block d n e. absurd (cc);
  refused = λ file block d e h. refl;
}

sys_write-WriteDone_example :
    WriteDone terminal
      (λ d. d)
      0x1000
      one_page
      no_files
      1
      0x2000
      5
      []
      (sys_write terminal 0x1000 no_files 1 0x2000 5 one_page [])
sys_write-WriteDone_example =
    sys_write-WriteDone terminal (λ d. d) 0x1000 one_page no_files 1 0x2000 5 [] terminal-OutputLaws
      (omega arith)
