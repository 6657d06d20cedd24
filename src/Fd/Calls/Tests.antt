-- ===== src/Fd/Calls/Tests.antt =====
-- `sys_lseek` and `duplicate_fd` at concrete inputs.
use synx.Prelude.{◌≡◌, ◌⊎◌, ◌≤◌, refl, arith, ℕ, ◌^◌, true, false}
use synx.Fd.{ret, err, ebadf, erange, max_open_files}
use synx.Fd.Calls.{int64_max, seek_to, find_free_fd, duplicate_fd}
use synx.Fd.Tests.{three_open, three_open-IsValid}
use synx.Fd.Calls.Dup.{Duplicated, duplicate_fd-Duplicated, LowestFree, find_free_fd-LowestFree}
use synx.Fd.Calls.Seek.{IsSum, seek_to-IsSum}

-- The pattern of -5.
abbrev five_back : ℕ
five_back = 0xffff_ffff_ffff_fffb

seek_to-IsSum_example :
    ((n : ℕ) × (seek_to 10 five_back ≡ ret n) × IsSum 10 five_back n × (n ≤ int64_max))
    ⊎ ((seek_to 10 five_back ≡ err erange)
        × ((five_back ≡ 2 ^ 63) ⊎ ¬ ((n : ℕ) × (n ≤ int64_max) × IsSum 10 five_back n)))
seek_to-IsSum_example = seek_to-IsSum 10 five_back (omega arith) (omega arith)

seek_back : seek_to 10 five_back ≡ ret 5
unfolding seek_to
seek_back = refl

-- The file of descriptor 3 put in place of that of descriptor 5, which is closed.
duplicate_fd-Duplicated_example : Duplicated three_open 3 (duplicate_fd 8 3 5 true false three_open)
duplicate_fd-Duplicated_example =
    duplicate_fd-Duplicated 8 3 5 true false three_open three_open-IsValid

find_free_fd-LowestFree_example :
    LowestFree 4 three_open (find_free_fd 4 three_open)
    ⊎ ((find_free_fd 4 three_open ≡ err ebadf) × (max_open_files ≤ 4))
find_free_fd-LowestFree_example = find_free_fd-LowestFree 4 three_open
