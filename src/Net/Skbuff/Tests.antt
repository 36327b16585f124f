-- ===== src/Net/Skbuff/Tests.antt =====
-- The buffer of a TCP segment of two bytes.
use johnbeauty_os.Prelude.{◌+◌, ◌≡◌, refl, arith}
use johnbeauty_os.Net.Skbuff.{SkBuff, alloc, data_alloc, reserve, put, push, pull, len}
use johnbeauty_os.Net.Skbuff.Room.{IsInBlock, headers_fit}

abbrev buffer : SkBuff
buffer = record {
  head = 4096;
  data_pos = 4096;
  tail = 4096;
  end = 4152;
  data_len = 56;
  data_flags = 0;
  data_pages = 0;
  refcount = 1;
}

headers_fit_example :
    let (start, filled) = put (reserve buffer 54) 2 in
    let whole = push filled 20 in
    IsInBlock whole × (len whole ≡ 22) × (whole.data_pos + 20 ≡ start) × (len (pull whole 20) ≡ 2)
unfolding alloc data_alloc
headers_fit_example = headers_fit 4096 54 2 20 buffer refl (omega arith) (omega arith)
