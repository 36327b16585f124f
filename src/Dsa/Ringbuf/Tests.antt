-- ===== src/Dsa/Ringbuf/Tests.antt =====
-- The theorems on `dsa/ringbuf.c` at a ring of four bytes that wraps around.
use johnbeauty_os.Prelude.{◌≡◌, refl, [], ◌∷◌, arith}
use johnbeauty_os.Dsa.Ringbuf.{Ringbuf, count}
use johnbeauty_os.Dsa.Ringbuf.Index.{IsValid, contents}
use johnbeauty_os.Dsa.Ringbuf.Refine.{run, run_refines}
use johnbeauty_os.Dsa.Ringbuf.Queue
use johnbeauty_os.Dsa.Ringbuf.Queue.{Op, put_op, get_op, look_op}

-- Two bytes held, at offsets 3 and 0, with the indices about to pass 2 ^ 32.
abbrev ring : Ringbuf
ring = record { buffer = 8 ∷ 0 ∷ 0 ∷ 7 ∷ []; size = 4; mask = 3; in_pos = 1; out_pos = 4294967295 }

ring-IsValid : IsValid 2 ring
unfolding count
ring-IsValid = record {
  small = omega arith;
  size_eq = refl;
  mask_eq = refl;
  storage = refl;
  in_word = omega arith;
  out_word = omega arith;
  within = omega arith;
}

run_refines_example :
    run (put_op (1 ∷ 2 ∷ 3 ∷ []) ∷ look_op 3 ∷ get_op 9 ∷ []) ring
    ≡ Queue.run 4 (put_op (1 ∷ 2 ∷ 3 ∷ []) ∷ look_op 3 ∷ get_op 9 ∷ []) (contents ring)
run_refines_example =
    run_refines 2 (put_op (1 ∷ 2 ∷ 3 ∷ []) ∷ look_op 3 ∷ get_op 9 ∷ []) ring ring-IsValid
