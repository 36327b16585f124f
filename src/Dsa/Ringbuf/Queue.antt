-- ===== src/Dsa/Ringbuf/Queue.antt =====
-- What a byte ring promises: a first-in first-out queue of at most `cap` bytes, which takes as much
-- of a write as fits.
use johnbeauty_os.Prelude.{ℕ, ◌-◌, List, [], ◌∷◌, ◌++◌, length, take, drop, min}

-- A client's calls, and what it sees of each: a count and the bytes handed over.
pub data Op : Type 0 where
  put_op : List ℕ → Op
  get_op : ℕ → Op
  look_op : ℕ → Op
  reset_op : Op

abbrev pub Reply : Type 0
Reply = ℕ × List ℕ

unfoldable pub step : ℕ → Op → List ℕ → Reply × List ℕ
step cap (put_op xs) q = let n = min (length xs) (cap - length q) in ((n, []), q ++ take n xs)
step cap (get_op want) q = let n = min want (length q) in ((n, take n q), drop n q)
step cap (look_op want) q = let n = min want (length q) in ((n, take n q), q)
step cap reset_op q = ((0, []), [])

unfoldable pub run : ℕ → List Op → List ℕ → List Reply
run cap [] q = []
run cap (op ∷ ops) q = let (r, q') = step cap op q in r ∷ run cap ops q'
