-- ===== src/Kernel/Frames/Bulk/Returned.antt =====
-- What `jlos_page_frame_alloc_n` hands out, `jlos_page_frame_free_n` takes back.
use johnbeauty_os.Prelude.{ℕ, ◌+◌, ◌*◌, ◌^◌, ◌≤◌, ◌≡◌, none, some, arith, inl, inr, ◌↔◌, ◌⊎◌}
use johnbeauty_os.Kernel.Frames.{Pfa, frames_to_order}
use johnbeauty_os.Kernel.Frames.Blocks.{FreeAt, IsPfa}
use johnbeauty_os.Kernel.Frames.Ranges.{alloc_n, frame_to_phys, phys_to_frame}
use johnbeauty_os.Kernel.Frames.Ranges.Changed.{dec_Among}
use johnbeauty_os.Kernel.Frames.Ranges.Orders.{pow-le}
use johnbeauty_os.Kernel.Frames.Ranges.Taken.{Allocated, alloc_n-Allocated}
use johnbeauty_os.Kernel.Frames.Bulk.{free_n}
use johnbeauty_os.Kernel.Frames.Bulk.Freed.{Dropped, free_n-Dropped}

module _ (pfa p : Pfa) (frame num : ℕ) (a : Allocated pfa frame num p)
    (memory : pfa.start_addr + pfa.total_frames * 4096 ≤ 2 ^ 32) where
  abbrev addr : ℕ
  addr = frame_to_phys pfa frame

  below_end : pfa.start_addr + (frame + num) * 4096 ≤ 2 ^ 32
  below_end = omega (arith, a.room.3, a.total, memory)

  addr_plain : addr ≡ pfa.start_addr + frame * 4096
  addr_plain = omega (arith, below_end, a.room.0)

  addr_frame : phys_to_frame p addr ≡ frame
  unfolding phys_to_frame
  addr_frame = omega (arith, below_end, addr_plain, a.start, a.room.0)

  returned : (q : Pfa) × (free_n p addr num ≡ some q) × Dropped p frame num q
  returned =
      let (filled, enough, small, fits) = a.room in
      rw addr_frame at (
        free_n-Dropped p addr num a.valid
          (omega (arith, enough, pow-le (frames_to_order num) 10 small))
          (omega (arith, addr_plain, a.start)) (omega (arith, addr_plain, below_end))
          (rw addr_frame fits)
          (rw addr_frame (λ x i. (a.reserved x i, omega (arith, a.counted x i))))
          (rw (addr_frame, a.order_first) (inr (small, enough))))

  returned-FreeAt : (q : Pfa) → Dropped p frame num q → (x : ℕ) → FreeAt q x ↔ FreeAt pfa x
  returned-FreeAt q d x = (
    λ w. elim ((d.free x).0 w) [ inl u ↦ ((a.free x).0 u).0 | inr (i, one) ↦ a.was_free x i ],
    λ w. (d.free x).1 (elim (dec_Among frame num x) [
      | yes i ↦ inr (i, a.counted x i)
      | no out ↦ inl ((a.free x).1 (w, out))
    ]),
  )

-- On well-formed lists, for memory whose addresses do not wrap around: what `alloc_n` hands out,
-- `free_n` takes back without halting, after which the lists are well formed and the same frames are
-- free as before the allocation; or `alloc_n` hands out nothing and changes nothing.
pub free_n-alloc_n :
    (pfa : Pfa) (num : ℕ)
    → IsPfa pfa
    → pfa.start_addr + pfa.total_frames * 4096 ≤ 2 ^ 32
    → ((addr : ℕ) × (p : Pfa) × (q : Pfa) × (alloc_n pfa num ≡ some (some addr, p))
        × (free_n p addr num ≡ some q)
        × IsPfa q
        × ((x : ℕ) → FreeAt q x ↔ FreeAt pfa x))
      ⊎ (alloc_n pfa num ≡ some (none, pfa))
free_n-alloc_n pfa num v memory = elim (alloc_n-Allocated pfa num v) [
  | inl (frame, p, taken, a) ↦
      let (q, back, d) = returned pfa p frame num a memory in
      inl (
        frame_to_phys pfa frame,
        p,
        q,
        taken,
        back,
        d.valid,
        returned-FreeAt pfa p frame num a memory q d,
      )
  | inr (nothing, why) ↦ inr nothing
]
