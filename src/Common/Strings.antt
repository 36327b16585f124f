-- ===== src/Common/Strings.antt =====
-- The string functions of `common/types.c` on a memory of bytes at addresses. A loop that runs to the
-- end of a string has as fuel a bound on its length, and what it does without fuel is given up.
mod Copied
mod Compared
mod Tests
use johnbeauty_os.Prelude.{
  ℕ, zero, suc, ◌+◌, ◌-◌, Bool, true, false, not, ◌&&◌, ◌||◌, ◌==◌, if◌then◌else◌, Option, none,
  some,
}
use johnbeauty_os.Common.Memory.{Memory, put}

-- How far it is to the byte that is 0.
unfoldable pub strlen : ℕ → Memory → ℕ → ℕ
strlen zero mem p = 0
strlen (suc fuel) mem p = let rest = strlen fuel mem (p + 1) in if mem p == 0 then 0 else suc rest

-- The loop of `strlcpy`: its memory and pointers, and the room left.
pub record Copying : Type 0 where
  pub mem : Memory
  pub dst : ℕ
  pub src : ℕ
  pub nleft : ℕ

unfoldable pub lcpy : Memory → ℕ → ℕ → ℕ → Copying
lcpy mem d s zero = record { mem = mem; dst = d; src = s; nleft = 0 }
lcpy mem d s (suc zero) = record { mem = mem; dst = d; src = s; nleft = 0 }
lcpy mem d s (suc (suc n)) =
    let next = lcpy (put mem d (mem s)) (d + 1) (s + 1) (suc n) in
    if mem s == 0
    then record { mem = put mem d (mem s); dst = d + 1; src = s + 1; nleft = suc n }
    else next

-- The end of a copy that ran out of room: the 0 behind it, and the way to the end of the source.
unfoldable pub end_copy : ℕ → ℕ → ℕ → Copying → ℕ × Memory
end_copy fuel osrc dsize c =
    let ended = if dsize == 0 then c.mem else put c.mem c.dst 0 in
    let past = c.src + strlen fuel ended c.src + 1 in
    if c.nleft == 0 then (past - osrc - 1, ended) else (c.src - osrc - 1, c.mem)

unfoldable pub strlcpy : ℕ → Memory → ℕ → ℕ → ℕ → ℕ × Memory
strlcpy fuel mem dst src dsize = end_copy fuel src dsize (lcpy mem dst src dsize)

-- The bytes at which two strings end to be the same, whose difference is the result.
unfoldable pub strcmp : ℕ → Memory → ℕ → ℕ → ℕ × ℕ
strcmp zero mem a b = (mem a, mem b)
strcmp (suc fuel) mem a b =
    let rest = strcmp fuel mem (a + 1) (b + 1) in
    if not (mem a == 0) && mem a == mem b then rest else (mem a, mem b)

-- `none` is the 0 of equal strings as far as `n` bytes.
unfoldable pub strncmp : Memory → ℕ → ℕ → ℕ → Option (ℕ × ℕ)
strncmp mem a b zero = none
strncmp mem a b (suc n) =
    let rest = strncmp mem (a + 1) (b + 1) n in
    if not (mem a == 0) && mem a == mem b then rest else some (mem a, mem b)

unfoldable pub strchr : ℕ → Memory → ℕ → ℕ → Option ℕ
strchr zero mem s c = none
strchr (suc fuel) mem s c =
    let rest = strchr fuel mem (s + 1) c in
    if mem s == 0 then (if c == 0 then some s else none) else if mem s == c then some s else rest
