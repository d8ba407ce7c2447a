-- ===== src/Str.antt =====
-- lib/string.c: memset, memcpy and strlen over memory as bytes by address. The regions end below the
-- top of the address space, so that the addresses are plain sums.
pub mod Laws
mod Tests
use sumi_os.Base.{ℕ, zero, suc, ◌+◌, Option, none, some, ◌==◌, if◌then◌else◌, update}

abbrev pub Bytes : Type 0
Bytes = ℕ → ℕ

-- The loop of `memset`: `left` rounds, from index `i` on.
unfoldable pub memset_loop : (left i dst val : ℕ) → Bytes → Bytes
memset_loop zero i dst val m = m
memset_loop (suc left) i dst val m = memset_loop left (i + 1) dst val (update m (dst + i) val)

unfoldable pub memset : (dst val sz : ℕ) → Bytes → Bytes
memset dst val sz m = memset_loop sz 0 dst val m

-- `while (sz--) *dst++ = *src++`
unfoldable pub memcpy : (dst src sz : ℕ) → Bytes → Bytes
memcpy dst src zero m = m
memcpy dst src (suc sz) m = memcpy (dst + 1) (src + 1) sz (update m dst (m src))

-- The loop of `strlen`; `none` is a text with no end within `fuel` bytes.
unfoldable pub strlen_loop : (fuel str res : ℕ) → Bytes → Option ℕ
strlen_loop zero str res m = none
strlen_loop (suc fuel) str res m =
    let rest = strlen_loop fuel str (res + 1) m in if m (str + res) == 0 then some res else rest

unfoldable pub strlen : (fuel str : ℕ) → Bytes → Option ℕ
strlen fuel str m = strlen_loop fuel str 0 m
