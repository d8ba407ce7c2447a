-- ===== src/Str/Laws.antt =====
-- What the functions of lib/string.c do to memory.
use sumi_os.Base.{
  ℕ, zero, suc, ◌+◌, ◌≤◌, ◌<◌, ◌≡◌, refl, ◌≢◌, ◌⊎◌, inl, inr, some, ◌&&◌, arith, leb, ltb,
  if◌then◌else◌, ◌∙◌, update, Bool-cases, ◌==◌,
}
use sumi_os.Str.{Bytes, memset_loop, memset, memcpy, strlen_loop, strlen}

memset_loop_at :
    (left i dst val a : ℕ) (m : Bytes)
    → memset_loop left i dst val m a
      ≡ (if leb (dst + i) a && ltb a (dst + i + left) then val else m a)
unfolding memset_loop
memset_loop_at zero i dst val a m = ground arith
memset_loop_at (suc left) i dst val a m =
    memset_loop_at left (i + 1) dst val a (update m (dst + i) val) ∙ ground arith

-- `memset` sets each of the `sz` bytes from `dst` on, and no other.
pub memset_at :
    (dst val sz a : ℕ) (m : Bytes)
    → memset dst val sz m a ≡ (if leb dst a && ltb a (dst + sz) then val else m a)
unfolding memset
memset_at dst val sz a m = memset_loop_at sz 0 dst val a m ∙ ground arith

pub memcpy-outside :
    (dst src sz a : ℕ) (m : Bytes) → (a < dst) ⊎ (dst + sz ≤ a) → memcpy dst src sz m a ≡ m a
unfolding memcpy
memcpy-outside dst src zero a m out = refl
memcpy-outside dst src (suc sz) a m out =
    memcpy-outside (dst + 1) (src + 1) sz a (update m dst (m src)) (ground (arith, out))
    ∙ ground (arith, out)

-- Where the destination does not begin inside the source, `memcpy` copies each byte as it was, also
-- where the source begins inside the destination.
pub memcpy_inside :
    (dst src sz j : ℕ) (m : Bytes)
    → (dst ≤ src) ⊎ (src + sz ≤ dst)
    → j < sz
    → memcpy dst src sz m (dst + j) ≡ m (src + j)
unfolding memcpy
memcpy_inside dst src zero j m apart lt = absurd (omega arith)
memcpy_inside dst src (suc sz) zero m apart lt =
    memcpy-outside (dst + 1) (src + 1) sz (dst + 0) (update m dst (m src)) (inl (omega arith))
    ∙ ground arith
memcpy_inside dst src (suc sz) (suc j) m apart lt =
    let e : dst + suc j ≡ dst + 1 + j = omega arith in
    rw e (
      memcpy_inside (dst + 1) (src + 1) sz j (update m dst (m src)) (ground (arith, apart))
        (omega arith)
      ∙ ground (arith, apart))

strlen_loop_first :
    (fuel str res n : ℕ) (m : Bytes)
    → m (str + n) ≡ 0
    → ((j : ℕ) → j < n → m (str + j) ≢ 0)
    → res ≤ n
    → n < res + fuel
    → strlen_loop fuel str res m ≡ some n
unfolding strlen_loop
strlen_loop_first zero str res n m end before le lt = absurd (omega arith)
strlen_loop_first (suc fuel) str res n m end before le lt = elim (Bool-cases (res == n)) [
  | inl here ↦ ground arith
  | inr later ↦ ground (
    arith,
    before res,
    strlen_loop_first fuel str (res + 1) n m end before (ground arith) (omega arith),
  )
]

-- `strlen` is the number of bytes before the first zero byte.
pub strlen_first :
    (fuel str n : ℕ) (m : Bytes)
    → m (str + n) ≡ 0
    → ((j : ℕ) → j < n → m (str + j) ≢ 0)
    → n < fuel
    → strlen fuel str m ≡ some n
unfolding strlen
strlen_first fuel str n m end before lt =
    strlen_loop_first fuel str 0 n m end before (omega arith) (omega arith)
