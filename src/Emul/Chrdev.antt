-- ===== src/Emul/Chrdev.antt =====
-- `alloc_chrdev_region` of src/drivers/nic/fec/lx_emul.c: device numbers from a counter.
use genode_imx.Base.{ℕ, ℤ, pos, zero, suc, ◌+◌, ◌%◌, ◌^◌, ◌≡◌, ◌≢◌, ◌<◌, arith}

-- The static counter, a `dev_t`, counts modulo 2^32; the result comes with the number handed out.
pub alloc_chrdev_region : ℕ → ℤ × ℕ × ℕ
alloc_chrdev_region counter = (pos 0, counter, (counter + 1) % 2 ^ 32)

-- The number that the call after `n` others hands out.
pub number_after : ℕ → ℕ → ℕ
number_after zero counter = (alloc_chrdev_region counter).1
number_after (suc n) counter = number_after n (alloc_chrdev_region counter).2

number_after-mod :
    (n counter : ℕ) → counter < 2 ^ 32 → number_after n counter ≡ (counter + n) % 2 ^ 32
unfolding number_after alloc_chrdev_region
number_after-mod zero counter h = omega arith
number_after-mod (suc n) counter h =
    omega (arith, number_after-mod n ((counter + 1) % 2 ^ 32) (omega arith))

-- Two calls hand out different numbers as long as fewer than 2^32 calls lie between them.
pub alloc_chrdev_region-distinct :
    (i d counter : ℕ)
    → counter < 2 ^ 32
    → d + 1 < 2 ^ 32
    → number_after i counter ≢ number_after (i + suc d) counter
alloc_chrdev_region-distinct i d counter h few =
    omega (arith, number_after-mod i counter h, number_after-mod (i + suc d) counter h)
