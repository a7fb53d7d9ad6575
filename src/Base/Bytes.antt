-- ===== src/Base/Bytes.antt =====
-- Little-endian numbers as bytes, as `memcpy` of an integer lays them out on the program's
-- target, and stretches of memory.
use Prim.Native.Nat.{ℕ, zero, suc, ◌+◌, ◌-◌, ◌*◌, ◌/◌, ◌%◌, ◌^◌, ◌≤◌, ◌<◌}
use mathlib.Core.Path.{◌≡◌, refl, sym, ap, ◌∙◌}
use mathlib.Core.List.{List, [], ◌∷◌, ◌++◌, append-nil}
use native.Mathlib.Omega.{arith}
use native.Mathlib.Nat.{pow-suc, min-eq_left, min_comm}
use mathlib.Core.Logic.{inl, inr}
use echo_frame.Base.Tests.{leb, leb→le, not_leb→lt, Bool-cases}
use echo_frame.Base.Lists.{
  length, take, drop, length-append, length-take, length-drop, take-append_ge, take-append_le,
  take_all, drop-append_le, drop-take, take-take, drop-drop,
}

-- The `w` low bytes of `n`, the lowest first.
unfoldable pub to_bytes : ℕ → ℕ → List ℕ
to_bytes zero n = []
to_bytes (suc w) n = n % 256 ∷ to_bytes w (n / 256)

unfoldable pub of_bytes : List ℕ → ℕ
of_bytes [] = 0
of_bytes (b ∷ bs) = b + 256 * of_bytes bs

pub length-to_bytes : (w n : ℕ) → length (to_bytes w n) ≡ w
unfolding to_bytes
length-to_bytes zero n = refl
length-to_bytes (suc w) n = ap suc (length-to_bytes w (n / 256))

-- Reading back what was written gives the number, if it fits.
pub of_bytes-to_bytes : (w n : ℕ) → n < 256 ^ w → of_bytes (to_bytes w n) ≡ n
unfolding to_bytes of_bytes
of_bytes-to_bytes zero n h = omega arith
of_bytes-to_bytes (suc w) n h =
    omega (arith, of_bytes-to_bytes w (n / 256) (omega (arith, ap (λ (k : ℕ). k) (pow-suc 256 w))))

-- `memcpy` of `src` into a stretch of memory at an offset inside it.
abbrev pub splice : ℕ → List ℕ → List ℕ → List ℕ
splice off src mem = take off mem ++ (src ++ drop (off + length src) mem)

pub length-splice :
    (off : ℕ) (src mem : List ℕ)
    → off + length src ≤ length mem
    → length (splice off src mem) ≡ length mem
length-splice off src mem h =
    length-append (take off mem) (src ++ drop (off + length src) mem)
    ∙ omega (
      arith,
      length-append src (drop (off + length src) mem),
      length-take off mem,
      length-drop (off + length src) mem,
    )

gap : (r w : ℕ) → r ≤ w → r + (w - r) ≡ w
gap r w h = omega arith

-- Writing at the end of a window extends the window by what was written.
pub window-splice :
    (r w : ℕ) (src mem : List ℕ)
    → r ≤ w
    → w + length src ≤ length mem
    → take (w + length src - r) (drop r (splice w src mem)) ≡ take (w - r) (drop r mem) ++ src
window-splice r w src mem h k =
    rw (drop-append_le r (take w mem) tail (omega (arith, length-take w mem)), front)
      (rw (take-append_ge (w + length src - r) held tail (omega (arith, lh)))
        (ap (◌++◌ held) written))
  where
    tail : List ℕ
    tail = src ++ drop (w + length src) mem

    held : List ℕ
    held = take (w - r) (drop r mem)

    lh : length held ≡ w - r
    lh = omega (arith, length-take (w - r) (drop r mem), length-drop r mem)

    front : drop r (take w mem) ≡ held
    front = rw (← ap (λ k. drop r (take k mem)) (gap r w h)) (drop-take r (w - r) mem)

    written : take (w + length src - r - length held) tail ≡ src
    written =
        take-append_le (w + length src - r - length held) src (drop (w + length src) mem)
          (omega (arith, lh))
        ∙ take_all (w + length src - r - length held) src (omega (arith, lh))

-- Reading from the front of a window and moving past it.
pub window_front :
    (r w k : ℕ) (mem : List ℕ)
    → k ≤ w - r
    → take k (drop r mem) ≡ take k (take (w - r) (drop r mem))
window_front r w k mem h =
    ap (λ n. take n (drop r mem)) (sym (min-eq_left h)) ∙ sym (take-take k (w - r) (drop r mem))

pub window_rest :
    (r w k : ℕ) (mem : List ℕ)
    → k ≤ w - r
    → take (w - (r + k)) (drop (r + k) mem) ≡ drop k (take (w - r) (drop r mem))
window_rest r w k mem h =
    rw (← drop-drop k r mem, ← drop-take k (w - (r + k)) (drop r mem))
      (ap (λ n. drop k (take n (drop r mem))) (omega arith))

-- A window over the first `k` bytes of one memory followed by another: the window's bytes below
-- `k`, and those of the other memory above.
module _ (r w k : ℕ) (mem other : List ℕ) (h : r ≤ k) (le : k ≤ length mem) where
  below : List ℕ
  below = take (k - r) (drop r mem)

  below_eq : drop r (take k mem) ≡ take (k - r) (drop r mem)
  below_eq = rw (← ap (λ n. drop r (take n mem)) (gap r k h)) (drop-take r (k - r) mem)

  pub window_join :
      take (w - r) (drop r (take k mem ++ other))
      ≡ take (k - r) (take (w - r) (drop r mem)) ++ take (w - k) other
  unfolding below
  window_join =
      rw (drop-append_le r (take k mem) other (omega (arith, length-take k mem)), below_eq)
        (elim (Bool-cases (leb w k)) [
          | inl e ↦
              let low : w ≤ k = leb→le w k e in
              let none_above : w - k ≡ 0 = omega arith in
              take-append_le (w - r) below other
                (omega (arith, length-take (k - r) (drop r mem), length-drop r mem))
              ∙ take-take (w - r) (k - r) (drop r mem)
              ∙ rw (
                ap (λ n. take n other) none_above,
                append-nil,
                take-take (k - r) (w - r) (drop r mem),
                min_comm (k - r) (w - r),
              )
          | inr e ↦
              let high : k < w = not_leb→lt w k e in
              let above : w - r - length below ≡ w - k =
                omega (arith, length-take (k - r) (drop r mem), length-drop r mem) in
              take-append_ge (w - r) below other
                (omega (arith, length-take (k - r) (drop r mem), length-drop r mem))
              ∙ rw
                  (
                    take-take (k - r) (w - r) (drop r mem),
                    min-eq_left {n = k - r} {m = w - r} (omega arith),
                  )
                  (ap (λ n. below ++ take n other) above)
        ])
