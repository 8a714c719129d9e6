-- ===== src/Buffer/Bytes.antt =====
-- SocketBuffer: what a write into the vector and a larger vector leave of its bytes.
use xtracepp.Base.{
  ℕ, ◌+◌, ◌-◌, ◌≤◌, ◌≡◌, sym, ap, ◌∙◌, List, ◌++◌, arith, length, take, drop, replicate,
  length-append, length-take, length-drop, length-replicate, drop-append_le, take-append_length,
  take_all, take-append-drop, drop-drop, drop-take, append_assoc,
}
use xtracepp.Buffer.{resize, blit}

pub length-resize : (st : List ℕ) (n : ℕ) → length (resize st n) ≡ n
unfolding resize
length-resize st n = omega (
  arith,
  length-append (take n st) (replicate (n - length st) 0),
  length-take n st,
  length-replicate {A = ℕ} (n - length st) 0,
)

-- A vector that grows keeps its bytes.
pub resize_grows :
    (st : List ℕ) (n : ℕ) → length st ≤ n → resize st n ≡ st ++ replicate (n - length st) 0
unfolding resize
resize_grows st n h = rw (take_all n st h)

pub length-blit :
    (st : List ℕ) (off : ℕ) (bytes : List ℕ)
    → off + length bytes ≤ length st
    → length (blit st off bytes) ≡ length st
unfolding blit
length-blit st off bytes h = omega (
  arith,
  length-append (take off st) (bytes ++ drop (off + length bytes) st),
  length-append bytes (drop (off + length bytes) st),
  length-take off st,
  length-drop (off + length bytes) st,
)

-- The bytes from `lo` to `off` and those that are written at `off` stand side by side.
pub slice-blit :
    (st : List ℕ) (lo off : ℕ) (bytes : List ℕ)
    → lo ≤ off
    → off ≤ length st
    → take (off + length bytes - lo) (drop lo (blit st off bytes))
      ≡ take (off - lo) (drop lo st) ++ bytes
unfolding blit
slice-blit st lo off bytes h k =
    let front : List ℕ = take off st in
    let rest : List ℕ = drop (off + length bytes) st in
    let kept : List ℕ = take (off - lo) (drop lo st) in
    let front_length : length front ≡ off = omega (arith, length-take off st) in
    let kept_length : length kept ≡ off - lo =
      omega (arith, length-take (off - lo) (drop lo st), length-drop lo st) in
    ap (λ (t : List ℕ). take (off + length bytes - lo) t)
      (drop-append_le lo front (bytes ++ rest) (omega arith)
        ∙ ap (λ (t : List ℕ). t ++ (bytes ++ rest)) (drop-take lo (off - lo) off st (omega arith))
        ∙ sym (append_assoc kept bytes rest))
    ∙ ap (λ (t : ℕ). take t ((kept ++ bytes) ++ rest)) (omega (arith, length-append kept bytes))
    ∙ take-append_length (kept ++ bytes) rest

-- Bytes that are written back where they came from change nothing.
pub blit_same :
    (st : List ℕ) (off n : ℕ) → off + n ≤ length st → blit st off (take n (drop off st)) ≡ st
unfolding blit
blit_same st off n h =
    let bytes : List ℕ = take n (drop off st) in
    let bytes_length : length bytes ≡ n =
      omega (arith, length-take n (drop off st), length-drop off st) in
    ap (λ (t : List ℕ). take off st ++ (bytes ++ t))
      (sym (drop-drop off n (off + length bytes) st (omega arith)))
    ∙ ap (λ (t : List ℕ). take off st ++ t) (take-append-drop n (drop off st))
    ∙ take-append-drop off st
