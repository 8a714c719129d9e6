-- ===== src/Wire/Alignment.antt =====
-- src/include/X11ProtocolParser.hpp, `Alignment`, and src/include/protocol/Message.hpp.
use xtracepp.Base.{ℕ, ◌+◌, ◌-◌, ◌*◌, ◌/◌, ◌%◌, ◌≤◌, ◌<◌, ◌≡◌, arith, add_size, size_mod}

abbrev pub align : ℕ
align = 4

unfoldable pub pad : ℕ → ℕ
pad sz = add_size sz ((align - sz % align) % align)

unfoldable pub units : ℕ → ℕ
unfolding pad
units sz = pad sz / align

-- `Alignment::size`.
unfoldable pub aligned_size : ℕ → ℕ
aligned_size units_ = units_ * align % size_mod

-- `pad` gives the least multiple of four from `sz` on.
pub pad_least :
    (sz : ℕ)
    → sz + align ≤ size_mod
    → (pad sz % align ≡ 0) × (sz ≤ pad sz) × ((k : ℕ) → k % align ≡ 0 → sz ≤ k → pad sz ≤ k)
unfolding pad add_size
pad_least sz h = (omega arith, omega arith, λ k e le. omega arith)

pub pad-lt : (sz : ℕ) → sz + align ≤ size_mod → pad sz < sz + align
unfolding pad add_size
pad-lt sz h = omega arith

-- Lengths go out in units of four bytes and come back as the padded length.
pub aligned_size-units : (sz : ℕ) → sz + align ≤ size_mod → aligned_size (units sz) ≡ pad sz
unfolding aligned_size units pad add_size
aligned_size-units sz h = omega arith

pub aligned_size_exact : (n : ℕ) → n * align < size_mod → aligned_size n ≡ n * align
unfolding aligned_size
aligned_size_exact n h = omega arith
