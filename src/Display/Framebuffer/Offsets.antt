-- ===== src/Display/Framebuffer/Offsets.antt =====
-- The arithmetic of the offsets in kernel/src/framebuffer.rs.
use native.Mathlib.Nat.{mul-le-mul_right, add-mul}
use zoom_os.Prelude.{
  ℕ, suc, ◌+◌, ◌*◌, ◌≤◌, ◌<◌, ◌≡◌, ◌≢◌, ◌⊎◌, inl, inr, arith, ltb, ltb→lt, Bool-cases,
}

-- A row of `pitch` pixels ends before the next one starts, and inside a buffer of `rows` rows.
pub row-end : (y z pitch bpp : ℕ) → y < z → y * pitch * bpp + pitch * bpp ≤ z * pitch * bpp
row-end y z pitch bpp lt =
    let rows : suc y * pitch ≤ z * pitch = mul-le-mul_right pitch lt in
    let bytes : (y * pitch + pitch) * bpp ≤ z * pitch * bpp =
      mul-le-mul_right bpp (omega (arith, rows)) in
    omega (arith, bytes, add-mul (y * pitch) pitch bpp)

pub pixel-end :
    (x y width height bpp : ℕ)
    → x < width
    → y < height
    → (y * width + x) * bpp + bpp ≤ height * width * bpp
pixel-end x y width height bpp in_row in_column =
    let rows : suc y * width ≤ height * width = mul-le-mul_right width in_column in
    let bytes : (suc (y * width + x)) * bpp ≤ height * width * bpp =
      mul-le-mul_right bpp (omega (arith, rows)) in
    omega (arith, bytes)

-- A pixel of a row of `columns` pixels from the pixel `start` on.
pub pixel-in_row : (start u bpp i : ℕ) → start * bpp + (u * bpp + i) ≡ (start + u) * bpp + i
pixel-in_row start u bpp i = omega (arith, add-mul start u bpp)

-- A row of pixels ends before the next one starts.
pub area-row :
    (x y z columns width bpp : ℕ)
    → x + columns ≤ width
    → y < z
    → (y * width + x) * bpp + columns * bpp ≤ (z * width + x) * bpp
area-row x y z columns width bpp fits lt =
    let rows : suc y * width ≤ z * width = mul-le-mul_right width lt in
    let bytes : (y * width + x + columns) * bpp ≤ (z * width + x) * bpp =
      mul-le-mul_right bpp (omega (arith, rows, fits)) in
    omega (arith, bytes, add-mul (y * width + x) columns bpp)

pub area-end :
    (x y columns width height bpp : ℕ)
    → x + columns ≤ width
    → y < height
    → (y * width + x) * bpp + columns * bpp ≤ height * width * bpp
area-end x y columns width height bpp fits lt =
    let rows : suc y * width ≤ height * width = mul-le-mul_right width lt in
    let bytes : (y * width + x + columns) * bpp ≤ height * width * bpp =
      mul-le-mul_right bpp (omega (arith, rows, fits)) in
    omega (arith, bytes, add-mul (y * width + x) columns bpp)

-- A byte of a pixel before a run of pixels, and of one behind it.
pub pixel-before : (p start bpp i : ℕ) → p < start → i < bpp → p * bpp + i < start * bpp
pixel-before p start bpp i lt inside =
    let bytes : suc p * bpp ≤ start * bpp = mul-le-mul_right bpp lt in omega (arith, bytes, inside)

pub pixel-behind :
    (p start columns bpp i : ℕ) → start + columns ≤ p → start * bpp + columns * bpp ≤ p * bpp + i
pixel-behind p start columns bpp i le =
    let bytes : (start + columns) * bpp ≤ p * bpp = mul-le-mul_right bpp le in
    omega (arith, bytes, add-mul start columns bpp)

-- A pixel that is not in the columns or not in the row `z` lies before or behind that run.
pub pixel-apart :
    (u v x z columns width : ℕ)
    → u < width
    → x + columns ≤ width
    → (v ≢ z) ⊎ ((u < x) ⊎ (x + columns ≤ u))
    → (v * width + u < z * width + x) ⊎ (z * width + x + columns ≤ v * width + u)
pixel-apart u v x z columns width inside fits out = elim (Bool-cases (ltb v z)) [
  | inl above ↦
      let rows : suc v * width ≤ z * width = mul-le-mul_right width (ltb→lt v z above) in
      inl (omega (arith, rows, inside))
  | inr not_above ↦ elim (Bool-cases (ltb z v)) [
    | inl below ↦
        let rows : suc z * width ≤ v * width = mul-le-mul_right width (ltb→lt z v below) in
        inr (omega (arith, rows, fits))
    | inr not_below ↦
        let same : v ≡ z = ground arith in
        elim out [
          | inl differ ↦ absurd (differ same)
          | inr (inl left) ↦ inl (rw same (omega (arith, left)))
          | inr (inr right) ↦ inr (rw same (omega (arith, right)))
        ]
  ]
]
